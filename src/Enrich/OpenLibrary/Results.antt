-- ===== src/Enrich/OpenLibrary/Results.antt =====
-- What `Search` of internal/enrich/openlibrary.go offers, and what it costs.
use book_guard_api.Base.{
  ℕ, ℤ, ◌+◌, ◌≤◌, ◌≡◌, refl, ap, ◌⊎◌, inl, inr, false, List, [], ◌∷◌, Text, is_empty, nat_eq,
  CaseTable, byte_length, trim_space, All, Result, ok, err, Bool-cases, arith,
}
use book_guard_api.Books.Isbn.{canonical_isbn}
use book_guard_api.Enrich.Provider.{SearchResult}
use book_guard_api.Enrich.Network.{Network, Fetched, http_get_with_retry}
use book_guard_api.Enrich.Network.Attempts.{CountsCalls, http_get_with_retry_lem}
use book_guard_api.Enrich.OpenLibrary.{
  OlDecoder, OlDoc, OpenLibrary, pick_isbn, results_of, decoded_search, after_search, search_url,
  search_limit, ol_search, user_agent,
}
use book_guard_api.Enrich.OpenLibrary.Pick.{IsPick, pick_isbn-IsPick}

-- An ISBN that POST /books stores as it stands, or a text of ten bytes.
abbrev pub IsOffer : CaseTable → SearchResult → Type 0
IsOffer table r = (canonical_isbn table r.isbn ≡ ok r.isbn) ⊎ (byte_length r.isbn ≡ 10)

filled_pick-IsOffer :
    (table : CaseTable) (t : Text)
    → is_empty t ≡ false
    → IsPick table t
    → (canonical_isbn table t ≡ ok t) ⊎ (byte_length t ≡ 10)
filled_pick-IsOffer table t filled (inl good) = inl good
filled_pick-IsOffer table t filled (inr (inl ten)) = inr ten
filled_pick-IsOffer table t filled (inr (inr none_left)) =
    absurd (ground (arith, filled, none_left))

results_of-All :
    (table : CaseTable) (docs : List OlDoc) → All (IsOffer table) (results_of table docs)
unfolding results_of
results_of-All table [] = tt
results_of-All table (doc ∷ docs) = elim (Bool-cases (is_empty (pick_isbn table doc.isbn))) [
  | inl bare ↦ rw bare (results_of-All table docs)
  | inr filled ↦ rw filled (
    filled_pick-IsOffer table (pick_isbn table doc.isbn) filled (pick_isbn-IsPick table doc.isbn),
    results_of-All table docs,
  )
]

decoded_search-All :
    (table : CaseTable) (r : Result Text (List OlDoc)) (found : List SearchResult)
    → decoded_search table r ≡ ok found
    → All (IsOffer table) found
decoded_search-All table (err e) found h = cc
decoded_search-All table (ok docs) found h =
    let e : results_of table docs ≡ found = ground (arith, h) in
    rw (← e) (results_of-All table docs)

module _ {W : Type 0} (net : Network W) (decoder : OlDecoder) (p : OpenLibrary) where
  after_search-All :
      (table : CaseTable) (r : Fetched W) (found : List SearchResult)
      → (after_search net decoder p table r).0 ≡ ok found
      → All (IsOffer table) found
  after_search-All table (err e, w) found h = cc
  after_search-All table (ok resp, w) found h = elim (Bool-cases (nat_eq resp.status 200)) [
    | inl good ↦ decoded_search-All table (decoder.decode_search resp.body) found (rw good at h)
    | inr bad ↦ absurd (cc (rw bad at h))
  ]

  after_search-world :
      (table : CaseTable) (r : Fetched W) → (after_search net decoder p table r).1 ≡ r.1
  after_search-world table (err e, w) = refl
  after_search-world table (ok resp, w) = refl

  -- A search asks upstream at most three times, and not at all for a blank query. Every result
  -- that it gives has an ISBN that is its own canonical form, or one of ten bytes.
  pub ol_search_lem :
      (calls : W → ℕ)
      → CountsCalls net calls
      → (table : CaseTable) (query : Text) (limit : ℤ) (w w' : W) (found : List SearchResult)
      → ol_search net decoder p table query limit w ≡ (ok found, w')
      → All (IsOffer table) found
        × (calls w' ≤ calls w + 3)
        × ((is_empty (trim_space query) ≡ false) ⊎ (w' ≡ w))
  unfolding ol_search
  ol_search_lem calls counts table query limit w w' found h =
      elim (Bool-cases (is_empty (trim_space query))) [
        | inl blank ↦
            let e : found ≡ [] = ground (arith, blank, h) in
            let same : w' ≡ w = ground (arith, blank, h) in
            (rw e tt, rw same (omega arith), inr same)
        | inr asked ↦
            let sent =
              http_get_with_retry net
                (search_url net decoder p (trim_space query) (search_limit limit)) user_agent w in
            let answered : after_search net decoder p table sent ≡ (ok found, w') = rw asked at h in
            let few =
              (http_get_with_retry_lem net calls counts
                (search_url net decoder p (trim_space query) (search_limit limit)) user_agent
                w).0 in
            let there : sent.1 ≡ w' = ground (arith, answered, after_search-world table sent) in
            (
              after_search-All table sent found (ap (λ a. a.0) answered),
              omega (arith, few, ap calls there),
              inl asked,
            )
      ]
