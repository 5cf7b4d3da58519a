-- ===== src/Search/Answers.antt =====
-- What the search route of internal/search/handlers.go answers, with the cache and without.
use book_guard_api.Base.{
  ℕ, ℤ, ◌+◌, ◌≤◌, ◌≡◌, ◌≢◌, refl, ◌⊎◌, inl, inr, true, false, List, [], ◌∷◌, ◌++◌, map, Option,
  none, some, Text, codes, lookup, lookup-insert_self, Option-cases, ltb, trim_space, fields,
  fields_from, is_space, CaseTable, if◌then◌else◌, ok, err, arith,
}
use book_guard_api.Http.{http_error}
use book_guard_api.Auth.{Identity}
use book_guard_api.Enrich.Provider.{SearchResult}
use book_guard_api.Search.{
  SearchHit, Cache, CacheEntry, cache_ttl, cache_key, cached, put, make_room, SearchError,
  deadline_exceeded, other_error, to_hit, Clock, Searcher, is_stranger, search_editions,
}

-- For a minute from its storing a result is found again under every query with the same key, and
-- not after it.
cached-put :
    (table : CaseTable) (now stored_at later : ℕ) (query query' : Text) (limit limit' : ℤ)
    (hits : List SearchHit) (c : Cache)
    → cache_key table query limit ≡ cache_key table query' limit'
    → cached table later query' limit' (put table now stored_at query limit hits c)
      ≡ (if ltb (stored_at + cache_ttl) later then none else some hits)
unfolding cached put
cached-put table now stored_at later query query' limit limit' hits c same =
    let key = cache_key table query' limit' in
    let e : CacheEntry = record { hits = hits; expires_at = stored_at + cache_ttl } in
    rw (same, lookup-insert_self key e (make_room now c))

-- What is not found in the cache, missing or expired, is not found there later.
cached-later :
    (table : CaseTable) (now later : ℕ) (query query' : Text) (limit limit' : ℤ) (c : Cache)
    → cache_key table query limit ≡ cache_key table query' limit'
    → now ≤ later
    → cached table now query limit c ≡ none
    → cached table later query' limit' c ≡ none
unfolding cached
cached-later table now later query query' limit limit' c same after unknown =
    rw (← same) (elim (Option-cases (lookup (cache_key table query limit) c)) [
      | inl missing ↦ rw missing
      | inr (e, found) ↦ ground (arith, found, unknown, after)
    ])

-- A run of spaces counts as one in a query, whatever surrounds it.
fields_from-spaces :
    (word xs ys : Text) (c d : ℕ)
    → is_space c ≡ true
    → is_space d ≡ true
    → fields_from word (xs ++ (c ∷ d ∷ ys)) ≡ fields_from word (xs ++ (c ∷ ys))
unfolding fields_from
fields_from-spaces word [] ys c d hc hd = rw (hc, hd)
fields_from-spaces word (x ∷ xs) ys c d hc hd =
    rw
      (fields_from-spaces [] xs ys c d hc hd, fields_from-spaces (word ++ (x ∷ [])) xs ys c d hc hd)

-- A query with two spaces, of whatever kind, where another has the first of them only, has the
-- same cache key.
pub cache_key-spaces :
    (table : CaseTable) (xs ys : Text) (c d : ℕ) (limit : ℤ)
    → is_space c ≡ true
    → is_space d ≡ true
    → cache_key table (xs ++ (c ∷ d ∷ ys)) limit ≡ cache_key table (xs ++ (c ∷ ys)) limit
unfolding cache_key fields
cache_key-spaces table xs ys c d limit hc hd = rw (fields_from-spaces [] xs ys c d hc hd)

module _ {W : Type 0} (table : CaseTable) (searcher : Searcher W) (who : Option Identity)
    (known : is_stranger who ≡ false) where
  -- A search that goes upstream and succeeds answers with what was found, and for a minute every
  -- caller who asks with the same cache key gets the same answer without another call upstream.
  pub search_editions-again :
      (clock clock' : Clock) (who' : Option Identity) (q q' : Text) (limit limit' : ℤ) (c : Cache)
      (w w' : W) (found : List SearchResult)
      → cached table clock.looked_up (trim_space q) limit c ≡ none
      → searcher (trim_space q) limit w ≡ (ok found, w')
      → is_stranger who' ≡ false
      → cache_key table (trim_space q) limit ≡ cache_key table (trim_space q') limit'
      → clock'.looked_up ≤ clock.stored + cache_ttl
      → let (answer, (c', after)) =
          search_editions table clock (some searcher) who q limit (c, w) in
        (answer ≡ ok (map to_hit found))
        × (after ≡ w')
        × (search_editions table clock' (some searcher) who' q' limit' (c', after)
            ≡ (answer, (c', after)))
  unfolding search_editions
  search_editions-again clock clock' who' q q' limit limit' c w w' found unknown upstream known'
        same soon =
      let query = trim_space q in
      let hits = map to_hit found in
      let again =
        cached-put table clock.swept clock.stored clock'.looked_up query (trim_space q') limit
          limit' hits c same in
      let fresh : ltb (clock.stored + cache_ttl) clock'.looked_up ≡ false = ground arith in
      rw (known, unknown, upstream, known') (refl, refl, rw (again, fresh))

  -- A search of a signed-in caller that is not in the cache and fails upstream answers 504 for the
  -- deadline and 502 for anything else, and the failure is not remembered: the next request of a
  -- signed-in caller with the same cache key, made no earlier, asks upstream again, and if that
  -- succeeds it answers with what is found.
  pub search_editions-retry :
      (clock clock' : Clock) (who' : Option Identity) (q q' : Text) (limit limit' : ℤ) (c : Cache)
      (w w' w'' : W) (e : SearchError) (found : List SearchResult)
      → cached table clock.looked_up (trim_space q) limit c ≡ none
      → searcher (trim_space q) limit w ≡ (err e, w')
      → is_stranger who' ≡ false
      → cache_key table (trim_space q) limit ≡ cache_key table (trim_space q') limit'
      → clock.looked_up ≤ clock'.looked_up
      → searcher (trim_space q') limit' w' ≡ (ok found, w'')
      → let (answer, (c', after)) =
          search_editions table clock (some searcher) who q limit (c, w) in
        let (answer', (c'', after')) =
          search_editions table clock' (some searcher) who' q' limit' (c', after) in
        (((answer ≡ err (http_error 504 (codes "search timed out"))) × (e ≡ deadline_exceeded))
          ⊎ ((answer ≡ err (http_error 502 (codes "search provider unavailable")))
              × (e ≢ deadline_exceeded)))
        × (answer' ≡ ok (map to_hit found))
        × (after' ≡ w'')
  unfolding search_editions
  search_editions-retry clock clock' who' q q' limit limit' c w w' w'' deadline_exceeded found
        unknown upstream known' same later again =
      let still =
        cached-later table clock.looked_up clock'.looked_up (trim_space q) (trim_space q') limit
          limit' c same later unknown in
      rw (known, unknown, upstream, known', still, again) (inl (refl, refl), refl, refl)
  search_editions-retry clock clock' who' q q' limit limit' c w w' w'' (other_error m) found unknown
        upstream known' same later again =
      let still =
        cached-later table clock.looked_up clock'.looked_up (trim_space q) (trim_space q') limit
          limit' c same later unknown in
      rw (known, unknown, upstream, known', still, again)
        (inr (refl, λ h. absurd (cc h)), refl, refl)
