-- ===== src/Books/Memory/Pending.antt =====
-- `PendingEnrichment` of internal/books/store_memory.go: which editions a sweep finds.
use book_guard_api.Base.{
  All-of_In, ◌≤◌, ◌≡◌, ◌↔◌, ◌∙◌, sym, ◌⊎◌, inl, inr, true, false, List, [], ◌∷◌, some, none, Text,
  text_lt, eq_iff, Map, lookup, IsDistinct, lookup-cons_self, lookup-cons_later, In, All, length,
  take, length-take, Bool-cases, arith, ℤ, pos, negsuc, to_nat, ltb_ℤ, sort_texts, IsSorted,
  IsNodup, In-sort_texts, sort_texts-IsSorted, sorted_ext, take-cut, In-take, take-IsSorted,
}
use book_guard_api.Books.Memory.{MemEdition, MemoryStore}
use book_guard_api.Books.Memory.Editions.{needs_work, collect_pending, pending_enrichment}

-- An edition whose enrichment is pending or has failed.
abbrev pub Waiting : Map MemEdition → Text → Type 0
Waiting m isbn = (e : MemEdition) × (lookup isbn m ≡ some e) × (needs_work e.status ≡ true)

Waiting-cons :
    (j isbn : Text) (c : MemEdition) (m : Map MemEdition)
    → lookup j m ≡ none
    → Waiting m isbn
    → Waiting ((j, c) ∷ m) isbn
Waiting-cons j isbn c m fresh (e, stored, waits) =
    (e, lookup-cons_later j isbn c e m fresh stored, waits)

collected-Waiting :
    (m : Map MemEdition) (isbn : Text) → IsDistinct m → In isbn (collect_pending m) → Waiting m isbn
unfolding collect_pending
collected-Waiting [] isbn d i = absurd i
collected-Waiting ((j, c) ∷ m) isbn d i = elim (Bool-cases (needs_work c.status)) [
  | inl waits ↦ elim (rw waits at i) as (λ _. Waiting ((j, c) ∷ m) isbn) [
    | inl same ↦ rw same (c, lookup-cons_self j c m, waits)
    | inr later ↦ Waiting-cons j isbn c m d.0 (collected-Waiting m isbn d.1 later)
  ]
  | inr done ↦ Waiting-cons j isbn c m d.0 (collected-Waiting m isbn d.1 (rw done at i))
]

Waiting-collected :
    (m : Map MemEdition) (isbn : Text) (e : MemEdition)
    → lookup isbn m ≡ some e
    → needs_work e.status ≡ true
    → In isbn (collect_pending m)
unfolding collect_pending lookup
Waiting-collected [] isbn e stored waits = cc
Waiting-collected ((j, c) ∷ m) isbn e stored waits =
    ground (arith, eq_iff j isbn, Waiting-collected m isbn e)

collect_pending-IsNodup : (m : Map MemEdition) → IsDistinct m → IsNodup (collect_pending m)
unfolding collect_pending
collect_pending-IsNodup [] d = tt
collect_pending-IsNodup ((j, c) ∷ m) d = elim (Bool-cases (needs_work c.status)) [
  | inl waits ↦ rw waits (
    λ i. let (e, stored, _) = collected-Waiting m j d.1 i in cc (d.0, stored),
    collect_pending-IsNodup m d.1,
  )
  | inr done ↦ rw done (collect_pending-IsNodup m d.1)
]

-- All that a sweep without a limit finds.
abbrev pub all_pending : MemoryStore → List Text
all_pending s = sort_texts (collect_pending s.editions)

pub all_pending-IsSorted : (s : MemoryStore) → IsDistinct s.editions → IsSorted (all_pending s)
all_pending-IsSorted s d =
    sort_texts-IsSorted (collect_pending s.editions) (collect_pending-IsNodup s.editions d)

pub In-all_pending :
    (s : MemoryStore) (isbn : Text)
    → IsDistinct s.editions
    → In isbn (all_pending s) ↔ Waiting s.editions isbn
In-all_pending s isbn d = (
  λ i. collected-Waiting s.editions isbn d ((In-sort_texts isbn (collect_pending s.editions)).0 i),
  λ (e, stored, waits).
      (In-sort_texts isbn (collect_pending s.editions)).1
        (Waiting-collected s.editions isbn e stored waits),
)

-- With a limit that is not positive, or not reached, nothing is cut.
limit_cases :
    (limit : ℤ) (s : MemoryStore)
    → (pending_enrichment limit s ≡ all_pending s)
        × ((ltb_ℤ (pos 0) limit ≡ false) ⊎ (length (all_pending s) ≤ to_nat limit))
      ⊎ (pending_enrichment limit s ≡ take (to_nat limit) (all_pending s))
        × (ltb_ℤ (pos 0) limit ≡ true)
unfolding pending_enrichment
limit_cases (pos n) s = ground arith
limit_cases (negsuc n) s = ground arith

module _ (limit : ℤ) (s : MemoryStore) (d : IsDistinct s.editions) where
  pub pending_enrichment_lem :
      let found = pending_enrichment limit s in
      IsSorted found
      × ((isbn : Text) → In isbn found → Waiting s.editions isbn)
      × (ltb_ℤ (pos 0) limit ≡ true → length found ≤ to_nat limit)
      × ((isbn : Text)
          → Waiting s.editions isbn
          → In isbn found
            ⊎ ((ltb_ℤ (pos 0) limit ≡ true)
                × (length found ≡ to_nat limit)
                × All (λ t. text_lt t isbn ≡ true) found))
  pending_enrichment_lem = elim (limit_cases limit s) [
    | inl (whole, small) ↦ rw whole (
      all_pending-IsSorted s d,
      λ isbn i. (In-all_pending s isbn d).0 i,
      λ h. ground (arith, h, small),
      λ isbn w. inl ((In-all_pending s isbn d).1 w),
    )
    | inr (cut, limited) ↦ rw cut (
      take-IsSorted (to_nat limit) (all_pending s) (all_pending-IsSorted s d),
      λ isbn i. (In-all_pending s isbn d).0 (In-take (to_nat limit) (all_pending s) isbn i),
      λ _. omega (arith, length-take (to_nat limit) (all_pending s)),
      λ isbn w.
          elim (take-cut (to_nat limit) (all_pending s) (all_pending-IsSorted s d) isbn
            ((In-all_pending s isbn d).1 w)) [
              | inl i ↦ inl i
              | inr (full, above) ↦ inr (limited, full, above)
            ],
    )
  ]

  -- A sweep returns ISBNs in increasing order, each of an edition that is pending or failed; with
  -- a positive limit there are at most that many.
  pub pending_enrichment-IsSorted :
      let found = pending_enrichment limit s in
      IsSorted found
      × All (Waiting s.editions) found
      × ((ltb_ℤ (pos 0) limit ≡ false) ⊎ (length found ≤ to_nat limit))
  pending_enrichment-IsSorted = (
    pending_enrichment_lem.0,
    All-of_In (Waiting s.editions) (pending_enrichment limit s) pending_enrichment_lem.1,
    elim (Bool-cases (ltb_ℤ (pos 0) limit)) [
      | inl limited ↦ inr (pending_enrichment_lem.2 limited)
      | inr free ↦ inl free
    ],
  )

  -- An edition that waits for enrichment is found by the sweep, or the limit is positive and there
  -- are as many ISBNs in the answer, all of which come before this one.
  pub Waiting-pending_enrichment :
      let found = pending_enrichment limit s in
      (isbn : Text)
      → Waiting s.editions isbn
      → In isbn found
        ⊎ ((ltb_ℤ (pos 0) limit ≡ true)
            × (length found ≡ to_nat limit)
            × All (λ t. text_lt t isbn ≡ true) found)
  Waiting-pending_enrichment = pending_enrichment_lem.3

-- The order in which the map is walked does not show: stores with the same editions, each under
-- one key, give the same answer.
pub pending_enrichment_order :
    (limit : ℤ) (s s' : MemoryStore)
    → IsDistinct s.editions
    → IsDistinct s'.editions
    → ((isbn : Text) → lookup isbn s.editions ≡ lookup isbn s'.editions)
    → pending_enrichment limit s ≡ pending_enrichment limit s'
unfolding pending_enrichment
pending_enrichment_order limit s s' d d' same = rw (
    sorted_ext (all_pending s) (all_pending s') (all_pending-IsSorted s d)
      (all_pending-IsSorted s' d')
      λ a. (
        λ i.
            let (e, stored, waits) = (In-all_pending s a d).0 i in
            (In-all_pending s' a d').1 (e, sym (same a) ∙ stored, waits),
        λ i.
            let (e, stored, waits) = (In-all_pending s' a d').0 i in
            (In-all_pending s a d).1 (e, same a ∙ stored, waits),
      ))
