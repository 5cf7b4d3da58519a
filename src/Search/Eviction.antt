-- ===== src/Search/Eviction.antt =====
-- The loop of `put` in internal/search/handlers.go: what stays in the cache, and what it remembers.
use book_guard_api.Base.{
  ℕ, suc, ◌≤◌, ◌<◌, ◌≡◌, refl, sym, ap, ◌∙◌, subst, ◌⊎◌, inl, inr, Bool, true, false, ◌||◌, [], ◌∷◌,
  Text, ◌==◌, eq_refl, is_empty, insert, erase, ltb, leb, nat_eq, length, if◌then◌else◌, Bool-cases,
  arith,
}
use book_guard_api.Search.{CacheEntry, Cache, is_expired, drop_expired, older, oldest, evict}

-- One key to an entry that is not "", and expiry times that are not the zero time.
abbrev pub IsSound : Cache → Type 0
IsSound [] = Unit
IsSound ((key, e) ∷ c) = (is_empty key ≡ false) × (1 ≤ e.expires_at) × IsSound c

pub length-insert :
    (key : Text) (e : CacheEntry) (c : Cache) → length (insert key e c) ≤ suc (length c)
unfolding insert
length-insert key e [] = omega arith
length-insert key e ((own, old) ∷ c) = ground (arith, length-insert key e c)

pub insert-IsSound :
    (key : Text) (e : CacheEntry) (c : Cache)
    → is_empty key ≡ false
    → 1 ≤ e.expires_at
    → IsSound c
    → IsSound (insert key e c)
unfolding insert
insert-IsSound key e [] filled late s = (filled, late, tt)
insert-IsSound key e ((own, old) ∷ c) filled late s =
    ground (arith, insert-IsSound key e c filled late s.2)

erase-IsSound : (key : Text) (c : Cache) → IsSound c → IsSound (erase key c)
unfolding erase
erase-IsSound key [] s = tt
erase-IsSound key ((own, old) ∷ c) s = ground (arith, erase-IsSound key c s.2)

pub drop_expired-IsSound : (now : ℕ) (c : Cache) → IsSound c → IsSound (drop_expired now c)
unfolding drop_expired
drop_expired-IsSound now [] s = tt
drop_expired-IsSound now ((key, e) ∷ c) s = ground (arith, drop_expired-IsSound now c s.2)

length-drop_expired : (now : ℕ) (c : Cache) → length (drop_expired now c) ≤ length c
unfolding drop_expired
length-drop_expired now [] = omega arith
length-drop_expired now ((key, e) ∷ c) = ground (arith, length-drop_expired now c)

-- Whether a key is in the cache.
abbrev has : Text → Cache → Bool
has key [] = false
has key ((own, e) ∷ c) = if own == key then true else has key c

has-cons :
    (key own : Text) (e : CacheEntry) (c : Cache) → has key c ≡ true → has key ((own, e) ∷ c) ≡ true
has-cons key own e c h = elim (Bool-cases (own == key)) [ inl hit ↦ rw hit | inr miss ↦ rw miss h ]

has-cons_self : (key : Text) (e : CacheEntry) (c : Cache) → has key ((key, e) ∷ c) ≡ true
has-cons_self key e c = rw (eq_refl key)

length-erase : (key : Text) (c : Cache) → length (erase key c) ≤ length c
unfolding erase
length-erase key [] = omega arith
length-erase key ((own, e) ∷ c) = ground (arith, length-erase key c)

length-erase_present : (key : Text) (c : Cache) → has key c ≡ true → length (erase key c) < length c
unfolding erase
length-erase_present key [] h = ground arith
length-erase_present key ((own, e) ∷ c) h =
    ground (arith, length-erase_present key c, length-erase key c)

keep_or_later :
    (key : Text) (e : CacheEntry) (c : Cache) (found : Text × ℕ) (k : Text) (now : ℕ)
    → (k ≡ found.0) ⊎ (has k (drop_expired now c) ≡ true)
    → (k ≡ found.0) ⊎ (has k ((key, e) ∷ drop_expired now c) ≡ true)
keep_or_later key e c found k now (inl same) = inl same
keep_or_later key e c found k now (inr later) = inr (has-cons k key e (drop_expired now c) later)

here_or_later :
    (key : Text) (e : CacheEntry) (c : Cache) (k : Text) (now : ℕ)
    → (k ≡ key) ⊎ (has k (drop_expired now c) ≡ true)
    → has k ((key, e) ∷ drop_expired now c) ≡ true
here_or_later key e c k now (inl same) =
    subst (λ j. has j ((key, e) ∷ drop_expired now c) ≡ true) (sym same)
      (has-cons_self key e (drop_expired now c))
here_or_later key e c k now (inr later) = has-cons k key e (drop_expired now c) later

-- One round of the loop, on an entry that stays.
oldest_live :
    (now : ℕ) (key : Text) (e : CacheEntry) (c : Cache) (found : Text × ℕ)
    → is_expired now e ≡ false
    → (oldest now ((key, e) ∷ c) found ≡ oldest now c (older key e found))
      × (drop_expired now ((key, e) ∷ c) ≡ (key, e) ∷ drop_expired now c)
unfolding oldest drop_expired
oldest_live now key e c found live = (rw (live, oldest), rw (live, drop_expired))

oldest_expired :
    (now : ℕ) (key : Text) (e : CacheEntry) (c : Cache) (found : Text × ℕ)
    → is_expired now e ≡ true
    → (oldest now ((key, e) ∷ c) found ≡ oldest now c found)
      × (drop_expired now ((key, e) ∷ c) ≡ drop_expired now c)
unfolding oldest drop_expired
oldest_expired now key e c found dead = (rw (dead, oldest), rw (dead, drop_expired))

older_cases :
    (key : Text) (e : CacheEntry) (found : Text × ℕ)
    → (older key e found ≡ (key, e.expires_at)) ⊎ (older key e found ≡ found)
older_cases key e (k, t) = elim (Bool-cases (nat_eq t 0 || ltb e.expires_at t)) [
  | inl first ↦ inl (rw first)
  | inr second ↦ inr (rw second)
]

-- The key that the loop remembers is the one that it began with, or one that has not expired.
oldest-has :
    (now : ℕ) (c : Cache) (found : Text × ℕ)
    → ((oldest now c found).0 ≡ found.0) ⊎ (has (oldest now c found).0 (drop_expired now c) ≡ true)
oldest-has now [] found = inl (unfold oldest in refl)
oldest-has now ((key, e) ∷ c) found = elim (Bool-cases (is_expired now e)) [
  | inl dead ↦
      let (step, kept) = oldest_expired now key e c found dead in
      rw (step, kept) (oldest-has now c found)
  | inr live ↦
      let (step, kept) = oldest_live now key e c found live in
      elim (older_cases key e found) [
        | inl first ↦
            let past = step ∙ ap (oldest now c) first in
            rw (past, kept)
              (inr (
                here_or_later key e c (oldest now c (key, e.expires_at)).0 now
                  (oldest-has now c (key, e.expires_at))))
        | inr second ↦
            let past = step ∙ ap (oldest now c) second in
            rw (past, kept)
              (keep_or_later key e c found (oldest now c found).0 now (oldest-has now c found))
      ]
]

oldest-filled :
    (now : ℕ) (c : Cache) (found : Text × ℕ)
    → IsSound c
    → is_empty found.0 ≡ false
    → is_empty (oldest now c found).0 ≡ false
unfolding oldest
oldest-filled now [] found s h = h
oldest-filled now ((key, e) ∷ c) (k, t) s h = elim (Bool-cases (is_expired now e)) [
  | inl dead ↦ rw (dead, oldest) (oldest-filled now c (k, t) s.2 h)
  | inr live ↦ elim (Bool-cases (nat_eq t 0 || ltb e.expires_at t)) [
    | inl first ↦ rw (live, first, oldest) (oldest-filled now c (key, e.expires_at) s.2 s.0)
    | inr second ↦ rw (live, second, oldest) (oldest-filled now c (k, t) s.2 h)
  ]
]

-- If anything is left, the loop has remembered a key.
oldest-found :
    (now : ℕ) (c : Cache)
    → IsSound c
    → 1 ≤ length (drop_expired now c)
    → is_empty (oldest now c ([], 0)).0 ≡ false
unfolding oldest drop_expired
oldest-found now [] s h = absurd (omega arith)
oldest-found now ((key, e) ∷ c) s h = elim (Bool-cases (is_expired now e)) [
  | inl dead ↦ rw (dead, oldest) (oldest-found now c s.2 (rw dead at h))
  | inr live ↦ rw (live, oldest) (oldest-filled now c (key, e.expires_at) s.2 s.0)
]

-- The oldest entry goes if the cache is full.
pub evict_fits :
    (now : ℕ) (c : Cache)
    → IsSound c
    → length c ≤ 256
    → length (evict (oldest now c ([], 0)).0 (drop_expired now c)) ≤ 255
unfolding evict
evict_fits now c s h = elim (Bool-cases (leb 256 (length (drop_expired now c)))) [
  | inr room ↦ rw room (ground (arith, room))
  | inl full ↦
      let named = oldest-found now c s (ground (arith, full)) in
      elim (oldest-has now c ([], 0)) [
        | inl none_found ↦ absurd (ground (arith, none_found, named))
        | inr present ↦
            rw (full, named)
              (omega (
                arith,
                length-erase_present (oldest now c ([], 0)).0 (drop_expired now c) present,
                length-drop_expired now c,
              ))
      ]
]

pub evict-IsSound : (key : Text) (c : Cache) → IsSound c → IsSound (evict key c)
unfolding evict
evict-IsSound key c s = ground (arith, erase-IsSound key c s)
