-- ===== src/Books/Isbn/Canonical.antt =====
-- What internal/books/isbn.go promises of the canonical form: when there is one, what it is, and
-- that it is a fixed point. The case table is a parameter, so these hold for every table.
use book_guard_api.Base.{
  ℕ, suc, ◌≤◌, ◌≡◌, refl, ◌↔◌, ◌⊎◌, inl, inr, Bool, true, false, [], ◌∷◌, ◌++◌, map, Text, is_empty,
  is_digit, is_ascii, CaseTable, to_upper, All, Bool-cases, ok, arith, keep-append, zero,
}
use book_guard_api.Books.Isbn.{
  is_separator, strip_isbn_separators, is_check, digits_then, check_end, isbn_shape, canonical_isbn,
}
use book_guard_api.Books.Isbn.Shape.{IsIsbn, IsCheck, isbn_shape_iff}

digits_then-All :
    (n : ℕ) (rest : Text → Bool) (s : Text)
    → ((t : Text) → rest t ≡ true → All IsCheck t)
    → digits_then n rest s ≡ true
    → All IsCheck s
unfolding digits_then
digits_then-All zero rest s k h = k s h
digits_then-All (suc n) rest [] k h = tt
digits_then-All (suc n) rest (c ∷ s) k h = (ground arith, digits_then-All n rest s k (ground arith))

check_end-All : (t : Text) → check_end t ≡ true → All IsCheck t
check_end-All [] h = tt
check_end-All (c ∷ []) h = (ground arith, tt)
check_end-All (c ∷ d ∷ t) h = ground arith

is_empty-All : (t : Text) → is_empty t ≡ true → All IsCheck t
is_empty-All [] h = tt
is_empty-All (c ∷ t) h = cc

pub IsIsbn-All : (s : Text) → isbn_shape s ≡ true → All IsCheck s
unfolding isbn_shape
IsIsbn-All s h = elim (Bool-cases (digits_then 9 check_end s)) [
  | inl ten ↦ digits_then-All 9 check_end s check_end-All ten
  | inr other ↦ digits_then-All 13 is_empty s is_empty-All (rw other at h)
]

check_stays :
    (table : CaseTable) (c : ℕ) → IsCheck c → (is_separator c ≡ false) × (to_upper table c ≡ c)
unfolding is_separator to_upper
check_stays table c h = ground arith

canonical_stays :
    (table : CaseTable) (s : Text)
    → All IsCheck s
    → map (to_upper table) (strip_isbn_separators s) ≡ s
unfolding strip_isbn_separators
canonical_stays table [] h = refl
canonical_stays table (c ∷ s) h =
    let (kept, same) = check_stays table c h.0 in rw kept (cc (same, canonical_stays table s h.1))

-- What an accepted input may hold.
abbrev pub IsIsbnInput : ℕ → Type 0
IsIsbnInput c = (is_separator c ≡ true) ⊎ (is_digit c ≡ true) ⊎ (c ≡ b'X') ⊎ (c ≡ b'x')

input_char :
    (table : CaseTable) (c : ℕ)
    → ((d : ℕ) → 128 ≤ d → is_check (table.upper d) ≡ false)
    → IsCheck (to_upper table c)
    → IsIsbnInput c
unfolding to_upper
input_char table c wide h = elim (Bool-cases (is_ascii c)) [
  | inl narrow ↦ ground arith
  | inr beyond ↦
      let refused = wide c (ground arith) in absurd (ground (arith, refused, rw beyond at h))
]

folded-All :
    (table : CaseTable)
    → ((c : ℕ) → 128 ≤ c → is_check (table.upper c) ≡ false)
    → (raw : Text) → All IsCheck (map (to_upper table) (strip_isbn_separators raw))
    → All IsIsbnInput raw
unfolding strip_isbn_separators
folded-All table wide [] h = tt
folded-All table wide (c ∷ raw) h = elim (Bool-cases (is_separator c)) [
  | inl gap ↦ (inl gap, folded-All table wide raw (rw gap at h))
  | inr other ↦
      let (here, later) = rw other at h in
      (input_char table c wide here, folded-All table wide raw later)
]

module _ (table : CaseTable) (raw : Text) where
  abbrev pub folded : Text
  folded = map (to_upper table) (strip_isbn_separators raw)

  pub ok-inversion :
      (isbn : Text)
      → canonical_isbn table raw ≡ ok isbn
      → (folded ≡ isbn) × (isbn_shape isbn ≡ true)
  unfolding canonical_isbn
  ok-inversion isbn h = elim (Bool-cases (isbn_shape folded)) [
    | inl shaped ↦ (ground (arith, h, shaped), ground (arith, h, shaped))
    | inr other ↦ absurd (ground (arith, h, other))
  ]

  -- An input is accepted exactly when its upper-cased text without separators has the shape of an
  -- ISBN-10 or ISBN-13, and the canonical form is that text.
  pub canonical_isbn_iff :
      (isbn : Text) → (canonical_isbn table raw ≡ ok isbn) ↔ ((folded ≡ isbn) × IsIsbn isbn)
  unfolding canonical_isbn
  canonical_isbn_iff isbn = (
    λ h. let (same, shaped) = ok-inversion isbn h in (same, (isbn_shape_iff isbn).0 shaped),
    λ (same, shape). rw (same, (isbn_shape_iff isbn).1 shape),
  )

  -- The canonical form of an accepted input is accepted as it stands and is its own canonical form.
  pub canonical_isbn_idem :
      (isbn : Text) → canonical_isbn table raw ≡ ok isbn → canonical_isbn table isbn ≡ ok isbn
  unfolding canonical_isbn
  canonical_isbn_idem isbn h =
      let (same, shaped) = ok-inversion isbn h in
      rw (canonical_stays table isbn (IsIsbn-All isbn shaped), shaped)

pub canonical_isbn_of_shape :
    (table : CaseTable) (s : Text) → IsIsbn s → canonical_isbn table s ≡ ok s
canonical_isbn_of_shape table s shape =
    let shaped = (isbn_shape_iff s).1 shape in
    (canonical_isbn_iff table s s).1 (canonical_stays table s (IsIsbn-All s shaped), shape)

-- A separator anywhere in the input changes nothing.
pub canonical_isbn-insert_separator :
    (table : CaseTable) (c : ℕ) (xs ys : Text)
    → is_separator c ≡ true
    → canonical_isbn table (xs ++ (c ∷ ys)) ≡ canonical_isbn table (xs ++ ys)
unfolding canonical_isbn strip_isbn_separators
canonical_isbn-insert_separator table c xs ys h = simp (keep-append, h)

-- Every character of an accepted input is a separator, a digit or the letter X in either case,
-- where the case table maps nothing beyond ASCII to a digit or to X.
pub canonical_isbn-All :
    (table : CaseTable) (raw isbn : Text)
    → ((c : ℕ) → 128 ≤ c → is_check (table.upper c) ≡ false)
    → canonical_isbn table raw ≡ ok isbn
    → All IsIsbnInput raw
canonical_isbn-All table raw isbn wide h =
    let (same, shaped) = ok-inversion table raw isbn h in
    folded-All table wide raw (rw same (IsIsbn-All isbn shaped))
