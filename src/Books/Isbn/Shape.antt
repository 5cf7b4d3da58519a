-- ===== src/Books/Isbn/Shape.antt =====
-- What the regular expression of internal/books/isbn.go accepts, said without the expression.
use book_guard_api.Base.{
  ℕ, zero, suc, ◌≤◌, ◌-◌, ◌≡◌, ◌↔◌, ◌⊎◌, inl, inr, Bool, true, [], ◌∷◌, Text, is_empty, is_digit,
  length, take, drop, All, arith, Bool-cases,
}
use book_guard_api.Books.Isbn.{is_check, digits_then, check_end, isbn_shape}

abbrev pub IsDigit : ℕ → Type 0
IsDigit c = is_digit c ≡ true

abbrev pub IsCheck : ℕ → Type 0
IsCheck c = is_check c ≡ true

-- Nine digits and a check character.
abbrev pub IsIsbn10 : Text → Type 0
IsIsbn10 s = (length s ≡ 10) × All IsDigit (take 9 s) × All IsCheck (drop 9 s)

-- Thirteen digits.
abbrev pub IsIsbn13 : Text → Type 0
IsIsbn13 s = (length s ≡ 13) × All IsDigit (take 13 s)

abbrev pub IsIsbn : Text → Type 0
IsIsbn s = IsIsbn10 s ⊎ IsIsbn13 s

digits_then_sound :
    (n : ℕ) (rest : Text → Bool) (s : Text)
    → digits_then n rest s ≡ true
    → (n ≤ length s) × All IsDigit (take n s) × (rest (drop n s) ≡ true)
unfolding digits_then
digits_then_sound zero rest s h = (omega arith, tt, h)
digits_then_sound (suc n) rest [] h = ground arith
digits_then_sound (suc n) rest (c ∷ s) h = ground (arith, digits_then_sound n rest s)

digits_then_complete :
    (n : ℕ) (rest : Text → Bool) (s : Text)
    → n ≤ length s
    → All IsDigit (take n s)
    → rest (drop n s) ≡ true
    → digits_then n rest s ≡ true
unfolding digits_then
digits_then_complete zero rest s l h r = r
digits_then_complete (suc n) rest [] l h r = absurd (omega arith)
digits_then_complete (suc n) rest (c ∷ s) l h r =
    ground (arith, digits_then_complete n rest s (omega arith) h.1 r)

check_end_iff : (s : Text) → (check_end s ≡ true) ↔ ((length s ≡ 1) × All IsCheck s)
check_end_iff [] = ground arith
check_end_iff (c ∷ []) = ground arith
check_end_iff (c ∷ d ∷ s) = ground arith

is_empty_iff : (s : Text) → (is_empty s ≡ true) ↔ (length s ≡ 0)
is_empty_iff [] = ground arith
is_empty_iff (c ∷ s) = ground arith

length-drop : (n : ℕ) (s : Text) → n ≤ length s → length (drop n s) ≡ length s - n
length-drop zero s h = omega arith
length-drop (suc n) [] h = omega arith
length-drop (suc n) (c ∷ s) h = omega (arith, length-drop n s)

module _ (s : Text) where
  ten_sound : digits_then 9 check_end s ≡ true → IsIsbn10 s
  ten_sound h =
      let (long, digits, rest) = digits_then_sound 9 check_end s h in
      let (one, checks) = (check_end_iff (drop 9 s)).0 rest in
      (omega (arith, length-drop 9 s long), digits, checks)

  thirteen_sound : digits_then 13 is_empty s ≡ true → IsIsbn13 s
  thirteen_sound h =
      let (long, digits, rest) = digits_then_sound 13 is_empty s h in
      let none_left = (is_empty_iff (drop 13 s)).0 rest in
      (omega (arith, length-drop 13 s long), digits)

  ten_complete : IsIsbn10 s → digits_then 9 check_end s ≡ true
  ten_complete (len, digits, checks) =
      let long : 9 ≤ length s = omega arith in
      digits_then_complete 9 check_end s long digits
        ((check_end_iff (drop 9 s)).1 (omega (arith, length-drop 9 s long), checks))

  thirteen_complete : IsIsbn13 s → digits_then 13 is_empty s ≡ true
  thirteen_complete (len, digits) =
      let long : 13 ≤ length s = omega arith in
      digits_then_complete 13 is_empty s long digits
        ((is_empty_iff (drop 13 s)).1 (omega (arith, length-drop 13 s long)))

  -- The expression matches the two shapes and nothing else.
  pub isbn_shape_iff : (isbn_shape s ≡ true) ↔ IsIsbn s
  unfolding isbn_shape
  isbn_shape_iff = (
    λ h. elim (Bool-cases (digits_then 9 check_end s)) [
      | inl ten ↦ inl (ten_sound ten)
      | inr other ↦ inr (thirteen_sound (rw other at h))
    ],
    λ i. elim i [
      | inl ten ↦ rw (ten_complete ten)
      | inr thirteen ↦ ground (arith, thirteen_complete thirteen)
    ],
  )
