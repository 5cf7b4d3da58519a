-- ===== src/Enrich/OpenLibrary/Pick.antt =====
-- `pickISBN` of internal/enrich/openlibrary.go against what its comment says of it.
use book_guard_api.Base.{
  ℕ, zero, suc, ◌≡◌, refl, ◌⊎◌, inl, inr, Bool, true, false, List, [], ◌∷◌, map, Text, is_empty,
  nat_eq, CaseTable, byte_length, utf8, length, take, All, if◌then◌else◌, ok, Bool-cases, arith,
}
use book_guard_api.Books.Isbn.{canonical_isbn}
use book_guard_api.Books.Isbn.Shape.{IsIsbn, IsDigit}
use book_guard_api.Books.Isbn.Canonical.{canonical_isbn_of_shape}
use book_guard_api.Enrich.OpenLibrary.{digits_only, is_isbn13, clean_isbn, pick_from, pick_isbn}

-- The first text that passes a test, or another one.
abbrev pub first_or : (Text → Bool) → Text → List Text → Text
first_or p other [] = other
first_or p other (t ∷ ts) = if p t then t else first_or p other ts

abbrev pub is_ten : Text → Bool
is_ten t = nat_eq (byte_length t) 10

ten_not_empty : (t : Text) → is_ten t ≡ true → is_empty t ≡ false
unfolding byte_length utf8
ten_not_empty [] h = ground arith
ten_not_empty (c ∷ s) h = refl

-- Once there is a fallback it stays.
pick_from_fallback :
    (table : CaseTable) (fallback : Text) (raws : List Text)
    → is_empty fallback ≡ false
    → pick_from table fallback raws ≡ first_or is_isbn13 fallback (map (clean_isbn table) raws)
unfolding pick_from
pick_from_fallback table fallback [] filled = refl
pick_from_fallback table fallback (raw ∷ raws) filled =
    rw filled (rw (pick_from_fallback table fallback raws filled))

pick_from_nothing :
    (table : CaseTable) (raws : List Text)
    → pick_from table [] raws
      ≡ first_or is_isbn13
          (first_or is_ten [] (map (clean_isbn table) raws))
          (map (clean_isbn table) raws)
unfolding pick_from
pick_from_nothing table [] = refl
pick_from_nothing table (raw ∷ raws) = ground (
  arith,
  pick_from_nothing table raws,
  pick_from_fallback table (clean_isbn table raw) raws,
  ten_not_empty (clean_isbn table raw),
)

-- Among the cleaned candidates `pickISBN` chooses the first ISBN-13, if there is none the first of
-- ten bytes, and if there is none either the empty text.
pub pick_isbn_lem :
    (table : CaseTable) (candidates : List Text)
    → pick_isbn table candidates
      ≡ first_or is_isbn13
          (first_or is_ten [] (map (clean_isbn table) candidates))
          (map (clean_isbn table) candidates)
unfolding pick_isbn
pick_isbn_lem table candidates = pick_from_nothing table candidates

digits_only-All :
    (n : ℕ) (s : Text) → digits_only n s ≡ true → (length s ≡ n) × All IsDigit (take n s)
unfolding digits_only
digits_only-All zero [] h = (refl, tt)
digits_only-All zero (c ∷ s) h = cc
digits_only-All (suc n) [] h = cc
digits_only-All (suc n) (c ∷ s) h = ground (arith, digits_only-All n s)

is_isbn13-IsIsbn : (s : Text) → is_isbn13 s ≡ true → IsIsbn s
is_isbn13-IsIsbn [] h = cc
is_isbn13-IsIsbn (a ∷ []) h = cc
is_isbn13-IsIsbn (a ∷ b ∷ []) h = cc
is_isbn13-IsIsbn (a ∷ b ∷ c ∷ s) h = inr (ground (arith, digits_only-All 10 s))

-- What a choice can be.
abbrev pub IsPick : CaseTable → Text → Type 0
IsPick table t = (canonical_isbn table t ≡ ok t) ⊎ (byte_length t ≡ 10) ⊎ (t ≡ [])

first_ten-IsPick : (table : CaseTable) (ts : List Text) → IsPick table (first_or is_ten [] ts)
first_ten-IsPick table [] = inr (inr refl)
first_ten-IsPick table (t ∷ ts) = elim (Bool-cases (is_ten t)) [
  | inl ten ↦ rw ten (inr (inl (ground (arith, ten))))
  | inr other ↦ rw other (first_ten-IsPick table ts)
]

first_isbn13-IsPick :
    (table : CaseTable) (other : Text) (ts : List Text)
    → IsPick table other
    → IsPick table (first_or is_isbn13 other ts)
first_isbn13-IsPick table other [] h = h
first_isbn13-IsPick table other (t ∷ ts) h = elim (Bool-cases (is_isbn13 t)) [
  | inl thirteen ↦ rw thirteen (inl (canonical_isbn_of_shape table t (is_isbn13-IsIsbn t thirteen)))
  | inr short ↦ rw short (first_isbn13-IsPick table other ts h)
]

pub pick_isbn-IsPick :
    (table : CaseTable) (candidates : List Text) → IsPick table (pick_isbn table candidates)
pick_isbn-IsPick table candidates =
    let cleaned = map (clean_isbn table) candidates in
    rw (pick_isbn_lem table candidates) (
      first_isbn13-IsPick table (first_or is_ten [] cleaned) cleaned
        (first_ten-IsPick table cleaned))
