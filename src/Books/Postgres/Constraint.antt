-- ===== src/Books/Postgres/Constraint.antt =====
-- The check books_isbn_shape of migrations/0004_require_isbn.sql beside internal/books/isbn.go.
use book_guard_api.Base.{
  ℕ, zero, suc, ◌≡◌, refl, inl, inr, true, not, ◌||◌, [], ◌∷◌, keep, Text, All, nat_eq, CaseTable,
  ok, Bool-cases, arith,
}
use book_guard_api.Books.Isbn.{digits_then, check_end, isbn_shape, canonical_isbn}
use book_guard_api.Books.Isbn.Shape.{IsCheck}
use book_guard_api.Books.Isbn.Canonical.{IsIsbn-All, ok-inversion}
use book_guard_api.Books.Postgres.{legacy_end, is_legal_isbn}

-- Nothing is stripped of digits and X.
nothing_stripped :
    (s : Text) → All IsCheck s → keep (λ c. not (nat_eq c b'-' || nat_eq c b' ')) s ≡ s
nothing_stripped [] h = refl
nothing_stripped (c ∷ s) h = ground (arith, nothing_stripped s h.1, h.0)

legacy_end-wider : (s : Text) → check_end s ≡ true → legacy_end s ≡ true
legacy_end-wider [] h = cc
legacy_end-wider (c ∷ s) h = ground (arith, h)

digits_then-wider :
    (n : ℕ) (s : Text) → digits_then n check_end s ≡ true → digits_then n legacy_end s ≡ true
unfolding digits_then
digits_then-wider zero s h = legacy_end-wider s h
digits_then-wider (suc n) [] h = cc
digits_then-wider (suc n) (c ∷ s) h = ground (arith, digits_then-wider n s)

-- Every ISBN that canonicalISBN accepts passes the check of the books table.
pub canonical_isbn-is_legal_isbn :
    (table : CaseTable) (raw isbn : Text)
    → canonical_isbn table raw ≡ ok isbn
    → is_legal_isbn isbn ≡ true
unfolding is_legal_isbn isbn_shape
canonical_isbn-is_legal_isbn table raw isbn h =
    let (same, shaped) = ok-inversion table raw isbn h in
    let stripped = nothing_stripped isbn (IsIsbn-All isbn shaped) in
    rw stripped (elim (Bool-cases (digits_then 9 check_end isbn)) [
      | inl ten ↦ rw (digits_then-wider 9 isbn ten)
      | inr other ↦ ground (arith, other, shaped)
    ])
