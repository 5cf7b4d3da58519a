-- ===== src/Books/Isbn.antt =====
-- internal/books/isbn.go.
pub mod Shape
pub mod Canonical
use book_guard_api.Base.{
  ℕ, zero, suc, Bool, true, false, ◌||◌, ◌&&◌, List, [], ◌∷◌, map, Text, is_empty, is_digit, nat_eq,
  CaseTable, to_upper, keep, not, if◌then◌else◌, Result, ok, err,
}

-- The one error of the file.
pub data InvalidIsbn : Type 0 where
  invalid_isbn : InvalidIsbn

-- '-', ' ', '\t' and the no-break space.
unfoldable pub is_separator : ℕ → Bool
is_separator r = nat_eq r b'-' || nat_eq r b' ' || nat_eq r 9 || nat_eq r 0xa0

unfoldable pub strip_isbn_separators : Text → Text
strip_isbn_separators raw = keep (λ r. not (is_separator r)) raw

abbrev pub is_check : ℕ → Bool
is_check c = is_digit c || nat_eq c b'X'

-- `[0-9]{n}` followed by what `rest` matches to the end of the text.
unfoldable pub digits_then : ℕ → (Text → Bool) → Text → Bool
digits_then zero rest s = rest s
digits_then (suc n) rest [] = false
digits_then (suc n) rest (c ∷ s) = is_digit c && digits_then n rest s

-- `[0-9X]$`.
abbrev pub check_end : Text → Bool
check_end [] = false
check_end (c ∷ s) = is_check c && is_empty s

-- `^([0-9]{9}[0-9X]|[0-9]{13})$`.
unfoldable pub isbn_shape : Text → Bool
isbn_shape s = digits_then 9 check_end s || digits_then 13 is_empty s

unfoldable pub canonical_isbn : CaseTable → Text → Result InvalidIsbn Text
canonical_isbn table raw =
    let isbn = map (to_upper table) (strip_isbn_separators raw) in
    if isbn_shape isbn then ok isbn else err invalid_isbn
