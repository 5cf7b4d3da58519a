-- ===== src/Tests/Isbn.antt =====
-- The theorems of Books/Isbn at concrete inputs.
use book_guard_api.Base.{◌≡◌, ◌↔◌, refl, true, codes, ascii_upper, ascii_table, to_upper, ok, err}
use book_guard_api.Books.Isbn.{
  invalid_isbn, is_separator, strip_isbn_separators, digits_then, isbn_shape, canonical_isbn,
}
use book_guard_api.Books.Isbn.Shape.{IsIsbn}
use book_guard_api.Books.Postgres.{is_legal_isbn}
use book_guard_api.Books.Postgres.Constraint.{canonical_isbn-is_legal_isbn}
use book_guard_api.Books.Isbn.Canonical.{folded, canonical_isbn_iff, canonical_isbn_idem}

reads_hyphens : canonical_isbn ascii_table (codes "0-8044-2957-x") ≡ ok (codes "080442957X")
unfolding canonical_isbn isbn_shape digits_then strip_isbn_separators is_separator to_upper
    ascii_upper
reads_hyphens = refl

refuses_letters : canonical_isbn ascii_table (codes "abc") ≡ err invalid_isbn
unfolding canonical_isbn isbn_shape digits_then strip_isbn_separators is_separator to_upper
    ascii_upper
refuses_letters = refl

-- An X is a check character of ISBN-10 alone.
refuses_long_x : canonical_isbn ascii_table (codes "978044101359X") ≡ err invalid_isbn
unfolding canonical_isbn isbn_shape digits_then strip_isbn_separators is_separator to_upper
    ascii_upper
refuses_long_x = refl

canonical_isbn_iff_example :
    (canonical_isbn ascii_table (codes "0-8044-2957-x") ≡ ok (codes "080442957X")) ↔ (
      (folded ascii_table (codes "0-8044-2957-x") ≡ codes "080442957X")
      × IsIsbn (codes "080442957X"))
canonical_isbn_iff_example =
    canonical_isbn_iff ascii_table (codes "0-8044-2957-x") (codes "080442957X")

canonical_isbn_idem_example :
    canonical_isbn ascii_table (codes "080442957X") ≡ ok (codes "080442957X")
canonical_isbn_idem_example =
    canonical_isbn_idem ascii_table (codes "0-8044-2957-x") (codes "080442957X") reads_hyphens

canonical_isbn-is_legal_isbn_example : is_legal_isbn (codes "080442957X") ≡ true
canonical_isbn-is_legal_isbn_example =
    canonical_isbn-is_legal_isbn ascii_table (codes "0-8044-2957-x") (codes "080442957X")
      reads_hyphens
