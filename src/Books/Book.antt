-- ===== src/Books/Book.antt =====
-- internal/books/book.go.
use book_guard_api.Base.{ℤ, ℕ, Bool, Text, codes, is_empty, List, Option, if◌then◌else◌}

-- `Status` is a string type with three constants; a fresh struct holds "".
abbrev pub status_to_read : Text
status_to_read = codes "to_read"

abbrev pub status_reading : Text
status_reading = codes "reading"

abbrev pub status_read : Text
status_read = codes "read"

-- Times are nanoseconds; `enriched_at` is a pointer.
pub record Book : Type 0 where
  pub id : Text
  pub user_id : Text
  pub isbn : Text
  pub title : Text
  pub author : Text
  pub status : Text
  pub rating : ℤ
  pub opinion : Text
  pub tags : List Text
  pub created_at : ℕ
  pub updated_at : ℕ
  pub description : Text
  pub publisher : Text
  pub published_date : Text
  pub page_count : ℤ
  pub enrichment_status : Text
  pub enriched_at : Option ℕ
  pub has_cover : Bool
  pub cover_url : Text

unfoldable pub apply_canonical_names : Book → Text → Text → Book
apply_canonical_names b edition_title edition_author = record b {
  title = if is_empty b.title then edition_title else b.title;
  author = if is_empty b.author then edition_author else b.author;
}
