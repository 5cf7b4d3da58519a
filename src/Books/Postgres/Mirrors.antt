-- ===== src/Books/Postgres/Mirrors.antt =====
-- When the tables of the PostgreSQL store and the maps of the memory store hold the same, and what
-- the reads of both then answer.
pub mod Reads
pub mod Lists
pub mod Agrees
use book_guard_api.Base.{
  ℕ, ◌≡◌, Bool, true, false, [], Option, none, some, Text, ◌==◌, is_empty, lookup,
}
use book_guard_api.Books.Book.{Book}
use book_guard_api.Books.Memory.{MemEdition, MemoryStore}
use book_guard_api.Books.Rows.{row_at, IsUnique, mapped}
use book_guard_api.Books.Postgres.{
  BookRow, EditionRow, CoverRow, Tables, Database, columns_of, str_deref,
}
use book_guard_api.Books.Postgres.Editions.{edition_key, cover_key, image_of}
use book_guard_api.Enrich.Provider.{Cover}

abbrev pub book_key : BookRow → Text
book_key r = r.id

-- A database that no fault is going to meet.
abbrev pub healthy : Tables → Database
healthy t = record { tables = t; faults = [] }

-- An edition as the memory store keeps it.
abbrev pub edition_of : EditionRow → MemEdition
edition_of e = record {
  title = str_deref e.title;
  author = str_deref e.author;
  description = str_deref e.description;
  publisher = str_deref e.publisher;
  published_date = str_deref e.published_date;
  page_count = e.page_count;
  status = e.enrichment_status;
  enriched_at = e.enriched_at;
  has_cover = e.has_cover;
}

-- A cover without the address that it came from, which PostgreSQL keeps and does not give back.
abbrev pub sourceless : Cover → Cover
sourceless c = record c { source_url = [] }

-- The fields that only a response fills are empty, and the ISBN is not.
abbrev pub IsPlain : Book → Type 0
IsPlain b = (b.cover_url ≡ []) × (is_empty b.isbn ≡ false)

pub record Mirrors (t : Tables) (s : MemoryStore) : Type 0 where
  pub unique_books : IsUnique book_key t.books
  pub unique_editions : IsUnique edition_key t.editions
  pub unique_covers : IsUnique cover_key t.covers
  pub same_books : (id : Text) → row_at book_key id t.books ≡ mapped columns_of (lookup id s.books)
  pub plain : (id : Text) (b : Book) → lookup id s.books ≡ some b → IsPlain b
  pub same_editions :
      (isbn : Text)
      → mapped edition_of (row_at edition_key isbn t.editions) ≡ lookup isbn s.editions
  pub same_covers :
      (isbn : Text)
      → mapped image_of (row_at cover_key isbn t.covers) ≡ mapped sourceless (lookup isbn s.covers)
