-- ===== src/Books/Postgres/Editions.antt =====
-- internal/books/store_postgres.go: the editions and covers that all users share.
use book_guard_api.Base.{
  ℕ, ℤ, pos, negsuc, take, Bool, true, false, ◌&&◌, ◌||◌, List, [], map, keep, Option, none, some,
  Text, codes, ◌==◌, sort_texts, if◌then◌else◌, Result, ok, err, ◌>>=◌,
}
use book_guard_api.Books.Memory.{StoreError}
use book_guard_api.Books.Rows.{find_row, update_rows, row_at, upsert, mapped, is_some}
use book_guard_api.Books.Postgres.{
  BookRow, EditionRow, CoverRow, Tables, Database, Stores, exec, error_on, select, or_missing,
  str_deref,
}
use book_guard_api.Enrich.Provider.{Status, pending, status_text, Metadata, Cover}

abbrev pub edition_key : EditionRow → Text
edition_key e = e.isbn

abbrev pub cover_key : CoverRow → Text
cover_key c = c.isbn

-- A row of which only the ISBN and the status are given.
abbrev pub bare_edition : Text → Status → EditionRow
bare_edition isbn status = record {
  isbn = isbn;
  title = none;
  author = none;
  description = none;
  publisher = none;
  published_date = none;
  page_count = pos 0;
  enrichment_status = status;
  enriched_at = none;
  has_cover = false;
}

unfoldable pub insert_edition :
    Text → EditionRow → (EditionRow → EditionRow) → Tables → Result Text (Unit {0}) × Tables
insert_edition isbn new f t =
    (ok tt, record t { editions = upsert edition_key isbn new f t.editions })

-- `ON CONFLICT (isbn) DO NOTHING`.
unfoldable pub ensure_edition : Text → Stores (Unit {0})
ensure_edition isbn =
    exec (error_on (codes "ensure edition ") isbn)
      (insert_edition isbn (bare_edition isbn pending) (λ e. e))

abbrev pub set_status : Status → EditionRow → EditionRow
set_status status e = record e { enrichment_status = status }

unfoldable pub mark_edition_pending : Text → Stores (Unit {0})
mark_edition_pending isbn =
    exec (error_on (codes "mark edition pending ") isbn)
      (insert_edition isbn (bare_edition isbn pending) (set_status pending))

-- `enrichment_status IN ('pending','failed')`, on the text of the column.
abbrev pub is_todo : Status → Bool
is_todo status =
    let text = status_text status in (text == codes "pending") || (text == codes "failed")

-- A negative LIMIT is an error of the server. The ISBNs are sorted by code point: on their digits
-- and X every collation agrees.
unfoldable pub pending_rows : ℤ → Tables → Result Text (List Text) × Tables
pending_rows (negsuc n) t = (err (codes "LIMIT must not be negative"), t)
pending_rows (pos n) t = (
  ok (take n (sort_texts (map edition_key (keep (λ e. is_todo e.enrichment_status) t.editions)))),
  t,
)

unfoldable pub pending_enrichment : ℤ → Stores (List Text)
pending_enrichment limit = exec (codes "list pending editions: ") (pending_rows limit)

unfoldable pub edition_status : Text → Stores (Option Status)
edition_status isbn =
    exec (error_on (codes "edition status ") isbn)
      (select (λ t. mapped (λ e. e.enrichment_status) (row_at edition_key isbn t.editions)))

abbrev pub set_metadata : ℕ → Metadata → Status → EditionRow → EditionRow
set_metadata now m status e = record e {
  title = some m.title;
  author = some m.author;
  description = some m.description;
  publisher = some m.publisher;
  published_date = some m.published_date;
  page_count = m.page_count;
  enrichment_status = status;
  enriched_at = some now;
}

-- `now` is the server's clock.
unfoldable pub save_enrichment : ℕ → Text → Option Metadata → Status → Stores (Unit {0})
save_enrichment now isbn none status =
    exec (error_on (codes "save enrichment status ") isbn)
      (insert_edition isbn (bare_edition isbn status) (set_status status))
save_enrichment now isbn (some m) status = exec (error_on (codes "save enrichment ") isbn) (
    insert_edition isbn (set_metadata now m status (bare_edition isbn status))
      (set_metadata now m status))

abbrev pub cover_row : ℕ → Text → Cover → CoverRow
cover_row now isbn c = record {
  isbn = isbn;
  content_type = c.content_type;
  bytes = c.bytes;
  etag = some c.etag;
  source_url = some c.source_url;
  fetched_at = now;
}

-- The key of the cover must be that of an edition.
unfoldable pub upsert_cover : ℕ → Text → Cover → Tables → Result Text (Unit {0}) × Tables
upsert_cover now isbn c t =
    if is_some (row_at edition_key isbn t.editions)
    then (
      ok tt,
      record t {
        covers =
            upsert cover_key isbn (cover_row now isbn c)
              (λ r. record (cover_row now isbn c) { isbn = r.isbn }) t.covers;
      },
    )
    else (err (codes "insert violates foreign key constraint \"book_covers_isbn_fkey\""), t)

abbrev pub flag_cover : EditionRow → EditionRow
flag_cover e = record e { has_cover = true }

unfoldable pub mark_has_cover : Text → Tables → Result Text (Unit {0}) × Tables
mark_has_cover isbn t =
    (ok tt, record t { editions = update_rows (λ e. e.isbn == isbn) flag_cover t.editions })

-- `Begin` or `Commit`.
abbrev pub nothing : Tables → Result Text (Unit {0}) × Tables
nothing t = (ok tt, t)

abbrev pub or_rolled_back :
    {A : Type 0} → Tables → Result StoreError A × Database → Result StoreError A × Database
or_rolled_back t (ok a, db) = (ok a, db)
or_rolled_back t (err e, db) = (err e, record db { tables = t })

-- A body between `Begin` and `Commit`: if any of it fails, the tables are as they were.
unfoldable pub transaction : Text → Stores (Unit {0}) → Stores (Unit {0})
transaction what body db =
    or_rolled_back db.tables ((exec what nothing >>= λ _. body >>= λ _. exec [] nothing) db)

unfoldable pub save_cover : ℕ → Text → Cover → Stores (Unit {0})
save_cover now isbn c = transaction (codes "begin cover tx: ") (
    exec (error_on (codes "save cover ") isbn) (upsert_cover now isbn c) >>= λ _.
    exec (error_on (codes "mark has_cover ") isbn) (mark_has_cover isbn))

-- The columns that `CoverForBook` selects.
abbrev pub image_of : CoverRow → Cover
image_of r = record {
  content_type = r.content_type;
  bytes = r.bytes;
  etag = str_deref r.etag;
  source_url = [];
}

-- The join of covers and books, which at most one pair of rows passes.
unfoldable pub cover_for_book : Text → Text → Stores Cover
cover_for_book user id = do
  found ← exec (error_on (codes "cover for book ") id) (
      select (λ t. mapped image_of (
        find_row
          (λ c. is_some (
            find_row (λ (b : BookRow). b.id == id && (b.user_id == user && b.isbn == c.isbn))
              t.books))
          t.covers)))
  or_missing found
