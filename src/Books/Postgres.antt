-- ===== src/Books/Postgres.antt =====
-- internal/books/store_postgres.go on the tables of migrations/. A statement of SQL is a function on
-- the tables, or an error with no effect; what pgx and the server do otherwise comes in as faults.
-- Each statement takes the next fault: `none` lets it run. Where no more are given, it runs.
pub mod Editions
pub mod Instance
pub mod Mirrors
pub mod Steps
pub mod Faults
pub mod Migrations
pub mod Constraint
pub mod Routes
use book_guard_api.Base.{
  ℕ, zero, suc, ◌+◌, ◌*◌, ◌/◌, ℤ, pos, Bool, true, false, not, ◌&&◌, ◌||◌, List, [], ◌∷◌, ◌++◌, map,
  keep, Option, none, some, Text, codes, ◌==◌, is_empty, is_digit, nat_eq, if◌then◌else◌, Result,
  ok, err, Action, and_then, ◌>>=◌, ◌>>◌, pure, throw,
}
use book_guard_api.Books.Book.{Book, status_to_read, apply_canonical_names}
use book_guard_api.Books.Status.{enrichment_status_for}
use book_guard_api.Books.Isbn.{digits_then}
use book_guard_api.Books.Memory.{StoreError, not_found, broken, stamped, sort_by_created}
use book_guard_api.Books.Rows.{find_row, update_rows, delete_rows, row_at, mapped, is_some}
use book_guard_api.Enrich.Provider.{Status, status_text, Metadata, Cover}

pub record BookRow : Type 0 where
  pub id : Text
  pub user_id : Text
  pub isbn : Text
  pub title : Text
  pub author : Text
  pub status : Text
  pub rating : ℤ
  pub opinion : Text
  pub tags : List Text
  pub created_at : ℕ
  pub updated_at : ℕ

-- The status column holds the text of a `Status`, which is all that the code writes to it.
pub record EditionRow : Type 0 where
  pub isbn : Text
  pub title : Option Text
  pub author : Option Text
  pub description : Option Text
  pub publisher : Option Text
  pub published_date : Option Text
  pub page_count : ℤ
  pub enrichment_status : Status
  pub enriched_at : Option ℕ
  pub has_cover : Bool

pub record CoverRow : Type 0 where
  pub isbn : Text
  pub content_type : Text
  pub bytes : List ℕ
  pub etag : Option Text
  pub source_url : Option Text
  pub fetched_at : ℕ

pub record Tables : Type 0 where
  pub books : List BookRow
  pub editions : List EditionRow
  pub covers : List CoverRow

pub record Database : Type 0 where
  pub tables : Tables
  pub faults : List (Option Text)

abbrev pub empty_tables : Tables
empty_tables = record { books = []; editions = []; covers = [] }

abbrev pub Stores : Type 0 → Type 0
Stores A = Action Database StoreError A

abbrev pub after_statement :
    {A : Type 0}
    → Text
    → List (Option Text)
    → Result Text A × Tables
    → Result StoreError A × Database
after_statement what faults (ok a, t) = (ok a, record { tables = t; faults = faults })
after_statement what faults (err e, t) =
    (err (broken (what ++ e)), record { tables = t; faults = faults })

-- `Exec` or `QueryRow` of one statement, with the text that `fmt.Errorf` puts before its error.
abbrev pub run_on :
    {A : Type 0}
    → Text
    → (Tables → Result Text A × Tables)
    → Tables
    → List (Option Text)
    → Result StoreError A × Database
run_on what statement t [] = after_statement what [] (statement t)
run_on what statement t (none ∷ faults) = after_statement what faults (statement t)
run_on what statement t (some e ∷ faults) =
    (err (broken (what ++ e)), record { tables = t; faults = faults })

unfoldable pub exec : {A : Type 0} → Text → (Tables → Result Text A × Tables) → Stores A
exec what statement db = run_on what statement db.tables db.faults

-- The text before the error of a statement about one row.
abbrev pub error_on : Text → Text → Text
error_on what key = what ++ (key ++ codes ": ")

abbrev pub select : {A : Type 0} → (Tables → A) → Tables → Result Text A × Tables
select f t = (ok (f t), t)

-- `Truncate(time.Microsecond)`.
unfoldable pub truncated : ℕ → ℕ
truncated now = now / 1000 * 1000

-- The constraint books_isbn_shape.
abbrev pub is_legacy_check : ℕ → Bool
is_legacy_check c = is_digit c || nat_eq c b'X' || nat_eq c b'x'

abbrev pub legacy_end : Text → Bool
legacy_end [] = false
legacy_end (c ∷ s) = is_legacy_check c && is_empty s

unfoldable pub is_legal_isbn : Text → Bool
is_legal_isbn isbn =
    let bare = keep (λ c. not (nat_eq c b'-' || nat_eq c b' ')) isbn in
    digits_then 9 legacy_end bare || digits_then 13 is_empty bare

abbrev pub isbn_violation : Text
isbn_violation = codes "new row violates check constraint \"books_isbn_shape\""

abbrev pub id_violation : Text
id_violation = codes "duplicate key value violates unique constraint \"books_pkey\""

unfoldable pub columns_of : Book → BookRow
columns_of b = record {
  id = b.id;
  user_id = b.user_id;
  isbn = b.isbn;
  title = b.title;
  author = b.author;
  status = b.status;
  rating = b.rating;
  opinion = b.opinion;
  tags = b.tags;
  created_at = b.created_at;
  updated_at = b.updated_at;
}

unfoldable pub insert_book : BookRow → Tables → Result Text (Unit {0}) × Tables
insert_book r t =
    if is_legal_isbn r.isbn
    then (if is_some (row_at (λ q. q.id) r.id t.books)
        then (err id_violation, t)
        else (ok tt, record t { books = t.books ++ (r ∷ []) }))
    else (err isbn_violation, t)

unfoldable pub create : Text → ℕ → Text → Book → Stores Book
create id now user b = do
  let b' = stamped id user (truncated now) b
  exec (codes "insert book: ") (insert_book (columns_of b'))
  pure b'

-- `strDeref`, and the other columns of the LEFT JOIN, which are NULL where no edition is joined.
abbrev pub str_deref : Option Text → Text
str_deref none = []
str_deref (some t) = t

abbrev pub book_of_columns : BookRow → Book
book_of_columns r = record {
  id = r.id;
  user_id = r.user_id;
  isbn = r.isbn;
  title = r.title;
  author = r.author;
  status = r.status;
  rating = r.rating;
  opinion = r.opinion;
  tags = r.tags;
  created_at = r.created_at;
  updated_at = r.updated_at;
  description = [];
  publisher = [];
  published_date = [];
  page_count = pos 0;
  enrichment_status = [];
  enriched_at = none;
  has_cover = false;
  cover_url = [];
}

-- `scanBook`, of a row and the edition that is joined to it.
abbrev pub scan_book : BookRow → Option EditionRow → Book
scan_book r none = record (apply_canonical_names (book_of_columns r) [] []) {
  enrichment_status = enrichment_status_for r.isbn none;
}
scan_book r (some e) =
    record (apply_canonical_names (book_of_columns r) (str_deref e.title) (str_deref e.author)) {
      description = str_deref e.description;
      publisher = str_deref e.publisher;
      published_date = str_deref e.published_date;
      page_count = e.page_count;
      enriched_at = e.enriched_at;
      has_cover = e.has_cover;
      enrichment_status = enrichment_status_for r.isbn (some (status_text e.enrichment_status));
    }

-- One row of `bookSelect`: the join is on the edition's primary key.
unfoldable pub joined : Tables → BookRow → Book
joined t r = scan_book r (row_at (λ e. e.isbn) r.isbn t.editions)

abbrev pub or_missing : {A : Type 0} → Option A → Stores A
or_missing none = throw not_found
or_missing (some a) = pure a

unfoldable pub get : Text → Text → Stores Book
get user id = do
  found ←
      exec (error_on (codes "get book ") id)
        (select (λ t. mapped (joined t) (find_row (λ r. r.id == id && r.user_id == user) t.books)))
  or_missing found

unfoldable pub list : Text → Stores (List Book)
list user =
    exec (codes "list books: ")
      (select (λ t. sort_by_created (map (joined t) (keep (λ r. r.user_id == user) t.books))))

abbrev pub set_columns : Book → ℕ → BookRow → BookRow
set_columns b now r = record r {
  isbn = b.isbn;
  title = b.title;
  author = b.author;
  status = b.status;
  rating = b.rating;
  opinion = b.opinion;
  tags = b.tags;
  updated_at = now;
}

abbrev pub update_found :
    Text → Book → ℕ → Tables → Option BookRow → Result Text (Option ℕ) × Tables
update_found user b now t none = (ok none, t)
update_found user b now t (some r) =
    if is_legal_isbn b.isbn
    then (
      ok (some r.created_at),
      record t {
        books = update_rows (λ q. q.id == b.id && q.user_id == user) (set_columns b now) t.books;
      },
    )
    else (err isbn_violation, t)

-- `UPDATE books ... RETURNING created_at`.
unfoldable pub update_book : Text → Book → ℕ → Tables → Result Text (Option ℕ) × Tables
update_book user b now t =
    update_found user b now t (find_row (λ q. q.id == b.id && q.user_id == user) t.books)

unfoldable pub update : ℕ → Text → Book → Stores Book
update now user b = do
  returned ← exec (error_on (codes "update book ") b.id) (update_book user b (truncated now))
  created_at ← or_missing returned
  pure (record b { user_id = user; created_at = created_at; updated_at = truncated now })

-- Whether `RowsAffected` is not zero.
unfoldable pub delete_book : Text → Text → Tables → Result Text Bool × Tables
delete_book user id t =
    let mine = λ (q : BookRow). q.id == id && q.user_id == user in
    (ok (is_some (find_row mine t.books)), record t { books = delete_rows mine t.books })

unfoldable pub delete : Text → Text → Stores (Unit {0})
delete user id = do
  affected ← exec (error_on (codes "delete book ") id) (delete_book user id)
  (if affected then pure tt else throw not_found)
