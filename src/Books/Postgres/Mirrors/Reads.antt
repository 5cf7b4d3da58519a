-- ===== src/Books/Postgres/Mirrors/Reads.antt =====
-- The reads of internal/books/store_postgres.go beside those of store_memory.go.
use book_guard_api.Base.{
  ◌≡◌, refl, sym, ap, ◌∙◌, inl, inr, true, false, ◌&&◌, [], ◌∷◌, Option, none, some, Text, ◌==◌,
  eq_iff, is_empty, lookup, if◌then◌else◌, Result, ok, err, Option-cases, Bool-cases, arith,
}
use book_guard_api.Books.Book.{Book, apply_canonical_names}
use book_guard_api.Books.Memory
use book_guard_api.Books.Memory.{
  StoreError, not_found, MemEdition, MemoryStore, owned_by, owned_book, merge_edition,
  apply_edition,
}
use book_guard_api.Books.Memory.Editions
use book_guard_api.Books.Memory.Editions.{or_not_found}
use book_guard_api.Books.Memory.Refines.{owned_book_iff}
use book_guard_api.Books.Rows.{find_row, row_at, mapped, passing, is_some}
use book_guard_api.Books.Rows.Laws.{find_row-passing, find_row-same, find_row-none}
use book_guard_api.Books.Postgres
use book_guard_api.Books.Postgres.{
  BookRow, EditionRow, CoverRow, Tables, Database, columns_of, scan_book, joined, str_deref, exec,
  or_missing,
}
use book_guard_api.Books.Postgres.Editions as PostgresEditions
use book_guard_api.Books.Postgres.Editions.{edition_key, cover_key, image_of}
use book_guard_api.Enrich.Provider.{Status, Cover}
use book_guard_api.Books.Postgres.Mirrors.{book_key, healthy, edition_of, Mirrors, sourceless}

or_empty : (t : Text) → (if is_empty t then [] else t) ≡ t
or_empty [] = refl
or_empty (c ∷ t) = refl

abbrev unmerged : Book → Text → Text → Text → Book
unmerged b title author url = record (merge_edition b none) {
  title = title;
  author = author;
  cover_url = url;
}

-- A joined row is the book merged with its edition.
scan_book-merge :
    (b : Book) (o : Option EditionRow)
    → b.cover_url ≡ []
    → scan_book (columns_of b) o ≡ merge_edition b (mapped edition_of o)
unfolding columns_of apply_canonical_names
scan_book-merge b none bare =
    ap (λ (t : Text). unmerged b t (if is_empty b.author then [] else b.author) [])
      (or_empty b.title)
    ∙ ap (λ (a : Text). unmerged b b.title a []) (or_empty b.author)
    ∙ ap (λ (u : Text). unmerged b b.title b.author u) (sym bare)
scan_book-merge b (some e) bare =
    ap (λ (u : Text). record (merge_edition b (some (edition_of e))) { cover_url = u }) (sym bare)

status_of_row :
    (o : Option EditionRow)
    → mapped (λ e. e.enrichment_status) o
      ≡ mapped (λ (e : MemEdition). e.status) (mapped edition_of o)
status_of_row none = refl
status_of_row (some e) = refl

status_of_edition :
    (isbn : Text) (s : MemoryStore)
    → Editions.edition_status isbn s ≡ mapped (λ e. e.status) (lookup isbn s.editions)
unfolding Editions.edition_status
status_of_edition isbn s = elim (Option-cases (lookup isbn s.editions)) [
  | inl missing ↦ rw (missing, Editions.edition_status)
  | inr (e, found) ↦ rw (found, Editions.edition_status)
]

same_isbn :
    (user : Text) (b : Book) (c : CoverRow)
    → (b.user_id == user) ≡ true
    → is_some
        (passing (λ (r : BookRow). r.user_id == user && r.isbn == c.isbn) (some (columns_of b)))
      ≡ (c.isbn == b.isbn)
unfolding columns_of
same_isbn user b c own = ground (arith, own, eq_iff b.isbn c.isbn, eq_iff c.isbn b.isbn)

not_mine :
    (user : Text) (b : Book) (c : CoverRow)
    → (b.user_id == user) ≡ false
    → is_some
        (passing (λ (r : BookRow). r.user_id == user && r.isbn == c.isbn) (some (columns_of b)))
      ≡ false
unfolding columns_of
not_mine user b c other = ground (arith, other)

-- An answer with its cover's source left out.
abbrev pub without_source : Result StoreError Cover → Result StoreError Cover
without_source (ok c) = ok (sourceless c)
without_source (err e) = err e

or_missing-sourceless :
    (o : Option Cover) (db : Database)
    → or_missing (mapped sourceless o) db ≡ (without_source (or_not_found o), db)
or_missing-sourceless none db = refl
or_missing-sourceless (some c) db = refl

module _ (t : Tables) (s : MemoryStore) (m : Mirrors t s) where
  pub joined-apply_edition :
      (id : Text) (b : Book)
      → lookup id s.books ≡ some b
      → joined t (columns_of b) ≡ apply_edition s b
  unfolding joined apply_edition columns_of
  joined-apply_edition id b held =
      let (bare, filled) = m.plain id b held in
      rw filled (
        scan_book-merge b (row_at edition_key b.isbn t.editions) bare
        ∙ ap (merge_edition b) (m.same_editions b.isbn))

  pub found_row :
      (user id : Text)
      → find_row (λ r. r.id == id && r.user_id == user) t.books
        ≡ mapped columns_of (owned_book user id s)
  unfolding owned_book columns_of
  found_row user id =
      find_row-passing book_key id (λ r. r.user_id == user) t.books m.unique_books
      ∙ ap (passing (λ r. r.user_id == user)) (m.same_books id)
      ∙ owned (lookup id s.books)
    where
      owned :
          (o : Option Book)
          → passing (λ r. r.user_id == user) (mapped columns_of o)
            ≡ mapped columns_of (owned_by user o)
      owned none = refl
      owned (some b) = ground arith

  pub get-Mirrors :
      (user id : Text) → Postgres.get user id (healthy t) ≡ (Memory.get user id s, healthy t)
  unfolding Postgres.get exec Memory.get
  get-Mirrors user id = elim (Option-cases (owned_book user id s)) [
    | inl missing ↦ rw (found_row user id, missing, Memory.get)
    | inr (b, held) ↦
        let stored = ((owned_book_iff user id s b).0 held).0 in
        rw (found_row user id, held, Memory.get) (rw (joined-apply_edition id b stored))
  ]

  pub edition_status-Mirrors :
      (isbn : Text)
      → PostgresEditions.edition_status isbn (healthy t)
        ≡ (ok (Editions.edition_status isbn s), healthy t)
  unfolding PostgresEditions.edition_status exec
  edition_status-Mirrors isbn =
      ap (λ (o : Option Status). (ok o, healthy t))
        (status_of_row (row_at edition_key isbn t.editions)
          ∙ ap (mapped (λ e. e.status)) (m.same_editions isbn)
          ∙ sym (status_of_edition isbn s))

  -- The rows of the join, which the book's own row decides.
  joins :
      (user id : Text) (c : CoverRow) (o : Option Book)
      → lookup id s.books ≡ o
      → is_some (
          find_row (λ (b : BookRow). b.id == id && (b.user_id == user && b.isbn == c.isbn)) t.books)
        ≡ is_some
            (passing (λ (b : BookRow). b.user_id == user && b.isbn == c.isbn) (mapped columns_of o))
  joins user id c o held = ap is_some (
      find_row-passing book_key id (λ b. b.user_id == user && b.isbn == c.isbn) t.books
        m.unique_books
      ∙ ap (passing (λ b. b.user_id == user && b.isbn == c.isbn))
          (m.same_books id ∙ ap (mapped columns_of) held))

  abbrev cover_of_book : Option Book → Option Cover
  cover_of_book none = none
  cover_of_book (some b) = mapped image_of (row_at cover_key b.isbn t.covers)

  joined_cover :
      (user id : Text)
      → mapped image_of (
          find_row
            (λ c. is_some (
              find_row
                (λ (b : BookRow). b.id == id && (b.user_id == user && b.isbn == c.isbn))
                t.books))
            t.covers)
        ≡ cover_of_book (owned_book user id s)
  unfolding owned_book row_at
  joined_cover user id = elim (Option-cases (lookup id s.books)) [
    | inl missing ↦
        rw missing
          (ap (mapped image_of) (find_row-none _ t.covers (λ c. joins user id c none missing)))
    | inr (b, stored) ↦ elim (Bool-cases (b.user_id == user)) [
      | inl own ↦
          rw (stored, own)
            (ap (mapped image_of) (
              find_row-same _ _ t.covers
                (λ c. joins user id c (some b) stored ∙ same_isbn user b c own)))
      | inr other ↦
          rw (stored, other)
            (ap (mapped image_of) (
              find_row-none _ t.covers
                (λ c. joins user id c (some b) stored ∙ not_mine user b c other)))
    ]
  ]

  pub cover_for_book-Mirrors :
      (user id : Text)
      → PostgresEditions.cover_for_book user id (healthy t)
        ≡ (without_source (Editions.cover_for_book user id s), healthy t)
  unfolding PostgresEditions.cover_for_book exec Editions.cover_for_book
  cover_for_book-Mirrors user id = elim (Option-cases (owned_book user id s)) [
    | inl missing ↦ rw (joined_cover user id, missing)
    | inr (b, held) ↦
        rw (joined_cover user id, held)
          (ap (λ (o : Option Cover). or_missing o (healthy t)) (m.same_covers b.isbn)
            ∙ or_missing-sourceless (lookup b.isbn s.covers) (healthy t))
  ]
