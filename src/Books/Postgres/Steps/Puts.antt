-- ===== src/Books/Postgres/Steps/Puts.antt =====
-- One row written to a table, and one entry to a map.
use book_guard_api.Base.{
  ◌≡◌, refl, sym, ap, ◌∙◌, subst, inl, inr, List, Option, none, some, Text, ◌==◌, lookup, insert,
  lookup-insert, if◌then◌else◌, Bool-cases, arith,
}
use book_guard_api.Books.Book.{Book}
use book_guard_api.Books.Memory.{MemoryStore}
use book_guard_api.Books.Rows.{row_at, IsUnique, mapped}
use book_guard_api.Books.Postgres.{BookRow, EditionRow, CoverRow, Tables, columns_of}
use book_guard_api.Books.Postgres.Editions.{edition_key, cover_key, image_of}
use book_guard_api.Books.Postgres.Mirrors.{book_key, edition_of, sourceless, IsPlain, Mirrors}
use book_guard_api.Enrich.Provider.{Cover}

-- A row in the place of what was under a key, seen through a function.
mapped_put :
    {A B V : Type 0} (f : A → B) (g : V → B) (k j : Text) (a : A) (v : V) (o : Option A)
    (p : Option V)
    → f a ≡ g v
    → mapped f o ≡ mapped g p
    → mapped f (if k == j then some a else o) ≡ mapped g (if k == j then some v else p)
mapped_put f g k j a v o p here there = elim (Bool-cases (k == j)) [
  | inl hit ↦ rw hit (ap some here)
  | inr miss ↦ rw miss there
]

mapped_id : {A : Type 0} (o : Option A) → mapped (λ a. a) o ≡ o
mapped_id none = refl
mapped_id (some a) = refl

module _ (t : Tables) (s : MemoryStore) (m : Mirrors t s) where
  pub put_book-Mirrors :
      (k : Text) (b : Book) (rows : List BookRow)
      → IsPlain b
      → IsUnique book_key rows
      → ((j : Text)
          → row_at book_key j rows
            ≡ (if k == j then some (columns_of b) else row_at book_key j t.books))
      → Mirrors (record t { books = rows }) (record s { books = insert k b s.books })
  put_book-Mirrors k b rows bare u put = record {
    unique_books = u;
    unique_editions = m.unique_editions;
    unique_covers = m.unique_covers;
    same_books = λ j.
        put j
        ∙ sym (mapped_id _)
        ∙ mapped_put (λ r. r) columns_of k j (columns_of b) b (row_at book_key j t.books)
            (lookup j s.books) refl (mapped_id _ ∙ m.same_books j)
        ∙ ap (mapped columns_of) (sym (lookup-insert k j b s.books));
    plain = λ j c h. plain_put j c h;
    same_editions = m.same_editions;
    same_covers = m.same_covers;
  }
    where
      plain_put : (j : Text) (c : Book) → lookup j (insert k b s.books) ≡ some c → IsPlain c
      plain_put j c h = elim (Bool-cases (k == j)) [
        | inl hit ↦
            let e : b ≡ c = ground (arith, lookup-insert k j b s.books, hit, h) in
            subst IsPlain e bare
        | inr miss ↦ m.plain j c (ground (arith, lookup-insert k j b s.books, miss, h))
      ]

  pub put_edition-Mirrors :
      (k : Text) (row : EditionRow) (rows : List EditionRow)
      → IsUnique edition_key rows
      → ((j : Text)
          → row_at edition_key j rows
            ≡ (if k == j then some row else row_at edition_key j t.editions))
      → Mirrors
          (record t { editions = rows })
          (record s { editions = insert k (edition_of row) s.editions })
  put_edition-Mirrors k row rows u put = record {
    unique_books = m.unique_books;
    unique_editions = u;
    unique_covers = m.unique_covers;
    same_books = m.same_books;
    plain = m.plain;
    same_editions = λ j.
        ap (mapped edition_of) (put j)
        ∙ mapped_put edition_of (λ e. e) k j row (edition_of row) (row_at edition_key j t.editions)
            (lookup j s.editions) refl (m.same_editions j ∙ sym (mapped_id _))
        ∙ mapped_id _
        ∙ sym (lookup-insert k j (edition_of row) s.editions);
    same_covers = m.same_covers;
  }

  pub put_cover-Mirrors :
      (k : Text) (row : CoverRow) (c : Cover) (rows : List CoverRow)
      → image_of row ≡ sourceless c
      → IsUnique cover_key rows
      → ((j : Text)
          → row_at cover_key j rows ≡ (if k == j then some row else row_at cover_key j t.covers))
      → Mirrors (record t { covers = rows }) (record s { covers = insert k c s.covers })
  put_cover-Mirrors k row c rows same u put = record {
    unique_books = m.unique_books;
    unique_editions = m.unique_editions;
    unique_covers = u;
    same_books = m.same_books;
    plain = m.plain;
    same_editions = m.same_editions;
    same_covers = λ j.
        ap (mapped image_of) (put j)
        ∙ mapped_put image_of sourceless k j row c (row_at cover_key j t.covers) (lookup j s.covers)
            same (m.same_covers j)
        ∙ ap (mapped sourceless) (sym (lookup-insert k j c s.covers));
  }
