-- ===== src/Books/Postgres/Steps/Shelved.antt =====
-- `Create`, `Update` and `Delete` of internal/books/store_postgres.go beside those of the memory store.
use book_guard_api.Base.{
  ℕ, ◌≡◌, refl, sym, ap, ◌∙◌, inl, inr, true, false, not, ◌&&◌, [], ◌∷◌, ◌++◌, List, none, some,
  Text, ◌==◌, eq_iff, eq_refl, is_empty, lookup, erase, lookup-erase, if◌then◌else◌, Bool-cases,
  Option-cases, arith,
}
use book_guard_api.Books.Book.{Book}
use book_guard_api.Books.Isbn.{digits_then}
use book_guard_api.Books.Memory
use book_guard_api.Books.Memory.{MemoryStore, not_found, stamped, owned_book}
use book_guard_api.Books.Memory.Refines.{owned_book_iff}
use book_guard_api.Books.Memory.Invariant.{creates, updates, deletes}
use book_guard_api.Books.Memory.Instance.{memory_repository}
use book_guard_api.Books.Rows.{update_rows, delete_rows, row_at, IsUnique, mapped, passing}
use book_guard_api.Books.Rows.Laws.{
  row_at-key, row_at-append, row_at-update, row_at-delete, append-IsUnique, update-IsUnique,
  delete-IsUnique,
}
use book_guard_api.Books.Postgres
use book_guard_api.Books.Postgres.{
  BookRow, Tables, columns_of, set_columns, is_legal_isbn, truncated, insert_book, update_book,
  delete_book, exec,
}
use book_guard_api.Books.Postgres.Instance.{postgres_repository}
use book_guard_api.Books.Postgres.Mirrors.{book_key, healthy, Mirrors, sourceless}
use book_guard_api.Books.Postgres.Mirrors.Reads.{found_row}
use book_guard_api.Books.Postgres.Steps.{call_on, Follows}
use book_guard_api.Books.Postgres.Steps.Puts.{put_book-Mirrors}

legal_filled : (isbn : Text) → is_legal_isbn isbn ≡ true → is_empty isbn ≡ false
unfolding is_legal_isbn digits_then
legal_filled [] h = cc
legal_filled (c ∷ s) h = refl

module _ (t : Tables) (s : MemoryStore) (m : Mirrors t s) where
  pub create-Follows :
      (id : Text) (now : ℕ) (user : Text) (b : Book)
      → lookup id s.books ≡ none
      → is_legal_isbn b.isbn ≡ true
      → b.cover_url ≡ []
      → Follows
          (call_on postgres_repository (creates id now user b) (healthy t))
          (call_on memory_repository (creates id (truncated now) user b) s)
  unfolding call_on Postgres.create exec insert_book columns_of stamped Memory.create
  create-Follows id now user b fresh legal bare =
      let b' = stamped id user (truncated now) b in
      let free = m.same_books id ∙ ap (mapped columns_of) fresh in
      let rows = t.books ++ (columns_of b' ∷ []) in
      rw (legal, free)
        (
          refl,
          record t { books = rows },
          refl,
          put_book-Mirrors t s m id b' rows (bare, legal_filled b.isbn legal)
              (append-IsUnique book_key t.books (columns_of b') free m.unique_books)
              (λ j. row_at-append book_key j t.books (columns_of b') free),
        )

  -- The row that an update writes, under every id.
  updated_row :
      (now : ℕ) (user : Text) (b old : Book)
      → owned_book user b.id s ≡ some old
      → (j : Text)
      → row_at book_key j
          (update_rows (λ q. q.id == b.id && q.user_id == user) (set_columns b now) t.books)
        ≡ (if b.id == j
            then some (
                columns_of
                  (record b { user_id = user; created_at = old.created_at; updated_at = now }))
            else row_at book_key j t.books)
  unfolding columns_of
  updated_row now user b old held j =
      let (stored, own) = (owned_book_iff user b.id s old).0 held in
      let there : row_at book_key b.id t.books ≡ some (columns_of old) =
        m.same_books b.id ∙ ap (mapped columns_of) stored in
      let named : old.id ≡ b.id = row_at-key book_key b.id t.books (columns_of old) there in
      row_at-update book_key (λ q. q.id == b.id && q.user_id == user) (set_columns b now)
        (λ r. refl) j t.books
      ∙ elim (Bool-cases (b.id == j)) [
        | inl hit ↦
            rw (hit, ← (eq_iff b.id j).0 hit, there) (rw (named, own, eq_refl b.id, eq_refl user))
        | inr miss ↦ elim (Option-cases (row_at book_key j t.books)) [
          | inl free ↦ rw (miss, free)
          | inr (q, found) ↦
              rw (miss, found)
                (ground (
                  arith,
                  row_at-key book_key j t.books q found,
                  eq_iff q.id b.id,
                  eq_iff b.id j,
                  miss,
                ))
        ]
      ]

  pub update-Follows :
      (now : ℕ) (user : Text) (b : Book)
      → is_legal_isbn b.isbn ≡ true
      → b.cover_url ≡ []
      → Follows
          (call_on postgres_repository (updates now user b) (healthy t))
          (call_on memory_repository (updates (truncated now) user b) s)
  unfolding call_on Postgres.update exec update_book Memory.update columns_of
  update-Follows now user b legal bare = elim (Option-cases (owned_book user b.id s)) [
    | inl missing ↦ rw (found_row t s m user b.id, missing, Memory.update) (refl, t, refl, m)
    | inr (old, held) ↦
        let at = truncated now in
        let mine = λ (q : BookRow). q.id == b.id && q.user_id == user in
        let b' = record b { user_id = user; created_at = old.created_at; updated_at = at } in
        let rows = update_rows mine (set_columns b at) t.books in
        rw (found_row t s m user b.id, held, legal, Memory.update)
          (
            refl,
            record t { books = rows },
            refl,
            put_book-Mirrors t s m b.id b' rows (bare, legal_filled b.isbn legal)
                (update-IsUnique book_key mine (set_columns b at) (λ r. refl) t.books
                  m.unique_books)
                (updated_row at user b old held),
          )
  ]

  take_books-Mirrors :
      (rows : List BookRow) (s' : MemoryStore)
      → IsUnique book_key rows
      → s'.editions ≡ s.editions
      → s'.covers ≡ s.covers
      → ((j : Text) → row_at book_key j rows ≡ mapped columns_of (lookup j s'.books))
      → ((j : Text) (b : Book) → lookup j s'.books ≡ some b → lookup j s.books ≡ some b)
      → Mirrors (record t { books = rows }) s'
  take_books-Mirrors rows s' u editions covers same sub = record {
    unique_books = u;
    unique_editions = m.unique_editions;
    unique_covers = m.unique_covers;
    same_books = same;
    plain = λ j b h. m.plain j b (sub j b h);
    same_editions = λ j. m.same_editions j ∙ ap (lookup j) (sym editions);
    same_covers = λ j. m.same_covers j ∙ ap (λ c. mapped sourceless (lookup j c)) (sym covers);
  }

  -- A row that is left, since it is not the caller's.
  spared :
      (user id : Text)
      → owned_book user id s ≡ none
      → passing (λ r. not (r.user_id == user)) (row_at book_key id t.books)
        ≡ row_at book_key id t.books
  unfolding owned_book columns_of
  spared user id missing = elim (Option-cases (lookup id s.books)) [
    | inl free ↦ rw (m.same_books id, free)
    | inr (b, stored) ↦ rw (m.same_books id, stored) (ground (arith, stored, missing))
  ]

  taken :
      (user id : Text) (old : Book)
      → owned_book user id s ≡ some old
      → passing (λ r. not (r.user_id == user)) (row_at book_key id t.books) ≡ none
  unfolding columns_of
  taken user id old held =
      let (stored, own) = (owned_book_iff user id s old).0 held in
      rw (m.same_books id, stored) (rw (own, eq_refl user))

  pub delete-Follows :
      (user id : Text)
      → Follows
          (call_on postgres_repository (deletes user id) (healthy t))
          (call_on memory_repository (deletes user id) s)
  unfolding call_on Postgres.delete exec delete_book Memory.delete
  delete-Follows user id =
      let mine = λ (q : BookRow). q.id == id && q.user_id == user in
      let rows = delete_rows mine t.books in
      let u = delete-IsUnique book_key mine t.books m.unique_books in
      let left =
        λ (j : Text). row_at-delete book_key id (λ r. r.user_id == user) j t.books m.unique_books in
      elim (Option-cases (owned_book user id s)) [
        | inl missing ↦
            rw (found_row t s m user id, missing, Memory.delete)
              (
                refl,
                record t { books = rows },
                refl,
                take_books-Mirrors rows s u refl refl
                    (λ j. left j ∙ spared_at user id missing j ∙ m.same_books j) (λ j b h. h),
              )
        | inr (old, held) ↦
            rw (found_row t s m user id, held, Memory.delete)
              (
                refl,
                record t { books = rows },
                refl,
                take_books-Mirrors rows (record s { books = erase id s.books }) u refl refl
                    (λ j. left j ∙ taken_at user id old held j)
                    (λ j b h. ground (arith, lookup-erase id j s.books, h)),
              )
      ]
    where
      spared_at :
          (user id : Text)
          → owned_book user id s ≡ none
          → (j : Text)
          → (if id == j
              then passing (λ r. not (r.user_id == user)) (row_at book_key j t.books)
              else row_at book_key j t.books)
            ≡ row_at book_key j t.books
      spared_at user id missing j = elim (Bool-cases (id == j)) [
        | inl hit ↦ rw (hit, ← (eq_iff id j).0 hit) (spared user id missing)
        | inr miss ↦ rw miss
      ]

      taken_at :
          (user id : Text) (old : Book)
          → owned_book user id s ≡ some old
          → (j : Text)
          → (if id == j
              then passing (λ r. not (r.user_id == user)) (row_at book_key j t.books)
              else row_at book_key j t.books)
            ≡ mapped columns_of (lookup j (erase id s.books))
      taken_at user id old held j = elim (Bool-cases (id == j)) [
        | inl hit ↦
            rw (lookup-erase id j s.books, hit, ← (eq_iff id j).0 hit) (taken user id old held)
        | inr miss ↦ rw (lookup-erase id j s.books, miss) (m.same_books j)
      ]
