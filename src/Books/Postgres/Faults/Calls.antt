-- ===== src/Books/Postgres/Faults/Calls.antt =====
-- Each changing call of internal/books/store_postgres.go, when one of its statements fails.
use book_guard_api.Base.{
  ℕ, ◌≡◌, refl, sym, ap, ◌∙◌, ◌⊎◌, codes, inl, inr, Bool, true, false, ◌&&◌, List, [], ◌∷◌, Option,
  none, some, Text, ◌==◌, if◌then◌else◌, Bool-cases, Option-cases, Result, ok, err, ◌>>=◌, pure,
  throw, arith,
}
use book_guard_api.Books.Book.{Book}
use book_guard_api.Books.Memory.{StoreError, not_found}
use book_guard_api.Books.Memory.Invariant.{
  Call, creates, updates, deletes, ensures, marks, enriches, covers,
}
use book_guard_api.Books.Rows.{find_row, delete_rows, row_at, is_some}
use book_guard_api.Books.Postgres
use book_guard_api.Books.Postgres.{
  BookRow, Tables, Database, Stores, after_statement, run_on, exec, error_on, insert_book,
  update_found, update_book, delete_book, or_missing, is_legal_isbn, truncated, EditionRow,
}
use book_guard_api.Books.Postgres.Editions
use book_guard_api.Books.Postgres.Editions.{insert_edition, transaction, or_rolled_back}
use book_guard_api.Enrich.Provider.{Cover}
use book_guard_api.Books.Postgres.Instance.{postgres_repository}
use book_guard_api.Books.Postgres.Steps.{with_book, without_book, call_on}
use book_guard_api.Books.Postgres.Faults.{IsAtomic, IsSafe, exec-IsAtomic, exec-ok, bind-IsAtomic}

insert_book-IsSafe : (r : BookRow) → IsSafe (insert_book r)
unfolding insert_book
insert_book-IsSafe r t e = elim (Bool-cases (is_legal_isbn r.isbn)) [
  | inl legal ↦ elim (Bool-cases (is_some (row_at (λ q. q.id) r.id t.books))) [
    | inl taken ↦ rw (legal, taken) (λ h. refl)
    | inr free ↦ rw (legal, free) (λ h. cc)
  ]
  | inr illegal ↦ rw illegal (λ h. refl)
]

-- An UPDATE that fails, or that finds no row.
update_found-safe :
    (user : Text) (b : Book) (now : ℕ) (t : Tables) (o : Option BookRow)
    (r : Result Text (Option ℕ))
    → (r ≡ ok none) ⊎ ((e : Text) × (r ≡ err e))
    → (update_found user b now t o).0 ≡ r
    → (update_found user b now t o).1 ≡ t
update_found-safe user b now t none r how = λ h. refl
update_found-safe user b now t (some q) r how = elim (Bool-cases (is_legal_isbn b.isbn)) [
  | inl legal ↦
      rw legal
        (λ h. elim how [ inl is ↦ let no = h ∙ is in cc | inr (e, is) ↦ let no = h ∙ is in cc ])
  | inr illegal ↦ rw illegal (λ h. refl)
]

delete_rows-none :
    {R : Type 0} (p : R → Bool) (rows : List R) → find_row p rows ≡ none → delete_rows p rows ≡ rows
unfolding find_row delete_rows
delete_rows-none p [] h = refl
delete_rows-none p (r ∷ rows) h = ground (arith, delete_rows-none p rows)

create-IsAtomic :
    (id : Text) (now : ℕ) (user : Text) (b : Book) → IsAtomic (Postgres.create id now user b)
unfolding Postgres.create
create-IsAtomic id now user b =
    bind-IsAtomic _ _ (exec-IsAtomic _ _ (insert_book-IsSafe _)) (λ db db' a e ran left h. cc)

update_book-safe :
    (user : Text) (b : Book) (now : ℕ) (t : Tables) (r : Result Text (Option ℕ))
    → (r ≡ ok none) ⊎ ((e : Text) × (r ≡ err e))
    → (update_book user b now t).0 ≡ r
    → (update_book user b now t).1 ≡ t
unfolding update_book
update_book-safe user b now t r how h = update_found-safe user b now t _ r how h

update-IsAtomic : (now : ℕ) (user : Text) (b : Book) → IsAtomic (Postgres.update now user b)
unfolding Postgres.update
update-IsAtomic now user b =
    bind-IsAtomic _ _
      (exec-IsAtomic _ _ (λ t e h. update_book-safe user b (truncated now) t _ (inr (e, refl)) h))
      missed
  where
    missed :
        (db db' : Database) (a : Option ℕ) (e : StoreError)
        → (exec (error_on (codes "update book ") b.id) (update_book user b (truncated now)) db).0
          ≡ ok a
        → (exec (error_on (codes "update book ") b.id) (update_book user b (truncated now)) db).1
          ≡ db'
        → ((or_missing a >>= λ at.
              pure (record b { user_id = user; created_at = at; updated_at = truncated now }))
            db').0
          ≡ err e
        → ((or_missing a >>= λ at.
              pure (record b { user_id = user; created_at = at; updated_at = truncated now }))
            db').1.tables
          ≡ db.tables
    missed db db' none e ran left h =
        let (asked, same) = exec-ok _ _ db none ran in
        ap (λ d. d.tables) (sym left)
        ∙ same
        ∙ update_book-safe user b (truncated now) db.tables _ (inl refl) asked
    missed db db' (some at) e ran left h = cc

delete_book-none :
    (user id : Text) (t : Tables)
    → (delete_book user id t).0 ≡ ok false
    → (delete_book user id t).1 ≡ t
unfolding delete_book
delete_book-none user id t =
    let mine = λ (q : BookRow). q.id == id && q.user_id == user in
    elim (Option-cases (find_row mine t.books)) [
      | inl gone ↦ λ h.
          ap (λ (rows : List BookRow). record t { books = rows })
            (delete_rows-none mine t.books gone)
      | inr (r, there) ↦ rw there (λ h. cc)
    ]

delete-IsAtomic : (user id : Text) → IsAtomic (Postgres.delete user id)
unfolding Postgres.delete delete_book
delete-IsAtomic user id = bind-IsAtomic _ _ (exec-IsAtomic _ _ (λ t e h. cc)) missed
  where
    missed :
        (db db' : Database) (affected : Bool) (e : StoreError)
        → (exec (error_on (codes "delete book ") id) (delete_book user id) db).0 ≡ ok affected
        → (exec (error_on (codes "delete book ") id) (delete_book user id) db).1 ≡ db'
        → ((if affected then pure tt else throw not_found) db').0 ≡ err e
        → ((if affected then pure tt else throw not_found) db').1.tables ≡ db.tables
    missed db db' true e ran left h = cc
    missed db db' false e ran left h =
        let (asked, same) = exec-ok _ _ db false ran in
        ap (λ d. d.tables) (sym left) ∙ same ∙ delete_book-none user id db.tables asked

or_rolled_back-tables :
    {A : Type 0} (t : Tables) (r : Result StoreError A × Database) (e : StoreError)
    → (or_rolled_back t r).0 ≡ err e
    → (or_rolled_back t r).1.tables ≡ t
or_rolled_back-tables t (ok a, db) e h = cc
or_rolled_back-tables t (err f, db) e h = refl

save_cover-IsAtomic :
    (now : ℕ) (isbn : Text) (c : Cover) → IsAtomic (Editions.save_cover now isbn c)
unfolding Editions.save_cover transaction
save_cover-IsAtomic now isbn c db e h = or_rolled_back-tables db.tables _ e h

insert_edition-IsAtomic :
    (what isbn : Text) (new : EditionRow) (f : EditionRow → EditionRow)
    → IsAtomic (exec what (insert_edition isbn new f))
unfolding insert_edition
insert_edition-IsAtomic what isbn new f = exec-IsAtomic what _ (λ t e h. cc)

module _ {S : Type 0} where
  without_book-err :
      (r : Result StoreError (Unit {0}) × S) (e : StoreError)
      → (without_book r).0 ≡ err e
      → (r.0 ≡ err e) × ((without_book r).1 ≡ r.1)
  without_book-err (ok a, s) e h = cc
  without_book-err (err f, s) e h = (cc, refl)

  with_book-err :
      (r : Result StoreError Book × S) (e : StoreError)
      → (with_book r).0 ≡ err e
      → (r.0 ≡ err e) × ((with_book r).1 ≡ r.1)
  with_book-err (ok a, s) e h = cc
  with_book-err (err f, s) e h = (cc, refl)

without_book-IsAtomic :
    (act : Stores (Unit {0})) → IsAtomic act → IsAtomic (λ db. without_book (act db))
without_book-IsAtomic act atomic db e h =
    let (failed, same) = without_book-err (act db) e h in
    ap (λ d. d.tables) same ∙ atomic db e failed

with_book-IsAtomic : (act : Stores Book) → IsAtomic act → IsAtomic (λ db. with_book (act db))
with_book-IsAtomic act atomic db e h =
    let (failed, same) = with_book-err (act db) e h in ap (λ d. d.tables) same ∙ atomic db e failed

-- A call that answers an error, whatever statement of it has failed, leaves the tables as they were.
pub refused-unchanged :
    (c : Call) (db : Database) (e : StoreError)
    → (call_on postgres_repository c db).0 ≡ err e
    → (call_on postgres_repository c db).1.tables ≡ db.tables
unfolding call_on Editions.ensure_edition Editions.mark_edition_pending Editions.save_enrichment
refused-unchanged (creates id now user b) = with_book-IsAtomic _ (create-IsAtomic id now user b)
refused-unchanged (updates now user b) = with_book-IsAtomic _ (update-IsAtomic now user b)
refused-unchanged (deletes user id) = without_book-IsAtomic _ (delete-IsAtomic user id)
refused-unchanged (ensures isbn) = without_book-IsAtomic _ (insert_edition-IsAtomic _ isbn _ _)
refused-unchanged (marks isbn) = without_book-IsAtomic _ (insert_edition-IsAtomic _ isbn _ _)
refused-unchanged (enriches now isbn none status) =
    without_book-IsAtomic _ (insert_edition-IsAtomic _ isbn _ _)
refused-unchanged (enriches now isbn (some m) status) =
    without_book-IsAtomic _ (insert_edition-IsAtomic _ isbn _ _)
refused-unchanged (covers isbn c) = without_book-IsAtomic _ (save_cover-IsAtomic 0 isbn c)
