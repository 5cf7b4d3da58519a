-- ===== src/Books/Postgres/Faults/Histories.antt =====
-- Every call of internal/books/store_postgres.go, and every row of them, whatever statements fail.
use book_guard_api.Base.{
  ℕ, ◌≡◌, refl, sym, subst, inl, inr, Bool, true, false, List, [], ◌∷◌, Option, none, some, Text,
  if◌then◌else◌, Bool-cases, ◌>>=◌, pure, throw,
}
use book_guard_api.Books.Book.{Book}
use book_guard_api.Books.Memory.{not_found}
use book_guard_api.Books.Memory.Invariant.{
  Call, creates, updates, deletes, ensures, marks, enriches, covers,
}
use book_guard_api.Books.Rows.{find_row, row_at, is_some}
use book_guard_api.Books.Postgres
use book_guard_api.Books.Postgres.{
  BookRow, EditionRow, CoverRow, Tables, Database, Stores, empty_tables, after_statement, run_on,
  exec, or_missing, insert_book, update_book, update_found, delete_book, is_legal_isbn, truncated,
}
use book_guard_api.Books.Postgres.Editions
use book_guard_api.Books.Postgres.Editions.{
  edition_key, cover_key, insert_edition, upsert_cover, cover_row, flag_cover, mark_has_cover,
  nothing, transaction, or_rolled_back,
}
use book_guard_api.Books.Postgres.Instance.{postgres_repository}
use book_guard_api.Books.Postgres.Steps.{
  with_book, without_book, with_book-state, without_book-state, call_on,
}
use book_guard_api.Books.Postgres.Steps.Traces.{answers}
use book_guard_api.Books.Postgres.Faults.Flags.{
  IsFlagged, Keeps, StatementKeeps, exec-Keeps, bind-Keeps, same_flags, insert_edition-Keeps,
  save_cover-Keeps,
}

insert_book-Keeps : (r : BookRow) → StatementKeeps (insert_book r)
unfolding insert_book
insert_book-Keeps r t k = elim (Bool-cases (is_legal_isbn r.isbn)) [
  | inl legal ↦ elim (Bool-cases (is_some (row_at (λ q. q.id) r.id t.books))) [
    | inl taken ↦ rw (legal, taken) k
    | inr free ↦ rw (legal, free) (same_flags t _ refl refl k)
  ]
  | inr illegal ↦ rw illegal k
]

update_found-Keeps :
    (user : Text) (b : Book) (now : ℕ) (t : Tables) (o : Option BookRow)
    → IsFlagged t
    → IsFlagged (update_found user b now t o).1
update_found-Keeps user b now t none k = k
update_found-Keeps user b now t (some r) k = elim (Bool-cases (is_legal_isbn b.isbn)) [
  | inl legal ↦ rw legal (same_flags t _ refl refl k)
  | inr illegal ↦ rw illegal k
]

update_book-Keeps : (user : Text) (b : Book) (now : ℕ) → StatementKeeps (update_book user b now)
unfolding update_book
update_book-Keeps user b now t k = update_found-Keeps user b now t _ k

delete_book-Keeps : (user id : Text) → StatementKeeps (delete_book user id)
unfolding delete_book
delete_book-Keeps user id t k = same_flags t _ refl refl k

create-Keeps :
    (id : Text) (now : ℕ) (user : Text) (b : Book) → Keeps (Postgres.create id now user b)
unfolding Postgres.create
create-Keeps id now user b = bind-Keeps _ _ (exec-Keeps _ _ (insert_book-Keeps _)) (λ _ db. refl)

update-Keeps : (now : ℕ) (user : Text) (b : Book) → Keeps (Postgres.update now user b)
unfolding Postgres.update
update-Keeps now user b = bind-Keeps _ _ (exec-Keeps _ _ (update_book-Keeps user b _)) idle
  where
    idle :
        (a : Option ℕ) (db : Database)
        → ((or_missing a >>= λ at.
              pure (record b { user_id = user; created_at = at; updated_at = truncated now }))
            db).1.tables
          ≡ db.tables
    idle none db = refl
    idle (some at) db = refl

delete-Keeps : (user id : Text) → Keeps (Postgres.delete user id)
unfolding Postgres.delete
delete-Keeps user id = bind-Keeps _ _ (exec-Keeps _ _ (delete_book-Keeps user id)) idle
  where
    idle :
        (a : Bool) (db : Database)
        → ((if a then pure tt else throw not_found) db).1.tables ≡ db.tables
    idle true db = refl
    idle false db = refl

with_book-Keeps : (act : Stores Book) → Keeps act → Keeps (λ db. with_book (act db))
with_book-Keeps act keeps db k =
    subst (λ (d : Database). IsFlagged d.tables) (sym (with_book-state (act db))) (keeps db k)

without_book-Keeps : (act : Stores (Unit {0})) → Keeps act → Keeps (λ db. without_book (act db))
without_book-Keeps act keeps db k =
    subst (λ (d : Database). IsFlagged d.tables) (sym (without_book-state (act db))) (keeps db k)

upserts-Keeps :
    (what isbn : Text) (new : EditionRow) (f : EditionRow → EditionRow)
    → new.isbn ≡ isbn
    → new.has_cover ≡ false
    → ((r : EditionRow) → (f r).isbn ≡ r.isbn)
    → ((r : EditionRow) → (f r).has_cover ≡ r.has_cover)
    → Keeps (λ db. without_book (exec what (insert_edition isbn new f) db))
upserts-Keeps what isbn new f named bare same kept =
    without_book-Keeps _ (exec-Keeps what _ (insert_edition-Keeps isbn new f named bare same kept))

call_on-Keeps : (c : Call) → Keeps (call_on postgres_repository c)
unfolding call_on Editions.ensure_edition Editions.mark_edition_pending Editions.save_enrichment
call_on-Keeps (creates id now user b) = with_book-Keeps _ (create-Keeps id now user b)
call_on-Keeps (updates now user b) = with_book-Keeps _ (update-Keeps now user b)
call_on-Keeps (deletes user id) = without_book-Keeps _ (delete-Keeps user id)
call_on-Keeps (ensures isbn) = upserts-Keeps _ isbn _ _ refl refl (λ r. refl) (λ r. refl)
call_on-Keeps (marks isbn) = upserts-Keeps _ isbn _ _ refl refl (λ r. refl) (λ r. refl)
call_on-Keeps (enriches now isbn none status) =
    upserts-Keeps _ isbn _ _ refl refl (λ r. refl) (λ r. refl)
call_on-Keeps (enriches now isbn (some m) status) =
    upserts-Keeps _ isbn _ _ refl refl (λ r. refl) (λ r. refl)
call_on-Keeps (covers isbn c) = without_book-Keeps _ (save_cover-Keeps 0 isbn c)

answers-Keeps :
    (calls : List Call) (db : Database)
    → IsFlagged db.tables
    → IsFlagged (answers postgres_repository calls db).1.tables
unfolding answers
answers-Keeps [] db k = k
answers-Keeps (c ∷ calls) db k =
    answers-Keeps calls (call_on postgres_repository c db).1 (call_on-Keeps c db k)

empty-IsFlagged : IsFlagged empty_tables
unfolding row_at find_row
empty-IsFlagged = record { one_edition = tt; one_cover = tt; flags = λ isbn. refl }

-- Whatever calls follow each other from empty tables on, and whichever of their statements fail, no
-- ISBN has two editions or two covers, and an edition is flagged to have a cover exactly if one is
-- stored.
pub answers-IsFlagged :
    (calls : List Call) (faults : List (Option Text))
    → IsFlagged
        (answers postgres_repository calls
          (record { tables = empty_tables; faults = faults })).1.tables
answers-IsFlagged calls faults =
    answers-Keeps calls (record { tables = empty_tables; faults = faults }) empty-IsFlagged
