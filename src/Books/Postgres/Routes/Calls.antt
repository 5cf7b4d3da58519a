-- ===== src/Books/Postgres/Routes/Calls.antt =====
-- The calls that the handlers of internal/books/handlers.go make, on either store.
use book_guard_api.Base.{
  ℕ, ◌≡◌, refl, ap, subst, inl, inr, true, [], none, Text, ◌==◌, lookup, insert, lookup-insert,
  lookup-erase, Result, ok, err, Option-cases, Bool-cases, arith,
}
use book_guard_api.Books.Book.{Book}
use book_guard_api.Books.Memory
use book_guard_api.Books.Memory.{StoreError, MemoryStore, stamped, owned_book}
use book_guard_api.Books.Memory.Editions
use book_guard_api.Books.Memory.Instance.{memory_repository}
use book_guard_api.Books.Postgres
use book_guard_api.Books.Postgres.{Tables, Database, is_legal_isbn, truncated}
use book_guard_api.Books.Postgres.Editions as PostgresEditions
use book_guard_api.Books.Postgres.Mirrors.{healthy, Mirrors}
use book_guard_api.Books.Postgres.Mirrors.Reads.{get-Mirrors}
use book_guard_api.Books.Postgres.Steps.{with_book, without_book, call_on, Follows}
use book_guard_api.Books.Postgres.Steps.Shelved.{create-Follows, update-Follows, delete-Follows}
use book_guard_api.Books.Postgres.Steps.Shared.{ensures-Follows, marks-Follows}
use book_guard_api.Books.Postgres.Routes.{AllLegal, FollowsAs}

with_book-FollowsAs :
    (r : Result StoreError Book × Database) (r' : Result StoreError Book × MemoryStore)
    → Follows (with_book r) (with_book r')
    → AllLegal r'.1
    → FollowsAs r r'
with_book-FollowsAs (ok a, db) (ok b, s) (same, t, left, m) l =
    (ground (arith, same), t, left, m, l)
with_book-FollowsAs (ok a, db) (err d, s) (same, t, left, m) l = cc
with_book-FollowsAs (err e, db) (ok b, s) (same, t, left, m) l = cc
with_book-FollowsAs (err e, db) (err d, s) (same, t, left, m) l =
    (ground (arith, same), t, left, m, l)

without_book-FollowsAs :
    (r : Result StoreError (Unit {0}) × Database) (r' : Result StoreError (Unit {0}) × MemoryStore)
    → Follows (without_book r) (without_book r')
    → AllLegal r'.1
    → FollowsAs r r'
without_book-FollowsAs (ok a, db) (ok b, s) (same, t, left, m) l = (refl, t, left, m, l)
without_book-FollowsAs (ok a, db) (err d, s) (same, t, left, m) l = cc
without_book-FollowsAs (err e, db) (ok b, s) (same, t, left, m) l = cc
without_book-FollowsAs (err e, db) (err d, s) (same, t, left, m) l =
    (ground (arith, same), t, left, m, l)

insert-AllLegal :
    (k : Text) (b : Book) (s : MemoryStore)
    → is_legal_isbn b.isbn ≡ true
    → AllLegal s
    → AllLegal (record s { books = insert k b s.books })
insert-AllLegal k b s good l id c h = elim (Bool-cases (k == id)) [
  | inl hit ↦
      let e : b ≡ c = ground (arith, lookup-insert k id b s.books, hit, h) in
      subst (λ (d : Book). is_legal_isbn d.isbn ≡ true) e good
  | inr miss ↦ l id c (ground (arith, lookup-insert k id b s.books, miss, h))
]

module _ (t : Tables) (s : MemoryStore) (m : Mirrors t s) (l : AllLegal s) where
  pub get-FollowsAs :
      (user id : Text)
      → FollowsAs (Postgres.get user id (healthy t)) (memory_repository.get user id s)
  get-FollowsAs user id =
      let h = get-Mirrors t s m user id in (ap (λ r. r.0) h, t, ap (λ r. r.1) h, m, l)

  pub create-FollowsAs :
      (id : Text) (now : ℕ) (user : Text) (b : Book)
      → lookup id s.books ≡ none
      → is_legal_isbn b.isbn ≡ true
      → b.cover_url ≡ []
      → FollowsAs
          (Postgres.create id now user b (healthy t))
          (memory_repository.create id (truncated now) user b s)
  unfolding call_on Memory.create stamped
  create-FollowsAs id now user b fresh good bare =
      with_book-FollowsAs _ _ (create-Follows t s m id now user b fresh good bare)
        (insert-AllLegal id (stamped id user (truncated now) b) s good l)

  update-AllLegal :
      (now : ℕ) (user : Text) (b : Book)
      → is_legal_isbn b.isbn ≡ true
      → AllLegal (Memory.update (truncated now) user b s).1
  unfolding Memory.update
  update-AllLegal now user b good = elim (Option-cases (owned_book user b.id s)) [
    | inl missing ↦ rw (missing, Memory.update) l
    | inr (old, held) ↦ rw (held, Memory.update) (insert-AllLegal b.id _ s good l)
  ]

  pub update-FollowsAs :
      (now : ℕ) (user : Text) (b : Book)
      → is_legal_isbn b.isbn ≡ true
      → b.cover_url ≡ []
      → FollowsAs
          (Postgres.update now user b (healthy t))
          (memory_repository.update (truncated now) user b s)
  unfolding call_on
  update-FollowsAs now user b good bare =
      with_book-FollowsAs _ _ (update-Follows t s m now user b good bare)
        (update-AllLegal now user b good)

  delete-AllLegal : (user id : Text) → AllLegal (Memory.delete user id s).1
  unfolding Memory.delete
  delete-AllLegal user id = elim (Option-cases (owned_book user id s)) [
    | inl missing ↦ rw (missing, Memory.delete) l
    | inr (old, held) ↦
        rw (held, Memory.delete) (λ j b h. l j b (ground (arith, lookup-erase id j s.books, h)))
  ]

  pub delete-FollowsAs :
      (user id : Text)
      → FollowsAs (Postgres.delete user id (healthy t)) (memory_repository.delete user id s)
  unfolding call_on
  delete-FollowsAs user id =
      without_book-FollowsAs _ _ (delete-Follows t s m user id) (delete-AllLegal user id)

  ensure-AllLegal : (isbn : Text) → AllLegal (Editions.ensure_edition isbn s)
  unfolding Editions.ensure_edition
  ensure-AllLegal isbn = elim (Option-cases (lookup isbn s.editions)) [
    | inl missing ↦ rw (missing, Editions.ensure_edition) l
    | inr (e, there) ↦ rw (there, Editions.ensure_edition) l
  ]

  pub ensure-FollowsAs :
      (isbn : Text)
      → FollowsAs
          (PostgresEditions.ensure_edition isbn (healthy t))
          (memory_repository.ensure_edition isbn s)
  unfolding call_on
  ensure-FollowsAs isbn =
      without_book-FollowsAs _ _ (ensures-Follows t s m isbn) (ensure-AllLegal isbn)

  pub mark-FollowsAs :
      (isbn : Text)
      → FollowsAs
          (PostgresEditions.mark_edition_pending isbn (healthy t))
          (memory_repository.mark_edition_pending isbn s)
  unfolding call_on Editions.mark_edition_pending
  mark-FollowsAs isbn = without_book-FollowsAs _ _ (marks-Follows t s m isbn) l
