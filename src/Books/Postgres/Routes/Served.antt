-- ===== src/Books/Postgres/Routes/Served.antt =====
-- A request of internal/books/handlers.go to a server on PostgreSQL and to one on the memory store.
use book_guard_api.Base.{
  ℕ, ◌≡◌, refl, sym, ap, ◌∙◌, subst, inl, inr, true, Option, none, Text, codes, is_empty, lookup,
  CaseTable, Result, ok, err, ◌>>=◌, pure, Result-cases, Bool-cases, arith,
}
use book_guard_api.Auth.{Identity}
use book_guard_api.Http.{HttpError}
use book_guard_api.Books.Book.{Book}
use book_guard_api.Books.Isbn.{canonical_isbn}
use book_guard_api.Books.Memory.{StoreError, MemoryStore}
use book_guard_api.Books.Memory.Instance.{memory_repository}
use book_guard_api.Books.Repository.{Repository, Enqueuer}
use book_guard_api.Books.Handlers
use book_guard_api.Books.Handlers.{
  BookWrite, to_book, CoverOutput, RefreshOutput, Server, Handles, subject_of, isbn_from_input,
  as_unprocessable, stored, on_store, returned, after_ensure, enqueue_enrichment, enqueued,
  missing_or, server_error, unprocessable, set_cover_url,
}
use book_guard_api.Books.Postgres.{Database, is_legal_isbn, truncated}
use book_guard_api.Books.Postgres.Constraint.{canonical_isbn-is_legal_isbn}
use book_guard_api.Books.Postgres.Instance.{postgres_repository}
use book_guard_api.Books.Postgres.Routes.{
  FollowsAs, PostgresServer, MemoryServer, Related, Same, on_store-Same, bind-Same,
}
use book_guard_api.Books.Postgres.Routes.Calls.{
  get-FollowsAs, create-FollowsAs, delete-FollowsAs, ensure-FollowsAs,
}

pub accepted_isbn :
    (table : CaseTable) (raw isbn : Text)
    → isbn_from_input table raw ≡ ok isbn
    → is_legal_isbn isbn ≡ true
unfolding isbn_from_input
accepted_isbn table raw isbn h = elim (Result-cases (canonical_isbn table raw)) [
  | inl (good, is) ↦ canonical_isbn-is_legal_isbn table raw isbn (ground (arith, is, rw is at h))
  | inr (e, is) ↦ absurd (cc (rw is at h))
]

module _ (queue : Enqueuer) where
  -- The ends of the handlers, over any repository.
  abbrev pub fetched :
      (repo : Repository) → (StoreError → HttpError) → Text → Text → Handles repo queue Book
  fetched repo f user id = on_store repo queue f (repo.get user id) >>= λ b. pure (set_cover_url b)

  pub fetched-Same :
      (f : StoreError → HttpError) (user id : Text) (p : PostgresServer queue)
      (q : MemoryServer queue)
      → Related queue p q
      → Same queue (fetched postgres_repository f user id p) (fetched memory_repository f user id q)
  fetched-Same f user id p q r =
      bind-Same queue (on_store postgres_repository queue f (postgres_repository.get user id) p)
        (on_store memory_repository queue f (memory_repository.get user id) q)
        (λ b. pure (set_cover_url b)) (λ b. pure (set_cover_url b))
        (on_store-Same queue f (postgres_repository.get user id) (memory_repository.get user id) p q
          (λ t m. get-FollowsAs t q.store m r.legal user id) r)
        (λ b p' q' is r'. (refl, r'))

  pub get-Same :
      (who : Option Identity) (id : Text) (p : PostgresServer queue) (q : MemoryServer queue)
      → Related queue p q
      → Same queue
          (Handlers.get postgres_repository queue who id p)
          (Handlers.get memory_repository queue who id q)
  unfolding Handlers.get
  get-Same who id p q r =
      let f = missing_or (codes "book not found") (codes "could not fetch book") in
      bind-Same queue (subject_of who, p) (subject_of who, q)
        (λ user. fetched postgres_repository f user id)
        (λ user. fetched memory_repository f user id) (refl, r)
        (λ user p' q' is r'. fetched-Same f user id p' q' r')

  pub delete-Same :
      (who : Option Identity) (id : Text) (p : PostgresServer queue) (q : MemoryServer queue)
      → Related queue p q
      → Same queue
          (Handlers.delete postgres_repository queue who id p)
          (Handlers.delete memory_repository queue who id q)
  unfolding Handlers.delete
  delete-Same who id p q r =
      let f = missing_or (codes "book not found") (codes "could not delete book") in
      bind-Same queue (subject_of who, p) (subject_of who, q)
        (λ user. on_store postgres_repository queue f (postgres_repository.delete user id))
        (λ user. on_store memory_repository queue f (memory_repository.delete user id)) (refl, r)
        (λ user p' q' is r'.
          on_store-Same queue f (postgres_repository.delete user id)
            (memory_repository.delete user id) p' q'
            (λ t m. delete-FollowsAs t q'.store m r'.legal user id) r')

  after_ensure-Related :
      (isbn : Text) (jobs jobs' : queue.Jobs) (r : Result StoreError (Unit {0}) × Database)
      (r' : Result StoreError (Unit {0}) × MemoryStore)
      → jobs ≡ jobs'
      → FollowsAs r r'
      → Related queue
          (after_ensure postgres_repository queue isbn jobs r)
          (after_ensure memory_repository queue isbn jobs' r')
  after_ensure-Related isbn jobs jobs' (ok a, db) (ok b, s) same (answers, t, left, m, l) = record {
    tables = t;
    in_tables = left;
    mirrored = m;
    legal = l;
    same_jobs = ap (queue.enqueue isbn) same;
  }
  after_ensure-Related isbn jobs jobs' (ok a, db) (err d, s) same (answers, t, left, m, l) = cc
  after_ensure-Related isbn jobs jobs' (err e, db) (ok b, s) same (answers, t, left, m, l) = cc
  after_ensure-Related isbn jobs jobs' (err e, db) (err d, s) same (answers, t, left, m, l) =
      record { tables = t; in_tables = left; mirrored = m; legal = l; same_jobs = same }

  pub enqueue_enrichment-Same :
      (isbn : Text) (p : PostgresServer queue) (q : MemoryServer queue)
      → Related queue p q
      → Same queue
          (enqueue_enrichment postgres_repository queue isbn p)
          (enqueue_enrichment memory_repository queue isbn q)
  unfolding enqueue_enrichment
  enqueue_enrichment-Same isbn p q r = elim (Bool-cases (is_empty isbn)) [
    | inl bare ↦ rw bare (refl, r)
    | inr filled ↦ rw filled (
      refl,
      after_ensure-Related isbn p.jobs q.jobs (postgres_repository.ensure_edition isbn p.store)
          (memory_repository.ensure_edition isbn q.store) r.same_jobs
          (subst
            (λ (db : Database).
              FollowsAs (postgres_repository.ensure_edition isbn db)
                (memory_repository.ensure_edition isbn q.store))
            (sym r.in_tables) (ensure-FollowsAs r.tables q.store r.mirrored r.legal isbn)),
    )
  ]

  -- What follows `Create` in the handler of POST.
  abbrev created : (repo : Repository) → Text → Book → Handles repo queue Book
  created repo user b = enqueue_enrichment repo queue b.isbn >>= λ _.
      fetched repo (λ _. server_error (codes "could not fetch book")) user b.id

  abbrev creating :
      (repo : Repository) → Text → ℕ → BookWrite → Text → Text → Handles repo queue Book
  creating repo id now body user isbn =
      on_store repo queue (λ _. server_error (codes "could not save book"))
        (repo.create id now user (record (to_book body) { isbn = isbn }))
      >>= λ b. created repo user b

  created-Same :
      (user : Text) (b : Book) (p : PostgresServer queue) (q : MemoryServer queue)
      → Related queue p q
      → Same queue (created postgres_repository user b p) (created memory_repository user b q)
  created-Same user b p q r =
      let f = λ (e : StoreError). server_error (codes "could not fetch book") in
      bind-Same queue (enqueue_enrichment postgres_repository queue b.isbn p)
        (enqueue_enrichment memory_repository queue b.isbn q)
        (λ _. fetched postgres_repository f user b.id) (λ _. fetched memory_repository f user b.id)
        (enqueue_enrichment-Same b.isbn p q r) (λ _ p' q' is r'. fetched-Same f user b.id p' q' r')

  creating-Same :
      (id : Text) (now : ℕ) (body : BookWrite) (user isbn : Text) (p : PostgresServer queue)
      (q : MemoryServer queue)
      → lookup id q.store.books ≡ none
      → is_legal_isbn isbn ≡ true
      → Related queue p q
      → Same queue
          (creating postgres_repository id now body user isbn p)
          (creating memory_repository id (truncated now) body user isbn q)
  creating-Same id now body user isbn p q fresh good r =
      let f = λ (e : StoreError). server_error (codes "could not save book") in
      let b = record (to_book body) { isbn = isbn } in
      bind-Same queue
        (on_store postgres_repository queue f (postgres_repository.create id now user b) p)
        (on_store memory_repository queue f (memory_repository.create id (truncated now) user b) q)
        (created postgres_repository user) (created memory_repository user)
        (on_store-Same queue f (postgres_repository.create id now user b)
          (memory_repository.create id (truncated now) user b) p q
          (λ t m. create-FollowsAs t q.store m r.legal id now user b fresh good refl) r)
        (λ a p' q' is r'. created-Same user a p' q' r')

  pub create-Same :
      (table : CaseTable) (id : Text) (now : ℕ) (who : Option Identity) (body : BookWrite)
      (p : PostgresServer queue) (q : MemoryServer queue)
      → lookup id q.store.books ≡ none
      → Related queue p q
      → Same queue
          (Handlers.create postgres_repository queue table id now who body p)
          (Handlers.create memory_repository queue table id (truncated now) who body q)
  unfolding Handlers.create
  create-Same table id now who body p q fresh r =
      bind-Same queue (subject_of who, p) (subject_of who, q)
        (λ user. returned postgres_repository queue (isbn_from_input table body.isbn) >>= λ isbn.
          creating postgres_repository id now body user isbn)
        (λ user. returned memory_repository queue (isbn_from_input table body.isbn) >>= λ isbn.
          creating memory_repository id (truncated now) body user isbn)
        (refl, r)
        (λ user p1 q1 is1 r1.
          bind-Same queue (isbn_from_input table body.isbn, p1)
            (isbn_from_input table body.isbn, q1)
            (λ isbn. creating postgres_repository id now body user isbn)
            (λ isbn. creating memory_repository id (truncated now) body user isbn) (refl, r1)
            (λ isbn p2 q2 is2 r2.
              creating-Same id now body user isbn p2 q2
                (subst (λ (srv : MemoryServer queue). lookup id srv.store.books ≡ none)
                  (ap (λ x. x.1) is1 ∙ ap (λ x. x.1) is2) fresh)
                (accepted_isbn table body.isbn isbn (ap (λ x. x.0) is2)) r2))
