-- ===== src/Books/Postgres/Routes.antt =====
-- The handlers of internal/books/handlers.go on either store.
pub mod Calls
pub mod Served
pub mod Refreshed
pub mod Patched
use book_guard_api.Base.{
  ℕ, ◌≡◌, refl, sym, ap, ◌∙◌, subst, inl, inr, Bool, true, false, [], ◌∷◌, Option, none, some, Text,
  ◌==◌, eq_iff, is_empty, lookup, insert, erase, lookup-insert, lookup-erase, CaseTable, Result, ok,
  err, Action, and_then, ◌>>=◌, ◌>>◌, pure, throw, Option-cases, Bool-cases, if◌then◌else◌, arith,
}
use book_guard_api.Auth.{Identity}
use book_guard_api.Http.{HttpError}
use book_guard_api.Books.Book.{Book}
use book_guard_api.Books.Isbn.{canonical_isbn}
use book_guard_api.Books.Memory
use book_guard_api.Books.Memory.{StoreError, MemoryStore}
use book_guard_api.Books.Memory.Editions
use book_guard_api.Books.Memory.Instance.{memory_repository}
use book_guard_api.Books.Repository.{Enqueuer}
use book_guard_api.Books.Handlers
use book_guard_api.Books.Handlers.{
  BookWrite, Server, stored, on_store, returned, require_user, enqueue_enrichment,
}
use book_guard_api.Books.Postgres
use book_guard_api.Books.Postgres.{Tables, Database, is_legal_isbn, truncated}
use book_guard_api.Books.Postgres.Editions as PostgresEditions
use book_guard_api.Books.Postgres.Instance.{postgres_repository}
use book_guard_api.Books.Postgres.Mirrors.{healthy, Mirrors}
use book_guard_api.Books.Postgres.Mirrors.Reads.{
  get-Mirrors, cover_for_book-Mirrors, without_source,
}

-- The books of a store have ISBNs that the books table takes.
abbrev pub AllLegal : MemoryStore → Type 0
AllLegal s = (id : Text) (b : Book) → lookup id s.books ≡ some b → is_legal_isbn b.isbn ≡ true

-- Both answer the same, and hold the same after it.
abbrev pub FollowsAs :
    {A : Type 0} → Result StoreError A × Database → Result StoreError A × MemoryStore → Type 0
FollowsAs r r' = (r.0 ≡ r'.0) × (t : Tables) × (r.1 ≡ healthy t) × Mirrors t r'.1 × AllLegal r'.1

module _ (queue : Enqueuer) where
  abbrev pub PostgresServer : Type 0
  PostgresServer = Server postgres_repository queue

  abbrev pub MemoryServer : Type 0
  MemoryServer = Server memory_repository queue

  pub record Related (p : PostgresServer) (q : MemoryServer) : Type 0 where
    pub tables : Tables
    pub in_tables : p.store ≡ healthy tables
    pub mirrored : Mirrors tables q.store
    pub legal : AllLegal q.store
    pub same_jobs : p.jobs ≡ q.jobs

  abbrev pub Same :
      {A : Type 0}
      → Result HttpError A × PostgresServer
      → Result HttpError A × MemoryServer
      → Type 0
  Same r r' = (r.0 ≡ r'.0) × Related r.1 r'.1

  stored-Same :
      {A : Type 0} (f : StoreError → HttpError) (jobs jobs' : queue.Jobs)
      (r : Result StoreError A × Database) (r' : Result StoreError A × MemoryStore)
      → jobs ≡ jobs'
      → FollowsAs r r'
      → Same (stored postgres_repository queue f jobs r) (stored memory_repository queue f jobs' r')
  stored-Same f jobs jobs' (ok a, db) (ok b, s) same (answers, t, left, m, l) =
      let e : a ≡ b = ground (arith, answers) in
      (ap ok e, record { tables = t; in_tables = left; mirrored = m; legal = l; same_jobs = same })
  stored-Same f jobs jobs' (ok a, db) (err d, s) same (answers, t, left, m, l) = cc
  stored-Same f jobs jobs' (err e, db) (ok b, s) same (answers, t, left, m, l) = cc
  stored-Same f jobs jobs' (err e, db) (err d, s) same (answers, t, left, m, l) =
      let h : e ≡ d = ground (arith, answers) in
      (
        ap (λ x. err (f x)) h,
        record { tables = t; in_tables = left; mirrored = m; legal = l; same_jobs = same },
      )

  pub on_store-Same :
      {A : Type 0} (f : StoreError → HttpError) (op : Action Database StoreError A)
      (op' : Action MemoryStore StoreError A) (p : PostgresServer) (q : MemoryServer)
      → ((t : Tables) → Mirrors t q.store → FollowsAs (op (healthy t)) (op' q.store))
      → Related p q
      → Same (on_store postgres_repository queue f op p) (on_store memory_repository queue f op' q)
  on_store-Same f op op' p q follows r =
      stored-Same f p.jobs q.jobs (op p.store) (op' q.store) r.same_jobs (
        subst (λ db. FollowsAs (op db) (op' q.store)) (sym r.in_tables)
          (follows r.tables r.mirrored))

  pub bind-Same :
      {A B : Type 0} (x : Result HttpError A × PostgresServer)
      (y : Result HttpError A × MemoryServer) (k : A → Action PostgresServer HttpError B)
      (k' : A → Action MemoryServer HttpError B)
      → Same x y
      → ((a : A) (p : PostgresServer) (q : MemoryServer)
          → y ≡ (ok a, q)
          → Related p q
          → Same (k a p) (k' a q))
      → Same (and_then x k) (and_then y k')
  bind-Same (ok a, p) (ok b, q) k k' (same, r) rest =
      let e : b ≡ a = ground (arith, same) in
      subst (λ c. Same (k a p) (k' c q)) (sym e) (rest a p q (ap (λ c. (ok c, q)) e) r)
  bind-Same (ok a, p) (err d, q) k k' (same, r) rest = cc
  bind-Same (err e, p) (ok b, q) k k' (same, r) rest = cc
  bind-Same (err e, p) (err d, q) k k' (same, r) rest =
      let h : e ≡ d = ground (arith, same) in (ap err h, r)
