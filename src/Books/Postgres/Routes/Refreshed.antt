-- ===== src/Books/Postgres/Routes/Refreshed.antt =====
-- Refresh and the cover of internal/books/handlers.go on either store.
use book_guard_api.Base.{
  ◌≡◌, refl, ap, subst, Option, Text, codes, is_empty, Result, ok, err, Action, and_then, ◌>>=◌,
  pure, if◌then◌else◌,
}
use book_guard_api.Auth.{Identity}
use book_guard_api.Http.{HttpError}
use book_guard_api.Books.Book.{Book}
use book_guard_api.Books.Memory.{StoreError, MemoryStore}
use book_guard_api.Books.Memory.Editions
use book_guard_api.Books.Memory.Instance.{memory_repository}
use book_guard_api.Books.Repository.{Repository, Enqueuer}
use book_guard_api.Books.Handlers
use book_guard_api.Books.Handlers.{
  BookWrite, to_book, CoverOutput, RefreshOutput, Server, Handles, subject_of, isbn_from_input,
  as_unprocessable, stored, on_store, returned, after_ensure, enqueue_enrichment, enqueued,
  missing_or, server_error, unprocessable, set_cover_url,
}
use book_guard_api.Books.Postgres.Instance.{postgres_repository}
use book_guard_api.Books.Postgres.Routes.{
  PostgresServer, MemoryServer, Related, Same, on_store-Same, bind-Same,
}
use book_guard_api.Books.Postgres.Routes.Calls.{get-FollowsAs, mark-FollowsAs}
use book_guard_api.Books.Handlers.{BookPatch, apply_to, given, canonical_patch, with_isbn}
use book_guard_api.Books.Postgres.Mirrors.Reads.{cover_for_book-Mirrors, without_source}
use book_guard_api.Enrich.Provider.{Cover}

module _ (queue : Enqueuer) where
  -- What follows `Get` in the handler of refresh.
  abbrev queued : (repo : Repository) → Text → Handles repo queue RefreshOutput
  queued repo isbn =
      on_store repo queue (λ _. server_error (codes "could not queue refresh"))
        (repo.mark_edition_pending isbn)
      >>= λ _.
          enqueued repo queue isbn >>= λ _. pure (record { status = codes "queued"; isbn = isbn })

  abbrev enrichable : Text → Result HttpError (Unit {0})
  enrichable isbn =
      if is_empty isbn then err (unprocessable (codes "book has no ISBN to enrich")) else ok tt

  abbrev refreshed : (repo : Repository) → Book → Handles repo queue RefreshOutput
  refreshed repo b = returned repo queue (enrichable b.isbn) >>= λ _. queued repo b.isbn

  queued-Same :
      (isbn : Text) (p : PostgresServer queue) (q : MemoryServer queue)
      → Related queue p q
      → Same queue (queued postgres_repository isbn p) (queued memory_repository isbn q)
  queued-Same isbn p q r =
      let f = λ (e : StoreError). server_error (codes "could not queue refresh") in
      bind-Same queue
        (on_store postgres_repository queue f (postgres_repository.mark_edition_pending isbn) p)
        (on_store memory_repository queue f (memory_repository.mark_edition_pending isbn) q)
        (λ _. enqueued postgres_repository queue isbn >>= λ _.
          pure (record { status = codes "queued"; isbn = isbn }))
        (λ _. enqueued memory_repository queue isbn >>= λ _.
          pure (record { status = codes "queued"; isbn = isbn }))
        (on_store-Same queue f (postgres_repository.mark_edition_pending isbn)
          (memory_repository.mark_edition_pending isbn) p q
          (λ t m. mark-FollowsAs t q.store m r.legal isbn) r)
        (λ _ p' q' is r'. (
          refl,
          record {
            tables = r'.tables;
            in_tables = r'.in_tables;
            mirrored = r'.mirrored;
            legal = r'.legal;
            same_jobs = ap (queue.enqueue isbn) r'.same_jobs;
          },
        ))

  pub refresh-Same :
      (who : Option Identity) (id : Text) (p : PostgresServer queue) (q : MemoryServer queue)
      → Related queue p q
      → Same queue
          (Handlers.refresh postgres_repository queue who id p)
          (Handlers.refresh memory_repository queue who id q)
  unfolding Handlers.refresh
  refresh-Same who id p q r =
      let f = missing_or (codes "book not found") (codes "could not fetch book") in
      bind-Same queue (subject_of who, p) (subject_of who, q)
        (λ user.
          on_store postgres_repository queue f (postgres_repository.get user id)
          >>= refreshed postgres_repository)
        (λ user.
          on_store memory_repository queue f (memory_repository.get user id)
          >>= refreshed memory_repository)
        (refl, r)
        (λ user p1 q1 is1 r1.
          bind-Same queue
            (on_store postgres_repository queue f (postgres_repository.get user id) p1)
            (on_store memory_repository queue f (memory_repository.get user id) q1)
            (refreshed postgres_repository) (refreshed memory_repository)
            (on_store-Same queue f (postgres_repository.get user id) (memory_repository.get user id)
              p1 q1 (λ t m. get-FollowsAs t q1.store m r1.legal user id) r1)
            (λ b p2 q2 is2 r2.
              bind-Same queue (enrichable b.isbn, p2) (enrichable b.isbn, q2)
                (λ _. queued postgres_repository b.isbn) (λ _. queued memory_repository b.isbn)
                (refl, r2) (λ _ p3 q3 is3 r3. queued-Same b.isbn p3 q3 r3)))

  -- A cover without its source makes the same response.
  abbrev cover_response : Cover → CoverOutput
  cover_response c = record {
    content_type = c.content_type;
    cache_control = codes "private, max-age=86400";
    etag = c.etag;
    body = c.bytes;
  }

  abbrev without_its_source : Text → Text → Action MemoryStore StoreError Cover
  without_its_source user id s = (without_source (Editions.cover_for_book user id s), s)

  abbrev covering :
      (repo : Repository) → (StoreError → HttpError) → Text → Text → Handles repo queue CoverOutput
  covering repo f user id =
      on_store repo queue f (repo.cover_for_book user id) >>= λ c. pure (cover_response c)

  drops_source :
      (f : StoreError → HttpError) (jobs : queue.Jobs) (r : Result StoreError Cover)
      (s : MemoryStore)
      → and_then
          (stored memory_repository queue f jobs (without_source r, s))
          (λ c. pure (cover_response c))
        ≡ and_then (stored memory_repository queue f jobs (r, s)) (λ c. pure (cover_response c))
  drops_source f jobs (ok c) s = refl
  drops_source f jobs (err e) s = refl

  covering-Same :
      (f : StoreError → HttpError) (user id : Text) (p : PostgresServer queue)
      (q : MemoryServer queue)
      → Related queue p q
      → Same queue
          (covering postgres_repository f user id p)
          (covering memory_repository f user id q)
  covering-Same f user id p q r =
      let op = without_its_source user id in
      subst (λ y. Same queue (covering postgres_repository f user id p) y)
        (drops_source f q.jobs (Editions.cover_for_book user id q.store) q.store)
        (bind-Same queue
          (on_store postgres_repository queue f (postgres_repository.cover_for_book user id) p)
          (on_store memory_repository queue f op q) (λ c. pure (cover_response c))
          (λ c. pure (cover_response c))
          (on_store-Same queue f (postgres_repository.cover_for_book user id) op p q
            (λ t m.
              let h = cover_for_book-Mirrors t q.store m user id in
              (ap (λ x. x.0) h, t, ap (λ x. x.1) h, m, r.legal))
            r)
          (λ c p' q' is r'. (refl, r')))

  pub cover-Same :
      (who : Option Identity) (id : Text) (p : PostgresServer queue) (q : MemoryServer queue)
      → Related queue p q
      → Same queue
          (Handlers.cover postgres_repository queue who id p)
          (Handlers.cover memory_repository queue who id q)
  unfolding Handlers.cover
  cover-Same who id p q r =
      let f = missing_or (codes "cover not found") (codes "could not fetch cover") in
      bind-Same queue (subject_of who, p) (subject_of who, q)
        (λ user. covering postgres_repository f user id)
        (λ user. covering memory_repository f user id) (refl, r)
        (λ user p' q' is r'. covering-Same f user id p' q' r')
