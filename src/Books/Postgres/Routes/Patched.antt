-- ===== src/Books/Postgres/Routes/Patched.antt =====
-- PATCH of internal/books/handlers.go on either store, and all routes together.
use book_guard_api.Base.{
  ℕ, ◌≡◌, refl, ap, subst, inl, inr, true, [], Option, none, some, Text, codes, ◌==◌, lookup,
  CaseTable, Result, ok, err, ◌>>=◌, pure, Result-cases, Bool-cases, if◌then◌else◌, arith,
}
use book_guard_api.Auth.{Identity}
use book_guard_api.Http.{HttpError}
use book_guard_api.Books.Book.{Book, apply_canonical_names}
use book_guard_api.Books.Memory
use book_guard_api.Books.Memory.{StoreError, MemoryStore}
use book_guard_api.Books.Memory.Instance.{memory_repository}
use book_guard_api.Books.Repository.{Repository, Enqueuer}
use book_guard_api.Books.Handlers
use book_guard_api.Books.Handlers.{
  BookWrite, to_book, CoverOutput, RefreshOutput, Server, Handles, subject_of, isbn_from_input,
  as_unprocessable, stored, on_store, returned, after_ensure, enqueue_enrichment, enqueued,
  missing_or, server_error, unprocessable, set_cover_url,
}
use book_guard_api.Books.Postgres
use book_guard_api.Books.Postgres.{Database, is_legal_isbn, truncated}
use book_guard_api.Books.Postgres.Instance.{postgres_repository}
use book_guard_api.Books.Postgres.Mirrors.{Mirrors}
use book_guard_api.Books.Postgres.Routes.{
  PostgresServer, MemoryServer, Related, Same, on_store-Same, bind-Same,
}
use book_guard_api.Books.Postgres.Routes.Calls.{get-FollowsAs}
use book_guard_api.Books.Handlers.{BookPatch, apply_to, given, canonical_patch, with_isbn}
use book_guard_api.Books.Memory.{apply_edition, merge_edition, MemEdition}
use book_guard_api.Books.Memory.Listing.{get-Listed}
use book_guard_api.Books.Postgres.Routes.{AllLegal}
use book_guard_api.Books.Postgres.Routes.Calls.{update-FollowsAs}
use book_guard_api.Books.Postgres.Routes.Served.{
  fetched, fetched-Same, enqueue_enrichment-Same, accepted_isbn, get-Same, delete-Same, create-Same,
}
use book_guard_api.Books.Postgres.Routes.Refreshed.{refresh-Same, cover-Same}

-- What PATCH may write back.
abbrev IsStorable : Book → Type 0
IsStorable b = (is_legal_isbn b.isbn ≡ true) × (b.cover_url ≡ [])

merge_edition-IsStorable :
    (b : Book) (o : Option MemEdition) → IsStorable b → IsStorable (merge_edition b o)
unfolding apply_canonical_names
merge_edition-IsStorable b none h = h
merge_edition-IsStorable b (some e) h = h

apply_edition-IsStorable :
    (s : MemoryStore) (b : Book) → IsStorable b → IsStorable (apply_edition s b)
unfolding apply_edition
apply_edition-IsStorable s b h = merge_edition-IsStorable b _ h

got-IsStorable :
    (user id : Text) (t : Postgres.Tables) (s : MemoryStore) (b : Book)
    → Mirrors t s
    → AllLegal s
    → Memory.get user id s ≡ ok b
    → IsStorable b
got-IsStorable user id t s b m l h =
    let (j, raw, held, own, merged) = get-Listed user s b id h in
    subst IsStorable merged (apply_edition-IsStorable s raw (l j raw held, (m.plain j raw held).0))

patched-IsStorable :
    (table : CaseTable) (body patch : BookPatch) (o : Option Text) (b : Book)
    → body.isbn ≡ o
    → canonical_patch table body o ≡ ok patch
    → IsStorable b
    → IsStorable (apply_to patch b)
unfolding apply_to
patched-IsStorable table body patch none b is h (good, bare) =
    let same : body ≡ patch = ground (arith, h) in (rw (← same, is) good, bare)
patched-IsStorable table body patch (some raw) b is h (good, bare) =
    elim (Result-cases (isbn_from_input table raw)) [
      | inl (isbn, accepted) ↦
          let same : record body { isbn = some isbn } ≡ patch = ground (arith, rw accepted at h) in
          (
            subst (λ (c : BookPatch). is_legal_isbn (given c.isbn b.isbn) ≡ true) same
                (accepted_isbn table raw isbn accepted),
            bare,
          )
      | inr (e, refused) ↦ absurd (cc (rw refused at h))
    ]

module _ (queue : Enqueuer) where
  stored-ok :
      {A : Type 0} (f : StoreError → HttpError) (jobs : queue.Jobs)
      (r : Result StoreError A × MemoryStore) (a : A) (q : MemoryServer queue)
      → stored memory_repository queue f jobs r ≡ (ok a, q)
      → r.0 ≡ ok a
  stored-ok f jobs (ok b, s) a q h = let e : b ≡ a = ground (arith, ap (λ x. x.0) h) in ap ok e
  stored-ok f jobs (err e, s) a q h = cc (ap (λ x. x.0) h)

  -- The handler of PATCH from `Get` on.
  abbrev repeated : (repo : Repository) → Text → Text → Book → Book → Handles repo queue Book
  repeated repo user id existing changed =
      (if changed.isbn == existing.isbn
        then pure tt
        else enqueue_enrichment repo queue changed.isbn)
      >>= λ _. fetched queue repo (λ _. server_error (codes "could not fetch book")) user id

  abbrev patching :
      (repo : Repository) → ℕ → Text → Text → Book → BookPatch → Handles repo queue Book
  patching repo now user id existing patch =
      on_store repo queue (missing_or (codes "book not found") (codes "could not update book"))
        (repo.update now user (apply_to patch existing))
      >>= repeated repo user id existing

  abbrev existing_patched :
      (repo : Repository) → CaseTable → ℕ → Text → Text → BookPatch → Book → Handles repo queue Book
  existing_patched repo table now user id body existing =
      returned repo queue (canonical_patch table body body.isbn)
      >>= patching repo now user id existing

  repeated-Same :
      (user id : Text) (existing changed : Book) (p : PostgresServer queue) (q : MemoryServer queue)
      → Related queue p q
      → Same queue
          (repeated postgres_repository user id existing changed p)
          (repeated memory_repository user id existing changed q)
  repeated-Same user id existing changed p q r =
      let f = λ (e : StoreError). server_error (codes "could not fetch book") in
      elim (Bool-cases (changed.isbn == existing.isbn)) [
        | inl same ↦ rw same (fetched-Same queue f user id p q r)
        | inr new ↦ rw new (
            bind-Same queue (enqueue_enrichment postgres_repository queue changed.isbn p)
              (enqueue_enrichment memory_repository queue changed.isbn q)
              (λ _. fetched queue postgres_repository f user id)
              (λ _. fetched queue memory_repository f user id)
              (enqueue_enrichment-Same queue changed.isbn p q r)
              (λ _ p' q' is r'. fetched-Same queue f user id p' q' r'))
      ]

  patching-Same :
      (now : ℕ) (user id : Text) (existing : Book) (patch : BookPatch) (p : PostgresServer queue)
      (q : MemoryServer queue)
      → IsStorable (apply_to patch existing)
      → Related queue p q
      → Same queue
          (patching postgres_repository now user id existing patch p)
          (patching memory_repository (truncated now) user id existing patch q)
  patching-Same now user id existing patch p q (good, bare) r =
      let f = missing_or (codes "book not found") (codes "could not update book") in
      let b = apply_to patch existing in
      bind-Same queue
        (on_store postgres_repository queue f (postgres_repository.update now user b) p)
        (on_store memory_repository queue f (memory_repository.update (truncated now) user b) q)
        (repeated postgres_repository user id existing)
        (repeated memory_repository user id existing)
        (on_store-Same queue f (postgres_repository.update now user b)
          (memory_repository.update (truncated now) user b) p q
          (λ t m. update-FollowsAs t q.store m r.legal now user b good bare) r)
        (λ changed p' q' is r'. repeated-Same user id existing changed p' q' r')

  pub update-Same :
      (table : CaseTable) (now : ℕ) (who : Option Identity) (id : Text) (body : BookPatch)
      (p : PostgresServer queue) (q : MemoryServer queue)
      → Related queue p q
      → Same queue
          (Handlers.update postgres_repository queue table now who id body p)
          (Handlers.update memory_repository queue table (truncated now) who id body q)
  unfolding Handlers.update
  update-Same table now who id body p q r =
      let f = missing_or (codes "book not found") (codes "could not fetch book") in
      bind-Same queue (subject_of who, p) (subject_of who, q)
        (λ user.
          on_store postgres_repository queue f (postgres_repository.get user id)
          >>= existing_patched postgres_repository table now user id body)
        (λ user.
          on_store memory_repository queue f (memory_repository.get user id)
          >>= existing_patched memory_repository table (truncated now) user id body)
        (refl, r)
        (λ user p1 q1 is1 r1.
          bind-Same queue
            (on_store postgres_repository queue f (postgres_repository.get user id) p1)
            (on_store memory_repository queue f (memory_repository.get user id) q1)
            (existing_patched postgres_repository table now user id body)
            (existing_patched memory_repository table (truncated now) user id body)
            (on_store-Same queue f (postgres_repository.get user id) (memory_repository.get user id)
              p1 q1 (λ t m. get-FollowsAs t q1.store m r1.legal user id) r1)
            (λ existing p2 q2 is2 r2.
              bind-Same queue (canonical_patch table body body.isbn, p2)
                (canonical_patch table body body.isbn, q2)
                (patching postgres_repository now user id existing)
                (patching memory_repository (truncated now) user id existing) (refl, r2)
                (λ patch p3 q3 is3 r3.
                  patching-Same now user id existing patch p3 q3
                    (patched-IsStorable table body patch body.isbn existing refl (ap (λ x. x.0) is3)
                      (got-IsStorable user id r1.tables q1.store existing r1.mirrored r1.legal (
                        stored-ok f q1.jobs (memory_repository.get user id q1.store) existing q2
                          is2)))
                    r3)))

  -- A server on PostgreSQL whose statements run, and one on a memory store that holds the same, with
  -- ISBNs that the books table takes and the same queue, give the same answer to each of six routes
  -- (GET /books, which lists, aside), and hold the same after it, if the id that POST draws is new
  -- and the second server's clock gives whole microseconds.
  pub routes-Same :
      (table : CaseTable) (now : ℕ) (who : Option Identity) (new_id id : Text) (body : BookWrite)
      (patch : BookPatch) (p : PostgresServer queue) (q : MemoryServer queue)
      → Related queue p q
      → lookup new_id q.store.books ≡ none
      → Same queue
          (Handlers.create postgres_repository queue table new_id now who body p)
          (Handlers.create memory_repository queue table new_id (truncated now) who body q)
        × Same queue
            (Handlers.get postgres_repository queue who id p)
            (Handlers.get memory_repository queue who id q)
        × Same queue
            (Handlers.update postgres_repository queue table now who id patch p)
            (Handlers.update memory_repository queue table (truncated now) who id patch q)
        × Same queue
            (Handlers.delete postgres_repository queue who id p)
            (Handlers.delete memory_repository queue who id q)
        × Same queue
            (Handlers.cover postgres_repository queue who id p)
            (Handlers.cover memory_repository queue who id q)
        × Same queue
            (Handlers.refresh postgres_repository queue who id p)
            (Handlers.refresh memory_repository queue who id q)
  routes-Same table now who new_id id body patch p q r fresh = (
    create-Same queue table new_id now who body p q fresh r,
    get-Same queue who id p q r,
    update-Same table now who id patch p q r,
    delete-Same queue who id p q r,
    cover-Same queue who id p q r,
    refresh-Same queue who id p q r,
  )
