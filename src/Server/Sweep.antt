-- ===== src/Server/Sweep.antt =====
-- The sweep of internal/enrich/worker.go over internal/books/store_memory.go, and the refresh route
-- of internal/books/handlers.go in front of the worker.
use book_guard_api.Base.{
  ◌≡◌, refl, ◌⊎◌, inl, inr, true, false, Option, some, Text, codes, text_lt, is_empty, pos,
  lookup-insert_self, IsDistinct, All, length, CaseTable, ok,
}
use book_guard_api.Auth.{Identity}
use book_guard_api.Enrich.Provider.{pending}
use book_guard_api.Enrich.Worker.{Worker, is_in_flight, reconcile}
use book_guard_api.Enrich.Worker.Queue.{IsFull, enqueue-serves, enqueue_all-serves}
use book_guard_api.Books.Book.{Book}
use book_guard_api.Books.Memory.{MemoryStore, owned_book}
use book_guard_api.Books.Memory.Editions.{edition_status, pending_enrichment, mark_edition_pending}
use book_guard_api.Books.Memory.Pending.{Waiting, pending_enrichment_lem}
use book_guard_api.Books.Memory.Reads.{get_of_owned, apply_edition-keeps}
use book_guard_api.Books.Memory.Instance.{memory_repository}
use book_guard_api.Books.Handlers.{subject_of, refresh}
use book_guard_api.Books.Requests.{MemoryServer}
use book_guard_api.Server.{memory_enrich_store, worker_enqueuer}
use book_guard_api.Server.Process.{edition_status_of}

-- After a sweep, an edition that waits for enrichment is in flight, or the queue is full, or the
-- sweep found its hundred ISBNs and all of them come before this one. The store is not changed.
pub reconcile_lem :
    (w : Worker) (s : MemoryStore) (isbn : Text)
    → IsDistinct s.editions
    → is_empty isbn ≡ false
    → Waiting s.editions isbn
    → ((is_in_flight isbn (reconcile memory_enrich_store w s).0 ≡ true)
        ⊎ IsFull (reconcile memory_enrich_store w s).0
        ⊎ ((length (pending_enrichment (pos 100) s) ≡ 100)
            × All (λ t. text_lt t isbn ≡ true) (pending_enrichment (pos 100) s)))
      × ((reconcile memory_enrich_store w s).1 ≡ s)
unfolding reconcile
reconcile_lem w s isbn d filled waits =
    let swept = (pending_enrichment_lem (pos 100) s d).3 isbn waits in
    (
      elim swept [
        | inl found ↦
            elim (enqueue_all-serves (pending_enrichment (pos 100) s) w isbn filled found) [
              | inl flying ↦ inl flying
              | inr full ↦ inr (inl full)
            ]
        | inr (limited, cut, above) ↦ inr (inr (cut, above))
      ],
      refl,
    )

module _ (table : CaseTable) (srv : MemoryServer worker_enqueuer table) where
  -- A refresh of a book with an ISBN answers "queued" with that ISBN. The edition is pending after
  -- it whatever it was before, and the ISBN is in flight, unless the queue was full.
  pub refresh_lem :
      (who : Option Identity) (user id : Text) (b : Book)
      → subject_of who ≡ ok user
      → owned_book user id srv.store ≡ some b
      → is_empty b.isbn ≡ false
      → let (answer, after) = refresh memory_repository worker_enqueuer who id srv in
        (answer ≡ ok (record { status = codes "queued"; isbn = b.isbn }))
        × (edition_status b.isbn after.store ≡ some pending)
        × ((is_in_flight b.isbn after.jobs ≡ true) ⊎ IsFull after.jobs)
  unfolding refresh mark_edition_pending
  refresh_lem who user id b known held filled =
      let kept = (apply_edition-keeps srv.store b).2 in
      rw (known, get_of_owned user id srv.store held, kept, filled)
        (
          refl,
          edition_status_of b.isbn (mark_edition_pending b.isbn srv.store)
              (lookup-insert_self b.isbn _ srv.store.editions),
          enqueue-serves b.isbn srv.jobs filled,
        )
