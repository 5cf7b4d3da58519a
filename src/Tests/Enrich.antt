-- ===== src/Tests/Enrich.antt =====
-- The theorems of Enrich and Server, applied to a worker on the sample library.
use book_guard_api.Base.{
  ℕ, ◌≡◌, ◌≢◌, ◌⊎◌, refl, ap, sym, ◌∙◌, suc, Bool, true, false, [], ◌∷◌, In, All, length, Option,
  some, Text, codes, ◌==◌, lookup, insert, erase, pos, text_lt, ascii_table, ok, err,
}
use book_guard_api.Enrich.Provider.{
  Status, pending, enriched, failed, not_found, no_cover, Provider,
}
use book_guard_api.Enrich.Worker.{
  Options, new_worker, is_in_flight, mark_in_flight, unmark_in_flight, try_send, enqueue, reconcile,
  process,
}
use book_guard_api.Enrich.Worker.Queue.{IsFull}
use book_guard_api.Enrich.Worker.Jobs.{
  Crew, idle_crew, marks, sends, Reaches, start, then_step, IsSound,
}
use book_guard_api.Enrich.Worker.Jobs.Sound.{Reaches-IsSound}
use book_guard_api.Books.Memory.{owned_book, get}
use book_guard_api.Books.Memory.Editions.{edition_status, edition_or, pending_enrichment}
use book_guard_api.Books.Memory.Names.{enriched_book}
use book_guard_api.Books.Memory.Pending.{Waiting}
use book_guard_api.Books.Memory.Instance.{memory_repository}
use book_guard_api.Books.Handlers.{refresh}
use book_guard_api.Books.Requests.{MemoryServer}
use book_guard_api.Server.{memory_enrich_store, worker_enqueuer}
use book_guard_api.Server.Process.{process-failed}
use book_guard_api.Server.Recorded.{recorded, IsConsistent, process-found}
use book_guard_api.Server.Backup.{Backed, process-fallback}
use book_guard_api.Enrich.Fallback.{fallback_provider}
use book_guard_api.Server.Sweep.{reconcile_lem, refresh_lem}
use book_guard_api.Tests.Samples.{
  ada, dune_isbn, dune, dune_metadata, dune_cover, waiting_edition, library, fresh_library,
}

abbrev small : Options
small = record { workers = pos 1; queue_size = pos 1; sweep_every = pos 0 }

abbrev other_isbn : Text
other_isbn = codes "080442957X"

-- Providers whose outside world counts the calls.
abbrev knowing : Provider ℕ
knowing = record {
  lookup_isbn = λ isbn n. (ok dune_metadata, suc n);
  fetch_cover = λ isbn n. (ok dune_cover, suc n);
}

abbrev ignorant : Provider ℕ
ignorant = record {
  lookup_isbn = λ isbn n. (err not_found, suc n);
  fetch_cover = λ isbn n. (err no_cover, suc n);
}

-- The second ISBN finds the queue of one full and is dropped without a mark.
drops_the_second :
    enqueue other_isbn (enqueue dune_isbn (new_worker small)) ≡ enqueue dune_isbn (new_worker small)
unfolding enqueue mark_in_flight try_send unmark_in_flight is_in_flight new_worker lookup insert
    erase ◌==◌
drops_the_second = refl

not_in_flight : is_in_flight dune_isbn (new_worker small) ≡ false
unfolding is_in_flight new_worker lookup
not_in_flight = refl

-- A caller has marked an ISBN and sent it.
abbrev marked_crew : Crew
marked_crew = record (idle_crew small) {
  worker = record (new_worker small) { in_flight = (dune_isbn, true) ∷ [] };
  sending = dune_isbn ∷ [];
}

abbrev sent_crew : Crew
sent_crew = record (idle_crew small) {
  worker = record (new_worker small) { queue = dune_isbn ∷ []; in_flight = (dune_isbn, true) ∷ [] };
}

sent : Reaches (idle_crew small) sent_crew
unfolding mark_in_flight is_in_flight try_send new_worker lookup insert
sent =
    then_step (then_step start (marks dune_isbn marked_crew.worker refl refl refl))
      (sends dune_isbn [] [] sent_crew.worker refl refl refl)

Reaches-IsSound_example : IsSound sent_crew
Reaches-IsSound_example = Reaches-IsSound small sent

enriched_already : edition_status dune_isbn library ≡ some enriched
unfolding edition_status lookup ◌==◌
enriched_already = refl

waits : edition_status dune_isbn fresh_library ≡ some pending
unfolding edition_status lookup ◌==◌
waits = refl

abbrev is_done : Option Status → Bool
is_done (some enriched) = true
is_done _ = false

not_yet : edition_status dune_isbn fresh_library ≢ some enriched
not_yet h = let e : false ≡ true = ap is_done (sym waits ∙ h) in absurd (cc e)

held_dune : owned_book (codes "ada") (codes "b1") fresh_library ≡ some dune
unfolding owned_book lookup ◌==◌
held_dune = refl

abbrev is_dune : Text → Bool
is_dune isbn = isbn == dune_isbn

two_isbns : dune_isbn ≢ other_isbn
unfolding ◌==◌
two_isbns h = let e : true ≡ false = ap is_dune h in absurd (cc e)

process-failed_example :
    let (after, calls) = process memory_enrich_store ignorant 60 dune_isbn (fresh_library, 0) in
    (lookup dune_isbn after.editions
      ≡ some (record (edition_or failed (lookup dune_isbn fresh_library.editions)) {
        status = failed;
      }))
    × (lookup other_isbn after.editions ≡ lookup other_isbn fresh_library.editions)
    × (after.books ≡ fresh_library.books)
    × (after.covers ≡ fresh_library.covers)
    × (calls ≡ 1)
process-failed_example =
    process-failed ignorant 60 dune_isbn fresh_library 0 not_found 1 other_isbn not_yet refl
      two_isbns

process-found_example :
    let ((after, seen), calls) =
      process (recorded memory_enrich_store) knowing 60 dune_isbn ((fresh_library, []), 0) in
    (process memory_enrich_store knowing 60 dune_isbn (fresh_library, 0) ≡ (after, calls))
    × (edition_status dune_isbn after ≡ some enriched)
    × (lookup dune_isbn after.covers ≡ some dune_cover)
    × In after seen
    × All (IsConsistent knowing 60 dune_isbn fresh_library 0 (ok dune_cover)) seen
    × (get (codes "ada") (codes "b1") after
        ≡ ok (enriched_book 60 dune_metadata enriched true dune))
    × (calls ≡ 2)
process-found_example =
    process-found knowing 60 dune_isbn fresh_library 0 dune_metadata (ok dune_cover) 1 2
      (codes "ada") (codes "b1") dune not_yet refl refl held_dune refl refl

dune_waits : Waiting fresh_library.editions dune_isbn
unfolding lookup ◌==◌
dune_waits = (waiting_edition, refl, refl)

reconcile_lem_example :
    let (w, s) = reconcile memory_enrich_store (new_worker small) fresh_library in
    ((is_in_flight dune_isbn w ≡ true)
      ⊎ IsFull w
      ⊎ ((length (pending_enrichment (pos 100) fresh_library) ≡ 100)
          × All (λ t. text_lt t dune_isbn ≡ true) (pending_enrichment (pos 100) fresh_library)))
    × (s ≡ fresh_library)
unfolding lookup
reconcile_lem_example =
    reconcile_lem (new_worker small) fresh_library dune_isbn (refl, tt) refl dune_waits

abbrev worker_server : MemoryServer worker_enqueuer ascii_table
worker_server = record { store = library; jobs = new_worker small }

held_in_library : owned_book (codes "ada") (codes "b1") library ≡ some dune
unfolding owned_book lookup ◌==◌
held_in_library = refl

refresh_lem_example :
    let (answer, after) =
      refresh memory_repository worker_enqueuer (some ada) (codes "b1") worker_server in
    (answer ≡ ok (record { status = codes "queued"; isbn = dune_isbn }))
    × (edition_status dune_isbn after.store ≡ some pending)
    × ((is_in_flight dune_isbn after.jobs ≡ true) ⊎ IsFull after.jobs)
refresh_lem_example =
    refresh_lem ascii_table worker_server (some ada) (codes "ada") (codes "b1") dune refl
      held_in_library refl

-- The primary provider knows nothing, so the job takes four calls.
process-fallback_example :
    let (after, calls) =
      process memory_enrich_store
        (fallback_provider ignorant knowing)
        60
        dune_isbn
        (fresh_library, 0) in
    (edition_status dune_isbn after ≡ some enriched)
    × Backed ignorant knowing 60 dune_isbn fresh_library 0 1 2 3 4
        (err no_cover)
        (ok dune_cover)
        after
        calls
process-fallback_example =
    process-fallback ignorant knowing 60 dune_isbn fresh_library 0 1 2 3 4 not_found dune_metadata
      (err no_cover) (ok dune_cover) not_yet refl refl refl refl
