-- ===== src/Tests/Postgres.antt =====
-- The theorems of Books/Postgres, applied to the sample library.
use book_guard_api.Base.{
  ascii_table, ◌≡◌, refl, [], ◌∷◌, map, none, some, codes, ◌==◌, lookup, insert, err,
}
use book_guard_api.Books.Memory
use book_guard_api.Books.Memory.{MemoryStore, broken, new_memory_store, stamped}
use book_guard_api.Books.Memory.Editions
use book_guard_api.Books.Memory.Invariant.{covers}
use book_guard_api.Books.Memory.Instance.{memory_repository}
use book_guard_api.Books.Isbn.{digits_then}
use book_guard_api.Books.Rows.{find_row, row_at, upsert}
use book_guard_api.Books.Postgres.{Tables, Database, empty_tables, truncated, exec, is_legal_isbn}
use book_guard_api.Books.Postgres.Editions as PostgresEditions
use book_guard_api.Books.Postgres.Editions.{bare_edition, upsert_cover, mark_has_cover, transaction}
use book_guard_api.Books.Postgres.Instance.{postgres_repository}
use book_guard_api.Books.Postgres.Mirrors.{healthy}
use book_guard_api.Books.Postgres.Mirrors.Agrees.{Agrees}
use book_guard_api.Books.Postgres.Steps.{call_on, in_microseconds}
use book_guard_api.Books.Postgres.Steps.Traces.{empty-Mirrors, answers, AreAllowed, answers_lem}
use book_guard_api.Books.Postgres.Faults.Calls.{refused-unchanged}
use book_guard_api.Books.Postgres.Faults.Flags.{IsFlagged}
use book_guard_api.Books.Postgres.Faults.Histories.{answers-IsFlagged}
use book_guard_api.Enrich.Provider.{pending}
use book_guard_api.Books.Handlers
use book_guard_api.Books.Postgres.Routes.{PostgresServer, MemoryServer, Related, Same}
use book_guard_api.Books.Postgres.Routes.Patched.{routes-Same}
use book_guard_api.Server.{noop_enqueuer}
use book_guard_api.Tests.Samples.{
  ada, dune_body, reading_patch, dune_isbn, dune_cover, waiting_edition, history,
}

history-AreAllowed : AreAllowed history new_memory_store
unfolding call_on Memory.create stamped Editions.ensure_edition lookup insert is_legal_isbn
    digits_then ◌==◌
history-AreAllowed = ((refl, refl, refl), (tt, ((waiting_edition, refl), (tt, tt))))

answers_lem_example :
    let r = answers postgres_repository history (healthy empty_tables) in
    let r' = answers memory_repository (map in_microseconds history) new_memory_store in
    (r.0 ≡ r'.0) × Agrees r.1 r'.1
answers_lem_example = answers_lem history history-AreAllowed

-- A database with one edition, where the second statement of `SaveCover` is going to fail.
abbrev one_edition : Tables
one_edition = record empty_tables { editions = bare_edition dune_isbn pending ∷ [] }

abbrev failing : Database
failing = record { tables = one_edition; faults = none ∷ none ∷ some (codes "lost") ∷ [] }

fails_to_flag :
    (call_on postgres_repository (covers dune_isbn dune_cover) failing).0
    ≡ err (broken (codes "mark has_cover 9780441013593: lost"))
unfolding call_on PostgresEditions.save_cover transaction exec upsert_cover upsert row_at find_row
    ◌==◌
fails_to_flag = refl

refused-unchanged_example :
    (call_on postgres_repository (covers dune_isbn dune_cover) failing).1.tables ≡ one_edition
refused-unchanged_example =
    refused-unchanged (covers dune_isbn dune_cover) failing
      (broken (codes "mark has_cover 9780441013593: lost")) fails_to_flag

answers-IsFlagged_example :
    IsFlagged
      (answers postgres_repository history
        (record { tables = empty_tables; faults = none ∷ some (codes "lost") ∷ [] })).1.tables
answers-IsFlagged_example = answers-IsFlagged history (none ∷ some (codes "lost") ∷ [])

-- Two new servers, and a request for a book to each.
abbrev new_postgres_server : PostgresServer noop_enqueuer
new_postgres_server = record { store = healthy empty_tables; jobs = tt }

abbrev new_memory_server : MemoryServer noop_enqueuer
new_memory_server = record { store = new_memory_store; jobs = tt }

new-Related : Related noop_enqueuer new_postgres_server new_memory_server
unfolding lookup
new-Related = record {
  tables = empty_tables;
  in_tables = refl;
  mirrored = empty-Mirrors;
  legal = λ id b h. cc;
  same_jobs = refl;
}

no_book : lookup (codes "b1") new_memory_store.books ≡ none
unfolding lookup
no_book = refl

routes-Same_example :
    Same noop_enqueuer
      (Handlers.create postgres_repository noop_enqueuer ascii_table
        (codes "b1")
        12_345
        (some ada)
        dune_body
        new_postgres_server)
      (Handlers.create memory_repository noop_enqueuer ascii_table
        (codes "b1")
        (truncated 12_345)
        (some ada)
        dune_body
        new_memory_server)
    × Same noop_enqueuer
        (Handlers.get postgres_repository noop_enqueuer (some ada) (codes "b1") new_postgres_server)
        (Handlers.get memory_repository noop_enqueuer (some ada) (codes "b1") new_memory_server)
    × Same noop_enqueuer
        (Handlers.update postgres_repository noop_enqueuer ascii_table 12_345
          (some ada)
          (codes "b1")
          reading_patch
          new_postgres_server)
        (Handlers.update memory_repository noop_enqueuer ascii_table
          (truncated 12_345)
          (some ada)
          (codes "b1")
          reading_patch
          new_memory_server)
    × Same noop_enqueuer
        (Handlers.delete postgres_repository noop_enqueuer
          (some ada)
          (codes "b1")
          new_postgres_server)
        (Handlers.delete memory_repository noop_enqueuer (some ada) (codes "b1") new_memory_server)
    × Same noop_enqueuer
        (Handlers.cover postgres_repository noop_enqueuer
          (some ada)
          (codes "b1")
          new_postgres_server)
        (Handlers.cover memory_repository noop_enqueuer (some ada) (codes "b1") new_memory_server)
    × Same noop_enqueuer
        (Handlers.refresh postgres_repository noop_enqueuer
          (some ada)
          (codes "b1")
          new_postgres_server)
        (Handlers.refresh memory_repository noop_enqueuer (some ada) (codes "b1") new_memory_server)
routes-Same_example =
    routes-Same noop_enqueuer ascii_table 12_345 (some ada) (codes "b1") (codes "b1") dune_body
      reading_patch new_postgres_server new_memory_server new-Related no_book
