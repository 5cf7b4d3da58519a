-- ===== src/Server.antt =====
-- The parts put together, as cmd/api/main.go does: the enrichment worker on the repository.
pub mod Process
pub mod Recorded
pub mod Sweep
pub mod Backup
pub mod Covers
pub mod Config
use book_guard_api.Base.{Text, ℕ}
use book_guard_api.Enrich.Provider.{Store}
use book_guard_api.Enrich.Worker.{Worker, enqueue}
use book_guard_api.Books.Memory.{StoreError}
use book_guard_api.Books.Memory.Instance.{memory_repository}
use book_guard_api.Books.Repository.{Enqueuer, enrich_store}

-- The memory store, as the worker sees it.
abbrev pub memory_enrich_store : Store StoreError
memory_enrich_store = enrich_store memory_repository

-- The worker as the handlers' enqueuer, and `noopEnqueuer`.
abbrev pub worker_enqueuer : Enqueuer
worker_enqueuer = record { Jobs = Worker; enqueue = enqueue }

abbrev pub noop_enqueuer : Enqueuer
noop_enqueuer = record { Jobs = Unit {0}; enqueue = λ isbn jobs. jobs }
