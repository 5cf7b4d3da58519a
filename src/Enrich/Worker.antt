-- ===== src/Enrich/Worker.antt =====
-- internal/enrich/worker.go: the queue of the worker, one job of it and the sweep. The goroutines
-- and their interleavings are in Worker/Jobs; logging is left out.
pub mod Queue
pub mod Jobs
use book_guard_api.Base.{
  ℕ, ℤ, pos, leb_ℤ, to_nat, Bool, true, false, List, [], ◌∷◌, ◌++◌, Option, some, none, Text,
  is_empty, Map, lookup, insert, erase, ltb, length, if◌then◌else◌, Result, ok, err,
}
use book_guard_api.Enrich.Provider.{
  Status, pending, enriched, failed, Metadata, Cover, ProviderError, Provider, Store,
}

-- Durations are nanoseconds.
pub record Options : Type 0 where
  pub workers : ℤ
  pub queue_size : ℤ
  pub sweep_every : ℤ

abbrev pub or_default : ℤ → ℕ → ℕ
or_default n default = if leb_ℤ n (pos 0) then default else to_nat n

-- The channel as the texts in it, and the set that the mutex guards.
pub record Worker : Type 0 where
  pub queue : List Text
  pub queue_size : ℕ
  pub workers : ℕ
  pub sweep_every : ℕ
  pub in_flight : Map Bool

unfoldable pub new_worker : Options → Worker
new_worker opts = record {
  queue = [];
  queue_size = or_default opts.queue_size 128;
  workers = or_default opts.workers 2;
  sweep_every = or_default opts.sweep_every 900_000_000_000;
  in_flight = [];
}

-- `w.inFlight[isbn]`.
abbrev pub or_false : Option Bool → Bool
or_false none = false
or_false (some b) = b

unfoldable pub is_in_flight : Text → Worker → Bool
is_in_flight isbn w = or_false (lookup isbn w.in_flight)

unfoldable pub mark_in_flight : Text → Worker → Bool × Worker
mark_in_flight isbn w =
    if is_in_flight isbn w
    then (false, w)
    else (true, record w { in_flight = insert isbn true w.in_flight })

unfoldable pub unmark_in_flight : Text → Worker → Worker
unmark_in_flight isbn w = record w { in_flight = erase isbn w.in_flight }

-- `select { case w.queue <- isbn: default: }`: whether the text was sent.
unfoldable pub try_send : Text → Worker → Bool × Worker
try_send isbn w =
    if ltb (length w.queue) w.queue_size
    then (true, record w { queue = w.queue ++ (isbn ∷ []) })
    else (false, w)

abbrev pub after_send : Text → Bool × Worker → Worker
after_send isbn (true, w) = w
after_send isbn (false, w) = unmark_in_flight isbn w

abbrev pub after_mark : Text → Bool × Worker → Worker
after_mark isbn (true, w) = after_send isbn (try_send isbn w)
after_mark isbn (false, w) = w

-- One call of `Enqueue` that nothing interrupts.
unfoldable pub enqueue : Text → Worker → Worker
enqueue isbn w = if is_empty isbn then w else after_mark isbn (mark_in_flight isbn w)

unfoldable pub enqueue_all : List Text → Worker → Worker
enqueue_all [] w = w
enqueue_all (isbn ∷ isbns) w = enqueue_all isbns (enqueue isbn w)

module _ {E : Type 0} (store : Store E) where
  abbrev pub enqueue_found : Worker → Result E (List Text) × store.State → Worker × store.State
  enqueue_found w (ok isbns, s) = (enqueue_all isbns w, s)
  enqueue_found w (err e, s) = (w, s)

  unfoldable pub reconcile : Worker → store.State → Worker × store.State
  reconcile w s = enqueue_found w (store.pending_enrichment (pos 100) s)

  unfoldable pub mark_failed : ℕ → Text → store.State → store.State
  mark_failed now isbn s = (store.save_enrichment now isbn none failed s).1

  module _ {W : Type 0} (provider : Provider W) where
    -- A store and the outside world, both of which a job changes.
    abbrev pub Scene : Type 0
    Scene = store.State × W

    abbrev pub save_fetched : Text → store.State → Result ProviderError Cover × W → Scene
    save_fetched isbn s (ok cover, w) = ((store.save_cover isbn cover s).1, w)
    save_fetched isbn s (err e, w) = (s, w)

    abbrev pub save_meta : ℕ → Text → Metadata → Scene → Scene
    save_meta now isbn meta (s, w) = ((store.save_enrichment now isbn (some meta) enriched s).1, w)

    abbrev pub after_lookup : ℕ → Text → store.State → Result ProviderError Metadata × W → Scene
    after_lookup now isbn s (err e, w) = (mark_failed now isbn s, w)
    after_lookup now isbn s (ok meta, w) =
        save_meta now isbn meta (save_fetched isbn s (provider.fetch_cover isbn w))

    abbrev pub after_status : ℕ → Text → W → Result E (Option Status) × store.State → Scene
    after_status now isbn w (err e, s) = (s, w)
    after_status now isbn w (ok (some enriched), s) = (s, w)
    after_status now isbn w (ok (some pending), s) =
        after_lookup now isbn s (provider.lookup_isbn isbn w)
    after_status now isbn w (ok (some failed), s) =
        after_lookup now isbn s (provider.lookup_isbn isbn w)
    after_status now isbn w (ok none, s) = after_lookup now isbn s (provider.lookup_isbn isbn w)

    unfoldable pub process : ℕ → Text → Scene → Scene
    unfolding mark_failed
    process now isbn (s, w) = after_status now isbn w (store.edition_status isbn s)
