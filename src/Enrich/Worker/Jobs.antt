-- ===== src/Enrich/Worker/Jobs.antt =====
-- The goroutines of internal/enrich/worker.go, as steps of callers of `Enqueue` and of the workers
-- that `Run` starts. A caller is between the mark and the send (`sending`), or past a send to a full
-- queue and about to take its mark back (`dropping`); a worker holds the ISBN of its job.
pub mod Sound
use book_guard_api.Base.{
  ℕ, suc, zero, ◌+◌, ◌≤◌, ◌<◌, ◌≡◌, refl, subst, Bool, true, false, ◌⊎◌, inl, inr, List, [], ◌∷◌,
  ◌++◌, Option, some, none, Text, ◌==◌, eq_iff, is_empty, Map, lookup, insert, erase, lookup-insert,
  lookup-erase, ltb, length, length-append, count, count-append, count-middle, if◌then◌else◌,
  Bool-cases, arith,
}
use book_guard_api.Enrich.Worker.{
  Options, Worker, new_worker, or_default, is_in_flight, mark_in_flight, unmark_in_flight, try_send,
}

pub record Crew : Type 0 where
  pub worker : Worker
  pub sending : List Text
  pub dropping : List Text
  pub processing : List Text

abbrev pub idle_crew : Options → Crew
idle_crew opts = record { worker = new_worker opts; sending = []; dropping = []; processing = [] }

pub data Step (c d : Crew) : Type 0 where
  -- `Enqueue` of an ISBN that is not in flight.
  marks :
      (isbn : Text) (w : Worker)
      → is_empty isbn ≡ false
      → mark_in_flight isbn c.worker ≡ (true, w)
      → d ≡ record c { worker = w; sending = isbn ∷ c.sending }
      → Step c d
  -- The send finds room.
  sends :
      (isbn : Text) (before after : List Text) (w : Worker)
      → c.sending ≡ before ++ (isbn ∷ after)
      → try_send isbn c.worker ≡ (true, w)
      → d ≡ record c { worker = w; sending = before ++ after }
      → Step c d
  -- The send finds the queue full.
  gives_up :
      (isbn : Text) (before after : List Text) (w : Worker)
      → c.sending ≡ before ++ (isbn ∷ after)
      → try_send isbn c.worker ≡ (false, w)
      → d ≡ record c { worker = w; sending = before ++ after; dropping = isbn ∷ c.dropping }
      → Step c d
  -- The caller takes its mark back.
  drops :
      (isbn : Text) (before after : List Text)
      → c.dropping ≡ before ++ (isbn ∷ after)
      → d ≡ record c { worker = unmark_in_flight isbn c.worker; dropping = before ++ after }
      → Step c d
  -- A worker without a job receives one.
  takes :
      (isbn : Text) (rest : List Text)
      → c.worker.queue ≡ isbn ∷ rest
      → length c.processing < c.worker.workers
      → d
        ≡ record c { worker = record (c.worker) { queue = rest }; processing = isbn ∷ c.processing }
      → Step c d
  -- A worker has processed its job.
  finishes :
      (isbn : Text) (before after : List Text)
      → c.processing ≡ before ++ (isbn ∷ after)
      → d ≡ record c { worker = unmark_in_flight isbn c.worker; processing = before ++ after }
      → Step c d

pub data Reaches (c : Crew) : Crew → Type 0 where
  start : Reaches c c
  then_step : {d e : Crew} → Reaches c d → Step d e → Reaches c e

-- How often an ISBN is in hand anywhere.
abbrev pub in_hand : Text → Crew → ℕ
in_hand isbn c =
    count isbn c.sending
    + count isbn c.dropping
    + count isbn c.worker.queue
    + count isbn c.processing

abbrev pub one_if : Bool → ℕ
one_if b = if b then 1 else 0

-- An ISBN is in hand once if it is in flight and not at all if it is not; the queue and the number
-- of jobs keep to their bounds.
pub record IsSound (c : Crew) : Type 0 where
  pub single : (isbn : Text) → in_hand isbn c ≡ one_if (is_in_flight isbn c.worker)
  pub queue_fits : length c.worker.queue ≤ c.worker.queue_size
  pub jobs_fit : length c.processing ≤ c.worker.workers
