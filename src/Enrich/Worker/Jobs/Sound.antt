-- ===== src/Enrich/Worker/Jobs/Sound.antt =====
-- The interleaved goroutines of internal/enrich/worker.go: where an ISBN can be in hand.
use book_guard_api.Base.{
  ◌<◌, ◌≡◌, refl, subst, sym, ap, true, false, List, [], ◌∷◌, ◌++◌, Text, ◌==◌, eq_iff, lookup,
  lookup-insert, lookup-erase, length, length-append, count, count-append, count-middle,
  if◌then◌else◌, arith,
}
use book_guard_api.Enrich.Worker.{
  Options, Worker, new_worker, is_in_flight, mark_in_flight, unmark_in_flight, try_send,
}
use book_guard_api.Enrich.Worker.Jobs.{
  Crew, idle_crew, Step, marks, sends, gives_up, drops, takes, finishes, Reaches, start, then_step,
  IsSound,
}

flight-mark :
    (isbn j : Text) (v w : Worker)
    → mark_in_flight isbn v ≡ (true, w)
    → (is_in_flight isbn v ≡ false)
      × (is_in_flight j w ≡ (if isbn == j then true else is_in_flight j v))
      × (w.queue ≡ v.queue)
      × (w.queue_size ≡ v.queue_size)
      × (w.workers ≡ v.workers)
unfolding mark_in_flight is_in_flight
flight-mark isbn j v w h = ground (arith, lookup-insert isbn j true v.in_flight)

flight-unmark :
    (isbn j : Text) (v : Worker)
    → is_in_flight j (unmark_in_flight isbn v) ≡ (if isbn == j then false else is_in_flight j v)
unfolding unmark_in_flight is_in_flight
flight-unmark isbn j v = ground (arith, lookup-erase isbn j v.in_flight)

sent_parts :
    (isbn : Text) (v w : Worker)
    → try_send isbn v ≡ (true, w)
    → (length v.queue < v.queue_size) × (w ≡ record v { queue = v.queue ++ (isbn ∷ []) })
unfolding try_send
sent_parts isbn v w h = ground (arith, h)

full_parts : (isbn : Text) (v w : Worker) → try_send isbn v ≡ (false, w) → w ≡ v
unfolding try_send
full_parts isbn v w h = ground (arith, h)

module _ (c : Crew) (s : IsSound c) (isbn : Text) where
  marks-IsSound :
      (w : Worker)
      → mark_in_flight isbn c.worker ≡ (true, w)
      → IsSound (record c { worker = w; sending = isbn ∷ c.sending })
  marks-IsSound w marked = record {
    single = λ j. ground (arith, flight-mark isbn j c.worker w marked, s.single j, eq_iff isbn j);
    queue_fits = ground (arith, flight-mark isbn isbn c.worker w marked, s.queue_fits);
    jobs_fit = ground (arith, flight-mark isbn isbn c.worker w marked, s.jobs_fit);
  }

  module _ (before after : List Text) where
    sends-IsSound :
        (w : Worker)
        → c.sending ≡ before ++ (isbn ∷ after)
        → try_send isbn c.worker ≡ (true, w)
        → IsSound (record c { worker = w; sending = before ++ after })
    unfolding is_in_flight
    sends-IsSound w at sent =
        let (room, e) = sent_parts isbn c.worker w sent in
        rw e (record {
          single = λ j. omega (
            arith,
            s.single j,
            ap (count j) at,
            count-middle j isbn before after,
            count-append j c.worker.queue (isbn ∷ []),
          );
          queue_fits = omega (arith, length-append c.worker.queue (isbn ∷ []));
          jobs_fit = s.jobs_fit;
        })

    gives_up-IsSound :
        (w : Worker)
        → c.sending ≡ before ++ (isbn ∷ after)
        → try_send isbn c.worker ≡ (false, w)
        → IsSound (record c { worker = w; sending = before ++ after; dropping = isbn ∷ c.dropping })
    gives_up-IsSound w at full = rw (full_parts isbn c.worker w full) (record {
      single = λ j. omega (arith, s.single j, ap (count j) at, count-middle j isbn before after);
      queue_fits = s.queue_fits;
      jobs_fit = s.jobs_fit;
    })

    drops-IsSound :
        c.dropping ≡ before ++ (isbn ∷ after)
        → IsSound (record c { worker = unmark_in_flight isbn c.worker; dropping = before ++ after })
    unfolding unmark_in_flight
    drops-IsSound at = record {
      single = λ j. ground (
        arith,
        s.single j,
        ap (count j) at,
        count-middle j isbn before after,
        flight-unmark isbn j c.worker,
      );
      queue_fits = s.queue_fits;
      jobs_fit = s.jobs_fit;
    }

    finishes-IsSound :
        c.processing ≡ before ++ (isbn ∷ after)
        → IsSound
            (record c { worker = unmark_in_flight isbn c.worker; processing = before ++ after })
    unfolding unmark_in_flight
    finishes-IsSound at = record {
      single = λ j. ground (
        arith,
        s.single j,
        ap (count j) at,
        count-middle j isbn before after,
        flight-unmark isbn j c.worker,
      );
      queue_fits = s.queue_fits;
      jobs_fit = omega (
        arith,
        s.jobs_fit,
        ap length at,
        length-append before (isbn ∷ after),
        length-append before after,
      );
    }

  takes-IsSound :
      (rest : List Text)
      → c.worker.queue ≡ isbn ∷ rest
      → length c.processing < c.worker.workers
      → IsSound (record c {
        worker = record (c.worker) { queue = rest };
        processing = isbn ∷ c.processing;
      })
  unfolding is_in_flight
  takes-IsSound rest at free = record {
    single = λ j. omega (arith, s.single j, ap (count j) at);
    queue_fits = omega (arith, s.queue_fits, ap length at);
    jobs_fit = omega arith;
  }

Step-IsSound : {c d : Crew} → Step c d → IsSound c → IsSound d
Step-IsSound {c} (marks isbn w filled marked e) s =
    subst IsSound (sym e) (marks-IsSound c s isbn w marked)
Step-IsSound {c} (sends isbn before after w at sent e) s =
    subst IsSound (sym e) (sends-IsSound c s isbn before after w at sent)
Step-IsSound {c} (gives_up isbn before after w at full e) s =
    subst IsSound (sym e) (gives_up-IsSound c s isbn before after w at full)
Step-IsSound {c} (drops isbn before after at e) s =
    subst IsSound (sym e) (drops-IsSound c s isbn before after at)
Step-IsSound {c} (takes isbn rest at free e) s =
    subst IsSound (sym e) (takes-IsSound c s isbn rest at free)
Step-IsSound {c} (finishes isbn before after at e) s =
    subst IsSound (sym e) (finishes-IsSound c s isbn before after at)

idle-IsSound : (opts : Options) → IsSound (idle_crew opts)
unfolding new_worker is_in_flight lookup
idle-IsSound opts = record {
  single = λ isbn. refl;
  queue_fits = omega arith;
  jobs_fit = omega arith;
}

-- In every state that callers and workers can reach from a new worker, an ISBN is in hand once if
-- it is in flight and nowhere if it is not: it is never processed by two workers at once, nor
-- queued while it is processed, and a mark is never left behind. The queue and the number of jobs
-- keep to their bounds.
pub Reaches-IsSound : (opts : Options) {c : Crew} → Reaches (idle_crew opts) c → IsSound c
Reaches-IsSound opts start = idle-IsSound opts
Reaches-IsSound opts (then_step r st) = Step-IsSound st (Reaches-IsSound opts r)
