-- ===== src/Enrich/Worker/Queue.antt =====
-- `Enqueue` and the sweep of internal/enrich/worker.go, one call at a time.
use book_guard_api.Base.{
  ◌≤◌, ◌≡◌, subst, true, false, ◌⊎◌, inl, inr, List, [], ◌∷◌, ◌++◌, Text, ◌==◌, eq_iff, is_empty,
  insert, erase, lookup-insert, lookup-erase, ltb, length, In, if◌then◌else◌, Bool-cases, arith,
}
use book_guard_api.Enrich.Worker.{
  Worker, is_in_flight, mark_in_flight, unmark_in_flight, try_send, enqueue, enqueue_all,
}

abbrev pub IsFull : Worker → Type 0
IsFull w = w.queue_size ≤ length w.queue

-- A call of `Enqueue` for an ISBN that is in flight changes nothing; for any other it queues it and
-- marks it if the queue has room, and leaves it unmarked if not.
pub enqueue_cases :
    (isbn : Text) (w : Worker)
    → is_empty isbn ≡ false
    → ((is_in_flight isbn w ≡ true) × (enqueue isbn w ≡ w))
      ⊎ ((is_in_flight isbn w ≡ false)
          × (ltb (length w.queue) w.queue_size ≡ true)
          × (enqueue isbn w ≡ record w {
            queue = w.queue ++ (isbn ∷ []);
            in_flight = insert isbn true w.in_flight;
          }))
      ⊎ ((is_in_flight isbn w ≡ false)
          × IsFull w
          × (enqueue isbn w ≡ record w { in_flight = erase isbn (insert isbn true w.in_flight) }))
unfolding enqueue mark_in_flight try_send unmark_in_flight
enqueue_cases isbn w filled = elim (Bool-cases (is_in_flight isbn w)) [
  | inl flying ↦ inl (flying, rw (filled, flying))
  | inr idle ↦ elim (Bool-cases (ltb (length w.queue) w.queue_size)) [
    | inl room ↦ inr (inl (idle, room, rw (filled, idle, room)))
    | inr full ↦ inr (inr (idle, ground (arith, full), rw (filled, idle, full)))
  ]
]

flight-insert :
    (j isbn : Text) (w : Worker) (q : List Text)
    → is_in_flight j (record w { queue = q; in_flight = insert isbn true w.in_flight })
      ≡ (if isbn == j then true else is_in_flight j w)
unfolding is_in_flight
flight-insert j isbn w q = ground (arith, lookup-insert isbn j true w.in_flight)

flight-dropped :
    (j isbn : Text) (w : Worker)
    → is_in_flight j (record w { in_flight = erase isbn (insert isbn true w.in_flight) })
      ≡ (if isbn == j then false else is_in_flight j w)
unfolding is_in_flight
flight-dropped j isbn w = ground (
  arith,
  lookup-erase isbn j (insert isbn true w.in_flight),
  lookup-insert isbn j true w.in_flight,
)

-- A call takes nothing out of flight.
enqueue-keeps :
    (isbn j : Text) (w : Worker) → is_in_flight j w ≡ true → is_in_flight j (enqueue isbn w) ≡ true
unfolding enqueue
enqueue-keeps isbn j w flying = elim (Bool-cases (is_empty isbn)) [
  | inl blank ↦ rw blank flying
  | inr filled ↦ elim (enqueue_cases isbn w filled) [
    | inl (_, e) ↦ rw e flying
    | inr (inl (_, _, e)) ↦ rw (e, flight-insert j isbn w (w.queue ++ (isbn ∷ []))) (ground arith)
    | inr (inr (idle, _, e)) ↦ rw (e, flight-dropped j isbn w) (ground (arith, eq_iff isbn j))
  ]
]

enqueue-IsFull : (isbn : Text) (w : Worker) → IsFull w → IsFull (enqueue isbn w)
unfolding enqueue
enqueue-IsFull isbn w full = elim (Bool-cases (is_empty isbn)) [
  | inl blank ↦ rw blank full
  | inr filled ↦ elim (enqueue_cases isbn w filled) [
    | inl (_, e) ↦ rw e full
    | inr (inl (_, room, e)) ↦ absurd (ground (arith, room))
    | inr (inr (_, _, e)) ↦ rw e full
  ]
]

-- After a call the ISBN is in flight, unless the queue was full.
pub enqueue-serves :
    (isbn : Text) (w : Worker)
    → is_empty isbn ≡ false
    → (is_in_flight isbn (enqueue isbn w) ≡ true) ⊎ IsFull (enqueue isbn w)
enqueue-serves isbn w filled = elim (enqueue_cases isbn w filled) [
  | inl (flying, e) ↦ inl (rw e flying)
  | inr (inl (_, _, e)) ↦ inl (
      rw (e, flight-insert isbn isbn w (w.queue ++ (isbn ∷ []))) (ground (arith, eq_iff isbn isbn)))
  | inr (inr (_, full, e)) ↦ inr (rw e full)
]

enqueue_all-keeps :
    (isbns : List Text) (j : Text) (w : Worker)
    → is_in_flight j w ≡ true
    → is_in_flight j (enqueue_all isbns w) ≡ true
unfolding enqueue_all
enqueue_all-keeps [] j w h = h
enqueue_all-keeps (isbn ∷ isbns) j w h =
    enqueue_all-keeps isbns j (enqueue isbn w) (enqueue-keeps isbn j w h)

enqueue_all-IsFull : (isbns : List Text) (w : Worker) → IsFull w → IsFull (enqueue_all isbns w)
unfolding enqueue_all
enqueue_all-IsFull [] w h = h
enqueue_all-IsFull (isbn ∷ isbns) w h =
    enqueue_all-IsFull isbns (enqueue isbn w) (enqueue-IsFull isbn w h)

-- Enqueueing some ISBNs leaves each of them in flight, unless the queue is full.
pub enqueue_all-serves :
    (isbns : List Text) (w : Worker) (isbn : Text)
    → is_empty isbn ≡ false
    → In isbn isbns
    → (is_in_flight isbn (enqueue_all isbns w) ≡ true) ⊎ IsFull (enqueue_all isbns w)
unfolding enqueue_all
enqueue_all-serves [] w isbn filled i = absurd i
enqueue_all-serves (j ∷ isbns) w isbn filled (inr i) =
    enqueue_all-serves isbns (enqueue j w) isbn filled i
enqueue_all-serves (j ∷ isbns) w isbn filled (inl e) = elim (enqueue-serves isbn w filled) [
  | inl flying ↦ inl (
      enqueue_all-keeps isbns isbn (enqueue j w)
        (subst (λ k. is_in_flight isbn (enqueue k w) ≡ true) e flying))
  | inr full ↦
      inr (enqueue_all-IsFull isbns (enqueue j w) (subst (λ k. IsFull (enqueue k w)) e full))
]
