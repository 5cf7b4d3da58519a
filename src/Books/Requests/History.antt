-- ===== src/Books/Requests/History.antt =====
-- The states of a server on the memory store between the requests of anybody, in any order and mixed
-- with the writes of the enrichment worker. A request is one step here, its whole handler; in
-- internal/books/handlers.go every call of the store is a critical section of its own, and the
-- states within a handler are not looked at.
use book_guard_api.Base.{
  ℕ, ◌≡◌, ◌≢◌, sym, subst, inl, inr, Option, Text, ◌==◌, lookup, CaseTable, ok, Bool-cases,
}
use book_guard_api.Auth.{Identity}
use book_guard_api.Enrich.Provider.{Status, Metadata, Cover}
use book_guard_api.Books.Memory.{MemoryStore, new_memory_store}
use book_guard_api.Books.Memory.Editions.{save_enrichment, save_cover}
use book_guard_api.Books.Memory.Refines.{shelves}
use book_guard_api.Books.Memory.Invariant.{
  IsValid, new-IsValid, step, step-IsValid, creates, updates, deletes, ensures, marks, enriches,
  covers as saves_cover,
}
use book_guard_api.Books.Memory.Instance.{memory_repository}
use book_guard_api.Books.Repository.{Enqueuer}
use book_guard_api.Books.Handlers.{subject_of}
use book_guard_api.Books.Handlers.Refusals.{IsStranger, subject_of-cases, turned_away}
use book_guard_api.Books.Handlers.Errors.{
  create-IsGuarded, list-IsGuarded, get-IsGuarded, update-IsGuarded, delete-IsGuarded,
  cover-IsGuarded, refresh-IsGuarded,
}
use book_guard_api.Books.Requests.{
  Request, posts, lists, gets, patches, deletes as deletes_book, covers, refreshes, MemoryServer,
  serve,
}
use book_guard_api.Books.Requests.Change.{Change, same, added, changed, removed, marked}
use book_guard_api.Books.Requests.Effect.{HasFreshId, serve-Change}
use book_guard_api.Books.Requests.Isolation.{Change-shelves}
use book_guard_api.Books.Requests.Ghosts.{
  HasNoGhosts, Change-HasNoGhosts, save_enrichment-HasNoGhosts, save_cover-HasNoGhosts,
}

Change-IsValid : (s t : MemoryStore) (user : Text) → IsValid s → Change user s t → IsValid t
unfolding step
Change-IsValid s t user v (same e) = subst IsValid (sym e) v
Change-IsValid s t user v (added id now b fresh shape e) =
    let w = step-IsValid s v (creates id now user b) in
    subst IsValid (sym e) (step-IsValid (step (creates id now user b) s) w (ensures b.isbn))
Change-IsValid s t user v (changed now b old held shape e) =
    let w = step-IsValid s v (updates now user b) in
    subst IsValid (sym e) (elim (Bool-cases (b.isbn == old.isbn)) [
      | inl kept ↦ rw kept w
      | inr moved ↦ rw moved (step-IsValid (step (updates now user b) s) w (ensures b.isbn))
    ])
Change-IsValid s t user v (removed id e) =
    subst IsValid (sym e) (step-IsValid s v (deletes user id))
Change-IsValid s t user v (marked isbn e) = subst IsValid (sym e) (step-IsValid s v (marks isbn))

module _ (queue : Enqueuer) (table : CaseTable) where
  -- A request without a signed-in caller changes nothing.
  serve-stranger :
      (who : Option Identity) (req : Request) (srv : MemoryServer queue table)
      → IsStranger who
      → serve queue table who req srv ≡ srv
  unfolding serve
  serve-stranger who (posts id now body) srv h =
      turned_away memory_repository queue h
        (create-IsGuarded memory_repository queue table who srv id now body)
  serve-stranger who lists srv h =
      turned_away memory_repository queue h (list-IsGuarded memory_repository queue table who srv)
  serve-stranger who (gets id) srv h =
      turned_away memory_repository queue h (get-IsGuarded memory_repository queue table who srv id)
  serve-stranger who (patches now id body) srv h =
      turned_away memory_repository queue h
        (update-IsGuarded memory_repository queue table who srv now id body)
  serve-stranger who (deletes_book id) srv h =
      turned_away memory_repository queue h
        (delete-IsGuarded memory_repository queue table who srv id)
  serve-stranger who (covers id) srv h =
      turned_away memory_repository queue h
        (cover-IsGuarded memory_repository queue table who srv id)
  serve-stranger who (refreshes id) srv h =
      turned_away memory_repository queue h
        (refresh-IsGuarded memory_repository queue table who srv id)

  -- The states between requests, from `first` on.
  pub data Reaches (first : MemoryServer queue table) : MemoryServer queue table → Type 0 where
    start : Reaches first first
    requested :
        {srv : MemoryServer queue table} (who : Option Identity) (req : Request)
        → HasFreshId srv.store req
        → Reaches first srv
        → Reaches first (serve queue table who req srv)
    enriched :
        {srv : MemoryServer queue table} (now : ℕ) (isbn : Text) (m : Option Metadata)
        (status : Status) (jobs : queue.Jobs)
        → Reaches first srv
        → Reaches first
            (record { store = save_enrichment now isbn m status srv.store; jobs = jobs })
    fetched :
        {srv : MemoryServer queue table} (isbn : Text) (c : Cover) (jobs : queue.Jobs)
        → Reaches first srv
        → Reaches first (record { store = save_cover isbn c srv.store; jobs = jobs })

  serve-keeps :
      (who : Option Identity) (req : Request) (srv : MemoryServer queue table)
      → HasFreshId srv.store req
      → IsValid srv.store × HasNoGhosts srv.store
      → IsValid (serve queue table who req srv).store
        × HasNoGhosts (serve queue table who req srv).store
  serve-keeps who req srv fresh (v, g) = elim (subject_of-cases who) [
    | inr (_, (user, known)) ↦
        let c = serve-Change queue table who srv user known v req fresh in
        (Change-IsValid srv.store _ user v c, Change-HasNoGhosts srv.store g user c)
    | inl (stranger, _) ↦ rw (serve-stranger who req srv stranger) (v, g)
  ]

  -- Whatever is asked and fetched from a new server on, its store is well formed, and every book in
  -- it has a valid ISBN whose edition exists. The ids that POST draws are taken to be new.
  pub Reaches-HasNoGhosts :
      {first srv : MemoryServer queue table}
      → first.store ≡ new_memory_store
      → Reaches first srv
      → IsValid srv.store × HasNoGhosts srv.store
  unfolding step
  Reaches-HasNoGhosts new start =
      subst (λ s. IsValid s × HasNoGhosts s) (sym new) (new-IsValid, λ id b h. unfold lookup in cc)
  Reaches-HasNoGhosts new (requested {srv} who req fresh r) =
      serve-keeps who req srv fresh (Reaches-HasNoGhosts new r)
  Reaches-HasNoGhosts new (enriched {srv} now isbn m status jobs r) =
      let (v, g) = Reaches-HasNoGhosts new r in
      (
        step-IsValid srv.store v (enriches now isbn m status),
        save_enrichment-HasNoGhosts srv.store g now isbn m status,
      )
  Reaches-HasNoGhosts new (fetched {srv} isbn c jobs r) =
      let (v, g) = Reaches-HasNoGhosts new r in
      (step-IsValid srv.store v (saves_cover isbn c), save_cover-HasNoGhosts srv.store g isbn c)

  -- No request changes what another user has: on a well-formed store, the books of everyone but the
  -- caller are after it what they were before. The id that POST draws is taken to be new.
  pub serve-shelves :
      (who : Option Identity) (v : Text) (req : Request) (srv : MemoryServer queue table)
      → IsValid srv.store
      → HasFreshId srv.store req
      → subject_of who ≢ ok v
      → shelves (serve queue table who req srv).store v ≡ shelves srv.store v
  serve-shelves who v req srv valid fresh other = elim (subject_of-cases who) [
    | inr (_, (user, known)) ↦
        Change-shelves srv.store _ user v (λ e. other (subst (λ u. subject_of who ≡ ok u) e known))
          (serve-Change queue table who srv user known valid req fresh)
    | inl (stranger, _) ↦ rw (serve-stranger who req srv stranger)
  ]
