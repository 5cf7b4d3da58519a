-- ===== src/Server/Recorded.antt =====
-- One successful job of internal/enrich/worker.go, with the states of the store of
-- internal/books/store_memory.go that a reader can meet while it runs.
use book_guard_api.Base.{
  ℕ, ◌≡◌, ◌≢◌, refl, false, List, [], ◌∷◌, ◌++◌, In, All, some, Text, is_empty, lookup, Result, ok,
  err, ◌⊎◌, inl, inr,
}
use book_guard_api.Enrich.Provider.{enriched, Metadata, Cover, ProviderError, Provider, Store}
use book_guard_api.Enrich.Worker.{process}
use book_guard_api.Books.Book.{Book}
use book_guard_api.Books.Memory.{MemoryStore, owned_book, get}
use book_guard_api.Books.Memory.Editions.{edition_status, save_enrichment}
use book_guard_api.Books.Memory.Names.{enriched_book}
use book_guard_api.Server.{memory_enrich_store}
use book_guard_api.Server.Process.{
  todo_lookup, edition_status-save_enrichment, edition_status-save_cover, covered_by, covers-found,
  get-found, fetched_cover, shown_flag, process-found_job,
}

-- What a read leaves and what a write leaves: a write adds the new state to those seen.
abbrev read : {E A S : Type 0} → Result E A × S → List S → Result E A × (S × List S)
read (r, s) seen = (r, (s, seen))

abbrev written : {E A S : Type 0} → Result E A × S → List S → Result E A × (S × List S)
written (r, s) seen = (r, (s, seen ++ (s ∷ [])))

-- A store beside the list of the states that its writes have left, oldest first.
abbrev pub recorded : {E : Type 0} → Store E → Store E
recorded store = record {
  State = store.State × List store.State;
  pending_enrichment = λ limit (s, seen). read (store.pending_enrichment limit s) seen;
  edition_status = λ isbn (s, seen). read (store.edition_status isbn s) seen;
  save_enrichment =
      λ now isbn m status (s, seen). written (store.save_enrichment now isbn m status s) seen;
  save_cover = λ isbn c (s, seen). written (store.save_cover isbn c s) seen;
}

module _ {W : Type 0} (provider : Provider W) (now : ℕ) (isbn : Text) (s : MemoryStore)
    (w : W) where
  abbrev recorded_job : (MemoryStore × List MemoryStore) × W
  recorded_job = process (recorded memory_enrich_store) provider now isbn ((s, []), w)

  abbrev last_state : Metadata → Result ProviderError Cover → MemoryStore
  last_state meta r =
      save_enrichment now isbn (some meta) enriched (covered_by provider now isbn s w r)

  abbrev states : Metadata → Result ProviderError Cover → List MemoryStore
  states meta (ok c) = covered_by provider now isbn s w (ok c) ∷ last_state meta (ok c) ∷ []
  states meta (err e) = last_state meta (err e) ∷ []

  recorded_found :
      (meta : Metadata) (r : Result ProviderError Cover) (w' w'' : W)
      → edition_status isbn s ≢ some enriched
      → provider.lookup_isbn isbn w ≡ (ok meta, w')
      → provider.fetch_cover isbn w' ≡ (r, w'')
      → recorded_job ≡ ((last_state meta r, states meta r), w'')
  unfolding process
  recorded_found meta (ok c) w' w'' todo found fetched = rw (
    todo_lookup (recorded memory_enrich_store) provider now isbn (s, []) w (edition_status isbn s)
        todo,
    found,
    fetched,
  )
  recorded_found meta (err e) w' w'' todo found fetched = rw (
    todo_lookup (recorded memory_enrich_store) provider now isbn (s, []) w (edition_status isbn s)
        todo,
    found,
    fetched,
  )

  -- The edition does not count as enriched, or its cover is the one that the job leaves.
  abbrev pub IsConsistent : Result ProviderError Cover → MemoryStore → Type 0
  IsConsistent r t =
      (edition_status isbn t ≢ some enriched)
      ⊎ (lookup isbn t.covers ≡ fetched_cover provider now isbn s w r)

  states-IsConsistent :
      (meta : Metadata) (r : Result ProviderError Cover)
      → edition_status isbn s ≢ some enriched
      → All (IsConsistent r) (states meta r)
  states-IsConsistent meta (ok c) todo = (
    inl (edition_status-save_cover isbn c s todo),
    (inr (covers-found provider now isbn s w meta (ok c)), tt),
  )
  states-IsConsistent meta (err e) todo =
      (inr (covers-found provider now isbn s w meta (err e)), tt)

  In-states :
      (meta : Metadata) (r : Result ProviderError Cover) → In (last_state meta r) (states meta r)
  In-states meta (ok c) = inr (inl refl)
  In-states meta (err e) = inl refl

  -- When the lookup succeeds, a job for an edition that is not enriched leaves it enriched with what
  -- was found. The cover is the fetched one, or what there was when none was fetched. In every state
  -- that a write of the job leaves, the last of them included, the edition does not count as
  -- enriched yet or already has that cover. A book of the ISBN, whoever's it is, is read with the
  -- new metadata, and with the new names where the user has given none.
  pub process-found :
      (meta : Metadata) (r : Result ProviderError Cover) (w' w'' : W) (user id : Text) (b : Book)
      → edition_status isbn s ≢ some enriched
      → provider.lookup_isbn isbn w ≡ (ok meta, w')
      → provider.fetch_cover isbn w' ≡ (r, w'')
      → owned_book user id s ≡ some b
      → b.isbn ≡ isbn
      → is_empty b.isbn ≡ false
      → let ((after, seen), w_after) = recorded_job in
        (process memory_enrich_store provider now isbn (s, w) ≡ (after, w_after))
        × (edition_status isbn after ≡ some enriched)
        × (lookup isbn after.covers ≡ fetched_cover provider now isbn s w r)
        × In after seen
        × All (IsConsistent r) seen
        × (get user id after
            ≡ ok (enriched_book now meta enriched (shown_flag provider now isbn s w r) b))
        × (w_after ≡ w'')
  process-found meta r w' w'' user id b todo found fetched held same filled =
      rw (recorded_found meta r w' w'' todo found fetched) (
        process-found_job provider now isbn s w meta r w' w'' todo found fetched,
        edition_status-save_enrichment now isbn (some meta) enriched
            (covered_by provider now isbn s w r),
        covers-found provider now isbn s w meta r,
        In-states meta r,
        states-IsConsistent meta r todo,
        get-found provider now isbn s w meta r user id b held same filled,
        refl,
      )
