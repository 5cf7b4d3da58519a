-- ===== src/Server/Process.antt =====
-- One job of internal/enrich/worker.go on the store of internal/books/store_memory.go.
use book_guard_api.Base.{
  ℕ, ◌≡◌, ◌≢◌, ◌∙◌, refl, subst, Bool, true, false, Option, some, none, Text, is_empty, lookup,
  lookup-insert_self, lookup-insert_ne, Result, ok, err, Option-cases, inl, inr, arith,
}
use book_guard_api.Enrich.Provider.{
  Status, pending, enriched, failed, Metadata, Cover, ProviderError, Provider, Store,
}
use book_guard_api.Enrich.Worker.{process, mark_failed, after_status, after_lookup}
use book_guard_api.Books.Book.{Book}
use book_guard_api.Books.Memory.{MemEdition, MemoryStore, owned_book, get}
use book_guard_api.Books.Memory.Editions.{edition_status, edition_or, save_enrichment, save_cover}
use book_guard_api.Books.Memory.Names.{enriched_book, cover_flag, get-save_enrichment}
use book_guard_api.Server.{memory_enrich_store}

pub edition_status_of :
    (isbn : Text) (s : MemoryStore) {e : MemEdition}
    → lookup isbn s.editions ≡ some e
    → edition_status isbn s ≡ some e.status
unfolding edition_status
edition_status_of isbn s found = rw (found, edition_status)

pub edition_status-save_enrichment :
    (now : ℕ) (isbn : Text) (m : Option Metadata) (status : Status) (s : MemoryStore)
    → edition_status isbn (save_enrichment now isbn m status s) ≡ some status
unfolding save_enrichment
edition_status-save_enrichment now isbn none status s =
    edition_status_of isbn (save_enrichment now isbn none status s)
      (lookup-insert_self isbn _ s.editions)
edition_status-save_enrichment now isbn (some m) status s =
    edition_status_of isbn (save_enrichment now isbn (some m) status s)
      (lookup-insert_self isbn _ s.editions)

-- A cover does not make an edition enriched.
pub edition_status-save_cover :
    (isbn : Text) (c : Cover) (s : MemoryStore)
    → edition_status isbn s ≢ some enriched
    → edition_status isbn (save_cover isbn c s) ≢ some enriched
unfolding save_cover
edition_status-save_cover isbn c s todo h =
    let now_has =
      edition_status_of isbn (save_cover isbn c s) (lookup-insert_self isbn _ s.editions) in
    elim (Option-cases (lookup isbn s.editions)) [
      | inl missing ↦ absurd (ground (arith, h, now_has, missing))
      | inr (e, found) ↦
          absurd (ground (arith, h, now_has, found, edition_status_of isbn s found, todo))
    ]

module _ {E W : Type 0} (store : Store E) (provider : Provider W) (now : ℕ) (isbn : Text) where
  pub todo_lookup :
      (s : store.State) (w : W) (o : Option Status)
      → o ≢ some enriched
      → after_status store provider now isbn w (ok o, s)
        ≡ after_lookup store provider now isbn s (provider.lookup_isbn isbn w)
  todo_lookup s w none todo = refl
  todo_lookup s w (some pending) todo = refl
  todo_lookup s w (some failed) todo = refl
  todo_lookup s w (some enriched) todo = absurd (todo refl)

module _ {W : Type 0} (provider : Provider W) (now : ℕ) (isbn : Text) (s : MemoryStore)
    (w : W) where
  abbrev job : MemoryStore × W
  job = process memory_enrich_store provider now isbn (s, w)

  -- An edition that is enriched already is left alone, and nothing is asked of the provider.
  pub process-enriched : edition_status isbn s ≡ some enriched → job ≡ (s, w)
  unfolding process
  process-enriched done = rw (done, process)

  process-todo :
      edition_status isbn s ≢ some enriched
      → job ≡ after_lookup memory_enrich_store provider now isbn s (provider.lookup_isbn isbn w)
  unfolding process
  process-todo todo =
      todo_lookup memory_enrich_store provider now isbn s w (edition_status isbn s) todo

  -- When the lookup fails the edition is marked failed and nothing else changes: it keeps the
  -- metadata that it had, and so do the covers, the books and every other edition.
  pub process-failed :
      (e : ProviderError) (w' : W) (other : Text)
      → edition_status isbn s ≢ some enriched
      → provider.lookup_isbn isbn w ≡ (err e, w')
      → isbn ≢ other
      → (lookup isbn job.0.editions
          ≡ some (record (edition_or failed (lookup isbn s.editions)) { status = failed }))
        × (lookup other job.0.editions ≡ lookup other s.editions)
        × (job.0.books ≡ s.books)
        × (job.0.covers ≡ s.covers)
        × (job.1 ≡ w')
  unfolding mark_failed save_enrichment
  process-failed e w' other todo missed away =
      rw (process-todo todo, missed)
        (
          lookup-insert_self isbn _ s.editions,
          lookup-insert_ne isbn other _ s.editions away,
          refl,
          refl,
          refl,
        )

  abbrev pub covered_by : Result ProviderError Cover → MemoryStore
  covered_by (ok c) = save_cover isbn c s
  covered_by (err e) = s

  pub process-found_job :
      (meta : Metadata) (r : Result ProviderError Cover) (w' w'' : W)
      → edition_status isbn s ≢ some enriched
      → provider.lookup_isbn isbn w ≡ (ok meta, w')
      → provider.fetch_cover isbn w' ≡ (r, w'')
      → job ≡ (save_enrichment now isbn (some meta) enriched (covered_by r), w'')
  process-found_job meta (ok c) w' w'' todo found fetched = rw (process-todo todo, found, fetched)
  process-found_job meta (err e) w' w'' todo found fetched = rw (process-todo todo, found, fetched)

  abbrev pub fetched_cover : Result ProviderError Cover → Option Cover
  fetched_cover (ok c) = some c
  fetched_cover (err e) = lookup isbn s.covers

  abbrev pub shown_flag : Result ProviderError Cover → Bool
  shown_flag (ok c) = true
  shown_flag (err e) = cover_flag (lookup isbn s.editions)

  pub covers-found :
      (meta : Metadata) (r : Result ProviderError Cover)
      → lookup isbn (save_enrichment now isbn (some meta) enriched (covered_by r)).covers
        ≡ fetched_cover r
  unfolding save_enrichment save_cover
  covers-found meta (ok c) = lookup-insert_self isbn c s.covers
  covers-found meta (err e) = refl

  pub get-found :
      (meta : Metadata) (r : Result ProviderError Cover) (user id : Text) (b : Book)
      → owned_book user id s ≡ some b
      → b.isbn ≡ isbn
      → is_empty b.isbn ≡ false
      → get user id (save_enrichment now isbn (some meta) enriched (covered_by r))
        ≡ ok (enriched_book now meta enriched (shown_flag r) b)
  unfolding owned_book save_cover
  get-found meta (ok c) user id b held same filled =
      let shown =
        get-save_enrichment (save_cover isbn c s) user id b held now meta enriched filled in
      subst
        (λ k.
          get user id (save_enrichment now k (some meta) enriched (save_cover isbn c s))
          ≡ ok (enriched_book now meta enriched true b))
        same (shown ∙ rw (same, lookup-insert_self isbn _ s.editions))
  get-found meta (err e) user id b held same filled =
      rw (← same) (get-save_enrichment s user id b held now meta enriched filled)
