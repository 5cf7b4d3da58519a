-- ===== src/Server/Backup.antt =====
-- One job with the provider of internal/enrich/fallback.go, as cmd/api/main.go sets it up.
use book_guard_api.Base.{ℕ, ◌≡◌, ◌≢◌, ◌⊎◌, inl, inr, refl, some, Text, lookup, Result, ok, err}
use book_guard_api.Enrich.Provider.{enriched, Metadata, Cover, ProviderError, Provider}
use book_guard_api.Enrich.Fallback.{fallback_provider, fallback_lookup, fallback_cover}
use book_guard_api.Enrich.Worker.{process}
use book_guard_api.Books.Memory.{MemoryStore}
use book_guard_api.Books.Memory.Editions.{edition_status}
use book_guard_api.Server.{memory_enrich_store}
use book_guard_api.Server.Process.{process-found_job, covers-found, edition_status-save_enrichment}

module _ {W : Type 0} (primary secondary : Provider W) (now : ℕ) (isbn : Text) (s : MemoryStore)
    (w0 w1 w2 w3 w4 : W) where
  abbrev backed_job : MemoryStore × W
  backed_job = process memory_enrich_store (fallback_provider primary secondary) now isbn (s, w0)

  -- What a job leaves when the primary answers `p` to the request for the cover, and the secondary,
  -- if it is asked after that, `q`.
  abbrev pub Backed : (p q : Result ProviderError Cover) → MemoryStore → W → Type 0
  Backed p q after w =
      ((c : Cover) × (p ≡ ok c) × (lookup isbn after.covers ≡ some c) × (w ≡ w3))
      ⊎ ((e : ProviderError) × (c : Cover) × (p ≡ err e)
          × (q ≡ ok c)
          × (lookup isbn after.covers ≡ some c)
          × (w ≡ w4))
      ⊎ ((e : ProviderError) × (e' : ProviderError) × (p ≡ err e)
          × (q ≡ err e')
          × (lookup isbn after.covers ≡ lookup isbn s.covers)
          × (w ≡ w4))

  -- When the primary provider fails and the secondary one finds the metadata, a job for an edition
  -- that is not enriched leaves it enriched. The cover stored is the primary's if the primary has
  -- one, and the outside world is then what the primary's answer has left; else it is the
  -- secondary's; and if neither has one it is what there was before.
  pub process-fallback :
      (e : ProviderError) (meta : Metadata) (p q : Result ProviderError Cover)
      → edition_status isbn s ≢ some enriched
      → primary.lookup_isbn isbn w0 ≡ (err e, w1)
      → secondary.lookup_isbn isbn w1 ≡ (ok meta, w2)
      → primary.fetch_cover isbn w2 ≡ (p, w3)
      → secondary.fetch_cover isbn w3 ≡ (q, w4)
      → (edition_status isbn backed_job.0 ≡ some enriched) × Backed p q backed_job.0 backed_job.1
  unfolding fallback_lookup fallback_cover
  process-fallback e meta p q todo missed found first second = by_cover p q first second
    where
      both : Provider W
      both = fallback_provider primary secondary

      looked : fallback_lookup primary secondary isbn w0 ≡ (ok meta, w2)
      looked = rw (missed, found)

      by_cover :
          (p q : Result ProviderError Cover)
          → primary.fetch_cover isbn w2 ≡ (p, w3)
          → secondary.fetch_cover isbn w3 ≡ (q, w4)
          → (edition_status isbn backed_job.0 ≡ some enriched)
            × Backed p q backed_job.0 backed_job.1
      by_cover (ok c) q first second =
          let fetched : fallback_cover primary secondary isbn w2 ≡ (ok c, w3) = rw first in
          rw (process-found_job both now isbn s w0 meta (ok c) w2 w3 todo looked fetched) (
            edition_status-save_enrichment now isbn (some meta) enriched _,
            inl (c, refl, covers-found both now isbn s w0 meta (ok c), refl),
          )
      by_cover (err f) (ok c) first second =
          let fetched : fallback_cover primary secondary isbn w2 ≡ (ok c, w4) =
            rw (first, second) in
          rw (process-found_job both now isbn s w0 meta (ok c) w2 w4 todo looked fetched) (
            edition_status-save_enrichment now isbn (some meta) enriched _,
            inr (inl (f, c, refl, refl, covers-found both now isbn s w0 meta (ok c), refl)),
          )
      by_cover (err f) (err g) first second =
          let fetched : fallback_cover primary secondary isbn w2 ≡ (err g, w4) =
            rw (first, second) in
          rw (process-found_job both now isbn s w0 meta (err g) w2 w4 todo looked fetched) (
            edition_status-save_enrichment now isbn (some meta) enriched _,
            inr (inr (f, g, refl, refl, covers-found both now isbn s w0 meta (err g), refl)),
          )
