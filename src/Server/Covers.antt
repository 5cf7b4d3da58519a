-- ===== src/Server/Covers.antt =====
-- The covers that the worker stores, when its providers are Open Library and Google Books as
-- cmd/api/main.go sets them up.
use book_guard_api.Base.{
  ℕ, ◌≡◌, refl, subst, inl, inr, Option, some, none, Text, ◌==◌, lookup, lookup-insert, Result, ok,
  err, Bool-cases, arith,
}
use book_guard_api.Enrich.Provider.{
  Status, pending, enriched, failed, Metadata, Cover, ProviderError, Provider,
}
use book_guard_api.Enrich.Worker.{process, mark_failed, after_status, after_lookup, save_fetched}
use book_guard_api.Enrich.Fallback.{fallback_provider}
use book_guard_api.Enrich.Network.{Body, Network}
use book_guard_api.Enrich.Images.{default_cover_max_bytes}
use book_guard_api.Enrich.Images.Fits.{Fits, GivesFits, fallback_cover-GivesFits}
use book_guard_api.Enrich.OpenLibrary.{OlDecoder, new_open_library, open_library_provider}
use book_guard_api.Enrich.GoogleBooks.{Volumes, new_google_books, google_books_provider}
use book_guard_api.Books.Memory.{MemoryStore}
use book_guard_api.Books.Memory.Editions.{edition_status, save_enrichment, save_cover}
use book_guard_api.Server.{memory_enrich_store}

-- Every stored cover fits the limit.
abbrev pub CoversFit : ℕ → MemoryStore → Type 0
CoversFit limit s = (isbn : Text) (c : Cover) → lookup isbn s.covers ≡ some c → Fits limit c

save_enrichment-CoversFit :
    (limit now : ℕ) (isbn : Text) (m : Option Metadata) (status : Status) (s : MemoryStore)
    → CoversFit limit s
    → CoversFit limit (save_enrichment now isbn m status s)
unfolding save_enrichment
save_enrichment-CoversFit limit now isbn m status s fit = fit

save_cover-CoversFit :
    (limit : ℕ) (isbn : Text) (c : Cover) (s : MemoryStore)
    → Fits limit c
    → CoversFit limit s
    → CoversFit limit (save_cover isbn c s)
unfolding save_cover
save_cover-CoversFit limit isbn c s good fit k d h = elim (Bool-cases (isbn == k)) [
  | inl hit ↦
      let e : c ≡ d = ground (arith, lookup-insert isbn k c s.covers, hit, h) in
      subst (Fits limit) e good
  | inr miss ↦ fit k d (ground (arith, lookup-insert isbn k c s.covers, miss, h))
]

module _ {W : Type 0} (provider : Provider W) (limit now : ℕ) (isbn : Text) (s : MemoryStore)
    (fit : CoversFit limit s) where
  save_fetched-CoversFit :
      (r : Result ProviderError Cover × W)
      → GivesFits limit r.0
      → CoversFit limit (save_fetched memory_enrich_store provider isbn s r).0
  save_fetched-CoversFit (ok c, w) good = save_cover-CoversFit limit isbn c s good fit
  save_fetched-CoversFit (err e, w) good = fit

  module _ (gives : (w : W) → GivesFits limit (provider.fetch_cover isbn w).0) where
    after_lookup-CoversFit :
        (r : Result ProviderError Metadata × W)
        → CoversFit limit (after_lookup memory_enrich_store provider now isbn s r).0
    unfolding mark_failed
    after_lookup-CoversFit (err e, w) = save_enrichment-CoversFit limit now isbn none _ s fit
    after_lookup-CoversFit (ok meta, w) =
        save_enrichment-CoversFit limit now isbn (some meta) enriched _
          (save_fetched-CoversFit (provider.fetch_cover isbn w) (gives w))

    after_status-CoversFit :
        (w : W) (o : Option Status)
        → CoversFit limit (after_status memory_enrich_store provider now isbn w (ok o, s)).0
    after_status-CoversFit w (some enriched) = fit
    after_status-CoversFit w (some pending) = after_lookup-CoversFit (provider.lookup_isbn isbn w)
    after_status-CoversFit w (some failed) = after_lookup-CoversFit (provider.lookup_isbn isbn w)
    after_status-CoversFit w none = after_lookup-CoversFit (provider.lookup_isbn isbn w)

    process-fits :
        (w : W) → CoversFit limit (process memory_enrich_store provider now isbn (s, w)).0
    unfolding process
    process-fits w = after_status-CoversFit w (edition_status isbn s)

-- Whatever the two hosts answer, a job of the worker that is set up with Open Library and Google
-- Books keeps it that every stored cover has a content type and between one byte and 5 MiB.
pub process-CoversFit :
    {W : Type 0} (net : Network W) (decoder : OlDecoder) (decode : Body → Result Text Volumes)
    (ol_base ol_covers gb_base gb_key : Text) (now : ℕ) (isbn : Text) (s : MemoryStore) (w : W)
    → CoversFit default_cover_max_bytes s
    → let primary = open_library_provider net decoder (new_open_library ol_base ol_covers) in
      let secondary = google_books_provider net decode (new_google_books gb_base gb_key) in
      let provider = fallback_provider primary secondary in
      CoversFit default_cover_max_bytes (process memory_enrich_store provider now isbn (s, w)).0
unfolding new_open_library new_google_books
process-CoversFit net decoder decode ol_base ol_covers gb_base gb_key now isbn s w fit =
    let p = new_open_library ol_base ol_covers in
    let q = new_google_books gb_base gb_key in
    process-fits
      (fallback_provider (open_library_provider net decoder p) (google_books_provider net decode q))
      default_cover_max_bytes now isbn s fit
      (λ w'. fallback_cover-GivesFits net decoder decode p q isbn w' refl) w
