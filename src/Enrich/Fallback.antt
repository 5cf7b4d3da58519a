-- ===== src/Enrich/Fallback.antt =====
-- internal/enrich/fallback.go: a provider made of two, with one outside world for both.
use book_guard_api.Base.{Text, Result, ok, err}
use book_guard_api.Enrich.Provider.{Metadata, Cover, ProviderError, Provider}

module _ {W A : Type 0} where
  -- An answer of the first, or of the second where the first has failed.
  abbrev pub or_second :
      (W → Result ProviderError A × W) → Result ProviderError A × W → Result ProviderError A × W
  or_second second (ok a, w) = (ok a, w)
  or_second second (err e, w) = second w

module _ {W : Type 0} where
  unfoldable pub fallback_lookup :
      Provider W → Provider W → Text → W → Result ProviderError Metadata × W
  fallback_lookup primary secondary isbn w =
      or_second (secondary.lookup_isbn isbn) (primary.lookup_isbn isbn w)

  unfoldable pub fallback_cover :
      Provider W → Provider W → Text → W → Result ProviderError Cover × W
  fallback_cover primary secondary isbn w =
      or_second (secondary.fetch_cover isbn) (primary.fetch_cover isbn w)

  abbrev pub fallback_provider : Provider W → Provider W → Provider W
  fallback_provider primary secondary = record {
    lookup_isbn = fallback_lookup primary secondary;
    fetch_cover = fallback_cover primary secondary;
  }
