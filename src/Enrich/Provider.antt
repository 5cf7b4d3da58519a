-- ===== src/Enrich/Provider.antt =====
-- internal/enrich/provider.go: the values that providers and stores exchange, and the interfaces.
use book_guard_api.Base.{ℤ, ℕ, Text, codes, List, Action, Option}

pub data Status : Type 0 where
  pending enriched failed : Status

-- `string(status)`.
abbrev pub status_text : Status → Text
status_text pending = codes "pending"
status_text enriched = codes "enriched"
status_text failed = codes "failed"

pub record Metadata : Type 0 where
  pub title : Text
  pub author : Text
  pub description : Text
  pub publisher : Text
  pub published_date : Text
  pub page_count : ℤ

-- The bytes of an image are numbers below 256; nothing but their count is ever looked at.
pub record Cover : Type 0 where
  pub content_type : Text
  pub bytes : List ℕ
  pub etag : Text
  pub source_url : Text

pub record SearchResult : Type 0 where
  pub isbn : Text
  pub title : Text
  pub author : Text
  pub publisher : Text
  pub year : ℤ

-- The two sentinels of the package, and every other failure.
pub data ProviderError : Type 0 where
  not_found no_cover : ProviderError
  upstream : Text → ProviderError

-- A provider answers from the outside world `W`, which a call may change.
pub record Provider (W : Type 0) : Type 0 where
  pub lookup_isbn : Text → Action W ProviderError Metadata
  pub fetch_cover : Text → Action W ProviderError Cover

-- What the worker needs of a repository whose calls fail with an `E`.
pub record Store (E : Type 0) : Type 1 where
  pub State : Type 0
  pub pending_enrichment : ℤ → Action State E (List Text)
  pub edition_status : Text → Action State E (Option Status)
  pub save_enrichment : ℕ → Text → Option Metadata → Status → Action State E (Unit {0})
  pub save_cover : Text → Cover → Action State E (Unit {0})
