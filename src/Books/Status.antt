-- ===== src/Books/Status.antt =====
-- `enrichmentStatusFor` of internal/books/store_postgres.go, which both stores call.
use book_guard_api.Base.{Text, codes, is_empty, Option, some, none, if◌then◌else◌}
use book_guard_api.Enrich.Provider.{pending, status_text}

abbrev pub enrichment_status_for : Text → Option Text → Text
enrichment_status_for isbn (some status) = status
enrichment_status_for isbn none = if is_empty isbn then codes "skipped" else status_text pending
