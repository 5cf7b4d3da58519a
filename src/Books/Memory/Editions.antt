-- ===== src/Books/Memory/Editions.antt =====
-- internal/books/store_memory.go: the editions and covers that all users share.
use book_guard_api.Base.{
  ℕ, Bool, true, false, ◌&&◌, List, [], ◌∷◌, Option, some, none, Text, sort_texts, Map, lookup,
  insert, ltb_ℤ, ℤ, pos, to_nat, take, length, if◌then◌else◌, Result, ok, err,
}
use book_guard_api.Books.Book.{Book}
use book_guard_api.Enrich.Provider.{Status, pending, enriched, failed, Metadata, Cover}
use book_guard_api.Books.Memory.{
  StoreError, not_found, MemEdition, MemoryStore, fresh_edition, owned_book,
}

unfoldable pub ensure_edition : Text → MemoryStore → MemoryStore
ensure_edition isbn s = elim (lookup isbn s.editions) [
  | some e ↦ s
  | none ↦ record s { editions = insert isbn (fresh_edition pending) s.editions }
]

-- The edition of an ISBN, or a fresh one where there is none. A fresh one has the status "" until
-- the caller sets it, which both callers do at once.
abbrev pub edition_or : Status → Option MemEdition → MemEdition
edition_or status none = fresh_edition status
edition_or status (some e) = e

unfoldable pub mark_edition_pending : Text → MemoryStore → MemoryStore
mark_edition_pending isbn s =
    let e = edition_or pending (lookup isbn s.editions) in
    record s { editions = insert isbn (record e { status = pending }) s.editions }

abbrev pub needs_work : Status → Bool
needs_work pending = true
needs_work failed = true
needs_work enriched = false

-- The loop over the map.
unfoldable pub collect_pending : Map MemEdition → List Text
collect_pending [] = []
collect_pending ((isbn, e) ∷ m) =
    if needs_work e.status then isbn ∷ collect_pending m else collect_pending m

unfoldable pub pending_enrichment : ℤ → MemoryStore → List Text
pending_enrichment limit s =
    let out = sort_texts (collect_pending s.editions) in
    if ltb_ℤ (pos 0) limit && ltb_ℤ limit (pos (length out)) then take (to_nat limit) out else out

unfoldable pub edition_status : Text → MemoryStore → Option Status
edition_status isbn s = elim (lookup isbn s.editions) [ none ↦ none | some e ↦ some e.status ]

abbrev pub with_metadata : ℕ → Option Metadata → MemEdition → MemEdition
with_metadata now none e = e
with_metadata now (some m) e = record e {
  title = m.title;
  author = m.author;
  description = m.description;
  publisher = m.publisher;
  published_date = m.published_date;
  page_count = m.page_count;
  enriched_at = some now;
}

unfoldable pub save_enrichment : ℕ → Text → Option Metadata → Status → MemoryStore → MemoryStore
save_enrichment now isbn m status s =
    let e = edition_or status (lookup isbn s.editions) in
    record s {
      editions = insert isbn (with_metadata now m (record e { status = status })) s.editions;
    }

unfoldable pub save_cover : Text → Cover → MemoryStore → MemoryStore
save_cover isbn c s =
    let e = edition_or pending (lookup isbn s.editions) in
    record s {
      covers = insert isbn c s.covers;
      editions = insert isbn (record e { has_cover = true }) s.editions;
    }

abbrev pub or_not_found {ℓ} : {A : Type ℓ} → Option A → Result StoreError A
or_not_found none = err not_found
or_not_found (some a) = ok a

abbrev pub cover_of : MemoryStore → Option Book → Result StoreError Cover
cover_of s none = err not_found
cover_of s (some b) = or_not_found (lookup b.isbn s.covers)

unfoldable pub cover_for_book : Text → Text → MemoryStore → Result StoreError Cover
cover_for_book user id s = cover_of s (owned_book user id s)
