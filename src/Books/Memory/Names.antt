-- ===== src/Books/Memory/Names.antt =====
-- How a book of internal/books/store_memory.go gets its names and its metadata from the edition.
use book_guard_api.Base.{
  ℕ, ◌≡◌, ◌≢◌, ◌∙◌, inl, inr, refl, Bool, false, Option, some, none, Text, is_empty, lookup,
  lookup-insert_self, lookup-insert_ne, if◌then◌else◌, ok, Option-cases,
}
use book_guard_api.Enrich.Provider.{Status, status_text, Metadata}
use book_guard_api.Books.Book.{Book, apply_canonical_names}
use book_guard_api.Books.Memory.{
  MemEdition, MemoryStore, owned_book, get, apply_edition, merge_edition,
}
use book_guard_api.Books.Memory.Editions.{save_enrichment}
use book_guard_api.Books.Memory.Reads.{get_of_owned}

owned_book-save_enrichment :
    (user id : Text) (now : ℕ) (isbn : Text) (m : Option Metadata) (status : Status)
    (s : MemoryStore)
    → owned_book user id (save_enrichment now isbn m status s) ≡ owned_book user id s
unfolding owned_book save_enrichment
owned_book-save_enrichment user id now isbn m status s = refl

-- What a read shows of a book once its edition has been enriched with `m`.
abbrev pub enriched_book : ℕ → Metadata → Status → Bool → Book → Book
enriched_book now m status has_cover b = record b {
  title = if is_empty b.title then m.title else b.title;
  author = if is_empty b.author then m.author else b.author;
  description = m.description;
  publisher = m.publisher;
  published_date = m.published_date;
  page_count = m.page_count;
  enrichment_status = status_text status;
  enriched_at = some now;
  has_cover = has_cover;
}

abbrev pub cover_flag : Option MemEdition → Bool
cover_flag none = false
cover_flag (some e) = e.has_cover

module _ (s : MemoryStore) (user id : Text) (b : Book) (held : owned_book user id s ≡ some b) where
  enriched-lookup :
      (now : ℕ) (m : Metadata) (status : Status)
      → is_empty b.isbn ≡ false
      → apply_edition (save_enrichment now b.isbn (some m) status s) b
        ≡ enriched_book now m status (cover_flag (lookup b.isbn s.editions)) b
  unfolding apply_edition apply_canonical_names save_enrichment
  enriched-lookup now m status filled = elim (Option-cases (lookup b.isbn s.editions)) [
    | inl missing ↦ rw (filled, lookup-insert_self b.isbn _ s.editions, missing)
    | inr (e, found) ↦ rw (filled, lookup-insert_self b.isbn _ s.editions, found)
  ]

  -- One enrichment of an ISBN shows in every user's book of that ISBN: the metadata and the status
  -- are the new ones, and the names are too where the user has given none.
  pub get-save_enrichment :
      (now : ℕ) (m : Metadata) (status : Status)
      → is_empty b.isbn ≡ false
      → get user id (save_enrichment now b.isbn (some m) status s)
        ≡ ok (enriched_book now m status (cover_flag (lookup b.isbn s.editions)) b)
  get-save_enrichment now m status filled = rw (
    get_of_owned user id (save_enrichment now b.isbn (some m) status s)
        (owned_book-save_enrichment user id now b.isbn (some m) status s ∙ held),
    enriched-lookup now m status filled,
  )

  -- An enrichment of another ISBN does not show.
  pub get-save_enrichment_other :
      (now : ℕ) (isbn : Text) (m : Option Metadata) (status : Status)
      → isbn ≢ b.isbn
      → get user id (save_enrichment now isbn m status s) ≡ get user id s
  unfolding apply_edition save_enrichment
  get-save_enrichment_other now isbn m status other =
      rw
        (
          get_of_owned user id (save_enrichment now isbn m status s)
              (owned_book-save_enrichment user id now isbn m status s ∙ held),
          get_of_owned user id s held,
        )
        (rw (lookup-insert_ne isbn b.isbn _ s.editions other, merge_edition))
