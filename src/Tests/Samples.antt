-- ===== src/Tests/Samples.antt =====
-- Two users, an ISBN, and a store with one book, its edition and its cover.
use book_guard_api.Base.{
  ◌≡◌, refl, pos, true, false, [], ◌∷◌, List, none, some, Text, codes, ◌==◌, lookup, insert,
}
use book_guard_api.Auth.{Identity}
use book_guard_api.Enrich.Provider.{pending, enriched, Metadata, Cover}
use book_guard_api.Books.Book.{Book, status_to_read, status_reading}
use book_guard_api.Books.Memory.{
  MemoryStore, MemEdition, new_memory_store, create, stamped, owned_book,
}
use book_guard_api.Books.Memory.Editions.{ensure_edition, save_enrichment, save_cover}
use book_guard_api.Books.Memory.Invariant.{
  Call, creates, ensures, enriches, covers, run, step, IsValid, run-IsValid,
}
use book_guard_api.Books.Memory.Refines.{owned_book_iff}
use book_guard_api.Books.Handlers.{BookWrite, BookPatch}

abbrev pub ada : Identity
ada = record { subject = codes "ada"; username = codes "Ada"; groups = codes "readers" ∷ [] }

abbrev pub ben : Identity
ben = record { subject = codes "ben"; username = codes "Ben"; groups = [] }

abbrev pub dune_isbn : Text
dune_isbn = codes "9780441013593"

abbrev pub dune_body : BookWrite
dune_body = record {
  isbn = codes "978-0441013593";
  title = [];
  author = [];
  status = [];
  rating = pos 0;
  opinion = [];
  tags = [];
}

-- The book as the store keeps it.
abbrev pub dune : Book
dune = record {
  id = codes "b1";
  user_id = codes "ada";
  isbn = dune_isbn;
  title = [];
  author = [];
  status = status_to_read;
  rating = pos 0;
  opinion = [];
  tags = [];
  created_at = 10;
  updated_at = 10;
  description = [];
  publisher = [];
  published_date = [];
  page_count = pos 0;
  enrichment_status = [];
  enriched_at = none;
  has_cover = false;
  cover_url = [];
}

abbrev pub dune_metadata : Metadata
dune_metadata = record {
  title = codes "Dune";
  author = codes "Frank Herbert";
  description = [];
  publisher = codes "Ace";
  published_date = codes "2005";
  page_count = pos 528;
}

abbrev pub dune_cover : Cover
dune_cover = record {
  content_type = codes "image/jpeg";
  bytes = 255 ∷ 216 ∷ [];
  etag = codes "\"e1\"";
  source_url = [];
}

abbrev pub dune_edition : MemEdition
dune_edition = record {
  title = codes "Dune";
  author = codes "Frank Herbert";
  description = [];
  publisher = codes "Ace";
  published_date = codes "2005";
  page_count = pos 528;
  status = enriched;
  enriched_at = some 12;
  has_cover = true;
}

abbrev pub reading_patch : BookPatch
reading_patch = record {
  isbn = none;
  title = none;
  author = none;
  status = some status_reading;
  rating = none;
  opinion = none;
  tags = none;
}

-- A library whose one book has been enriched.
abbrev pub library : MemoryStore
library = record {
  books = (codes "b1", dune) ∷ [];
  editions = (dune_isbn, dune_edition) ∷ [];
  covers = (dune_isbn, dune_cover) ∷ [];
}

-- The calls that build it.
abbrev pub history : List Call
history =
    creates (codes "b1") 10 (codes "ada") dune
    ∷ ensures dune_isbn
    ∷ covers dune_isbn dune_cover
    ∷ enriches 12 dune_isbn (some dune_metadata) enriched
    ∷ []

run-history : run history new_memory_store ≡ library
unfolding run step create stamped ensure_edition save_enrichment save_cover lookup insert ◌==◌
run-history = refl

pub library-IsValid : IsValid library
unfolding run step create stamped ensure_edition save_enrichment save_cover lookup insert ◌==◌
library-IsValid = run-IsValid history

-- The same library before the worker has come to the book.
abbrev pub waiting_edition : MemEdition
waiting_edition = record {
  title = [];
  author = [];
  description = [];
  publisher = [];
  published_date = [];
  page_count = pos 0;
  status = pending;
  enriched_at = none;
  has_cover = false;
}

abbrev pub fresh_library : MemoryStore
fresh_library = record {
  books = (codes "b1", dune) ∷ [];
  editions = (dune_isbn, waiting_edition) ∷ [];
  covers = [];
}

hidden_dune : owned_book (codes "ben") (codes "b1") library ≡ none
unfolding owned_book lookup ◌==◌
hidden_dune = refl

-- The library's only book is not Ben's.
pub not_bens :
    ¬ ((b : Book) × (lookup (codes "b1") library.books ≡ some b) × (b.user_id ≡ codes "ben"))
not_bens (b, stored, own) =
    let held = (owned_book_iff (codes "ben") (codes "b1") library b).1 (stored, own) in
    absurd (cc (held, hidden_dune))
