-- ===== src/Books/Repository.antt =====
-- `Repository` of internal/books/store.go and `Enqueuer` of internal/enrich/provider.go: what the
-- handlers and the worker are written against. Ids and times come in as arguments.
use book_guard_api.Base.{ℕ, ℤ, Text, List, Option, Action}
use book_guard_api.Books.Book.{Book}
use book_guard_api.Books.Memory.{StoreError}
use book_guard_api.Enrich.Provider.{Status, Metadata, Cover, Store}

-- `Create` and `Update` write through the pointer that they are given; here they return the book.
pub record Repository : Type 1 where
  pub State : Type 0
  pub create : Text → ℕ → Text → Book → Action State StoreError Book
  pub get : Text → Text → Action State StoreError Book
  pub list : Text → Action State StoreError (List Book)
  pub update : ℕ → Text → Book → Action State StoreError Book
  pub delete : Text → Text → Action State StoreError (Unit {0})
  pub ensure_edition : Text → Action State StoreError (Unit {0})
  pub mark_edition_pending : Text → Action State StoreError (Unit {0})
  pub cover_for_book : Text → Text → Action State StoreError Cover
  pub pending_enrichment : ℤ → Action State StoreError (List Text)
  pub edition_status : Text → Action State StoreError (Option Status)
  pub save_enrichment : ℕ → Text → Option Metadata → Status → Action State StoreError (Unit {0})
  pub save_cover : Text → Cover → Action State StoreError (Unit {0})

pub record Enqueuer : Type 1 where
  pub Jobs : Type 0
  pub enqueue : Text → Jobs → Jobs

-- The part of a repository that the worker sees.
abbrev pub enrich_store : Repository → Store StoreError
enrich_store repo = record {
  State = repo.State;
  pending_enrichment = repo.pending_enrichment;
  edition_status = repo.edition_status;
  save_enrichment = repo.save_enrichment;
  save_cover = repo.save_cover;
}
