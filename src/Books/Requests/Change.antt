-- ===== src/Books/Requests/Change.antt =====
-- What one request of one user can do to the memory store, as a relation.
use book_guard_api.Base.{ℕ, ◌≡◌, ◌⊎◌, some, none, Text, ◌==◌, lookup, if◌then◌else◌}
use book_guard_api.Books.Book.{Book}
use book_guard_api.Books.Isbn.Shape.{IsIsbn}
use book_guard_api.Books.Memory.{MemoryStore, create, owned_book, update, delete}
use book_guard_api.Books.Memory.Editions.{ensure_edition, mark_edition_pending}

pub data Change (user : Text) (s t : MemoryStore) : Type 0 where
  same : t ≡ s → Change user s t
  added :
      (id : Text) (now : ℕ) (b : Book)
      → lookup id s.books ≡ none
      → IsIsbn b.isbn
      → t ≡ ensure_edition b.isbn (create id now user b s).1
      → Change user s t
  changed :
      (now : ℕ) (b old : Book)
      → owned_book user b.id s ≡ some old
      → (IsIsbn b.isbn) ⊎ (b.isbn ≡ old.isbn)
      → t ≡ (
          if b.isbn == old.isbn
          then (update now user b s).1
          else ensure_edition b.isbn (update now user b s).1)
      → Change user s t
  removed : (id : Text) → t ≡ (delete user id s).1 → Change user s t
  marked : (isbn : Text) → t ≡ mark_edition_pending isbn s → Change user s t
