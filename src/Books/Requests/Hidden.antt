-- ===== src/Books/Requests/Hidden.antt =====
-- The routes of internal/books/handlers.go under the id of a book that the caller does not have.
use book_guard_api.Base.{ℕ, ◌≡◌, Option, some, none, Text, codes, lookup, CaseTable, ok, err}
use book_guard_api.Http.{http_error}
use book_guard_api.Auth.{Identity}
use book_guard_api.Books.Book.{Book}
use book_guard_api.Books.Memory
use book_guard_api.Books.Memory.{MemoryStore, not_found, owned_book}
use book_guard_api.Books.Memory.Editions.{cover_for_book}
use book_guard_api.Books.Memory.Refines.{owned_book-none}
use book_guard_api.Books.Memory.Instance.{memory_repository}
use book_guard_api.Books.Repository.{Enqueuer}
use book_guard_api.Books.Handlers.{BookPatch, subject_of, get, update, delete, cover, refresh}
use book_guard_api.Books.Requests.{MemoryServer}

module _ (s : MemoryStore) (user id : Text) (missing : owned_book user id s ≡ none) where
  get_missing : Memory.get user id s ≡ err not_found
  unfolding Memory.get
  get_missing = rw (missing, Memory.get)

  delete_missing : Memory.delete user id s ≡ (err not_found, s)
  unfolding Memory.delete
  delete_missing = rw (missing, Memory.delete)

module _ (queue : Enqueuer) (table : CaseTable) (srv : MemoryServer queue table)
    (who : Option Identity) (user : Text) where
  -- To a signed-in caller an id that holds no book, or holds another user's, looks the same: GET,
  -- PATCH, DELETE, the cover and the refresh answer 404, and nothing is changed or enqueued.
  pub hidden_book :
      (id : Text) (now : ℕ) (patch : BookPatch)
      → subject_of who ≡ ok user
      → ¬ ((b : Book) × (lookup id srv.store.books ≡ some b) × (b.user_id ≡ user))
      → (get memory_repository queue who id srv
          ≡ (err (http_error 404 (codes "book not found")), srv))
        × (update memory_repository queue table now who id patch srv
            ≡ (err (http_error 404 (codes "book not found")), srv))
        × (delete memory_repository queue who id srv
            ≡ (err (http_error 404 (codes "book not found")), srv))
        × (cover memory_repository queue who id srv
            ≡ (err (http_error 404 (codes "cover not found")), srv))
        × (refresh memory_repository queue who id srv
            ≡ (err (http_error 404 (codes "book not found")), srv))
  unfolding get update delete cover refresh cover_for_book
  hidden_book id now patch known hidden =
      let missing = owned_book-none srv.store user id hidden in
      let got = get_missing srv.store user id missing in
      (
        rw (known, got),
        rw (known, got),
        rw (known, delete_missing srv.store user id missing),
        rw (known, missing),
        rw (known, got),
      )
