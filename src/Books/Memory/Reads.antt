-- ===== src/Books/Memory/Reads.antt =====
-- What the readers of internal/books/store_memory.go see after a change.
use book_guard_api.Base.{
  ℕ, ◌≡◌, refl, some, none, Text, eq_iff, is_empty, if◌then◌else◌, lookup, insert, lookup-insert,
  ok, err, Option-cases, arith, inl, inr,
}
use book_guard_api.Books.Book.{Book, apply_canonical_names}
use book_guard_api.Books.Memory.{
  not_found, MemoryStore, stamped, create, owned_book, update, get, apply_edition, merge_edition,
}
use book_guard_api.Books.Memory.Editions.{ensure_edition}
use book_guard_api.Books.Memory.Refines.{owned_book_iff}

pub books-ensure_edition : (isbn : Text) (s : MemoryStore) → (ensure_edition isbn s).books ≡ s.books
unfolding ensure_edition
books-ensure_edition isbn s = ground arith

pub owned_book-ensure_edition :
    (user id isbn : Text) (s : MemoryStore)
    → owned_book user id (ensure_edition isbn s) ≡ owned_book user id s
unfolding owned_book
owned_book-ensure_edition user id isbn s = rw (books-ensure_edition isbn s)

pub get_of_owned :
    (user id : Text) (s : MemoryStore) {b : Book}
    → owned_book user id s ≡ some b
    → get user id s ≡ ok (apply_edition s b)
unfolding get
get_of_owned user id s held = rw (held, get)

pub get_of_missing :
    (user id : Text) (s : MemoryStore) → owned_book user id s ≡ none → get user id s ≡ err not_found
unfolding get
get_of_missing user id s missing = rw (missing, get)

pub owned_book-create :
    (id : Text) (now : ℕ) (user : Text) (b : Book) (s : MemoryStore)
    → owned_book user id (create id now user b s).1 ≡ some (stamped id user now b)
unfolding create stamped
owned_book-create id now user b s =
    (owned_book_iff user id (create id now user b s).1 (stamped id user now b)).1
      (ground (arith, lookup-insert id id (stamped id user now b) s.books, eq_iff id id), refl)

pub owned_book-update :
    (now : ℕ) (user : Text) (b old : Book) (s : MemoryStore)
    → owned_book user b.id s ≡ some old
    → owned_book user b.id (update now user b s).1
      ≡ some (record b { user_id = user; created_at = old.created_at; updated_at = now })
unfolding update
owned_book-update now user b old s held =
    let b' = record b { user_id = user; created_at = old.created_at; updated_at = now } in
    rw (held, update)
      ((owned_book_iff user b.id (record s { books = insert b.id b' s.books }) b').1
        (ground (arith, lookup-insert b.id b.id b' s.books, eq_iff b.id b.id), refl))

-- Reading merges the edition in; it leaves what the user owns alone, but for empty names.
pub apply_edition-keeps :
    (s : MemoryStore) (b : Book)
    → let b' = apply_edition s b in
      (b'.id ≡ b.id)
      × (b'.user_id ≡ b.user_id)
      × (b'.isbn ≡ b.isbn)
      × (b'.status ≡ b.status)
      × (b'.rating ≡ b.rating)
      × (b'.opinion ≡ b.opinion)
      × (b'.tags ≡ b.tags)
      × (b'.created_at ≡ b.created_at)
      × (b'.updated_at ≡ b.updated_at)
      × (b'.cover_url ≡ b.cover_url)
unfolding apply_edition apply_canonical_names
apply_edition-keeps s b =
    elim (Option-cases (if is_empty b.isbn then none else lookup b.isbn s.editions)) [
      | inl missing ↦
          rw (missing, merge_edition) (refl, refl, refl, refl, refl, refl, refl, refl, refl, refl)
      | inr (e, found) ↦
          rw (found, merge_edition) (refl, refl, refl, refl, refl, refl, refl, refl, refl, refl)
    ]
