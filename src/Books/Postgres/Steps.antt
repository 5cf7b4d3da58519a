-- ===== src/Books/Postgres/Steps.antt =====
-- The calls that change a store, on the tables of PostgreSQL and on the maps of the memory store.
pub mod Puts
pub mod Shelved
pub mod Shared
pub mod Traces
use book_guard_api.Base.{
  ℕ, ◌≡◌, refl, Bool, true, List, [], ◌∷◌, Option, none, some, Text, lookup, Result, ok, err,
}
use book_guard_api.Books.Book.{Book}
use book_guard_api.Books.Memory.{StoreError, MemEdition, MemoryStore}
use book_guard_api.Books.Memory.Invariant.{
  Call, creates, updates, deletes, ensures, marks, enriches, covers,
}
use book_guard_api.Books.Repository.{Repository}
use book_guard_api.Books.Postgres.{Tables, Database, is_legal_isbn, truncated}
use book_guard_api.Books.Postgres.Mirrors.{healthy, Mirrors}

-- What a call answers: the book, where it gives one.
abbrev pub Answer : Type 0
Answer = Result StoreError (Option Book)

module _ {S : Type 0} where
  abbrev pub with_book : Result StoreError Book × S → Answer × S
  with_book (ok b, s) = (ok (some b), s)
  with_book (err e, s) = (err e, s)

  abbrev pub without_book : Result StoreError (Unit {0}) × S → Answer × S
  without_book (ok _, s) = (ok none, s)
  without_book (err e, s) = (err e, s)

  pub with_book-state : (r : Result StoreError Book × S) → (with_book r).1 ≡ r.1
  with_book-state (ok b, s) = refl
  with_book-state (err e, s) = refl

  pub without_book-state : (r : Result StoreError (Unit {0}) × S) → (without_book r).1 ≡ r.1
  without_book-state (ok b, s) = refl
  without_book-state (err e, s) = refl

-- A call of any repository.
unfoldable pub call_on : (repo : Repository) → Call → repo.State → Answer × repo.State
call_on repo (creates id now user b) s = with_book (repo.create id now user b s)
call_on repo (updates now user b) s = with_book (repo.update now user b s)
call_on repo (deletes user id) s = without_book (repo.delete user id s)
call_on repo (ensures isbn) s = without_book (repo.ensure_edition isbn s)
call_on repo (marks isbn) s = without_book (repo.mark_edition_pending isbn s)
call_on repo (enriches now isbn m status) s =
    without_book (repo.save_enrichment now isbn m status s)
call_on repo (covers isbn c) s = without_book (repo.save_cover isbn c s)

-- A call at the time that PostgreSQL keeps of it: whole microseconds. `now()` has no more anyway.
abbrev pub in_microseconds : Call → Call
in_microseconds (creates id now user b) = creates id (truncated now) user b
in_microseconds (updates now user b) = updates (truncated now) user b
in_microseconds (deletes user id) = deletes user id
in_microseconds (ensures isbn) = ensures isbn
in_microseconds (marks isbn) = marks isbn
in_microseconds (enriches now isbn m status) = enriches now isbn m status
in_microseconds (covers isbn c) = covers isbn c

-- What the handlers and the worker see to before a call: new ids, ISBNs of the right shape, no
-- cover URL in a book, and an edition before its cover.
abbrev pub IsAllowed : MemoryStore → Call → Type 0
IsAllowed s (creates id now user b) =
    (lookup id s.books ≡ none) × (is_legal_isbn b.isbn ≡ true) × (b.cover_url ≡ [])
IsAllowed s (updates now user b) = (is_legal_isbn b.isbn ≡ true) × (b.cover_url ≡ [])
IsAllowed s (covers isbn c) = (e : MemEdition) × (lookup isbn s.editions ≡ some e)
IsAllowed s _ = Unit

-- The same answer, and stores that hold the same after it.
abbrev pub Follows : Answer × Database → Answer × MemoryStore → Type 0
Follows r r' = (r.0 ≡ r'.0) × (t : Tables) × (r.1 ≡ healthy t) × Mirrors t r'.1
