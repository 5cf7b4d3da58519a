-- ===== src/Books/Requests/Isolation.antt =====
-- What a request of internal/books/handlers.go on the memory store means for the shelves of others.
use mathlib.Core.Path.{fun_ext}
use book_guard_api.Base.{
  ◌≡◌, ◌≢◌, refl, inl, inr, Option, none, Text, ◌==◌, eq_iff, Option-cases, Bool-cases, arith,
}
use book_guard_api.Books.Book.{Book}
use book_guard_api.Books.Spec.{Shelves, place}
use book_guard_api.Books.Memory.{MemoryStore, create, owned_book, update, delete}
use book_guard_api.Books.Memory.Editions.{ensure_edition, mark_edition_pending}
use book_guard_api.Books.Memory.Refines.{shelves, shelves-create, shelves-update, shelves-delete}
use book_guard_api.Books.Memory.Reads.{owned_book-ensure_edition}
use book_guard_api.Books.Requests.Change.{Change, same, added, changed, removed, marked}

-- A change of one user leaves the shelf of any other as it was.
place-other :
    (user v id : Text) (b : Option Book) (sh : Shelves) → user ≢ v → place user id b sh v ≡ sh v
place-other user v id b sh other = fun_ext λ j. ground (arith, eq_iff user v, other)

shelves-ensure_edition :
    (isbn : Text) (s : MemoryStore) → shelves (ensure_edition isbn s) ≡ shelves s
shelves-ensure_edition isbn s = fun_ext λ v. fun_ext λ j. owned_book-ensure_edition v j isbn s

module _ (s t : MemoryStore) (user v : Text) (other : user ≢ v) where
  shelves-missing :
      (id : Text) → owned_book user id s ≡ none → shelves (delete user id s).1 v ≡ shelves s v
  unfolding delete
  shelves-missing id missing = rw (missing, delete)

  shelves-marked : (isbn : Text) → shelves (mark_edition_pending isbn s) v ≡ shelves s v
  unfolding mark_edition_pending owned_book
  shelves-marked isbn = refl

  pub Change-shelves : Change user s t → shelves t v ≡ shelves s v
  Change-shelves (same e) = rw e
  Change-shelves (added id now b fresh shape e) =
      rw
        (
          e,
          shelves-ensure_edition b.isbn (create id now user b s).1,
          shelves-create s user id now b fresh,
        )
        (place-other user v id _ (shelves s) other)
  Change-shelves (changed now b old held shape e) =
      let moved = (shelves-update s user now b held).1 in
      let away = place-other user v b.id _ (shelves s) other in
      elim (Bool-cases (b.isbn == old.isbn)) [
        | inl kept ↦ rw (e, kept, moved) away
        | inr left ↦ rw (e, left, shelves-ensure_edition b.isbn (update now user b s).1, moved) away
      ]
  Change-shelves (removed id e) = elim (Option-cases (owned_book user id s)) [
    | inl missing ↦ rw e (shelves-missing id missing)
    | inr (b, held) ↦
        rw (e, (shelves-delete s user id held).1) (place-other user v id none (shelves s) other)
  ]
  Change-shelves (marked isbn e) = rw e (shelves-marked isbn)
