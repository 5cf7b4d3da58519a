-- ===== src/Books/Memory/Refines.antt =====
-- The methods of internal/books/store_memory.go against the shelves of Books/Spec.antt.
use mathlib.Core.Path.{fun_ext}
use book_guard_api.Base.{
  ℕ, ◌≡◌, ◌↔◌, refl, inl, inr, some, none, Text, eq_iff, lookup, lookup-insert, lookup-erase, ok,
  err, Option-cases, arith,
}
use book_guard_api.Books.Book.{Book}
use book_guard_api.Books.Spec.{Shelves, place}
use book_guard_api.Books.Memory.{
  not_found, MemoryStore, stamped, create, owned_book, update, delete, get,
}

-- What a store means.
abbrev pub shelves : MemoryStore → Shelves
shelves s v j = owned_book v j s

-- A user sees a book exactly if it is stored under the id and is the user's own.
pub owned_book_iff :
    (user id : Text) (s : MemoryStore) (b : Book)
    → (owned_book user id s ≡ some b) ↔ ((lookup id s.books ≡ some b) × (b.user_id ≡ user))
unfolding owned_book
owned_book_iff user id s b = elim (Option-cases (lookup id s.books)) [
  | inl e ↦ ground (arith, e)
  | inr (c, e) ↦ ground (arith, e, eq_iff c.user_id user)
]

module _ (s : MemoryStore) (user : Text) where
  -- `Create` under an id that is in nobody's use puts the stamped book on the caller's shelf.
  pub shelves-create :
      (id : Text) (now : ℕ) (b : Book)
      → lookup id s.books ≡ none
      → shelves (create id now user b s).1
        ≡ place user id (some (create id now user b s).0) (shelves s)
  unfolding create stamped owned_book
  shelves-create id now b fresh = fun_ext λ v. fun_ext λ j.
      ground (arith, lookup-insert id j (stamped id user now b) s.books, eq_iff id j, eq_iff user v)

  -- `Delete` of a book that the caller sees takes it off the caller's shelf.
  pub shelves-delete :
      (id : Text) {b : Book}
      → shelves s user id ≡ some b
      → ((delete user id s).0 ≡ ok tt)
        × (shelves (delete user id s).1 ≡ place user id none (shelves s))
  unfolding delete
  shelves-delete id {b} held =
      let (stored, own) = (owned_book_iff user id s b).0 held in
      rw (held, delete)
        (
          refl,
          fun_ext λ v. fun_ext λ j.
              unfold owned_book in
              ground (
                arith,
                stored,
                own,
                lookup-erase id j s.books,
                eq_iff id j,
                eq_iff user v,
                eq_iff b.user_id v,
              ),
        )

  -- `Update` of a book that the caller sees replaces it on the caller's shelf, with the time of
  -- creation of the book that was there.
  pub shelves-update :
      (now : ℕ) (b : Book) {old : Book}
      → shelves s user b.id ≡ some old
      → let b' = record b { user_id = user; created_at = old.created_at; updated_at = now } in
        ((update now user b s).0 ≡ ok b')
        × (shelves (update now user b s).1 ≡ place user b.id (some b') (shelves s))
  unfolding update
  shelves-update now b {old} held =
      let (stored, own) = (owned_book_iff user b.id s old).0 held in
      rw (held, update)
        (
          refl,
          fun_ext λ v. fun_ext λ j.
              unfold owned_book in
              ground (
                arith,
                stored,
                own,
                lookup-insert b.id j
                    (record b { user_id = user; created_at = old.created_at; updated_at = now })
                    s.books,
                eq_iff b.id j,
                eq_iff user v,
                eq_iff old.user_id v,
              ),
        )

  pub owned_book-none :
      (id : Text)
      → ¬ ((b : Book) × (lookup id s.books ≡ some b) × (b.user_id ≡ user))
      → owned_book user id s ≡ none
  owned_book-none id hidden = elim (Option-cases (owned_book user id s)) [
    | inl missing ↦ missing
    | inr (b, held) ↦
        let (stored, own) = (owned_book_iff user id s b).0 held in absurd (hidden (b, stored, own))
  ]

  -- Where no book is stored under the id with the caller as its owner, because there is none or
  -- because it is another user's, `Get`, `Update` and `Delete` answer `ErrNotFound`, and the store
  -- stays as it was.
  pub not_found-unchanged :
      (now : ℕ) (b : Book)
      → ¬ ((old : Book) × (lookup b.id s.books ≡ some old) × (old.user_id ≡ user))
      → (get user b.id s ≡ err not_found)
        × (update now user b s ≡ (err not_found, s))
        × (delete user b.id s ≡ (err not_found, s))
  unfolding get update delete
  not_found-unchanged now b hidden =
      let missing = owned_book-none b.id hidden in
      (rw (missing, get), rw (missing, update), rw (missing, delete))
