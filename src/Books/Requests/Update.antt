-- ===== src/Books/Requests/Update.antt =====
-- PATCH /books/{id} of internal/books/handlers.go on the memory store: the answer and the state.
use book_guard_api.Base.{
  ℕ, ◌≡◌, refl, ◌∙◌, subst, ◌⊎◌, inl, inr, Bool, false, Option, some, none, Text, ◌==◌, eq_iff,
  is_empty, CaseTable, if◌then◌else◌, ok, Result-cases, Bool-cases, arith,
}
use book_guard_api.Auth.{Identity}
use book_guard_api.Books.Isbn.Shape.{IsIsbn}
use book_guard_api.Books.Book.{Book}
use book_guard_api.Books.Memory
use book_guard_api.Books.Memory.{MemoryStore, owned_book, apply_edition}
use book_guard_api.Books.Memory.Editions.{ensure_edition}
use book_guard_api.Books.Memory.Reads.{
  owned_book-ensure_edition, get_of_owned, owned_book-update, apply_edition-keeps,
}
use book_guard_api.Books.Memory.Instance.{memory_repository}
use book_guard_api.Books.Repository.{Enqueuer}
use book_guard_api.Books.Handlers.{
  BookPatch, apply_to, given, subject_of, isbn_from_input, canonical_patch, set_cover_url, update,
  enqueue_enrichment,
}
use book_guard_api.Books.Requests.{MemoryServer}
use book_guard_api.Books.Requests.Create.{isbn_from_input-IsIsbn, IsIsbn-not_empty}

-- A checked patch leaves the ISBN alone or sets a canonical one.
abbrev pub SetsIsbn : Option Text → Type 0
SetsIsbn none = Unit
SetsIsbn (some isbn) = IsIsbn isbn

checked_SetsIsbn :
    (table : CaseTable) (body p : BookPatch) (o : Option Text)
    → body.isbn ≡ o
    → canonical_patch table body o ≡ ok p
    → SetsIsbn p.isbn
checked_SetsIsbn table body p none e h =
    let untouched : p.isbn ≡ none = ground arith in rw untouched tt
checked_SetsIsbn table body p (some raw) e h = elim (Result-cases (isbn_from_input table raw)) [
  | inl (isbn, valid) ↦
      let set : p.isbn ≡ some isbn = ground (arith, rw valid at h) in
      rw set (isbn_from_input-IsIsbn table raw isbn valid)
  | inr (x, invalid) ↦ absurd (ground (arith, rw invalid at h))
]

pub canonical_patch-SetsIsbn :
    (table : CaseTable) (body p : BookPatch)
    → canonical_patch table body body.isbn ≡ ok p
    → SetsIsbn p.isbn
canonical_patch-SetsIsbn table body p h = checked_SetsIsbn table body p body.isbn refl h

pub given-IsIsbn :
    (o : Option Text) (old : Text) → SetsIsbn o → IsIsbn (given o old) ⊎ (given o old ≡ old)
given-IsIsbn none old h = inr refl
given-IsIsbn (some isbn) old h = inl h

module _ (queue : Enqueuer) (table : CaseTable) (srv : MemoryServer queue table) where
  -- The book as the handler hands it to the store: what `Get` returned, with the patch on it.
  abbrev pub edited : Book → BookPatch → Book
  edited raw p = apply_to p (apply_edition srv.store raw)

  -- The book as the store keeps it.
  abbrev pub patched : ℕ → Text → Book → BookPatch → Book
  patched now user raw p = record (edited raw p) {
    user_id = user;
    created_at = raw.created_at;
    updated_at = now;
  }

  abbrev pub isbn_kept : Book → BookPatch → Bool
  isbn_kept raw p = (edited raw p).isbn == (apply_edition srv.store raw).isbn

  abbrev pub store_after : ℕ → Text → Book → BookPatch → MemoryStore
  store_after now user raw p =
      let s = (Memory.update now user (edited raw p) srv.store).1 in
      if isbn_kept raw p then s else ensure_edition (edited raw p).isbn s

  edited-id : (raw : Book) (p : BookPatch) → (edited raw p).id ≡ raw.id
  unfolding apply_to
  edited-id raw p = (apply_edition-keeps srv.store raw).0

  pub edited-held :
      (user : Text) (raw : Book) (p : BookPatch)
      → owned_book user raw.id srv.store ≡ some raw
      → owned_book user (edited raw p).id srv.store ≡ some raw
  edited-held user raw p held = rw (edited-id raw p) held

  -- A new ISBN is a valid one, so it is not empty.
  edited-filled :
      (body p : BookPatch) (raw : Book)
      → canonical_patch table body body.isbn ≡ ok p
      → isbn_kept raw p ≡ false
      → is_empty (edited raw p).isbn ≡ false
  unfolding apply_to
  edited-filled body p raw checked moved =
      elim (given-IsIsbn p.isbn (apply_edition srv.store raw).isbn
        (canonical_patch-SetsIsbn table body p checked)) [
          | inl shape ↦ IsIsbn-not_empty _ shape
          | inr kept ↦ absurd (
              ground (
                arith,
                kept,
                moved,
                eq_iff (given p.isbn (apply_edition srv.store raw).isbn)
                    (apply_edition srv.store raw).isbn,
              ))
        ]

  pub store_after-held :
      (now : ℕ) (user : Text) (raw : Book) (p : BookPatch)
      → owned_book user raw.id srv.store ≡ some raw
      → owned_book user raw.id (store_after now user raw p) ≡ some (patched now user raw p)
  store_after-held now user raw p held =
      let there =
        owned_book-update now user (edited raw p) raw srv.store (edited-held user raw p held) in
      let found =
        subst
          (λ k.
            owned_book user k (Memory.update now user (edited raw p) srv.store).1
            ≡ some (patched now user raw p))
          (edited-id raw p) there in
      elim (Bool-cases (isbn_kept raw p)) [
        | inl kept ↦ rw kept found
        | inr moved ↦ rw moved (owned_book-ensure_edition user raw.id (edited raw p).isbn _ ∙ found)
      ]

  updated :
      (now : ℕ) (user : Text) (raw : Book) (p : BookPatch)
      → owned_book user raw.id srv.store ≡ some raw
      → Memory.update now user (edited raw p) srv.store
        ≡ (ok (patched now user raw p), (Memory.update now user (edited raw p) srv.store).1)
  unfolding Memory.update
  updated now user raw p held = rw (edited-held user raw p held, Memory.update)

  -- A caller who patches a book of the caller's own gets the stored book back, merged with the
  -- edition of its ISBN. The store keeps the book as it was read, with the patch on it, under its
  -- old time of creation; if the ISBN has changed, its edition is there and it is enqueued.
  pub update_lem :
      (who : Option Identity) (user : Text) (now : ℕ) (raw : Book) (body p : BookPatch)
      → subject_of who ≡ ok user
      → owned_book user raw.id srv.store ≡ some raw
      → canonical_patch table body body.isbn ≡ ok p
      → update memory_repository queue table now who raw.id body srv ≡ (
        ok (set_cover_url (apply_edition (store_after now user raw p) (patched now user raw p))),
        record {
          store = store_after now user raw p;
          jobs = if isbn_kept raw p then srv.jobs else queue.enqueue (edited raw p).isbn srv.jobs;
        },
      )
  unfolding update enqueue_enrichment
  update_lem who user now raw body p known held checked =
      let read = get_of_owned user raw.id srv.store held in
      let wrote = updated now user raw p held in
      let back =
        get_of_owned user raw.id (store_after now user raw p)
          (store_after-held now user raw p held) in
      elim (Bool-cases (isbn_kept raw p)) [
        | inl kept ↦ rw (known, read, checked, wrote, kept) (rw (rw kept at back))
        | inr moved ↦
            let filled = edited-filled body p raw checked moved in
            rw (known, read, checked, wrote, moved, filled) (rw (rw moved at back))
      ]
