-- ===== src/Books/Requests/Effect.antt =====
-- The requests of internal/books/handlers.go, each as a change of Books/Requests/Change.antt.
use book_guard_api.Base.{
  ℕ, ◌≡◌, refl, ap, sym, subst, ◌⊎◌, ◌==◌, if◌then◌else◌, inl, inr, Option, some, none, Text,
  is_empty, lookup, CaseTable, ok, Result-cases, Option-cases, Bool-cases,
}
use book_guard_api.Auth.{Identity}
use book_guard_api.Books.Book.{Book}
use book_guard_api.Books.Isbn.Shape.{IsIsbn}
use book_guard_api.Books.Memory
use book_guard_api.Books.Memory.{MemoryStore, owned_book, apply_edition}
use book_guard_api.Books.Memory.Editions.{cover_for_book, ensure_edition}
use book_guard_api.Books.Memory.Invariant.{IsValid}
use book_guard_api.Books.Memory.Refines.{owned_book_iff}
use book_guard_api.Books.Memory.Reads.{get_of_owned, get_of_missing, apply_edition-keeps}
use book_guard_api.Books.Memory.Instance.{memory_repository}
use book_guard_api.Books.Repository.{Enqueuer}
use book_guard_api.Books.Handlers.{
  BookWrite, BookPatch, to_book, subject_of, isbn_from_input, canonical_patch, create, list, get,
  update, delete, cover, refresh, apply_to,
}
use book_guard_api.Books.Requests.{
  Request, posts, lists, gets, patches, deletes, covers, refreshes, MemoryServer, serve,
}
use book_guard_api.Books.Requests.Change.{Change, same, added, changed, removed, marked}
use book_guard_api.Books.Requests.Create.{isbn_from_input-IsIsbn, create_lem}
use book_guard_api.Books.Requests.Update.{
  canonical_patch-SetsIsbn, given-IsIsbn, edited, edited-held, update_lem,
}

-- The id that a POST draws belongs to no book: it is a UUIDv7.
abbrev pub HasFreshId : MemoryStore → Request → Type 0
HasFreshId s (posts id now body) = lookup id s.books ≡ none
HasFreshId s _ = Unit

abbrev after_edit : Book → Text → MemoryStore → MemoryStore
after_edit b old_isbn s = if b.isbn == old_isbn then s else ensure_edition b.isbn s

module _ (queue : Enqueuer) (table : CaseTable) (who : Option Identity)
    (srv : MemoryServer queue table) where
  module _ (user : Text) (known : subject_of who ≡ ok user) where
    create-Change :
        (id : Text) (now : ℕ) (body : BookWrite)
        → lookup id srv.store.books ≡ none
        → Change user srv.store (create memory_repository queue table id now who body srv).1.store
    unfolding create
    create-Change id now body fresh = elim (Result-cases (isbn_from_input table body.isbn)) [
      | inr (e, invalid) ↦ rw (known, invalid) (same refl)
      | inl (isbn, valid) ↦
          added id now (record (to_book body) { isbn = isbn }) fresh
            (isbn_from_input-IsIsbn table body.isbn isbn valid)
            (ap (λ r. r.1.store) (create_lem queue table srv who user id isbn now body known valid))
    ]

    list-Change : Change user srv.store (list memory_repository queue who srv).1.store
    unfolding list
    list-Change = rw known (same refl)

    get-Change :
        (id : Text) → Change user srv.store (get memory_repository queue who id srv).1.store
    unfolding get
    get-Change id = elim (Option-cases (owned_book user id srv.store)) [
      | inl missing ↦ rw (known, get_of_missing user id srv.store missing) (same refl)
      | inr (b, held) ↦ rw (known, get_of_owned user id srv.store held) (same refl)
    ]

    patched-Change :
        (now : ℕ) (raw : Book) (body : BookPatch)
        → owned_book user raw.id srv.store ≡ some raw
        → Change user srv.store
            (update memory_repository queue table now who raw.id body srv).1.store
    unfolding update apply_to
    patched-Change now raw body held = elim (Result-cases (canonical_patch table body body.isbn)) [
      | inr (e, invalid) ↦ rw (known, get_of_owned user raw.id srv.store held, invalid) (same refl)
      | inl (p, checked) ↦
          let b = edited queue table srv raw p in
          let same_isbn = (apply_edition-keeps srv.store raw).2 in
          changed now b raw (edited-held queue table srv user raw p held)
            (subst (λ isbn. IsIsbn b.isbn ⊎ (b.isbn ≡ isbn)) same_isbn
              (given-IsIsbn p.isbn _ (canonical_patch-SetsIsbn table body p checked)))
            (subst
              (λ isbn.
                (update memory_repository queue table now who raw.id body srv).1.store
                ≡ after_edit b isbn (Memory.update now user b srv.store).1)
              same_isbn
              (ap (λ r. r.1.store)
                (update_lem queue table srv who user now raw body p known held checked)))
    ]

    update-Change :
        IsValid srv.store
        → (now : ℕ) (id : Text) (body : BookPatch)
        → Change user srv.store (update memory_repository queue table now who id body srv).1.store
    unfolding update
    update-Change v now id body = elim (Option-cases (owned_book user id srv.store)) [
      | inl missing ↦ rw (known, get_of_missing user id srv.store missing) (same refl)
      | inr (raw, held) ↦
          let own = v.keyed id raw ((owned_book_iff user id srv.store raw).0 held).0 in
          subst
            (λ k.
              Change user srv.store
                (update memory_repository queue table now who k body srv).1.store)
            own
            (patched-Change now raw body
              (subst (λ k. owned_book user k srv.store ≡ some raw) (sym own) held))
    ]

    delete-Change :
        (id : Text) → Change user srv.store (delete memory_repository queue who id srv).1.store
    unfolding delete Memory.delete
    delete-Change id = elim (Option-cases (owned_book user id srv.store)) [
      | inl missing ↦ rw (known, missing, Memory.delete) (same refl)
      | inr (b, held) ↦ rw known (removed id (rw (held, Memory.delete)))
    ]

    cover-Change :
        (id : Text) → Change user srv.store (cover memory_repository queue who id srv).1.store
    unfolding cover
    cover-Change id = elim (Result-cases (cover_for_book user id srv.store)) [
      | inl (c, found) ↦ rw (known, found) (same refl)
      | inr (e, missing) ↦ rw (known, missing) (same refl)
    ]

    refresh-Change :
        (id : Text) → Change user srv.store (refresh memory_repository queue who id srv).1.store
    unfolding refresh
    refresh-Change id = elim (Option-cases (owned_book user id srv.store)) [
      | inl missing ↦ rw (known, get_of_missing user id srv.store missing) (same refl)
      | inr (raw, held) ↦ elim (Bool-cases (is_empty (apply_edition srv.store raw).isbn)) [
        | inl empty ↦ rw (known, get_of_owned user id srv.store held, empty) (same refl)
        | inr filled ↦
            rw (known, get_of_owned user id srv.store held, filled)
              (marked (apply_edition srv.store raw).isbn refl)
      ]
    ]

    pub serve-Change :
        IsValid srv.store
        → (req : Request) → HasFreshId srv.store req
        → Change user srv.store (serve queue table who req srv).store
    unfolding serve
    serve-Change v (posts id now body) f = create-Change id now body f
    serve-Change v lists f = list-Change
    serve-Change v (gets id) f = get-Change id
    serve-Change v (patches now id body) f = update-Change v now id body
    serve-Change v (deletes id) f = delete-Change id
    serve-Change v (covers id) f = cover-Change id
    serve-Change v (refreshes id) f = refresh-Change id
