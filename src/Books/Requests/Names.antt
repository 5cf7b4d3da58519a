-- ===== src/Books/Requests/Names.antt =====
-- What PATCH /books/{id} of internal/books/handlers.go does to the names of a book that has none of
-- its own: the handler reads the book merged with its edition, and writes the merged book back.
use book_guard_api.Base.{
  ℕ, ◌≡◌, true, false, Option, some, none, Text, is_empty, Option-cases, ◌∙◌, inl, inr, lookup,
  CaseTable, if◌then◌else◌, ok,
}
use book_guard_api.Auth.{Identity}
use book_guard_api.Books.Book.{Book, apply_canonical_names}
use book_guard_api.Books.Memory.{MemEdition, MemoryStore, owned_book, apply_edition, merge_edition}
use book_guard_api.Books.Memory.Instance.{memory_repository}
use book_guard_api.Books.Repository.{Enqueuer}
use book_guard_api.Books.Handlers.{BookPatch, apply_to, subject_of, canonical_patch, update}
use book_guard_api.Books.Requests.{MemoryServer}
use book_guard_api.Books.Requests.Update.{patched, store_after-held, update_lem}

titled_stays :
    (s : MemoryStore) (b : Book) → is_empty b.title ≡ false → (apply_edition s b).title ≡ b.title
unfolding apply_edition apply_canonical_names
titled_stays s b titled =
    elim (Option-cases (if is_empty b.isbn then none else lookup b.isbn s.editions)) [
      | inl missing ↦ rw (missing, merge_edition)
      | inr (e, found) ↦ rw (found, merge_edition) (rw titled)
    ]

untitled_takes :
    (s : MemoryStore) (b : Book) (e : MemEdition)
    → is_empty b.title ≡ true
    → is_empty b.isbn ≡ false
    → lookup b.isbn s.editions ≡ some e
    → (apply_edition s b).title ≡ e.title
unfolding apply_edition apply_canonical_names
untitled_takes s b e bare filled found = rw (filled, found, bare)

module _ (queue : Enqueuer) (table : CaseTable) (srv : MemoryServer queue table) where
  patched-title :
      (now : ℕ) (user : Text) (raw : Book) (p : BookPatch) (e : MemEdition)
      → p.title ≡ none
      → is_empty raw.title ≡ true
      → is_empty raw.isbn ≡ false
      → lookup raw.isbn srv.store.editions ≡ some e
      → (patched queue table srv now user raw p).title ≡ e.title
  unfolding apply_to
  patched-title now user raw p e untitled bare filled found =
      rw (untitled, untitled_takes srv.store raw e bare filled found)

  -- A patch that gives no title writes the edition's title into a stored book that had none, as if
  -- the user had chosen it: from then on that title is shown whatever the editions say.
  pub patch_freezes_title :
      (who : Option Identity) (user : Text) (now : ℕ) (raw : Book) (body p : BookPatch)
      (e : MemEdition)
      → subject_of who ≡ ok user
      → owned_book user raw.id srv.store ≡ some raw
      → canonical_patch table body body.isbn ≡ ok p
      → p.title ≡ none
      → is_empty raw.title ≡ true
      → is_empty raw.isbn ≡ false
      → lookup raw.isbn srv.store.editions ≡ some e
      → is_empty e.title ≡ false
      → (b : Book) × (owned_book user raw.id
            (update memory_repository queue table now who raw.id body srv).1.store
          ≡ some b)
        × ((later : MemoryStore) → (apply_edition later b).title ≡ e.title)
  patch_freezes_title who user now raw body p e known held checked untitled bare filled found
        named =
      let title = patched-title now user raw p e untitled bare filled found in
      (
        patched queue table srv now user raw p,
        rw (update_lem queue table srv who user now raw body p known held checked)
            (store_after-held queue table srv now user raw p held),
        λ later.
            titled_stays later (patched queue table srv now user raw p) (rw title named) ∙ title,
      )
