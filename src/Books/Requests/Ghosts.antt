-- ===== src/Books/Requests/Ghosts.antt =====
-- Ghosts: books in the memory store that nothing can enrich, in the words of the comments in
-- internal/books/handlers.go, against what a request and the worker's writes can change.
use book_guard_api.Base.{
  ℕ, ◌≡◌, sym, subst, ◌⊎◌, inl, inr, Option, some, Text, ◌==◌, eq_iff, lookup, insert, erase,
  lookup-insert, lookup-erase, if◌then◌else◌, Option-cases, Bool-cases, arith,
}
use book_guard_api.Books.Book.{Book}
use book_guard_api.Books.Isbn.Shape.{IsIsbn}
use book_guard_api.Books.Memory.{
  MemEdition, MemoryStore, stamped, create, owned_book, update, delete, fresh_edition,
}
use book_guard_api.Books.Memory.Editions.{
  ensure_edition, mark_edition_pending, save_enrichment, save_cover,
}
use book_guard_api.Books.Memory.Refines.{owned_book_iff}
use book_guard_api.Enrich.Provider.{Status, pending, Metadata, Cover}
use book_guard_api.Books.Memory.Reads.{books-ensure_edition}
use book_guard_api.Books.Requests.Change.{Change, same, added, changed, removed, marked}

abbrev pub HasEdition : MemoryStore → Text → Type 0
HasEdition s isbn = (e : MemEdition) × (lookup isbn s.editions ≡ some e)

-- Every book has a valid ISBN, and the edition of that ISBN is there to be enriched.
abbrev pub HasNoGhosts : MemoryStore → Type 0
HasNoGhosts s =
    (id : Text) (b : Book) → lookup id s.books ≡ some b → IsIsbn b.isbn × HasEdition s b.isbn

put_edition-HasEdition :
    (k isbn : Text) (e : MemEdition) (s : MemoryStore)
    → HasEdition s isbn
    → HasEdition (record s { editions = insert k e s.editions }) isbn
put_edition-HasEdition k isbn e s (f, found) = elim (Bool-cases (k == isbn)) [
  | inl hit ↦ (e, ground (arith, lookup-insert k isbn e s.editions, hit))
  | inr miss ↦ (f, ground (arith, lookup-insert k isbn e s.editions, miss, found))
]

put_edition-HasNoGhosts :
    (k : Text) (e : MemEdition) (s : MemoryStore)
    → HasNoGhosts s
    → HasNoGhosts (record s { editions = insert k e s.editions })
put_edition-HasNoGhosts k e s g id b h =
    ((g id b h).0, put_edition-HasEdition k b.isbn e s (g id b h).1)

ensure_edition-HasEdition :
    (k isbn : Text) (s : MemoryStore) → HasEdition s isbn → HasEdition (ensure_edition k s) isbn
unfolding ensure_edition
ensure_edition-HasEdition k isbn s has = elim (Option-cases (lookup k s.editions)) [
  | inl missing ↦ rw (missing, ensure_edition) (put_edition-HasEdition k isbn _ s has)
  | inr (e, found) ↦ rw (found, ensure_edition) has
]

ensure_edition-HasEdition_self :
    (isbn : Text) (s : MemoryStore) → HasEdition (ensure_edition isbn s) isbn
unfolding ensure_edition
ensure_edition-HasEdition_self isbn s = elim (Option-cases (lookup isbn s.editions)) [
  | inl missing ↦
      rw (missing, ensure_edition)
        (
          fresh_edition pending,
          ground
              (arith, lookup-insert isbn isbn (fresh_edition pending) s.editions, eq_iff isbn isbn),
        )
  | inr (e, found) ↦ rw (found, ensure_edition) (e, found)
]

module _ (s : MemoryStore) (g : HasNoGhosts s) where
  -- A book written under a key, with its edition there already or made sure of.
  put_book-HasNoGhosts :
      (k : Text) (b : Book)
      → IsIsbn b.isbn
      → HasEdition s b.isbn
      → HasNoGhosts (record s { books = insert k b s.books })
  put_book-HasNoGhosts k b shape has j c h = elim (Bool-cases (k == j)) [
    | inl hit ↦
        let e : b ≡ c = ground (arith, lookup-insert k j b s.books, hit, h) in
        subst (λ c. IsIsbn c.isbn × HasEdition s c.isbn) e (shape, has)
    | inr miss ↦ g j c (ground (arith, lookup-insert k j b s.books, miss, h))
  ]

  ensured_book-HasNoGhosts :
      (k : Text) (b : Book)
      → IsIsbn b.isbn
      → HasNoGhosts (ensure_edition b.isbn (record s { books = insert k b s.books }))
  ensured_book-HasNoGhosts k b shape j c h =
      let s' = record s { books = insert k b s.books } in
      let h' = subst (λ m. lookup j m ≡ some c) (books-ensure_edition b.isbn s') h in
      elim (Bool-cases (k == j)) [
        | inl hit ↦
            let e : b ≡ c = ground (arith, lookup-insert k j b s.books, hit, h') in
            subst (λ c. IsIsbn c.isbn × HasEdition (ensure_edition b.isbn s') c.isbn) e
              (shape, ensure_edition-HasEdition_self b.isbn s')
        | inr miss ↦
            let (shape', has) = g j c (ground (arith, lookup-insert k j b s.books, miss, h')) in
            (shape', ensure_edition-HasEdition b.isbn c.isbn s' has)
      ]

  take_book-HasNoGhosts : (k : Text) → HasNoGhosts (record s { books = erase k s.books })
  take_book-HasNoGhosts k j c h = g j c (ground (arith, lookup-erase k j s.books, h))

  changed-HasNoGhosts :
      (user : Text) (now : ℕ) (b old : Book)
      → owned_book user b.id s ≡ some old
      → IsIsbn b.isbn ⊎ (b.isbn ≡ old.isbn)
      → HasNoGhosts (
          if b.isbn == old.isbn
          then (update now user b s).1
          else ensure_edition b.isbn (update now user b s).1)
  unfolding update
  changed-HasNoGhosts user now b old held shape =
      let b' = record b { user_id = user; created_at = old.created_at; updated_at = now } in
      let (old_shape, has) = g b.id old ((owned_book_iff user b.id s old).0 held).0 in
      elim (Bool-cases (b.isbn == old.isbn)) [
        | inl kept ↦
            let same_isbn = (eq_iff b.isbn old.isbn).0 kept in
            rw (kept, held, update)
              (put_book-HasNoGhosts b.id b' (subst IsIsbn (sym same_isbn) old_shape)
                (subst (HasEdition s) (sym same_isbn) has))
        | inr moved ↦
            rw (moved, held, update)
              (ensured_book-HasNoGhosts b.id b' (elim shape [
                | inl valid ↦ valid
                | inr unchanged ↦ absurd (ground (arith, eq_iff b.isbn old.isbn, unchanged, moved))
              ]))
      ]

  removed-HasNoGhosts : (user id : Text) → HasNoGhosts (delete user id s).1
  unfolding delete
  removed-HasNoGhosts user id = elim (Option-cases (owned_book user id s)) [
    | inl missing ↦ rw (missing, delete) g
    | inr (b, held) ↦ rw (held, delete) (take_book-HasNoGhosts id)
  ]

  -- The worker's writes.
  pub save_enrichment-HasNoGhosts :
      (now : ℕ) (isbn : Text) (m : Option Metadata) (status : Status)
      → HasNoGhosts (save_enrichment now isbn m status s)
  unfolding save_enrichment
  save_enrichment-HasNoGhosts now isbn m status = put_edition-HasNoGhosts isbn _ s g

  pub save_cover-HasNoGhosts : (isbn : Text) (c : Cover) → HasNoGhosts (save_cover isbn c s)
  unfolding save_cover
  save_cover-HasNoGhosts isbn c =
      put_edition-HasNoGhosts isbn _ (record s { covers = insert isbn c s.covers }) g

  pub Change-HasNoGhosts : (user : Text) {t : MemoryStore} → Change user s t → HasNoGhosts t
  unfolding create stamped mark_edition_pending
  Change-HasNoGhosts user (same e) = subst HasNoGhosts (sym e) g
  Change-HasNoGhosts user (added id now b fresh shape e) =
      subst HasNoGhosts (sym e) (ensured_book-HasNoGhosts id (stamped id user now b) shape)
  Change-HasNoGhosts user (changed now b old held shape e) =
      subst HasNoGhosts (sym e) (changed-HasNoGhosts user now b old held shape)
  Change-HasNoGhosts user (removed id e) = subst HasNoGhosts (sym e) (removed-HasNoGhosts user id)
  Change-HasNoGhosts user (marked isbn e) =
      subst HasNoGhosts (sym e) (put_edition-HasNoGhosts isbn _ s g)
