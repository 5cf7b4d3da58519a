-- ===== src/Books/Requests/Create.antt =====
-- POST /books of internal/books/handlers.go on the memory store: the answer and the state after it.
use book_guard_api.Base.{
  ℕ, ◌≡◌, refl, ◌∙◌, subst, inl, inr, false, [], ◌∷◌, Option, Text, is_empty, CaseTable, ok,
  Result-cases, arith,
}
use book_guard_api.Auth.{Identity}
use book_guard_api.Books.Isbn.{canonical_isbn}
use book_guard_api.Books.Isbn.Shape.{IsIsbn}
use book_guard_api.Books.Isbn.Canonical.{canonical_isbn_iff}
use book_guard_api.Books.Book.{Book}
use book_guard_api.Books.Memory
use book_guard_api.Books.Memory.{MemoryStore, owned_book, stamped, apply_edition}
use book_guard_api.Books.Memory.Editions.{ensure_edition}
use book_guard_api.Books.Memory.Reads.{owned_book-ensure_edition, get_of_owned, owned_book-create}
use book_guard_api.Books.Memory.Instance.{memory_repository}
use book_guard_api.Books.Repository.{Enqueuer}
use book_guard_api.Books.Handlers.{
  BookWrite, to_book, subject_of, isbn_from_input, set_cover_url, create, enqueue_enrichment,
}
use book_guard_api.Books.Requests.{MemoryServer}

pub isbn_from_input-IsIsbn :
    (table : CaseTable) (raw isbn : Text) → isbn_from_input table raw ≡ ok isbn → IsIsbn isbn
unfolding isbn_from_input
isbn_from_input-IsIsbn table raw isbn h = elim (Result-cases (canonical_isbn table raw)) [
  | inl (c, e) ↦ subst IsIsbn (ground (arith, h, e)) ((canonical_isbn_iff table raw c).0 e).1
  | inr (x, e) ↦ absurd (ground (arith, h, e))
]

pub IsIsbn-not_empty : (s : Text) → IsIsbn s → is_empty s ≡ false
IsIsbn-not_empty [] (inl h) = absurd (omega arith)
IsIsbn-not_empty [] (inr h) = absurd (omega arith)
IsIsbn-not_empty (c ∷ s) h = refl

module _ (queue : Enqueuer) (table : CaseTable) (srv : MemoryServer queue table) where
  -- The book that a request asks for, in canonical form and stamped.
  abbrev pub posted : Text → ℕ → Text → Text → BookWrite → Book
  posted id now user isbn body = stamped id user now (record (to_book body) { isbn = isbn })

  -- The store once the book is in it and its edition is there.
  abbrev pub store_after : Text → ℕ → Text → Text → BookWrite → MemoryStore
  store_after id now user isbn body =
      ensure_edition isbn
        (Memory.create id now user (record (to_book body) { isbn = isbn }) srv.store).1

  -- A signed-in caller who posts a valid ISBN gets the stored book back, merged with the shared
  -- edition of the canonical ISBN. The store has gained that book and the edition if it was not
  -- there, and the ISBN is handed to the enqueuer.
  pub create_lem :
      (who : Option Identity) (user id isbn : Text) (now : ℕ) (body : BookWrite)
      → subject_of who ≡ ok user
      → isbn_from_input table body.isbn ≡ ok isbn
      → create memory_repository queue table id now who body srv ≡ (
        ok (
            set_cover_url
              (apply_edition (store_after id now user isbn body) (posted id now user isbn body))),
        record { store = store_after id now user isbn body; jobs = queue.enqueue isbn srv.jobs },
      )
  unfolding create Memory.create stamped enqueue_enrichment
  create_lem who user id isbn now body known valid =
      let filled = IsIsbn-not_empty isbn (isbn_from_input-IsIsbn table body.isbn isbn valid) in
      let held =
        owned_book-ensure_edition user id isbn _
        ∙ owned_book-create id now user (record (to_book body) { isbn = isbn }) srv.store in
      let got = get_of_owned user id (store_after id now user isbn body) held in
      rw (known, valid, filled, got)
