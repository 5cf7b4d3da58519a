-- ===== src/Books/Requests/Covers.antt =====
-- The cover route of internal/books/handlers.go against the `cover_url` that the book routes show.
use book_guard_api.Base.{
  ◌≡◌, refl, [], ap, ◌∙◌, true, false, ◌⊎◌, inl, inr, ◌++◌, Option, some, none, Text, codes,
  is_empty, lookup, CaseTable, ok, err, Option-cases,
}
use book_guard_api.Http.{http_error}
use book_guard_api.Auth.{Identity}
use book_guard_api.Enrich.Provider.{Cover}
use book_guard_api.Books.Book.{Book, apply_canonical_names}
use book_guard_api.Books.Memory.{MemEdition, MemoryStore, owned_book, apply_edition, merge_edition}
use book_guard_api.Books.Memory.Editions.{cover_for_book}
use book_guard_api.Books.Memory.Invariant.{IsValid, flagged, stored}
use book_guard_api.Books.Memory.Reads.{get_of_owned, apply_edition-keeps}
use book_guard_api.Books.Memory.Instance.{memory_repository}
use book_guard_api.Books.Repository.{Enqueuer}
use book_guard_api.Books.Handlers.{subject_of, set_cover_url, get, cover}
use book_guard_api.Books.Requests.{MemoryServer}

shown_flag :
    (s : MemoryStore) (b : Book)
    → is_empty b.isbn ≡ false
    → (apply_edition s b).has_cover ≡ flagged (lookup b.isbn s.editions)
unfolding apply_edition apply_canonical_names
shown_flag s b filled = elim (Option-cases (lookup b.isbn s.editions)) [
  | inl missing ↦ rw (filled, missing, merge_edition)
  | inr (e, found) ↦ rw (filled, found, merge_edition)
]

merge_edition-cover_url :
    (b : Book) (o : Option MemEdition) → (merge_edition b o).cover_url ≡ b.cover_url
unfolding apply_canonical_names
merge_edition-cover_url b none = refl
merge_edition-cover_url b (some e) = refl

apply_edition-cover_url : (s : MemoryStore) (b : Book) → (apply_edition s b).cover_url ≡ b.cover_url
unfolding apply_edition
apply_edition-cover_url s b = merge_edition-cover_url b _

set_cover_url-bare : (b : Book) → b.has_cover ≡ false → set_cover_url b ≡ b
unfolding set_cover_url
set_cover_url-bare b h = rw h

shown_cover :
    (s : MemoryStore) (b : Book)
    → IsValid s
    → is_empty b.isbn ≡ false
    → ((c : Cover) × (lookup b.isbn s.covers ≡ some c) × ((apply_edition s b).has_cover ≡ true))
      ⊎ ((lookup b.isbn s.covers ≡ none) × ((apply_edition s b).has_cover ≡ false))
shown_cover s b v filled =
    let shown = shown_flag s b filled ∙ v.covered b.isbn in
    elim (Option-cases (lookup b.isbn s.covers)) [
      | inl bare ↦ inr (bare, shown ∙ ap stored bare)
      | inr (c, kept) ↦ inl (c, kept, shown ∙ ap stored kept)
    ]

module _ (queue : Enqueuer) (table : CaseTable) (srv : MemoryServer queue table) where
  -- A signed-in caller's book with an ISBN, stored without a URL in a well-formed store, is read with
  -- the URL "/books/{id}/cover" and the cover route serves the stored image, or no image is stored,
  -- it is read without a URL, and the cover route answers 404.
  pub cover-get :
      (who : Option Identity) (user id : Text) (b : Book)
      → IsValid srv.store
      → subject_of who ≡ ok user
      → owned_book user id srv.store ≡ some b
      → is_empty b.isbn ≡ false
      → b.cover_url ≡ []
      → ((c : Cover) × ((get memory_repository queue who id srv).0
            ≡ ok (record (apply_edition srv.store b) {
              cover_url = codes "/books/" ++ (b.id ++ codes "/cover");
            }))
          × ((cover memory_repository queue who id srv).0
              ≡ ok (record {
                content_type = c.content_type;
                cache_control = codes "private, max-age=86400";
                etag = c.etag;
                body = c.bytes;
              }))
          × (lookup b.isbn srv.store.covers ≡ some c))
        ⊎ (((get memory_repository queue who id srv).0
              ≡ ok (record (apply_edition srv.store b) { cover_url = [] }))
            × ((cover memory_repository queue who id srv).0
                ≡ err (http_error 404 (codes "cover not found")))
            × (lookup b.isbn srv.store.covers ≡ none))
  unfolding get cover cover_for_book set_cover_url
  cover-get who user id b v known held filled plain = elim (shown_cover srv.store b v filled) [
    | inl (c, kept, flagged) ↦ inl (
      c,
      rw (known, get_of_owned user id srv.store held, flagged)
          (rw ((apply_edition-keeps srv.store b).0)),
      rw (known, held, kept),
      kept,
    )
    | inr (bare, unflagged) ↦ inr (
      rw
          (
            known,
            get_of_owned user id srv.store held,
            set_cover_url-bare (apply_edition srv.store b) unflagged,
          )
          (ap (λ (u : Text). ok (record (apply_edition srv.store b) { cover_url = u }))
            (apply_edition-cover_url srv.store b ∙ plain)),
      rw (known, held, bare),
      bare,
    )
  ]
