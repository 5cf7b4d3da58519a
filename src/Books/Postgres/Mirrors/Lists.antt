-- ===== src/Books/Postgres/Mirrors/Lists.antt =====
-- `List` and `PendingEnrichment` of internal/books/store_postgres.go beside those of store_memory.go.
use book_guard_api.Base.{
  ℕ, suc, ◌≡◌, refl, sym, ap, ◌∙◌, ◌↔◌, inl, inr, true, List, map, keep, take, length, In,
  IsDistinct, Text, ◌==◌, eq_iff, lookup, pos, sort_texts, In-sort_texts, sort_texts-IsSorted,
  sorted_ext, ltb, ok, Option-cases, Bool-cases, arith,
}
use book_guard_api.Books.Book.{Book}
use book_guard_api.Enrich.Provider.{Status, pending, enriched, failed}
use book_guard_api.Books.Memory
use book_guard_api.Books.Memory.{MemEdition, MemoryStore, apply_edition, sort_by_created}
use book_guard_api.Books.Memory.Editions
use book_guard_api.Books.Memory.Editions.{needs_work}
use book_guard_api.Books.Memory.Listing.{
  list_lem, Listed, get-Listed, Listed-get, In-sort_by_created, IsOrdered,
  sort_by_created-IsOrdered,
}
use book_guard_api.Books.Memory.Pending.{Waiting, all_pending, In-all_pending, all_pending-IsSorted}
use book_guard_api.Books.Rows.{row_at, mapped}
use book_guard_api.Books.Rows.Laws.{row_at-key}
use book_guard_api.Books.Rows.Members.{take-all, In-selected, row_at-In, In-row_at, keys-IsNodup}
use book_guard_api.Books.Postgres
use book_guard_api.Books.Postgres.{BookRow, EditionRow, Tables, columns_of, joined, exec}
use book_guard_api.Books.Postgres.Editions as PostgresEditions
use book_guard_api.Books.Postgres.Editions.{edition_key, is_todo}
use book_guard_api.Books.Postgres.Mirrors.{book_key, healthy, edition_of, Mirrors}
use book_guard_api.Books.Postgres.Mirrors.Reads.{joined-apply_edition}

-- A positive limit cuts what there is.
pending-take :
    (n : ℕ) (s : MemoryStore)
    → Editions.pending_enrichment (pos (suc n)) s ≡ take (suc n) (all_pending s)
unfolding Editions.pending_enrichment
pending-take n s = elim (Bool-cases (ltb (suc n) (length (all_pending s)))) [
  | inl more ↦ ground (arith, more)
  | inr fits ↦ ground (arith, fits, take-all (suc n) (all_pending s))
]

-- The texts that SQL compares and the statuses that Go compares.
is_todo-needs_work : (status : Status) → is_todo status ≡ needs_work status
unfolding ◌==◌
is_todo-needs_work pending = refl
is_todo-needs_work enriched = refl
is_todo-needs_work failed = refl

module _ (t : Tables) (s : MemoryStore) (m : Mirrors t s) where
  row-Waiting :
      (isbn : Text)
      → ((r : EditionRow) × In r t.editions
          × (is_todo r.enrichment_status ≡ true)
          × (isbn ≡ r.isbn))
        ↔ Waiting s.editions isbn
  row-Waiting isbn = (
    λ (r, there, waits, named).
        let found = In-row_at edition_key t.editions r m.unique_editions there in
        (
          edition_of r,
          ap (λ i. lookup i s.editions) named
              ∙ sym (m.same_editions r.isbn)
              ∙ ap (mapped edition_of) found,
          sym (is_todo-needs_work r.enrichment_status) ∙ waits,
        ),
    λ (e, stored, waits). elim (Option-cases (row_at edition_key isbn t.editions)) [
      | inl free ↦
          let gone = sym (ap (mapped edition_of) free) ∙ m.same_editions isbn ∙ stored in
          absurd (cc gone)
      | inr (r, found) ↦
          let same : edition_of r ≡ e =
            ground (arith, sym (ap (mapped edition_of) found) ∙ m.same_editions isbn ∙ stored) in
          (
            r,
            row_at-In edition_key isbn t.editions r found,
            is_todo-needs_work r.enrichment_status
                ∙ ap (λ (e : MemEdition). needs_work e.status) same
                ∙ waits,
            sym (row_at-key edition_key isbn t.editions r found),
          )
    ],
  )

  pub pending_enrichment-Mirrors :
      (n : ℕ)
      → IsDistinct s.editions
      → PostgresEditions.pending_enrichment (pos (suc n)) (healthy t)
        ≡ (ok (Editions.pending_enrichment (pos (suc n)) s), healthy t)
  unfolding PostgresEditions.pending_enrichment PostgresEditions.pending_rows exec
  pending_enrichment-Mirrors n d =
      let waits = λ (e : EditionRow). is_todo e.enrichment_status in
      let rows = map edition_key (keep waits t.editions) in
      ap (λ (found : List Text). (ok found, healthy t))
        (ap (take (suc n)) (
            sorted_ext (sort_texts rows) (all_pending s)
              (sort_texts-IsSorted rows
                (keys-IsNodup edition_key waits t.editions m.unique_editions))
              (all_pending-IsSorted s d)
              (λ isbn. (
                λ i. (In-all_pending s isbn d).1 (
                    (row-Waiting isbn).0 (
                      (In-selected waits edition_key isbn t.editions).0
                        ((In-sort_texts isbn rows).0 i))),
                λ i. (In-sort_texts isbn rows).1 (
                    (In-selected waits edition_key isbn t.editions).1
                      ((row-Waiting isbn).1 ((In-all_pending s isbn d).0 i))),
              )))
          ∙ sym (pending-take n s))

  row-Listed :
      (user : Text) (b : Book)
      → ((r : BookRow) × In r t.books × ((r.user_id == user) ≡ true) × (b ≡ joined t r))
        ↔ Listed user s s.books b
  unfolding columns_of
  row-Listed user b = (
    λ (r, there, own, same). elim (Option-cases (lookup r.id s.books)) [
      | inl free ↦
          let gone =
            sym (In-row_at book_key t.books r m.unique_books there)
            ∙ m.same_books r.id
            ∙ ap (mapped columns_of) free in
          absurd (cc gone)
      | inr (raw, stored) ↦
          let row : r ≡ columns_of raw = ground (
            arith,
            sym (In-row_at book_key t.books r m.unique_books there)
                ∙ m.same_books r.id
                ∙ ap (mapped columns_of) stored,
          ) in
          (
            r.id,
            raw,
            stored,
            sym (ap (λ (r : BookRow). r.user_id) row) ∙ (eq_iff r.user_id user).0 own,
            sym (joined-apply_edition t s m r.id raw stored) ∙ sym (ap (joined t) row) ∙ sym same,
          )
    ],
    λ (id, raw, stored, own, merged).
        let found = m.same_books id ∙ ap (mapped columns_of) stored in
        (
          columns_of raw,
          row_at-In book_key id t.books (columns_of raw) found,
          (eq_iff raw.user_id user).1 own,
          sym merged ∙ sym (joined-apply_edition t s m id raw stored),
        ),
  )

  pub list-Mirrors :
      (user : Text)
      → IsDistinct s.books
      → (bs : List Book) × (Postgres.list user (healthy t) ≡ (ok bs, healthy t))
        × IsOrdered bs
        × ((b : Book) → In b bs ↔ In b (Memory.list user s))
  unfolding Postgres.list exec
  list-Mirrors user d =
      let own = λ (r : BookRow). r.user_id == user in
      let rows = map (joined t) (keep own t.books) in
      (
        sort_by_created rows,
        refl,
        sort_by_created-IsOrdered rows,
        λ b. (
          λ i. ((list_lem user s d).0 b).1 (
              Listed-get user s b (
                (row-Listed user b).0
                  ((In-selected own (joined t) b t.books).0 ((In-sort_by_created b rows).0 i)))),
          λ i.
              let (id, got) = ((list_lem user s d).0 b).0 i in
              (In-sort_by_created b rows).1 (
                (In-selected own (joined t) b t.books).1
                  ((row-Listed user b).1 (get-Listed user s b id got))),
        ),
      )
