-- ===== src/Books/Postgres/Steps/Shared.antt =====
-- The editions and covers of internal/books/store_postgres.go beside those of the memory store.
use book_guard_api.Base.{
  ℕ, ◌≡◌, refl, sym, ap, ◌∙◌, subst, inl, inr, true, Option, none, some, Text, ◌==◌, eq_iff, lookup,
  insert, if◌then◌else◌, Bool-cases, Option-cases, arith,
}
use book_guard_api.Books.Memory.{MemEdition, MemoryStore, fresh_edition}
use book_guard_api.Books.Memory.Editions
use book_guard_api.Books.Memory.Editions.{edition_or, with_metadata}
use book_guard_api.Books.Memory.Invariant.{ensures, marks, enriches, covers}
use book_guard_api.Books.Memory.Instance.{memory_repository}
use book_guard_api.Books.Rows.{update_rows, row_at, upsert, mapped}
use book_guard_api.Books.Rows.Laws.{
  row_at-key, update-IsUnique, row_at-upsert, upsert-IsUnique, row_at-update_key, update-IsUnique,
}
use book_guard_api.Books.Postgres.{EditionRow, CoverRow, Tables, exec}
use book_guard_api.Books.Postgres.Editions as PostgresEditions
use book_guard_api.Books.Postgres.Editions.{
  edition_key, cover_key, bare_edition, insert_edition, set_status, set_metadata, cover_row,
  upsert_cover, flag_cover, mark_has_cover, transaction,
}
use book_guard_api.Books.Postgres.Instance.{postgres_repository}
use book_guard_api.Books.Postgres.Mirrors.{healthy, edition_of, Mirrors}
use book_guard_api.Books.Postgres.Steps.{call_on, Follows}
use book_guard_api.Books.Postgres.Steps.Puts.{put_edition-Mirrors, put_cover-Mirrors}
use book_guard_api.Enrich.Provider.{Status, pending, Metadata, Cover}

-- The row that an upsert leaves under its key.
abbrev row_after : EditionRow → (EditionRow → EditionRow) → Option EditionRow → EditionRow
row_after new f none = new
row_after new f (some r) = f r

row_after-elim :
    (new : EditionRow) (f : EditionRow → EditionRow) (o : Option EditionRow)
    → elim o [ none ↦ new | some r ↦ f r ] ≡ row_after new f o
row_after-elim new f none = refl
row_after-elim new f (some r) = refl

module _ (t : Tables) (s : MemoryStore) (m : Mirrors t s) where
  -- An upsert of an edition that the memory store writes as `e`.
  upsert-Mirrors :
      (isbn : Text) (new : EditionRow) (f : EditionRow → EditionRow) (e : MemEdition)
      → new.isbn ≡ isbn
      → ((r : EditionRow) → (f r).isbn ≡ r.isbn)
      → edition_of (row_after new f (row_at edition_key isbn t.editions)) ≡ e
      → Mirrors
          (record t { editions = upsert edition_key isbn new f t.editions })
          (record s { editions = insert isbn e s.editions })
  upsert-Mirrors isbn new f e named same written =
      let row = row_after new f (row_at edition_key isbn t.editions) in
      subst
        (λ e.
          Mirrors (record t { editions = upsert edition_key isbn new f t.editions })
            (record s { editions = insert isbn e s.editions }))
        written
        (put_edition-Mirrors t s m isbn row (upsert edition_key isbn new f t.editions)
          (upsert-IsUnique edition_key isbn new f named same t.editions m.unique_editions)
          (λ j.
            row_at-upsert edition_key isbn new f named same j t.editions
            ∙ ap (λ (r : EditionRow). if isbn == j then some r else row_at edition_key j t.editions)
                (row_after-elim new f (row_at edition_key isbn t.editions))))

  -- The edition that is there, seen from both sides.
  edition_here :
      (isbn : Text) (o : Option EditionRow)
      → row_at edition_key isbn t.editions ≡ o
      → lookup isbn s.editions ≡ mapped edition_of o
  edition_here isbn o h = sym (m.same_editions isbn) ∙ ap (mapped edition_of) h

  pub marks-Follows :
      (isbn : Text)
      → Follows
          (call_on postgres_repository (marks isbn) (healthy t))
          (call_on memory_repository (marks isbn) s)
  unfolding call_on PostgresEditions.mark_edition_pending exec insert_edition
      Editions.mark_edition_pending
  marks-Follows isbn =
      let e = record (edition_or pending (lookup isbn s.editions)) { status = pending } in
      (
        refl,
        _,
        refl,
        upsert-Mirrors isbn (bare_edition isbn pending) (set_status pending) e refl (λ r. refl)
            (marked (row_at edition_key isbn t.editions) refl),
      )
    where
      marked :
          (o : Option EditionRow)
          → row_at edition_key isbn t.editions ≡ o
          → edition_of (
              row_after
                (bare_edition isbn pending)
                (set_status pending)
                (row_at edition_key isbn t.editions))
            ≡ record (edition_or pending (lookup isbn s.editions)) { status = pending }
      marked none h = rw (h, edition_here isbn none h)
      marked (some r) h = rw (h, edition_here isbn (some r) h)

  pub enriches-Follows :
      (now : ℕ) (isbn : Text) (o : Option Metadata) (status : Status)
      → Follows
          (call_on postgres_repository (enriches now isbn o status) (healthy t))
          (call_on memory_repository (enriches now isbn o status) s)
  unfolding call_on PostgresEditions.save_enrichment exec insert_edition Editions.save_enrichment
  enriches-Follows now isbn none status = (
    refl,
    _,
    refl,
    upsert-Mirrors isbn (bare_edition isbn status) (set_status status) _ refl (λ r. refl)
        (failed_row (row_at edition_key isbn t.editions) refl),
  )
    where
      failed_row :
          (o : Option EditionRow)
          → row_at edition_key isbn t.editions ≡ o
          → edition_of (
              row_after
                (bare_edition isbn status)
                (set_status status)
                (row_at edition_key isbn t.editions))
            ≡ record (edition_or status (lookup isbn s.editions)) { status = status }
      failed_row none h = rw (h, edition_here isbn none h)
      failed_row (some r) h = rw (h, edition_here isbn (some r) h)
  enriches-Follows now isbn (some meta) status = (
    refl,
    _,
    refl,
    upsert-Mirrors isbn (set_metadata now meta status (bare_edition isbn status))
        (set_metadata now meta status) _ refl (λ r. refl)
        (enriched_row (row_at edition_key isbn t.editions) refl),
  )
    where
      enriched_row :
          (o : Option EditionRow)
          → row_at edition_key isbn t.editions ≡ o
          → edition_of (
              row_after
                (set_metadata now meta status (bare_edition isbn status))
                (set_metadata now meta status)
                (row_at edition_key isbn t.editions))
            ≡ with_metadata now
                (some meta)
                (record (edition_or status (lookup isbn s.editions)) { status = status })
      enriched_row none h = rw (h, edition_here isbn none h)
      enriched_row (some r) h = rw (h, edition_here isbn (some r) h)

  -- An upsert that changes nothing.
  kept_edition-Mirrors :
      (isbn : Text) (r : EditionRow)
      → row_at edition_key isbn t.editions ≡ some r
      → Mirrors
          (record t {
            editions = upsert edition_key isbn (bare_edition isbn pending) (λ e. e) t.editions;
          })
          s
  kept_edition-Mirrors isbn r there = record {
    unique_books = m.unique_books;
    unique_editions =
        upsert-IsUnique edition_key isbn (bare_edition isbn pending) (λ e. e) refl (λ r. refl)
          t.editions m.unique_editions;
    unique_covers = m.unique_covers;
    same_books = m.same_books;
    plain = m.plain;
    same_editions = λ j.
        ap (mapped edition_of) (
          row_at-upsert edition_key isbn (bare_edition isbn pending) (λ e. e) refl (λ r. refl) j
            t.editions
          ∙ as_before j)
        ∙ m.same_editions j;
    same_covers = m.same_covers;
  }
    where
      as_before :
          (j : Text)
          → (if isbn == j
              then some (elim (row_at edition_key isbn t.editions) [
                | none ↦ bare_edition isbn pending
                | some r ↦ r
              ])
              else row_at edition_key j t.editions)
            ≡ row_at edition_key j t.editions
      as_before j = elim (Bool-cases (isbn == j)) [
        | inl hit ↦ rw (hit, ← (eq_iff isbn j).0 hit, there)
        | inr miss ↦ rw miss
      ]

  pub ensures-Follows :
      (isbn : Text)
      → Follows
          (call_on postgres_repository (ensures isbn) (healthy t))
          (call_on memory_repository (ensures isbn) s)
  unfolding call_on PostgresEditions.ensure_edition exec insert_edition Editions.ensure_edition
  ensures-Follows isbn = elim (Option-cases (row_at edition_key isbn t.editions)) [
    | inl free ↦
        rw (edition_here isbn none free, Editions.ensure_edition)
          (
            refl,
            _,
            refl,
            upsert-Mirrors isbn (bare_edition isbn pending) (λ e. e) (fresh_edition pending) refl
                (λ r. refl)
                (ap (λ o. edition_of (row_after (bare_edition isbn pending) (λ e. e) o)) free),
          )
    | inr (r, there) ↦
        rw (edition_here isbn (some r) there, Editions.ensure_edition)
          (refl, _, refl, kept_edition-Mirrors isbn r there)
  ]

  -- Both statements of `SaveCover`.
  covered-Mirrors :
      (isbn : Text) (c : Cover) (e : MemEdition) (r : EditionRow)
      → lookup isbn s.editions ≡ some e
      → row_at edition_key isbn t.editions ≡ some r
      → Mirrors
          (record t {
            editions = update_rows (λ e. e.isbn == isbn) flag_cover t.editions;
            covers =
                upsert cover_key isbn
                  (cover_row 0 isbn c)
                  (λ q. record (cover_row 0 isbn c) { isbn = q.isbn })
                  t.covers;
          })
          (record s {
            covers = insert isbn c s.covers;
            editions = insert isbn (record e { has_cover = true }) s.editions;
          })
  covered-Mirrors isbn c e r there found =
      let f = λ (q : CoverRow). record (cover_row 0 isbn c) { isbn = q.isbn } in
      let rows = upsert cover_key isbn (cover_row 0 isbn c) f t.covers in
      let flagged = update_rows (λ (e : EditionRow). e.isbn == isbn) flag_cover t.editions in
      let m' =
        put_cover-Mirrors t s m isbn (cover_row 0 isbn c) c rows refl
          (upsert-IsUnique cover_key isbn (cover_row 0 isbn c) f refl (λ q. refl) t.covers
            m.unique_covers)
          (λ j.
            row_at-upsert cover_key isbn (cover_row 0 isbn c) f refl (λ q. refl) j t.covers
            ∙ ap (λ (q : CoverRow). if isbn == j then some q else row_at cover_key j t.covers)
                (written (row_at cover_key isbn t.covers) refl)) in
      let here : edition_of r ≡ e = ground (arith, edition_here isbn (some r) found, there) in
      subst
        (λ (e : MemEdition).
          Mirrors (record t { editions = flagged; covers = rows })
            (record s {
              covers = insert isbn c s.covers;
              editions = insert isbn (record e { has_cover = true }) s.editions;
            }))
        here
        (put_edition-Mirrors (record t { covers = rows })
          (record s { covers = insert isbn c s.covers }) m' isbn (flag_cover r) flagged
          (update-IsUnique edition_key (λ e. e.isbn == isbn) flag_cover (λ e. refl) t.editions
            m.unique_editions)
          (λ j. row_at-update_key edition_key isbn flag_cover (λ e. refl) j t.editions r found))
    where
      written :
          (o : Option CoverRow)
          → row_at cover_key isbn t.covers ≡ o
          → elim o [
            | none ↦ cover_row 0 isbn c
            | some q ↦ record (cover_row 0 isbn c) { isbn = q.isbn }
          ]
            ≡ cover_row 0 isbn c
      written none h = refl
      written (some q) h = rw (row_at-key cover_key isbn t.covers q h)

  pub covers-Follows :
      (isbn : Text) (c : Cover) (e : MemEdition)
      → lookup isbn s.editions ≡ some e
      → Follows
          (call_on postgres_repository (covers isbn c) (healthy t))
          (call_on memory_repository (covers isbn c) s)
  unfolding call_on PostgresEditions.save_cover transaction exec upsert_cover mark_has_cover
      Editions.save_cover
  covers-Follows isbn c e there = elim (Option-cases (row_at edition_key isbn t.editions)) [
    | inl free ↦ let gone = sym there ∙ edition_here isbn none free in cc
    | inr (r, found) ↦ rw (found, there) (refl, _, refl, covered-Mirrors isbn c e r there found)
  ]
