-- ===== src/Books/Postgres/Faults/Flags.antt =====
-- internal/books/store_postgres.go: `has_cover` and the covers, which two statements write.
use book_guard_api.Base.{
  ℕ, ◌≡◌, refl, sym, ap, ◌∙◌, subst, inl, inr, Bool, false, List, [], ◌∷◌, Option, none, some, Text,
  ◌==◌, eq_iff, if◌then◌else◌, Bool-cases, Option-cases, Result, ok, err, and_then, ◌>>=◌, codes,
}
use book_guard_api.Books.Memory.{StoreError}
use book_guard_api.Books.Rows.{update_rows, row_at, IsUnique, upsert, is_some}
use book_guard_api.Books.Rows.Laws.{
  row_at-upsert, upsert-IsUnique, row_at-update_key, update-IsUnique,
}
use book_guard_api.Books.Postgres.{
  EditionRow, CoverRow, Tables, Database, Stores, after_statement, run_on, exec, error_on,
}
use book_guard_api.Books.Postgres.Editions
use book_guard_api.Books.Postgres.Editions.{
  edition_key, cover_key, insert_edition, upsert_cover, cover_row, flag_cover, mark_has_cover,
  nothing, transaction, or_rolled_back,
}
use book_guard_api.Books.Postgres.Faults.{exec-ok}
use book_guard_api.Enrich.Provider.{Cover}

abbrev pub flag_of : Option EditionRow → Bool
flag_of none = false
flag_of (some e) = e.has_cover

-- One row to a key, and an edition is flagged to have a cover exactly if one is stored.
pub record IsFlagged (t : Tables) : Type 0 where
  pub one_edition : IsUnique edition_key t.editions
  pub one_cover : IsUnique cover_key t.covers
  pub flags :
      (isbn : Text)
      → flag_of (row_at edition_key isbn t.editions) ≡ is_some (row_at cover_key isbn t.covers)

module _ {A : Type 0} where
  abbrev pub Keeps : Stores A → Type 0
  Keeps act = (db : Database) → IsFlagged db.tables → IsFlagged (act db).1.tables

  abbrev pub StatementKeeps : (Tables → Result Text A × Tables) → Type 0
  StatementKeeps statement = (t : Tables) → IsFlagged t → IsFlagged (statement t).1

  after_statement-tables :
      (what : Text) (faults : List (Option Text)) (r : Result Text A × Tables)
      → IsFlagged r.1
      → IsFlagged (after_statement what faults r).1.tables
  after_statement-tables what faults (ok a, t) f = f
  after_statement-tables what faults (err e, t) f = f

  run_on-Keeps :
      (what : Text) (statement : Tables → Result Text A × Tables)
      → StatementKeeps statement
      → (t : Tables) (faults : List (Option Text)) → IsFlagged t
      → IsFlagged (run_on what statement t faults).1.tables
  run_on-Keeps what statement keeps t [] f =
      after_statement-tables what [] (statement t) (keeps t f)
  run_on-Keeps what statement keeps t (none ∷ faults) f =
      after_statement-tables what faults (statement t) (keeps t f)
  run_on-Keeps what statement keeps t (some e ∷ faults) f = f

  pub exec-Keeps :
      (what : Text) (statement : Tables → Result Text A × Tables)
      → StatementKeeps statement
      → Keeps (exec what statement)
  unfolding exec
  exec-Keeps what statement keeps db f = run_on-Keeps what statement keeps db.tables db.faults f

  pub bind-Keeps :
      {B : Type 0} (act : Stores A) (next : A → Stores B)
      → Keeps act
      → ((a : A) (db : Database) → (next a db).1.tables ≡ db.tables)
      → (db : Database) → IsFlagged db.tables
      → IsFlagged ((act >>= next) db).1.tables
  bind-Keeps {B} act next keeps idle db f = after (act db) (keeps db f)
    where
      after :
          (r : Result StoreError A × Database)
          → IsFlagged r.1.tables
          → IsFlagged (and_then {B = B} r next).1.tables
      after (ok a, db') f = subst IsFlagged (sym (idle a db')) f
      after (err e, db') f = f

-- Only the books are written.
pub same_flags :
    (t t' : Tables) → t'.editions ≡ t.editions → t'.covers ≡ t.covers → IsFlagged t → IsFlagged t'
same_flags t t' edited covered f = record {
  one_edition = subst (IsUnique edition_key) (sym edited) f.one_edition;
  one_cover = subst (IsUnique cover_key) (sym covered) f.one_cover;
  flags = λ isbn.
      ap (λ rows. flag_of (row_at edition_key isbn rows)) edited
      ∙ f.flags isbn
      ∙ ap (λ rows. is_some (row_at cover_key isbn rows)) (sym covered);
}

pub insert_edition-Keeps :
    (isbn : Text) (new : EditionRow) (f : EditionRow → EditionRow)
    → new.isbn ≡ isbn
    → new.has_cover ≡ false
    → ((r : EditionRow) → (f r).isbn ≡ r.isbn)
    → ((r : EditionRow) → (f r).has_cover ≡ r.has_cover)
    → StatementKeeps (insert_edition isbn new f)
unfolding insert_edition
insert_edition-Keeps isbn new f named bare same kept t k = record {
  one_edition = upsert-IsUnique edition_key isbn new f named same t.editions k.one_edition;
  one_cover = k.one_cover;
  flags = λ j.
      ap flag_of (row_at-upsert edition_key isbn new f named same j t.editions)
      ∙ as_before j (row_at edition_key isbn t.editions) refl
      ∙ k.flags j;
}
  where
    as_before :
        (j : Text) (o : Option EditionRow)
        → row_at edition_key isbn t.editions ≡ o
        → flag_of (
            if isbn == j
            then some (elim o [ none ↦ new | some r ↦ f r ])
            else row_at edition_key j t.editions)
          ≡ flag_of (row_at edition_key j t.editions)
    as_before j o h = elim (Bool-cases (isbn == j)) [
      | inl hit ↦ rw (hit, ← (eq_iff isbn j).0 hit, h) (written o)
      | inr miss ↦ rw miss
    ]
      where
        written :
            (o : Option EditionRow)
            → flag_of (some (elim o [ none ↦ new | some r ↦ f r ])) ≡ flag_of o
        written none = bare
        written (some r) = kept r

-- Both statements of `SaveCover`, where there is an edition.
covered-IsFlagged :
    (now : ℕ) (isbn : Text) (c : Cover) (t : Tables) (r : EditionRow)
    → IsFlagged t
    → row_at edition_key isbn t.editions ≡ some r
    → IsFlagged (record t {
      editions = update_rows (λ e. e.isbn == isbn) flag_cover t.editions;
      covers =
          upsert cover_key isbn
            (cover_row now isbn c)
            (λ q. record (cover_row now isbn c) { isbn = q.isbn })
            t.covers;
    })
covered-IsFlagged now isbn c t r k there =
    let f = λ (q : CoverRow). record (cover_row now isbn c) { isbn = q.isbn } in
    let new = cover_row now isbn c in
    record {
      one_edition =
          update-IsUnique edition_key (λ e. e.isbn == isbn) flag_cover (λ e. refl) t.editions
            k.one_edition;
      one_cover = upsert-IsUnique cover_key isbn new f refl (λ q. refl) t.covers k.one_cover;
      flags = λ j.
          ap flag_of
            (row_at-update_key edition_key isbn flag_cover (λ e. refl) j t.editions r there)
          ∙ both j (elim (row_at cover_key isbn t.covers) [ none ↦ new | some q ↦ f q ])
          ∙ sym (ap is_some (row_at-upsert cover_key isbn new f refl (λ q. refl) j t.covers));
    }
  where
    both :
        (j : Text) (q : CoverRow)
        → flag_of (if isbn == j then some (flag_cover r) else row_at edition_key j t.editions)
          ≡ is_some (if isbn == j then some q else row_at cover_key j t.covers)
    both j q = elim (Bool-cases (isbn == j)) [ inl hit ↦ rw hit | inr miss ↦ rw miss (k.flags j) ]

saved_cover-IsFlagged :
    (now : ℕ) (isbn : Text) (c : Cover) (t : Tables)
    → IsFlagged t
    → (upsert_cover now isbn c t).0 ≡ ok tt
    → IsFlagged (mark_has_cover isbn (upsert_cover now isbn c t).1).1
unfolding upsert_cover mark_has_cover
saved_cover-IsFlagged now isbn c t k h = elim (Option-cases (row_at edition_key isbn t.editions)) [
  | inl free ↦ absurd (cc (rw free at h))
  | inr (r, there) ↦ rw there (covered-IsFlagged now isbn c t r k there)
]

or_rolled_back-IsFlagged :
    {A : Type 0} (t : Tables) (r : Result StoreError A × Database)
    → IsFlagged t
    → ((a : A) → r.0 ≡ ok a → IsFlagged r.1.tables)
    → IsFlagged (or_rolled_back t r).1.tables
or_rolled_back-IsFlagged t (ok a, db) k done = done a refl
or_rolled_back-IsFlagged t (err e, db) k done = k

bind-ok :
    {A B : Type 0} (act : Stores A) (next : A → Stores B) (db : Database) (b : B)
    → ((act >>= next) db).0 ≡ ok b
    → (a : A) × ((act db).0 ≡ ok a) × ((act >>= next) db ≡ next a (act db).1)
bind-ok {A} {B} act next db b = cases (act db)
  where
    cases :
        (r : Result StoreError A × Database)
        → (and_then {B = B} r next).0 ≡ ok b
        → (a : A) × (r.0 ≡ ok a) × (and_then {B = B} r next ≡ next a r.1)
    cases (ok a, db') h = (a, refl, refl)
    cases (err e, db') h = cc

-- A transaction that is committed is its body.
committed :
    (what : Text) (body : Stores (Unit {0})) (db : Database) (a : Unit {0})
    → ((exec what nothing >>= λ _. body >>= λ _. exec [] nothing) db).0 ≡ ok a
    → (begun : Database) × (begun.tables ≡ db.tables)
      × ((body begun).0 ≡ ok tt)
      × (((exec what nothing >>= λ _. body >>= λ _. exec [] nothing) db).1.tables
          ≡ (body begun).1.tables)
committed what body db a h =
    let (x, began, first) =
      bind-ok (exec what nothing) (λ _. body >>= λ _. exec [] nothing) db a h in
    let begun = (exec what nothing db).1 in
    let h' = sym (ap (λ r. r.0) first) ∙ h in
    let (y, ran, second) = bind-ok body (λ _. exec [] nothing) begun a h' in
    (
      begun,
      (exec-ok what nothing db x began).1,
      ran,
      ap (λ r. r.1.tables) (first ∙ second)
          ∙ (exec-ok [] nothing (body begun).1 a (sym (ap (λ r. r.0) second) ∙ h')).1,
    )

pub save_cover-Keeps : (now : ℕ) (isbn : Text) (c : Cover) → Keeps (Editions.save_cover now isbn c)
unfolding Editions.save_cover transaction
save_cover-Keeps now isbn c db k =
    let save = exec (error_on (codes "save cover ") isbn) (upsert_cover now isbn c) in
    let mark = exec (error_on (codes "mark has_cover ") isbn) (mark_has_cover isbn) in
    or_rolled_back-IsFlagged db.tables
      ((exec (codes "begin cover tx: ") nothing >>= λ _.
          (save >>= λ _. mark) >>= λ _. exec [] nothing)
        db)
      k
      (λ a h.
        let (begun, same, ran, left) =
          committed (codes "begin cover tx: ") (save >>= λ _. mark) db a h in
        let (x, saved, then_marked) = bind-ok save (λ _. mark) begun tt ran in
        let (done, stored) =
          exec-ok (error_on (codes "save cover ") isbn) (upsert_cover now isbn c) begun x saved in
        let marked =
          exec-ok (error_on (codes "mark has_cover ") isbn) (mark_has_cover isbn) (save begun).1 tt
            (sym (ap (λ r. r.0) then_marked) ∙ ran) in
        let all =
          left
          ∙ ap (λ r. r.1.tables) then_marked
          ∙ marked.1
          ∙ ap (λ t. (mark_has_cover isbn t).1) stored in
        subst IsFlagged (sym all)
          (saved_cover-IsFlagged now isbn c begun.tables (subst IsFlagged (sym same) k) done))
