-- ===== src/Books/Postgres/Migrations/Applied.antt =====
-- What `Migrate` of internal/books/store_postgres.go has run when it succeeds.
use book_guard_api.Base.{
  ◌≡◌, refl, sym, ap, ◌∙◌, ◌↔◌, subst, List, [], ◌∷◌, map, Option, none, some, Text, All, In,
  IsNodup, IsSorted, sort_texts, In-sort_texts, sort_texts-IsSorted, Result, ok, err, arith,
}
use book_guard_api.Books.Postgres.Migrations.{
  Files, Migration, prepend, read_all, all_of, all_migrations, after_run, apply_all, apply_loaded,
  migrate,
}

abbrev pub name_of : Migration → Text
name_of m = m.name

-- The files of these names, in their order.
abbrev pub AreRead : Files → List Text → List Migration → Type 0
AreRead files names ms = (map name_of ms ≡ names) × All (λ m. files.read_file m.name ≡ ok m.sql) ms

prepend-AreRead :
    (files : Files) (name : Text) (names : List Text) (one : Result Text Text)
    (later : Result Text (List Migration)) (ms : List Migration)
    → files.read_file name ≡ one
    → ((out : List Migration) → later ≡ ok out → AreRead files names out)
    → prepend name one later ≡ ok ms
    → AreRead files (name ∷ names) ms
prepend-AreRead files name names (err e) later ms h rest k = cc
prepend-AreRead files name names (ok sql) (err e) ms h rest k = cc
prepend-AreRead files name names (ok sql) (ok out) ms h rest k =
    let (named, read) = rest out refl in
    let same : record { name = name; sql = sql } ∷ out ≡ ms = ground (arith, k) in
    subst (AreRead files (name ∷ names)) same (ap (λ ns. name ∷ ns) named, (h, read))

read_all-AreRead :
    (files : Files) (names : List Text) (ms : List Migration)
    → read_all files names ≡ ok ms
    → AreRead files names ms
unfolding read_all
read_all-AreRead files [] ms h =
    let same : [] ≡ ms = ground (arith, h) in subst (AreRead files []) same (refl, tt)
read_all-AreRead files (name ∷ names) ms h =
    prepend-AreRead files name names (files.read_file name) (read_all files names) ms refl
      (read_all-AreRead files names) h

module _ {W : Type 0} (run : Text → W → Option Text × W) where
  -- Each of the texts ran, in this order, without a failure.
  abbrev pub Applied : List Migration → W → W → Type 0
  Applied [] w w' = w ≡ w'
  Applied (m ∷ ms) w w' = (w1 : W) × (run m.sql w ≡ (none, w1)) × Applied ms w1 w'

  apply_all-Applied :
      (ms : List Migration) (w w' : W) → apply_all run ms w ≡ (none, w') → Applied ms w w'
  unfolding apply_all
  apply_all-Applied [] w w' h = ap (λ r. r.1) h
  apply_all-Applied (m ∷ ms) w w' h = went (run m.sql w) refl (λ w1. apply_all-Applied ms w1 w') h
    where
      went :
          (r : Option Text × W)
          → run m.sql w ≡ r
          → ((w1 : W) → apply_all run ms w1 ≡ (none, w') → Applied ms w1 w')
          → after_run run m.name (apply_all run ms) r ≡ (none, w')
          → Applied (m ∷ ms) w w'
      went (none, w1) ran later h = (w1, ran, later w1 h)
      went (some e, w1) ran later h = cc (ap (λ r. r.0) h)

  apply_loaded-Applied :
      (r : Result Text (List Migration)) (w w' : W)
      → apply_loaded run r w ≡ (none, w')
      → (ms : List Migration) × (r ≡ ok ms) × Applied ms w w'
  apply_loaded-Applied (err e) w w' h = cc (ap (λ r. r.0) h)
  apply_loaded-Applied (ok ms) w w' h = (ms, refl, apply_all-Applied ms w w' h)

  -- When Migrate succeeds, exactly the embedded files have run, each once and whole, in increasing
  -- order of their names, which are distinct, and none has failed.
  pub migrate_lem :
      (files : Files) (names : List Text) (w w' : W)
      → files.names ≡ ok names
      → IsNodup names
      → migrate run files w ≡ (none, w')
      → (ms : List Migration) × IsSorted (map name_of ms)
        × ((name : Text) → In name (map name_of ms) ↔ In name names)
        × All (λ m. files.read_file m.name ≡ ok m.sql) ms
        × Applied ms w w'
  unfolding migrate all_migrations
  migrate_lem files names w w' listed once done =
      let (ms, loaded, applied) = apply_loaded-Applied (all_migrations files) w w' done in
      let (named, read) =
        read_all-AreRead files (sort_texts names) ms (sym (ap (all_of files) listed) ∙ loaded) in
      (
        ms,
        subst IsSorted (sym named) (sort_texts-IsSorted names once),
        λ name. subst (λ ns. In name ns ↔ In name names) (sym named) (In-sort_texts name names),
        read,
        applied,
      )
