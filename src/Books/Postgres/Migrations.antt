-- ===== src/Books/Postgres/Migrations.antt =====
-- `Migrate` of internal/books/store_postgres.go and migrations/embed.go.
pub mod Applied
use book_guard_api.Base.{
  List, [], ◌∷◌, ◌++◌, Option, none, some, Text, codes, sort_texts, Result, ok, err,
}

-- `embed.FS`: `fs.Glob` of the names and `ReadFile`.
pub record Files : Type 0 where
  pub names : Result Text (List Text)
  pub read_file : Text → Result Text Text

pub record Migration : Type 0 where
  pub name : Text
  pub sql : Text

abbrev pub prepend :
    Text → Result Text Text → Result Text (List Migration) → Result Text (List Migration)
prepend name (err e) later = err e
prepend name (ok sql) (err e) = err e
prepend name (ok sql) (ok out) = ok (record { name = name; sql = sql } ∷ out)

-- The loop over the names.
unfoldable pub read_all : Files → List Text → Result Text (List Migration)
read_all files [] = ok []
read_all files (name ∷ names) = prepend name (files.read_file name) (read_all files names)

abbrev pub all_of : Files → Result Text (List Text) → Result Text (List Migration)
all_of files (err e) = err e
all_of files (ok names) = read_all files (sort_texts names)

unfoldable pub all_migrations : Files → Result Text (List Migration)
all_migrations files = all_of files files.names

-- `pool.Exec` of a text of SQL, with a failure or none.
module _ {W : Type 0} (run : Text → W → Option Text × W) where
  abbrev pub after_run : Text → (W → Option Text × W) → Option Text × W → Option Text × W
  after_run name next (none, w) = next w
  after_run name next (some e, w) =
      (some (codes "apply migration " ++ (name ++ (codes ": " ++ e))), w)

  unfoldable pub apply_all : List Migration → W → Option Text × W
  apply_all [] w = (none, w)
  apply_all (m ∷ ms) w = after_run m.name (apply_all ms) (run m.sql w)

  abbrev pub apply_loaded : Result Text (List Migration) → W → Option Text × W
  apply_loaded (err e) w = (some (codes "load migrations: " ++ e), w)
  apply_loaded (ok ms) w = apply_all ms w

  unfoldable pub migrate : Files → W → Option Text × W
  migrate files w = apply_loaded (all_migrations files) w
