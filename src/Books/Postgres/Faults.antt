-- ===== src/Books/Postgres/Faults.antt =====
-- internal/books/store_postgres.go when a statement fails: every call on the tables is one
-- statement or a transaction.
pub mod Calls
pub mod Flags
pub mod Histories
use book_guard_api.Base.{
  ℕ, ◌≡◌, refl, sym, ap, ◌∙◌, ◌⊎◌, codes, inl, inr, Bool, true, false, not, ◌&&◌, List, [], ◌∷◌,
  keep, Option, none, some, Text, ◌==◌, if◌then◌else◌, Bool-cases, Option-cases, Result, ok, err,
  Action, and_then, ◌>>=◌, pure, throw, arith,
}
use book_guard_api.Books.Book.{Book}
use book_guard_api.Books.Memory.{StoreError, not_found, broken}
use book_guard_api.Books.Memory.Invariant.{
  Call, creates, updates, deletes, ensures, marks, enriches, covers,
}
use book_guard_api.Books.Rows.{find_row, delete_rows, row_at, is_some}
use book_guard_api.Books.Postgres
use book_guard_api.Books.Postgres.{
  BookRow, Tables, Database, Stores, after_statement, run_on, exec, insert_book, update_found,
  update_book, delete_book, or_missing, is_legal_isbn, truncated, EditionRow,
}
use book_guard_api.Books.Postgres.Editions
use book_guard_api.Books.Postgres.Editions.{insert_edition, transaction, or_rolled_back}
use book_guard_api.Enrich.Provider.{Cover}
use book_guard_api.Books.Postgres.Instance.{postgres_repository}
use book_guard_api.Books.Postgres.Steps.{Answer, with_book, without_book, call_on}

module _ {A : Type 0} where
  -- A call that fails leaves the tables alone.
  abbrev pub IsAtomic : Stores A → Type 0
  IsAtomic act =
      (db : Database) (e : StoreError) → (act db).0 ≡ err e → (act db).1.tables ≡ db.tables

  abbrev pub IsSafe : (Tables → Result Text A × Tables) → Type 0
  IsSafe statement = (t : Tables) (e : Text) → (statement t).0 ≡ err e → (statement t).1 ≡ t

  after_statement-tables :
      (what : Text) (faults : List (Option Text)) (r : Result Text A × Tables) (t : Tables)
      → ((e : Text) → r.0 ≡ err e → r.1 ≡ t)
      → (e : StoreError) → (after_statement what faults r).0 ≡ err e
      → (after_statement what faults r).1.tables ≡ t
  after_statement-tables what faults (ok a, t') t safe e h = cc
  after_statement-tables what faults (err f, t') t safe e h = safe f refl

  after_statement-ok :
      (what : Text) (faults : List (Option Text)) (r : Result Text A × Tables) (a : A)
      → (after_statement what faults r).0 ≡ ok a
      → (r.0 ≡ ok a) × ((after_statement what faults r).1.tables ≡ r.1)
  after_statement-ok what faults (ok b, t) a h = (cc, refl)
  after_statement-ok what faults (err f, t) a h = cc

  module _ (what : Text) (statement : Tables → Result Text A × Tables) where
    run_on-tables :
        (t : Tables) (faults : List (Option Text)) (e : StoreError)
        → IsSafe statement
        → (run_on what statement t faults).0 ≡ err e
        → (run_on what statement t faults).1.tables ≡ t
    run_on-tables t [] e safe h = after_statement-tables what [] (statement t) t (safe t) e h
    run_on-tables t (none ∷ faults) e safe h =
        after_statement-tables what faults (statement t) t (safe t) e h
    run_on-tables t (some f ∷ faults) e safe h = refl

    run_on-ok :
        (t : Tables) (faults : List (Option Text)) (a : A)
        → (run_on what statement t faults).0 ≡ ok a
        → ((statement t).0 ≡ ok a) × ((run_on what statement t faults).1.tables ≡ (statement t).1)
    run_on-ok t [] a h = after_statement-ok what [] (statement t) a h
    run_on-ok t (none ∷ faults) a h = after_statement-ok what faults (statement t) a h
    run_on-ok t (some f ∷ faults) a h = cc

    pub exec-IsAtomic : IsSafe statement → IsAtomic (exec what statement)
    unfolding exec
    exec-IsAtomic safe db e h = run_on-tables db.tables db.faults e safe h

    pub exec-ok :
        (db : Database) (a : A)
        → (exec what statement db).0 ≡ ok a
        → ((statement db.tables).0 ≡ ok a)
          × ((exec what statement db).1.tables ≡ (statement db.tables).1)
    unfolding exec
    exec-ok db a h = run_on-ok db.tables db.faults a h

  module _ {B : Type 0} (act : Stores A) (next : A → Stores B) where
    -- What comes after a success, if it fails, has to find the tables as they were before both.
    pub bind-IsAtomic :
        IsAtomic act
        → ((db db' : Database) (a : A) (e : StoreError)
            → (act db).0 ≡ ok a
            → (act db).1 ≡ db'
            → (next a db').0 ≡ err e
            → (next a db').1.tables ≡ db.tables)
        → (db : Database) (e : StoreError) → ((act >>= next) db).0 ≡ err e
        → ((act >>= next) db).1.tables ≡ db.tables
    bind-IsAtomic first after db e = cases (act db) refl
      where
        cases :
            (r : Result StoreError A × Database)
            → act db ≡ r
            → (and_then r next).0 ≡ err e
            → (and_then r next).1.tables ≡ db.tables
        cases (ok a, db') is h = after db db' a e (ap (λ r. r.0) is) (ap (λ r. r.1) is) h
        cases (err f, db') is h = sym (ap (λ r. r.1.tables) is) ∙ first db f (ap (λ r. r.0) is)
