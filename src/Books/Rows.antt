-- ===== src/Books/Rows.antt =====
-- Tables as lists of rows, with what the statements of internal/books/store_postgres.go do to them:
-- a WHERE is a test on rows, and a query for one row gives the first.
pub mod Laws
pub mod Members
use book_guard_api.Base.{
  ℕ, ◌≡◌, Bool, true, false, not, List, [], ◌∷◌, ◌++◌, map, keep, Option, none, some, Text, ◌==◌,
  if◌then◌else◌,
}

module _ {R : Type 0} where
  unfoldable pub find_row : (R → Bool) → List R → Option R
  find_row p [] = none
  find_row p (r ∷ rows) = let rest = find_row p rows in if p r then some r else rest

  unfoldable pub update_rows : (R → Bool) → (R → R) → List R → List R
  update_rows p f [] = []
  update_rows p f (r ∷ rows) = (if p r then f r else r) ∷ update_rows p f rows

  unfoldable pub delete_rows : (R → Bool) → List R → List R
  delete_rows p rows = keep (λ r. not (p r)) rows

  module _ (key : R → Text) where
    -- The row under a primary key.
    unfoldable pub row_at : Text → List R → Option R
    row_at k rows = find_row (λ r. key r == k) rows

    abbrev pub IsUnique : List R → Type 0
    IsUnique [] = Unit
    IsUnique (r ∷ rows) = (row_at (key r) rows ≡ none) × IsUnique rows

    -- `INSERT ... ON CONFLICT (key) DO UPDATE`.
    unfoldable pub upsert : Text → R → (R → R) → List R → List R
    upsert k new f rows = elim (row_at k rows) [
      | none ↦ rows ++ (new ∷ [])
      | some r ↦ update_rows (λ r. key r == k) f rows
    ]

abbrev pub mapped {ℓ κ} : {A : Type ℓ} {B : Type κ} → (A → B) → Option A → Option B
mapped f none = none
mapped f (some a) = some (f a)

-- A value that passes a test.
abbrev pub passing {ℓ} : {A : Type ℓ} → (A → Bool) → Option A → Option A
passing p none = none
passing p (some a) = if p a then some a else none

abbrev pub is_some {ℓ} : {A : Type ℓ} → Option A → Bool
is_some none = false
is_some (some a) = true
