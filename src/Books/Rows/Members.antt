-- ===== src/Books/Rows/Members.antt =====
-- The rows of a table, and what a query lists of them.
use book_guard_api.Base.{
  ℕ, zero, suc, ◌≤◌, ◌≡◌, refl, ap, ◌↔◌, inl, inr, Bool, true, List, [], ◌∷◌, map, keep, take,
  length, In, IsNodup, some, Text, eq_iff, eq_refl, Bool-cases, arith,
}
use book_guard_api.Books.Rows.{find_row, row_at, IsUnique}

pub take-all {ℓ} : {A : Type ℓ} → (n : ℕ) (xs : List A) → length xs ≤ n → take n xs ≡ xs
take-all zero [] h = refl
take-all zero (x ∷ xs) h = absurd (omega arith)
take-all (suc n) [] h = refl
take-all (suc n) (x ∷ xs) h = ap (λ ys. x ∷ ys) (take-all n xs (omega arith))

module _ {R B : Type 0} (p : R → Bool) (f : R → B) where
  -- What `SELECT f ... WHERE p` lists.
  pub In-selected :
      (b : B) (rows : List R)
      → In b (map f (keep p rows)) ↔ ((r : R) × In r rows × (p r ≡ true) × (b ≡ f r))
  In-selected b rows = (selected rows, λ (r, there, passes, same). listed rows r there passes same)
    where
      selected :
          (rows : List R)
          → In b (map f (keep p rows))
          → (r : R) × In r rows × (p r ≡ true) × (b ≡ f r)
      selected [] h = absurd h
      selected (q ∷ rows) h = elim (Bool-cases (p q)) [
        | inl hit ↦
            elim (rw hit at h) as (λ _. (r : R) × In r (q ∷ rows) × (p r ≡ true) × (b ≡ f r)) [
              | inl same ↦ (q, inl refl, hit, same)
              | inr later ↦
                  let (r, there, passes, same) = selected rows later in (r, inr there, passes, same)
            ]
        | inr miss ↦
            let (r, there, passes, same) = selected rows (rw miss at h) in
            (r, inr there, passes, same)
      ]

      listed :
          (rows : List R) (r : R) → In r rows → p r ≡ true → b ≡ f r → In b (map f (keep p rows))
      listed [] r there passes same = absurd there
      listed (q ∷ rows) r (inl here) passes same = rw (← here, passes) (inl same)
      listed (q ∷ rows) r (inr later) passes same =
          let rest = listed rows r later passes same in
          elim (Bool-cases (p q)) [ inl hit ↦ rw hit (inr rest) | inr miss ↦ rw miss rest ]

module _ {R : Type 0} (key : R → Text) where
  pub row_at-In : (k : Text) (rows : List R) (r : R) → row_at key k rows ≡ some r → In r rows
  unfolding row_at find_row
  row_at-In k [] r h = cc
  row_at-In k (q ∷ rows) r h = ground (arith, row_at-In k rows r)

  -- A row is the one under its key.
  pub In-row_at :
      (rows : List R) (r : R) → IsUnique key rows → In r rows → row_at key (key r) rows ≡ some r
  unfolding row_at find_row
  In-row_at [] r u h = absurd h
  In-row_at (q ∷ rows) r u (inl here) = rw (here, eq_refl (key q))
  In-row_at (q ∷ rows) r u (inr later) =
      let found = In-row_at rows r u.1 later in ground (arith, found, eq_iff (key q) (key r), u.0)

  pub keys-IsNodup :
      (p : R → Bool) (rows : List R) → IsUnique key rows → IsNodup (map key (keep p rows))
  keys-IsNodup p [] u = tt
  keys-IsNodup p (q ∷ rows) u = elim (Bool-cases (p q)) [
    | inl hit ↦ rw hit (
      λ i.
          let (r, there, _, same) = (In-selected p key (key q) rows).0 i in
          let found = In-row_at rows r u.1 there in cc (found, same, u.0),
      keys-IsNodup p rows u.1,
    )
    | inr miss ↦ rw miss (keys-IsNodup p rows u.1)
  ]
