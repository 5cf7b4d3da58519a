-- ===== src/Books/Rows/Laws.antt =====
-- What is under a key after each statement.
use book_guard_api.Base.{
  ◌≡◌, refl, sym, ap, ◌∙◌, inl, inr, Bool, false, not, ◌&&◌, List, [], ◌∷◌, ◌++◌, none, some, Text,
  ◌==◌, eq_iff, eq_refl, if◌then◌else◌, Bool-cases, Option-cases, arith,
}
use book_guard_api.Books.Rows.{
  find_row, update_rows, delete_rows, row_at, IsUnique, upsert, mapped, passing,
}

module _ {R : Type 0} where
  pub find_row-same :
      (p q : R → Bool) (rows : List R) → ((r : R) → p r ≡ q r) → find_row p rows ≡ find_row q rows
  unfolding find_row
  find_row-same p q [] h = refl
  find_row-same p q (r ∷ rows) h = rw (h r, find_row-same p q rows h)

  pub find_row-none :
      (p : R → Bool) (rows : List R) → ((r : R) → p r ≡ false) → find_row p rows ≡ none
  unfolding find_row
  find_row-none p [] h = refl
  find_row-none p (r ∷ rows) h = rw (h r) (find_row-none p rows h)

module _ {R : Type 0} (key : R → Text) where
  -- The row that is found has the key.
  pub row_at-key : (k : Text) (rows : List R) (r : R) → row_at key k rows ≡ some r → key r ≡ k
  unfolding row_at find_row
  row_at-key k [] r h = cc
  row_at-key k (q ∷ rows) r h = elim (Bool-cases (key q == k)) [
    | inl hit ↦
        let e : q ≡ r = ground (arith, rw hit at h) in ap key (sym e) ∙ (eq_iff (key q) k).0 hit
    | inr miss ↦ row_at-key k rows r (rw miss at h)
  ]

  pub row_at-append :
      (k : Text) (rows : List R) (new : R)
      → row_at key (key new) rows ≡ none
      → row_at key k (rows ++ (new ∷ [])) ≡ (if key new == k then some new else row_at key k rows)
  unfolding row_at find_row
  row_at-append k [] new fresh = refl
  row_at-append k (q ∷ rows) new fresh = ground (
    arith,
    row_at-append k rows new,
    eq_iff (key q) k,
    eq_iff (key new) k,
    eq_iff (key q) (key new),
  )

  pub row_at-update :
      (p : R → Bool) (f : R → R)
      → ((r : R) → key (f r) ≡ key r)
      → (k : Text) (rows : List R)
      → row_at key k (update_rows p f rows)
        ≡ mapped (λ r. if p r then f r else r) (row_at key k rows)
  unfolding row_at find_row update_rows
  row_at-update p f same k [] = refl
  row_at-update p f same k (q ∷ rows) = ground (arith, row_at-update p f same k rows, same q)

  -- A search by the key and more.
  pub find_row-passing :
      (k : Text) (p : R → Bool) (rows : List R)
      → IsUnique key rows
      → find_row (λ r. key r == k && p r) rows ≡ passing p (row_at key k rows)
  unfolding row_at find_row
  find_row-passing k p [] u = refl
  find_row-passing k p (q ∷ rows) u = ground (arith, find_row-passing k p rows, eq_iff (key q) k)

  pub row_at-delete :
      (j : Text) (p : R → Bool) (k : Text) (rows : List R)
      → IsUnique key rows
      → row_at key k (delete_rows (λ r. key r == j && p r) rows)
        ≡ (if j == k then passing (λ r. not (p r)) (row_at key k rows) else row_at key k rows)
  unfolding row_at find_row delete_rows
  row_at-delete j p k [] u = ground arith
  row_at-delete j p k (q ∷ rows) u =
      ground (arith, row_at-delete j p k rows, eq_iff (key q) k, eq_iff (key q) j, eq_iff j k)

  pub append-IsUnique :
      (rows : List R) (new : R)
      → row_at key (key new) rows ≡ none
      → IsUnique key rows
      → IsUnique key (rows ++ (new ∷ []))
  unfolding row_at find_row
  append-IsUnique [] new fresh u = (refl, tt)
  append-IsUnique (q ∷ rows) new fresh u = ground (
    arith,
    append-IsUnique rows new,
    row_at-append (key q) rows new,
    eq_iff (key q) (key new),
    eq_iff (key new) (key q),
  )

  pub update-IsUnique :
      (p : R → Bool) (f : R → R)
      → ((r : R) → key (f r) ≡ key r)
      → (rows : List R) → IsUnique key rows
      → IsUnique key (update_rows p f rows)
  unfolding update_rows
  update-IsUnique p f same [] u = tt
  update-IsUnique p f same (q ∷ rows) u =
      let later = update-IsUnique p f same rows u.1 in
      let free = row_at-update p f same (key q) rows in
      elim (Bool-cases (p q)) [
        | inl hit ↦ rw (hit, same q) (free ∙ ap (mapped _) u.0, later)
        | inr miss ↦ rw miss (free ∙ ap (mapped _) u.0, later)
      ]

  delete-at :
      (p : R → Bool) (k : Text) (rows : List R)
      → row_at key k rows ≡ none
      → row_at key k (delete_rows p rows) ≡ none
  unfolding row_at find_row delete_rows
  delete-at p k [] h = refl
  delete-at p k (q ∷ rows) h = ground (arith, delete-at p k rows)

  pub delete-IsUnique :
      (p : R → Bool) (rows : List R) → IsUnique key rows → IsUnique key (delete_rows p rows)
  unfolding delete_rows
  delete-IsUnique p [] u = tt
  delete-IsUnique p (q ∷ rows) u = ground (arith, delete-IsUnique p rows, delete-at p (key q) rows)

  -- An update by key, where there is a row to update.
  pub row_at-update_key :
      (k : Text) (f : R → R)
      → ((r : R) → key (f r) ≡ key r)
      → (j : Text) (rows : List R) (r : R) → row_at key k rows ≡ some r
      → row_at key j (update_rows (λ r. key r == k) f rows)
        ≡ (if k == j then some (f r) else row_at key j rows)
  row_at-update_key k f same j rows r there =
      row_at-update (λ r. key r == k) f same j rows ∙ elim (Bool-cases (k == j)) [
        | inl hit ↦
            rw (hit, ← (eq_iff k j).0 hit, there) (rw (row_at-key k rows r there, eq_refl k))
        | inr miss ↦ elim (Option-cases (row_at key j rows)) [
          | inl none_there ↦ rw (miss, none_there)
          | inr (q, found) ↦
              rw (miss, found)
                (ground (arith, row_at-key j rows q found, eq_iff (key q) k, eq_iff k j, miss))
        ]
      ]

  module _ (k : Text) (new : R) (f : R → R) (named : key new ≡ k)
      (same : (r : R) → key (f r) ≡ key r) where
    pub row_at-upsert :
        (j : Text) (rows : List R)
        → row_at key j (upsert key k new f rows) ≡ (
            if k == j
            then some (elim (row_at key k rows) [ none ↦ new | some r ↦ f r ])
            else row_at key j rows)
    unfolding upsert
    row_at-upsert j rows = elim (Option-cases (row_at key k rows)) [
      | inl free ↦ rw (free, upsert) (rw named at (row_at-append j rows new (rw named free)))
      | inr (r, there) ↦ rw (there, upsert) (row_at-update_key k f same j rows r there)
    ]

    pub upsert-IsUnique :
        (rows : List R) → IsUnique key rows → IsUnique key (upsert key k new f rows)
    unfolding upsert
    upsert-IsUnique rows u = elim (Option-cases (row_at key k rows)) [
      | inl free ↦ rw (free, upsert) (append-IsUnique rows new (rw named free) u)
      | inr (r, there) ↦ rw (there, upsert) (update-IsUnique (λ r. key r == k) f same rows u)
    ]
