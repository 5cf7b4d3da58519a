-- ===== src/Books/Memory/Listing.antt =====
-- `List` of internal/books/store_memory.go against `Get`: the same books, oldest first.
use book_guard_api.Base.{
  ℕ, suc, ◌≤◌, ◌≡◌, ◌↔◌, refl, ◌⊎◌, inl, inr, List, [], ◌∷◌, some, none, Text, ◌==◌, eq_iff, Map,
  lookup, IsDistinct, lookup-cons_self, lookup-cons_later, sym, ◌∙◌, In, All, length, keep, ok,
  Option-cases, Bool-cases, arith,
}
use book_guard_api.Books.Book.{Book}
use book_guard_api.Books.Memory.{
  MemoryStore, owned_book, apply_edition, get, insert_by_created, sort_by_created, collect_owned,
  list,
}
use book_guard_api.Books.Memory.Refines.{owned_book_iff}

-- Every book comes before the younger ones.
abbrev pub IsOrdered : List Book → Type 0
IsOrdered [] = Unit
IsOrdered (b ∷ bs) = All (λ c. b.created_at ≤ c.created_at) bs × IsOrdered bs

In-insert_by_created :
    (a b : Book) (bs : List Book) → In a (insert_by_created b bs) ↔ ((a ≡ b) ⊎ In a bs)
unfolding insert_by_created
In-insert_by_created a b [] = ground arith
In-insert_by_created a b (c ∷ cs) = ground (arith, In-insert_by_created a b cs)

pub In-sort_by_created : (a : Book) (bs : List Book) → In a (sort_by_created bs) ↔ In a bs
unfolding sort_by_created
In-sort_by_created a [] = ground arith
In-sort_by_created a (b ∷ bs) =
    ground (arith, In-insert_by_created a b (sort_by_created bs), In-sort_by_created a bs)

length-insert_by_created :
    (b : Book) (bs : List Book) → length (insert_by_created b bs) ≡ suc (length bs)
unfolding insert_by_created
length-insert_by_created b [] = refl
length-insert_by_created b (c ∷ cs) = ground (arith, length-insert_by_created b cs)

length-sort_by_created : (bs : List Book) → length (sort_by_created bs) ≡ length bs
unfolding sort_by_created
length-sort_by_created [] = refl
length-sort_by_created (b ∷ bs) =
    omega (arith, length-insert_by_created b (sort_by_created bs), length-sort_by_created bs)

All-insert_by_created :
    (n : ℕ) (b : Book) (bs : List Book)
    → n ≤ b.created_at
    → All (λ c. n ≤ c.created_at) bs
    → All (λ c. n ≤ c.created_at) (insert_by_created b bs)
unfolding insert_by_created
All-insert_by_created n b [] h k = (h, tt)
All-insert_by_created n b (c ∷ cs) h k = ground (arith, All-insert_by_created n b cs h k.1)

All-lower :
    (m n : ℕ) (bs : List Book)
    → m ≤ n
    → All (λ c. n ≤ c.created_at) bs
    → All (λ c. m ≤ c.created_at) bs
All-lower m n [] h k = tt
All-lower m n (c ∷ cs) h k = (omega arith, All-lower m n cs h k.1)

insert_by_created-IsOrdered :
    (b : Book) (bs : List Book) → IsOrdered bs → IsOrdered (insert_by_created b bs)
unfolding insert_by_created
insert_by_created-IsOrdered b [] o = (tt, tt)
insert_by_created-IsOrdered b (c ∷ cs) o = ground (
  arith,
  All-insert_by_created c.created_at b cs,
  All-lower b.created_at c.created_at cs,
  insert_by_created-IsOrdered b cs o.1,
)

pub sort_by_created-IsOrdered : (bs : List Book) → IsOrdered (sort_by_created bs)
unfolding sort_by_created
sort_by_created-IsOrdered [] = tt
sort_by_created-IsOrdered (b ∷ bs) =
    insert_by_created-IsOrdered b (sort_by_created bs) (sort_by_created-IsOrdered bs)

-- Where a listed book comes from.
abbrev pub Listed : Text → MemoryStore → Map Book → Book → Type 0
Listed user s m b =
    (id : Text) × (raw : Book) × (lookup id m ≡ some raw)
    × (raw.user_id ≡ user)
    × (apply_edition s raw ≡ b)

module _ (user : Text) (s : MemoryStore) where
  Listed-cons :
      (id : Text) (c : Book) (m : Map Book) (b : Book)
      → lookup id m ≡ none
      → Listed user s m b
      → Listed user s ((id, c) ∷ m) b
  Listed-cons id c m b fresh (j, raw, stored, own, merged) =
      (j, raw, lookup-cons_later id j c raw m fresh stored, own, merged)

  collected-Listed :
      (m : Map Book) (b : Book) → IsDistinct m → In b (collect_owned user s m) → Listed user s m b
  unfolding collect_owned
  collected-Listed [] b d h = absurd h
  collected-Listed ((id, c) ∷ m) b d h = elim (Bool-cases (c.user_id == user)) [
    | inl own ↦ elim (rw own at h) as (λ _. Listed user s ((id, c) ∷ m) b) [
      | inl same ↦ (id, c, lookup-cons_self id c m, (eq_iff c.user_id user).0 own, sym same)
      | inr later ↦ Listed-cons id c m b d.0 (collected-Listed m b d.1 later)
    ]
    | inr other ↦ Listed-cons id c m b d.0 (collected-Listed m b d.1 (rw other at h))
  ]

  Listed-collected :
      (m : Map Book) (b raw : Book) (id : Text)
      → lookup id m ≡ some raw
      → raw.user_id ≡ user
      → apply_edition s raw ≡ b
      → In b (collect_owned user s m)
  unfolding collect_owned lookup
  Listed-collected [] b raw id stored own merged = cc
  Listed-collected ((j, c) ∷ m) b raw id stored own merged =
      ground (arith, eq_iff j id, eq_iff c.user_id user, Listed-collected m b raw id)

  length-collect_owned :
      (m : Map Book)
      → length (collect_owned user s m) ≡ length (keep (λ entry. entry.1.user_id == user) m)
  unfolding collect_owned
  length-collect_owned [] = refl
  length-collect_owned ((j, c) ∷ m) = ground (arith, length-collect_owned m)

  pub get-Listed : (b : Book) (id : Text) → get user id s ≡ ok b → Listed user s s.books b
  unfolding get
  get-Listed b id h = elim (Option-cases (owned_book user id s)) [
    | inl missing ↦ absurd (ground (arith, h, missing))
    | inr (raw, held) ↦
        let (stored, own) = (owned_book_iff user id s raw).0 held in
        (id, raw, stored, own, ground (arith, h, held))
  ]

  pub Listed-get : (b : Book) → Listed user s s.books b → (id : Text) × (get user id s ≡ ok b)
  unfolding get
  Listed-get b (id, raw, stored, own, merged) =
      (id, ground (arith, (owned_book_iff user id s raw).1 (stored, own), merged))

  -- `List` returns a book exactly if `Get` returns it under some id, provided that no id is stored
  -- twice. The books come oldest first, and there are as many as the user has stored.
  pub list_lem :
      IsDistinct s.books
      → ((b : Book) → In b (list user s) ↔ ((id : Text) × (get user id s ≡ ok b)))
        × IsOrdered (list user s)
        × (length (list user s) ≡ length (keep (λ entry. entry.1.user_id == user) s.books))
  unfolding list
  list_lem d = (
    λ b.
        let sorted = In-sort_by_created b (collect_owned user s s.books) in
        (
          λ h. Listed-get b (collected-Listed s.books b d (sorted.0 h)),
          λ (id, h).
              let (id', raw, stored, own, merged) = get-Listed b id h in
              sorted.1 (Listed-collected s.books b raw id' stored own merged),
        ),
    sort_by_created-IsOrdered (collect_owned user s s.books),
    length-sort_by_created (collect_owned user s s.books) ∙ length-collect_owned s.books,
  )
