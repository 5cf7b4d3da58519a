-- ===== src/Base/Sorting.antt =====
-- `sort.Strings`, and what is true of every sorted list of texts.
use Prim.Native.Nat.{ℕ, suc, zero}
use mathlib.Core.Path.{◌≡◌, refl, sym, subst}
use mathlib.Core.Logic.{◌⊎◌, inl, inr, ◌↔◌}
use mathlib.Core.Bool.{true, false}
use mathlib.Core.List.{List, [], ◌∷◌}
use native.Mathlib.Omega.{arith}
use book_guard_api.Base.Tests.{if◌then◌else◌, Bool-cases}
use book_guard_api.Base.Texts.{Text, text_lt}
use book_guard_api.Base.Lists.{All, In, take, length}

unfoldable pub insert_text : Text → List Text → List Text
insert_text t [] = t ∷ []
insert_text t (u ∷ us) = if text_lt u t then u ∷ insert_text t us else t ∷ u ∷ us

unfoldable pub sort_texts : List Text → List Text
sort_texts [] = []
sort_texts (t ∷ ts) = insert_text t (sort_texts ts)

text_lt_irrefl : (s : Text) → text_lt s s ≡ false
unfolding text_lt
text_lt_irrefl [] = refl
text_lt_irrefl (x ∷ s) = ground (arith, text_lt_irrefl s)

text_lt_trans : (s t u : Text) → text_lt s t ≡ true → text_lt t u ≡ true → text_lt s u ≡ true
unfolding text_lt
text_lt_trans [] [] u h k = cc
text_lt_trans s (y ∷ t) [] h k = absurd (ground arith)
text_lt_trans [] (y ∷ t) (z ∷ u) h k = refl
text_lt_trans (x ∷ s) [] u h k = cc
text_lt_trans (x ∷ s) (y ∷ t) (z ∷ u) h k = ground (arith, text_lt_trans s t u)

text_lt_total : (s t : Text) → (text_lt s t ≡ true) ⊎ (s ≡ t) ⊎ (text_lt t s ≡ true)
unfolding text_lt
text_lt_total [] [] = inr (inl refl)
text_lt_total [] (y ∷ t) = inl refl
text_lt_total (x ∷ s) [] = inr (inr refl)
text_lt_total (x ∷ s) (y ∷ t) = ground (arith, text_lt_total s t)

-- Strictly increasing.
abbrev pub IsSorted : List Text → Type 0
IsSorted [] = Unit
IsSorted (t ∷ ts) = All (λ u. text_lt t u ≡ true) ts × IsSorted ts

In-insert_text : (a t : Text) (us : List Text) → In a (insert_text t us) ↔ ((a ≡ t) ⊎ In a us)
unfolding insert_text
In-insert_text a t [] = ground arith
In-insert_text a t (u ∷ us) = ground (arith, In-insert_text a t us)

pub In-sort_texts : (a : Text) (ts : List Text) → In a (sort_texts ts) ↔ In a ts
unfolding sort_texts
In-sort_texts a [] = ground arith
In-sort_texts a (t ∷ ts) = ground (arith, In-insert_text a t (sort_texts ts), In-sort_texts a ts)

pub All-of_In : (P : Text → Type 0) (ts : List Text) → ((a : Text) → In a ts → P a) → All P ts
All-of_In P [] h = tt
All-of_In P (t ∷ ts) h = (h t (inl refl), All-of_In P ts (λ a i. h a (inr i)))

In-All : (P : Text → Type 0) (ts : List Text) (a : Text) → All P ts → In a ts → P a
In-All P [] a h i = absurd i
In-All P (t ∷ ts) a h (inl e) = subst P (sym e) h.0
In-All P (t ∷ ts) a h (inr i) = In-All P ts a h.1 i

abbrev Above : Text → Text → Type 0
Above t u = text_lt t u ≡ true

not-lt_both : (t u : Text) → Above t u → Above u t → ⊥
not-lt_both t u h k = cc (text_lt_trans t u t h k, text_lt_irrefl t)

below-All :
    (t u : Text) (us : List Text)
    → text_lt u t ≡ false
    → ¬ (t ≡ u)
    → All (Above u) us
    → All (Above t) (u ∷ us)
below-All t u us below other h = elim (text_lt_total t u) [
  | inl under ↦
      (under, All-of_In (Above t) us (λ a i. text_lt_trans t u a under (In-All (Above u) us a h i)))
  | inr (inl same) ↦ absurd (other same)
  | inr (inr above) ↦ absurd (cc)
]

insert_text-IsSorted :
    (t : Text) (us : List Text) → ¬ In t us → IsSorted us → IsSorted (insert_text t us)
unfolding insert_text
insert_text-IsSorted t [] new s = (tt, tt)
insert_text-IsSorted t (u ∷ us) new s = elim (Bool-cases (text_lt u t)) [
  | inl above ↦ rw above (
    All-of_In (Above u) (insert_text t us) (λ a i. elim ((In-insert_text a t us).0 i) [
      | inl e ↦ rw e above
      | inr later ↦ In-All (Above u) us a s.0 later
    ]),
    insert_text-IsSorted t us (λ i. new (inr i)) s.1,
  )
  | inr below ↦ rw below (below-All t u us below (λ e. new (inl e)) s.0, s)
]

-- No text stands twice.
abbrev pub IsNodup : List Text → Type 0
IsNodup [] = Unit
IsNodup (t ∷ ts) = (¬ In t ts) × IsNodup ts

pub sort_texts-IsSorted : (ts : List Text) → IsNodup ts → IsSorted (sort_texts ts)
unfolding sort_texts
sort_texts-IsSorted [] d = tt
sort_texts-IsSorted (t ∷ ts) d =
    insert_text-IsSorted t (sort_texts ts) (λ i. d.0 ((In-sort_texts t ts).0 i))
      (sort_texts-IsSorted ts d.1)

heads_eq :
    (t u : Text) (ts us : List Text)
    → IsSorted (t ∷ ts)
    → IsSorted (u ∷ us)
    → In t (u ∷ us)
    → In u (t ∷ ts)
    → t ≡ u
heads_eq t u ts us s s' (inl e) j = e
heads_eq t u ts us s s' (inr i) (inl e) = sym e
heads_eq t u ts us s s' (inr i) (inr j) =
    absurd (not-lt_both t u (In-All (Above t) ts u s.0 j) (In-All (Above u) us t s'.0 i))

tail_In :
    (t : Text) (ts us : List Text) (a : Text)
    → IsSorted (t ∷ ts)
    → In a ts
    → In a (t ∷ us)
    → In a us
tail_In t ts us a s i (inr j) = j
tail_In t ts us a s i (inl e) =
    absurd (cc (subst (Above t) e (In-All (Above t) ts a s.0 i), text_lt_irrefl t))

-- Two sorted lists with the same elements are equal.
pub sorted_ext :
    (ts us : List Text) → IsSorted ts → IsSorted us → ((a : Text) → In a ts ↔ In a us) → ts ≡ us
sorted_ext [] [] s s' h = refl
sorted_ext [] (u ∷ us) s s' h = absurd ((h u).1 (inl refl))
sorted_ext (t ∷ ts) [] s s' h = absurd ((h t).0 (inl refl))
sorted_ext (t ∷ ts) (u ∷ us) s s' h =
    let same = heads_eq t u ts us s s' ((h t).0 (inl refl)) ((h u).1 (inl refl)) in
    let tails = sorted_ext ts us s.1 s'.1 (λ a. (
      λ i. tail_In t ts us a s i (subst (λ v. In a (v ∷ us)) (sym same) ((h a).0 (inr i))),
      λ i. tail_In u us ts a s' i (subst (λ v. In a (v ∷ ts)) same ((h a).1 (inr i))),
    )) in
    cc (same, tails)

-- A prefix is sorted, and whatever is left out stands above all of it.
pub take-cut :
    (n : ℕ) (ts : List Text)
    → IsSorted ts
    → (a : Text) → In a ts
    → In a (take n ts) ⊎ ((length (take n ts) ≡ n) × All (λ t. text_lt t a ≡ true) (take n ts))
take-cut zero ts s a i = inr (omega arith, tt)
take-cut (suc n) (t ∷ ts) s a (inl e) = inl (inl e)
take-cut (suc n) (t ∷ ts) s a (inr i) = elim (take-cut n ts s.1 a i) [
  | inl kept ↦ inl (inr kept)
  | inr (full, above) ↦ inr (omega arith, (In-All (Above t) ts a s.0 i, above))
]
take-cut (suc n) [] s a i = absurd i

pub In-take : (n : ℕ) (ts : List Text) (a : Text) → In a (take n ts) → In a ts
In-take zero ts a i = absurd i
In-take (suc n) [] a i = absurd i
In-take (suc n) (t ∷ ts) a (inl e) = inl e
In-take (suc n) (t ∷ ts) a (inr i) = inr (In-take n ts a i)

pub take-IsSorted : (n : ℕ) (ts : List Text) → IsSorted ts → IsSorted (take n ts)
take-IsSorted zero ts s = tt
take-IsSorted (suc n) [] s = tt
take-IsSorted (suc n) (t ∷ ts) s = (
  All-of_In (Above t) (take n ts) (λ a i. In-All (Above t) ts a s.0 (In-take n ts a i)),
  take-IsSorted n ts s.1,
)
