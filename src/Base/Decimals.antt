-- ===== src/Base/Decimals.antt =====
-- `strconv.Itoa`.
use Prim.Native.Nat.{ℕ, zero, suc, ◌+◌, ◌/◌, ◌%◌, ◌≤◌}
use mathlib.Core.Path.{◌≡◌, refl}
use mathlib.Core.Logic.{inl, inr}
use mathlib.Core.List.{[], ◌∷◌, ◌++◌}
use native.Mathlib.Omega.{arith}
use book_guard_api.Base.Tests.{ltb, if◌then◌else◌, Bool-cases}
use book_guard_api.Base.Texts.{Text}
use book_guard_api.Base.Ints.{ℤ, pos, negsuc}

-- The decimal digits of a number, on fuel; as much fuel as the number is always enough.
unfoldable pub digits_on : ℕ → ℕ → Text
digits_on zero n = (b'0' + n) ∷ []
digits_on (suc fuel) n =
    let front = digits_on fuel (n / 10) in
    if ltb n 10 then (b'0' + n) ∷ [] else front ++ ((b'0' + n % 10) ∷ [])

-- More fuel than the number changes nothing.
digits_on_enough : (fuel more n : ℕ) → n ≤ fuel → n ≤ more → digits_on fuel n ≡ digits_on more n
unfolding digits_on
digits_on_enough zero zero n h k = refl
digits_on_enough zero (suc more) n h k = ground arith
digits_on_enough (suc fuel) zero n h k = ground arith
digits_on_enough (suc fuel) (suc more) n h k = elim (Bool-cases (ltb n 10)) [
  | inl small ↦ rw small
  | inr large ↦
      rw
        (large, digits_on_enough fuel more (n / 10) (ground (arith, large)) (ground (arith, large)))
]

unfoldable pub itoa : ℤ → Text
itoa (pos n) = digits_on n n
itoa (negsuc n) = b'-' ∷ digits_on (suc n) (suc n)
