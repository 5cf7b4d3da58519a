-- ===== src/Base/Counting.antt =====
-- Counting the occurrences of a text.
use Prim.Native.Nat.{◌+◌}
use mathlib.Core.Path.{◌≡◌}
use mathlib.Core.List.{List, [], ◌∷◌, ◌++◌}
use native.Mathlib.Omega.{arith}
use book_guard_api.Base.Texts.{Text, ◌==◌, count}
use book_guard_api.Base.Tests.{if◌then◌else◌}

pub count-append : (t : Text) (us vs : List Text) → count t (us ++ vs) ≡ count t us + count t vs
count-append t [] vs = omega arith
count-append t (u ∷ us) vs = omega (arith, count-append t us vs)

-- Taking one entry out of the middle.
pub count-middle :
    (t u : Text) (us vs : List Text)
    → count t (us ++ (u ∷ vs)) ≡ (if u == t then 1 else 0) + count t (us ++ vs)
count-middle t u us vs = omega (arith, count-append t us vs, count-append t us (u ∷ vs))
