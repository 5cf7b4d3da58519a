-- ===== src/Base/Texts.antt =====
-- Go strings, as lists of Unicode code points, compared by `==`, `<` and the case functions.
use Prim.Native.Nat.{ℕ, ◌+◌, ◌-◌}
use Prim.Native.Char.{code}
use Prim.Native.String.{String}
use mathlib.Core.Path.{◌≡◌, refl}
use mathlib.Core.Logic.{◌↔◌}
use mathlib.Core.Bool.{Bool, true, false, ◌&&◌, ◌||◌}
use mathlib.Core.List.{List, [], ◌∷◌}
use native.Mathlib.Omega.{arith}
use book_guard_api.Base.Tests.{ltb, leb, nat_eq, if◌then◌else◌}

abbrev pub Text : Type 0
Text = List ℕ

-- The code points of a literal.
abbrev pub codes : String → Text
codes String.[] = []
codes (String.◌∷◌ c s) = code c ∷ codes s

infix 50 ◌==◌
unfoldable pub ◌==◌ : Text → Text → Bool
[] == [] = true
(x ∷ xs) == (y ∷ ys) = nat_eq x y && xs == ys
_ == _ = false

pub eq_iff : (s t : Text) → ((s == t) ≡ true) ↔ (s ≡ t)
unfolding ◌==◌
eq_iff [] [] = ground arith
eq_iff (x ∷ xs) (y ∷ ys) = ground (arith, eq_iff xs ys)
eq_iff (x ∷ xs) [] = ground arith
eq_iff [] (y ∷ ys) = ground arith

pub eq_refl : (s : Text) → (s == s) ≡ true
eq_refl s = (eq_iff s s).1 refl

-- `s == ""`.
abbrev pub is_empty : Text → Bool
is_empty [] = true
is_empty (x ∷ xs) = false

-- `s < t`: for UTF-8 the order of the bytes is that of the code points.
unfoldable pub text_lt : Text → Text → Bool
text_lt [] [] = false
text_lt [] (y ∷ ys) = true
text_lt (x ∷ xs) [] = false
text_lt (x ∷ xs) (y ∷ ys) = ltb x y || (nat_eq x y && text_lt xs ys)

abbrev pub is_digit : ℕ → Bool
is_digit c = leb b'0' c && leb c b'9'

-- Letter case within ASCII, and the table beyond it.
abbrev pub is_ascii : ℕ → Bool
is_ascii c = ltb c 128

unfoldable pub ascii_upper : ℕ → ℕ
ascii_upper c = if leb b'a' c && leb c b'z' then c - 32 else c

unfoldable pub ascii_lower : ℕ → ℕ
ascii_lower c = if leb b'A' c && leb c b'Z' then c + 32 else c

-- The simple case mappings of Go's Unicode tables beyond ASCII.
pub record CaseTable : Type 0 where
  pub upper : ℕ → ℕ
  pub lower : ℕ → ℕ

-- `unicode.ToUpper` and `unicode.ToLower`.
unfoldable pub to_upper : CaseTable → ℕ → ℕ
unfolding ascii_upper
to_upper table c = if is_ascii c then ascii_upper c else table.upper c

unfoldable pub to_lower : CaseTable → ℕ → ℕ
unfolding ascii_lower
to_lower table c = if is_ascii c then ascii_lower c else table.lower c

-- Tables that leave everything beyond ASCII alone.
abbrev pub ascii_table : CaseTable
ascii_table = record { upper = λ c. c; lower = λ c. c }

-- How often a text stands in a list.
abbrev pub count : Text → List Text → ℕ
count t [] = 0
count t (u ∷ us) = (if u == t then 1 else 0) + count t us
