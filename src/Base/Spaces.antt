-- ===== src/Base/Spaces.antt =====
-- `strings.TrimSpace`, `strings.TrimRight`, `strings.Fields` and `strings.Join`, over code points.
use Prim.Native.Nat.{ℕ}
use mathlib.Core.Bool.{Bool, ◌&&◌, ◌||◌}
use mathlib.Core.List.{List, [], ◌∷◌, ◌++◌, reverse}
use book_guard_api.Base.Tests.{leb, nat_eq, if◌then◌else◌}
use book_guard_api.Base.Texts.{Text, is_empty}

-- `unicode.IsSpace`.
unfoldable pub is_space : ℕ → Bool
is_space c =
    (leb 9 c && leb c 13)
    || nat_eq c 32
    || nat_eq c 0x85
    || nat_eq c 0xa0
    || nat_eq c 0x1680
    || (leb 0x2000 c && leb c 0x200a)
    || nat_eq c 0x2028
    || nat_eq c 0x2029
    || nat_eq c 0x202f
    || nat_eq c 0x205f
    || nat_eq c 0x3000

unfoldable pub trim_left : Text → Text
trim_left [] = []
trim_left (c ∷ s) = if is_space c then trim_left s else c ∷ s

unfoldable pub trim_space : Text → Text
trim_space s = reverse (trim_left (reverse (trim_left s)))

-- `strings.TrimRight(s, "/")`, by the reversed text.
unfoldable pub drop_slashes : Text → Text
drop_slashes [] = []
drop_slashes (c ∷ s) = if nat_eq c b'/' then drop_slashes s else c ∷ s

unfoldable pub trim_right_slashes : Text → Text
trim_right_slashes s = reverse (drop_slashes (reverse s))

-- The loop of `strings.Fields`, with the word read so far.
unfoldable pub fields_from : Text → Text → List Text
fields_from word [] = if is_empty word then [] else word ∷ []
fields_from word (c ∷ s) =
    let next = fields_from [] s in
    let longer = fields_from (word ++ (c ∷ [])) s in
    if is_space c then (if is_empty word then next else word ∷ next) else longer

unfoldable pub fields : Text → List Text
fields s = fields_from [] s

unfoldable pub join : Text → List Text → Text
join sep [] = []
join sep (w ∷ []) = w
join sep (w ∷ v ∷ ws) = w ++ (sep ++ join sep (v ∷ ws))
