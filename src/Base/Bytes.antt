-- ===== src/Base/Bytes.antt =====
-- The UTF-8 bytes of a text, and the percent-encodings of `net/url`, which work on bytes.
use Prim.Native.Nat.{ℕ, ◌+◌, ◌/◌, ◌%◌}
use mathlib.Core.Bool.{Bool, ◌||◌, ◌&&◌}
use mathlib.Core.List.{List, [], ◌∷◌, ◌++◌}
use book_guard_api.Base.Tests.{ltb, leb, nat_eq, if◌then◌else◌}
use book_guard_api.Base.Texts.{Text, is_digit}
use book_guard_api.Base.Lists.{length}

-- The bytes of one code point.
unfoldable pub utf8_of : ℕ → List ℕ
utf8_of c =
    if ltb c 0x80
    then c ∷ []
    else (if ltb c 0x800
        then (0xc0 + c / 64) ∷ (0x80 + c % 64) ∷ []
        else (if ltb c 0x10000
            then (0xe0 + c / 4096) ∷ (0x80 + c / 64 % 64) ∷ (0x80 + c % 64) ∷ []
            else (0xf0 + c / 262144)
              ∷ (0x80 + c / 4096 % 64)
              ∷ (0x80 + c / 64 % 64)
              ∷ (0x80 + c % 64)
              ∷ []))

unfoldable pub utf8 : Text → List ℕ
utf8 [] = []
utf8 (c ∷ s) = utf8_of c ++ utf8 s

-- `len(s)`.
unfoldable pub byte_length : Text → ℕ
byte_length s = length (utf8 s)

-- The characters that every escaping leaves alone.
abbrev pub is_unreserved : ℕ → Bool
is_unreserved c =
    (leb b'a' c && leb c b'z')
    || (leb b'A' c && leb c b'Z')
    || is_digit c
    || nat_eq c b'-'
    || nat_eq c b'_'
    || nat_eq c b'.'
    || nat_eq c b'~'

-- '$', '&', '+', '=', ':' and '@' may stand in a path segment.
abbrev pub is_segment : ℕ → Bool
is_segment c =
    is_unreserved c
    || nat_eq c b'$'
    || nat_eq c b'&'
    || nat_eq c b'+'
    || nat_eq c b'='
    || nat_eq c b':'
    || nat_eq c b'@'

abbrev pub hex_digit : ℕ → ℕ
hex_digit d = if ltb d 10 then b'0' + d else b'7' + d

abbrev pub percent : ℕ → Text
percent b = b'%' ∷ hex_digit (b / 16) ∷ hex_digit (b % 16) ∷ []

abbrev pub escape_query_byte : ℕ → Text
escape_query_byte b =
    if nat_eq b b' ' then b'+' ∷ [] else (if is_unreserved b then b ∷ [] else percent b)

abbrev pub escape_path_byte : ℕ → Text
escape_path_byte b = if is_segment b then b ∷ [] else percent b

unfoldable pub escape_with : (ℕ → Text) → List ℕ → Text
escape_with f [] = []
escape_with f (b ∷ bs) = f b ++ escape_with f bs

-- `url.QueryEscape` and `url.PathEscape`.
unfoldable pub query_escape : Text → Text
query_escape s = escape_with escape_query_byte (utf8 s)

unfoldable pub path_escape : Text → Text
path_escape s = escape_with escape_path_byte (utf8 s)
