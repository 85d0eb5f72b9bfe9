-- ===== src/Prelude/Text.antt =====
-- What the program asks of texts: `trim().is_empty()` and the alphabet of tool names and codes.
-- The length in bytes is the native `len`.
use Prim.Native.Char.{Char, code}
use Prim.Native.String.{String, char_at}
use Prim.Native.Nat.{ℕ, ◌-◌}
use mathlib.Core.Bool.{Bool, true, false, ◌&&◌, ◌||◌}
use mathlib.Core.List.{List, [], ◌∷◌}
use text.Mathlib.Text.{starts_with}
use wiki_coding.Prelude.Tests.{ltb, leb, ◌==◌, nat_eq, string_eq, if◌then◌else◌}

-- `char::is_whitespace`: the characters with the Unicode property White_Space.
unfoldable pub is_whitespace : Char → Bool
is_whitespace c =
    let n = code c in
    (leb 9 n && leb n 13)
    || n == 32
    || n == 0x85
    || n == 0xa0
    || n == 0x1680
    || (leb 0x2000 n && leb n 0x200a)
    || n == 0x2028
    || n == 0x2029
    || n == 0x202f
    || n == 0x205f
    || n == 0x3000

unfoldable pub all_chars : (Char → Bool) → String → Bool
all_chars p String.[] = true
all_chars p (String.◌∷◌ c s) = p c && all_chars p s

-- `text.trim().is_empty()`.
unfoldable pub is_blank : String → Bool
unfolding all_chars is_whitespace
is_blank s = all_chars is_whitespace s

-- `byte.is_ascii_lowercase() || byte.is_ascii_digit() || byte == b'_'`, of every byte. No byte of
-- a character above 127 passes, so the test may go by characters.
unfoldable pub is_code_char : Char → Bool
is_code_char c =
    let n = code c in (leb b'a' n && leb n b'z') || (leb b'0' n && leb n b'9') || n == b'_'

unfoldable pub is_code_text : String → Bool
unfolding all_chars is_code_char
is_code_text s = all_chars is_code_char s

-- `char::is_control`: the Unicode category Cc.
unfoldable pub is_control : Char → Bool
is_control c = let n = code c in ltb n 0x20 || (leb 0x7f n && leb n 0x9f)

unfoldable pub any_char : (Char → Bool) → String → Bool
any_char p String.[] = false
any_char p (String.◌∷◌ c s) = p c || any_char p s

-- `text.ends_with(tail)` and `text.contains(part)`.
unfoldable pub ends_with : String → String → Bool
ends_with String.[] tail = "" == tail
ends_with (String.◌∷◌ c s) tail = String.◌∷◌ c s == tail || ends_with s tail

unfoldable pub contains_text : String → String → Bool
contains_text String.[] part = "" == part
contains_text (String.◌∷◌ c s) part = starts_with (String.◌∷◌ c s) part || contains_text s part

-- A character in front of the first part.
abbrev in_front : Char → List String → List String
in_front c [] = String.◌∷◌ c String.[] ∷ []
in_front c (part ∷ parts) = String.◌∷◌ c part ∷ parts

-- `text.split(separator)`.
unfoldable pub split : ℕ → String → List String
split separator String.[] = "" ∷ []
split separator (String.◌∷◌ c s) =
    let parts = split separator s in if code c == separator then "" ∷ parts else in_front c parts

-- `text.to_ascii_lowercase()`.
abbrev lowercase_char : Char → Char
lowercase_char c =
    let n = code c in
    if leb b'A' n && leb n b'Z' then char_at "abcdefghijklmnopqrstuvwxyz" (n - 65) else c

unfoldable pub to_ascii_lowercase : String → String
to_ascii_lowercase String.[] = String.[]
to_ascii_lowercase (String.◌∷◌ c s) = String.◌∷◌ (lowercase_char c) (to_ascii_lowercase s)
