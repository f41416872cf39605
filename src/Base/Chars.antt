-- ===== src/Base/Chars.antt =====
-- The tests on characters that the source takes from Rust's `char`.
use Prim.Native.Nat.{ℕ, ◌+◌, ◌/◌, ◌%◌}
use Prim.Native.String.{String, [], ◌∷◌}
use Prim.Native.Char.{Char, code}
use mathlib.Core.Bool.{Bool, ◌&&◌, ◌||◌}
use mathlib.Core.List.{List, ◌++◌}
use api_starter.Base.Tests.{ltb, leb, nat_eq, if◌then◌else◌}

abbrev between : ℕ → ℕ → ℕ → Bool
between lo hi c = leb lo c && leb c hi

-- `char::is_whitespace`: the characters with Unicode's property White_Space.
unfoldable pub is_whitespace : Char → Bool
is_whitespace ch =
    let c = code ch in
    between 0x9 0xd c
    || nat_eq c 0x20
    || nat_eq c 0x85
    || nat_eq c 0xa0
    || nat_eq c 0x1680
    || between 0x2000 0x200a c
    || between 0x2028 0x2029 c
    || nat_eq c 0x202f
    || nat_eq c 0x205f
    || nat_eq c 0x3000

-- `char::is_ascii_digit`
unfoldable pub is_ascii_digit : Char → Bool
is_ascii_digit ch = between b'0' b'9' (code ch)

-- The tables of Rust's standard library that follow the Unicode database.
pub record CharTables : Type 0 where
  pub is_uppercase : Char → Bool
  pub is_lowercase : Char → Bool
  pub is_alphanumeric : Char → Bool

-- The bytes of a character and of a text: UTF-8.
abbrev byte : ℕ → List ℕ → List ℕ
byte n bytes = List.◌∷◌ n bytes

abbrev following : ℕ → ℕ
following n = 0x80 + n % 64

abbrev utf8 : ℕ → List ℕ
utf8 n =
    if ltb n 0x80
    then byte n List.[]
    else if ltb n 0x800
    then byte (0xc0 + n / 64) (byte (following n) List.[])
    else if ltb n 0x10000
    then byte (0xe0 + n / 4096) (byte (following (n / 64)) (byte (following n) List.[]))
    else byte (0xf0 + n / 262144)
        (byte (following (n / 4096)) (byte (following (n / 64)) (byte (following n) List.[])))

-- `String::into_bytes`
unfoldable pub into_bytes : String → List ℕ
into_bytes [] = List.[]
into_bytes (c ∷ s) = utf8 (code c) ++ into_bytes s
