-- ===== src/Env.antt =====
-- src/package/env.rs: settings from the environment. `var` is `std::env::var(…).ok()`; the lower case
-- of ASCII is a table.
pub mod Readers
use api_starter.Base.{
  ℕ, suc, String, ◌==◌, Bool, true, false, not, ◌||◌, Option, none, some, Result, ok, err, map_ok,
  ok_or, and_then, unwrap_or, map, keep, if◌then◌else◌, Char, code, nat_eq, is_empty, contains,
}
use mathlib.Core.List
use mathlib.Core.List.{List}
use api_starter.Base.Int.{ℤ}
use api_starter.Base.Text.{trim, is_empty_str, split}
use api_starter.Base.Decimal.{parse_unsigned, parse_i64}
use Prim.Native.String.{[], ◌∷◌}

pub data Error : Type 0 where
  missing : String → Error
  invalid : String → String → Error

-- `str::to_ascii_lowercase`: the letters from A to Z, and each lower-case letter in its place.
abbrev letter : ℕ → String → Char → Char
letter n [] c = c
letter n (low ∷ rest) c =
    let later = letter (suc n) rest c in if nat_eq (code c) n then low else later

unfoldable pub to_ascii_lowercase : String → String
to_ascii_lowercase [] = []
to_ascii_lowercase (c ∷ s) = letter b'A' "abcdefghijklmnopqrstuvwxyz" c ∷ to_ascii_lowercase s

module _ (var : String → Option String) where
  unfoldable pub string : String → Option String
  string key =
      and_then (λ value. if not (is_empty_str (trim value)) then some (trim value) else none)
        (var key)

  unfoldable pub string_or : String → String → String
  string_or key fallback = unwrap_or fallback (string key)

  unfoldable pub required : String → Result Error String
  required key = ok_or (missing key) (string key)

  -- `parsed`, at the parser of a type.
  unfoldable pub parsed : {T : Type 0} → (String → Option T) → String → Result Error (Option T)
  parsed parse key = elim (string key) [
    | none ↦ ok none
    | some value ↦ map_ok some (ok_or (invalid key value) (parse value))
  ]

  abbrev pub u16 : String → Result Error (Option ℕ)
  u16 key = parsed (parse_unsigned 65535) key

  -- `Ok(parsed(key)?.unwrap_or(fallback))`
  unfoldable pub parsed_or : {T : Type 0} → (String → Option T) → String → T → Result Error T
  parsed_or parse key fallback = map_ok (unwrap_or fallback) (parsed parse key)

  unfoldable pub u16_or : String → ℕ → Result Error ℕ
  u16_or key fallback = parsed_or (parse_unsigned 65535) key fallback

  abbrev pub u32 : String → Result Error (Option ℕ)
  u32 key = parsed (parse_unsigned 4294967295) key

  unfoldable pub u32_or : String → ℕ → Result Error ℕ
  u32_or key fallback = parsed_or (parse_unsigned 4294967295) key fallback

  abbrev pub i64 : String → Result Error (Option ℤ)
  i64 key = parsed parse_i64 key

  unfoldable pub i64_or : String → ℤ → Result Error ℤ
  i64_or key fallback = parsed_or parse_i64 key fallback

  abbrev truthy : List String
  truthy =
      List.◌∷◌ "1"
        (List.◌∷◌ "t" (List.◌∷◌ "true" (List.◌∷◌ "y" (List.◌∷◌ "yes" (List.◌∷◌ "on" List.[])))))

  abbrev falsy : List String
  falsy =
      List.◌∷◌ "0"
        (List.◌∷◌ "f" (List.◌∷◌ "false" (List.◌∷◌ "n" (List.◌∷◌ "no" (List.◌∷◌ "off" List.[])))))

  abbrev pub read_boolean : String → Option Bool
  read_boolean value =
      if contains truthy (to_ascii_lowercase value)
      then some true
      else if contains falsy (to_ascii_lowercase value)
      then some false
      else none

  unfoldable pub boolean : String → Result Error (Option Bool)
  boolean key = parsed read_boolean key

  unfoldable pub boolean_or : String → Bool → Result Error Bool
  boolean_or key fallback = map_ok (unwrap_or fallback) (boolean key)

  unfoldable pub vec : String → Option (List String)
  vec key =
      and_then
        (λ value.
          let entries = keep (λ entry. not (is_empty_str entry)) (map trim (split b',' value)) in
          if is_empty entries then none else some entries)
        (string key)

  unfoldable pub vec_or : String → List String → List String
  vec_or key fallback = unwrap_or fallback (vec key)
