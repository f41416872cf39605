-- ===== src/Base/Text.antt =====
-- What the source asks of `str`.
use Prim.Native.Nat.{ℕ, suc}
use Prim.Native.Char.{Char, code}
use Prim.Native.String.{String, [], ◌∷◌, ◌++◌}
use mathlib.Core.Bool.{Bool, true, false, ◌&&◌, ◌||◌}
use mathlib.Core.Option.{Option, none, some}
use mathlib.Core.List.{List}
use api_starter.Base.Tests.{nat_eq, if◌then◌else◌}
use api_starter.Base.Chars.{is_whitespace}

-- `str::is_empty`
abbrev pub is_empty_str : String → Bool
is_empty_str [] = true
is_empty_str (c ∷ s) = false

-- `chars().count()`
abbrev pub chars_count : String → ℕ
chars_count [] = 0
chars_count (c ∷ s) = suc (chars_count s)

-- `chars().any(p)`
abbrev pub any_char : (Char → Bool) → String → Bool
any_char p [] = false
any_char p (c ∷ s) = p c || any_char p s

abbrev pub all_char : (Char → Bool) → String → Bool
all_char p [] = true
all_char p (c ∷ s) = p c && all_char p s

unfoldable pub trim_start : String → String
trim_start [] = []
trim_start (c ∷ s) = if is_whitespace c then trim_start s else c ∷ s

unfoldable pub trim_end : String → String
trim_end [] = []
trim_end (c ∷ s) =
    let rest = trim_end s in if is_whitespace c && is_empty_str rest then [] else c ∷ rest

-- `str::trim`
unfoldable pub trim : String → String
unfolding trim_start trim_end is_whitespace
trim s = trim_end (trim_start s)

-- `str::split_once` at a character given by its code.
unfoldable pub split_once : ℕ → String → Option (String × String)
split_once sep [] = none
split_once sep (c ∷ s) =
    if nat_eq (code c) sep
    then some ("", s)
    else elim (split_once sep s) [ none ↦ none | some (a, b) ↦ some (c ∷ a, b) ]

-- `str::split` at a character: the pieces, of which there is at least one.
split_from : ℕ → String → String → List String
split_from sep cur [] = List.◌∷◌ cur List.[]
split_from sep cur (c ∷ s) =
    let closed = split_from sep "" s in
    let longer = split_from sep (cur ++ (c ∷ [])) s in
    if nat_eq (code c) sep then List.◌∷◌ cur closed else longer

unfoldable pub split : ℕ → String → List String
unfolding split_from
split sep s = split_from sep "" s

-- `str::strip_prefix`
unfoldable pub strip_prefix : String → String → Option String
strip_prefix [] s = some s
strip_prefix (p ∷ ps) [] = none
strip_prefix (p ∷ ps) (c ∷ s) = if nat_eq (code p) (code c) then strip_prefix ps s else none

-- `str::trim_matches` by one character.
trim_start_matches : ℕ → String → String
trim_start_matches sep [] = []
trim_start_matches sep (c ∷ s) = if nat_eq (code c) sep then trim_start_matches sep s else c ∷ s

trim_end_matches : ℕ → String → String
trim_end_matches sep [] = []
trim_end_matches sep (c ∷ s) =
    let rest = trim_end_matches sep s in
    if nat_eq (code c) sep && is_empty_str rest then [] else c ∷ rest

unfoldable pub trim_matches : ℕ → String → String
unfolding trim_start_matches trim_end_matches
trim_matches sep s = trim_end_matches sep (trim_start_matches sep s)
