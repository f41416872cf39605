-- ===== src/Base/Json.antt =====
-- `serde_json::Value`, with integers for numbers.
use api_starter.Base.Int.{ℤ}
use Prim.Native.String.{String}
use mathlib.Core.Bool.{Bool}
use mathlib.Core.Option.{Option, none, some}
use mathlib.Core.List.{List, [], ◌∷◌}

mutual
  pub data Value : Type 0 where
    null : Value
    boolean : Bool → Value
    number : ℤ → Value
    string : String → Value
    array : Values → Value
    object : Members → Value

  pub data Values : Type 0 where
    end : Values
    value : Value → Values → Values

  pub data Members : Type 0 where
    done : Members
    member : String → Value → Members → Members

-- `Value::as_str`
abbrev pub as_str : Value → Option String
as_str (string s) = some s
as_str _ = none

-- `Value::from` of a vector of texts.
abbrev pub texts : List String → Values
texts [] = end
texts (s ∷ ss) = value (string s) (texts ss)
