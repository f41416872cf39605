-- ===== src/Extract/Rules.antt =====
-- When the rule of a field holds.
use api_starter.Base.{String, Bool, true, false, ◌≡◌, ◌↔◌, none, Result, ok, err, arith}
use Prim.Native.String.{[], ◌∷◌}
use api_starter.Base.Int.{ℤ, pos, ◌≤ℤ◌}
use api_starter.Base.Text.{is_empty_str}
use api_starter.Validation.{FieldError}
use api_starter.Extract.{length_min, range_min, passes, custom}

pub length_min_iff : (s : String) → (length_min 1 s ≡ none) ↔ (is_empty_str s ≡ false)
length_min_iff [] = ground arith
length_min_iff (c ∷ s) = ground arith

pub passes_iff :
    (test : String → Bool) (code s : String) → (passes test code s ≡ none) ↔ (test s ≡ true)
passes_iff test code s = ground arith

pub custom_iff : (r : Result FieldError (Unit {0})) → (custom r ≡ none) ↔ (r ≡ ok tt)
custom_iff (ok x) = ground arith
custom_iff (err e) = ground arith

pub range_min_iff : (v : ℤ) → (range_min (pos 1) v ≡ none) ↔ (pos 1 ≤ℤ v)
range_min_iff v = ground arith
