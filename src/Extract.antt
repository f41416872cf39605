-- ===== src/Extract.antt =====
-- src/package/extract.rs: the extractors of a JSON body, and what the derived `validate` of a payload
-- checks: one rule per field.
pub mod Payloads
pub mod Rules
pub mod Laws
use api_starter.Base.{
  ℕ, String, Bool, Option, none, some, List, [], ◌∷◌, Result, ok, err, ◌>>=◌, ◌>>◌, map_err, leb,
  if◌then◌else◌,
}
use api_starter.Base.Decimal.{show_ℕ}
use api_starter.Base.Text.{chars_count}
use api_starter.Base.Int.{ℤ, ltb_ℤ}
use api_starter.Errdef.{Error, bad_request, with_cause}
use api_starter.Validation.{FieldError, ValidationErrors, done, entry, field, to_error, field_error}

-- `decode` is `axum::Json::from_request` on the request, with the `Display` text of its rejection;
-- `validate` is the one derived for the payload.
module _ {B T : Type 0} (decode : B → Result String T) where
  -- `Json::from_request`
  unfoldable pub json : B → Result Error T
  json request = map_err (λ e. with_cause (bad_request "invalid json body") e) (decode request)

  -- `ValidatedJson::from_request`
  unfoldable pub validated_json : (T → Result ValidationErrors (Unit {0})) → B → Result Error T
  unfolding json
  validated_json validate request = do
    value ← json request
    map_err to_error (validate value)
    ok value

-- The rule of a field: its name, and the error if it does not hold.
abbrev pub Check : Type 0
Check = String × Option FieldError

-- What `derive(Validate)` collects: the errors of the fields whose rule does not hold.
abbrev pub collected : List Check → ValidationErrors
collected [] = done
collected ((name, none) ∷ checks) = collected checks
collected ((name, some e) ∷ checks) = entry name (field (e ∷ [])) (collected checks)

abbrev pub outcome : ValidationErrors → Result ValidationErrors (Unit {0})
outcome done = ok tt
outcome (entry name kind rest) = err (entry name kind rest)

-- `length(min = …)` and `range(min = …)`. The parameter `value` of an error, which nothing reads, is
-- left out.
abbrev pub length_min : ℕ → String → Option FieldError
length_min n s =
    if leb n (chars_count s)
    then none
    else some (record {
      code = "length";
      message = some "field is required and cannot be empty";
      params = ("min", show_ℕ n) ∷ [];
    })

abbrev pub range_min : ℤ → ℤ → Option FieldError
range_min n v = if ltb_ℤ v n then some (field_error "range") else none

-- A test of `validator` itself, under the code of its rule.
abbrev pub passes : (String → Bool) → String → String → Option FieldError
passes test code s = if test s then none else some (field_error code)

-- `custom(function = …)`
abbrev pub custom : Result FieldError (Unit {0}) → Option FieldError
custom (ok x) = none
custom (err e) = some e
