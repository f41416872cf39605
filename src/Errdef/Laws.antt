-- ===== src/Errdef/Laws.antt =====
-- What a caller sees of an error: the status, the envelope, and never the cause.
use api_starter.Base.{
  ℕ, String, ◌≡◌, refl, ◌↔◌, ◌++◌, List, [], ◌∷◌, some, none, arith, if◌then◌else◌, ◌==◌, ◌⊎◌, Bool,
  true, false, ◌&&◌,
}
use mathlib.Core.Option
use api_starter.Base.Int.{ℤ, pos}
use api_starter.Base.Dict.{items, items-push}
use api_starter.Errdef.{Error, app, validation, with_cause, unknown, push_violation}
use api_starter.Errdef.Code
use api_starter.Errdef.Render.{into_response}

abbrev pub is_validation : Error → Bool
is_validation (app e) = false
is_validation (validation e) = true

module _ {T P : Type 0} where
  -- Attaching a cause to an error does not change the reply, and two internal failures render
  -- alike whatever their causes are.
  pub into_response-with_cause :
      (e : Error) (cause other : String)
      → (into_response {T = T} {P = P} (with_cause e cause) ≡ into_response e)
        × (into_response {T = T} {P = P} (unknown cause) ≡ into_response (unknown other))
  unfolding into_response with_cause
  into_response-with_cause (app e) cause other = (refl, refl)
  into_response-with_cause (validation e) cause other = (refl, refl)

-- The statuses that an error can have.
abbrev pub IsErrorStatus : ℕ → Type 0
IsErrorStatus s = (s ≡ 400) ⊎ (s ≡ 401) ⊎ (s ≡ 403) ⊎ (s ≡ 404) ⊎ (s ≡ 409) ⊎ (s ≡ 422) ⊎ (s ≡ 500)

-- The code of an error; a validation error's is fixed.
abbrev pub code_of : Error → ℤ
code_of (app e) = e.code
code_of (validation e) = Code.validation_failed

module _ {T P : Type 0} where
  -- Every error is answered with one of seven client or server error statuses, which the body
  -- repeats, with no data and no pagination; and the status is 500 exactly for the code 2000.
  pub into_response_status :
      (e : Error)
      → IsErrorStatus (into_response {T = T} {P = P} e).status
        × (Option.map (λ b. b.code) (into_response {T = T} {P = P} e).body.error
            ≡ some (pos (into_response {T = T} {P = P} e).status))
        × ((into_response {T = T} {P = P} e).body.data_of ≡ none)
        × ((into_response {T = T} {P = P} e).body.pagination ≡ none)
        × (((into_response {T = T} {P = P} e).status ≡ 500) ↔ (code_of e ≡ Code.unknown))
  unfolding into_response
  into_response_status (app e) = ground arith
  into_response_status (validation e) = ground arith

-- The violations of a validation error by field, none for another error.
abbrev pub violations_of : Error → String → List String
violations_of (app e) field = []
violations_of (validation e) field = items field e.field_violations

-- Violations accumulate: one more on a field of a validation error is put behind those that the
-- field has, the other fields keep theirs, and another error stays as it is.
pub violations_of-push_violation :
    (e : Error) (field message other : String)
    → violations_of (push_violation e field message) other ≡ (
        if is_validation e && field == other
        then violations_of e other ++ (message ∷ [])
        else violations_of e other)
unfolding push_violation
violations_of-push_violation (app e) field message other = refl
violations_of-push_violation (validation e) field message other = items-push field other message _
