-- ===== src/Extract/Laws.antt =====
-- What the extractors let through, and what they say of the rest.
use api_starter.Base.{
  String, true, false, ◌≡◌, ◌↔◌, ◌∙◌, refl, none, some, List, [], ◌∷◌, Result, ok, err, ◌==◌,
  if◌then◌else◌, arith, All,
}
use api_starter.Base.Int.{pos, ◌≤ℤ◌}
use api_starter.Base.Chars.{CharTables}
use api_starter.Base.Text.{is_empty_str}
use api_starter.Errdef.{Error, app, validation, bad_request, with_cause}
use api_starter.Errdef.Laws.{violations_of, is_validation}
use api_starter.Errdef.Render.{into_response}
use api_starter.Validation.{to_error, message_for, strong_password}
use api_starter.Validation.Violations.{
  messages_at, flatten, violations_of-to_error, to_error-is_validation,
}
use api_starter.AuthHandlers.{
  LoginRequest, RefreshRequest, PasswordRecoveryRequest, PasswordResetRequest,
}
use api_starter.Iam.Handlers.{CreateUserRequest}
use api_starter.Extract.{Check, collected, outcome, validated_json}
use api_starter.Extract.Rules.{length_min_iff, passes_iff, custom_iff, range_min_iff}
use api_starter.Extract.Payloads.{
  login_checks, refresh_checks, recovery_checks, reset_checks, create_user_checks, Formats,
  validate_login, validate_refresh, validate_recovery, validate_create_user, validate_reset,
}

-- The messages of the rules of a field that do not hold.
abbrev pub failures : String → List Check → List String
failures name [] = []
failures name ((other, none) ∷ checks) = failures name checks
failures name ((other, some e) ∷ checks) =
    if other == name then message_for e ∷ failures name checks else failures name checks

messages_at-collected :
    (name : String) (checks : List Check)
    → messages_at name (flatten (collected checks) "") ≡ failures name checks
unfolding flatten
messages_at-collected name [] = refl
messages_at-collected name ((other, none) ∷ checks) = messages_at-collected name checks
messages_at-collected name ((other, some e) ∷ checks) = rw (messages_at-collected name checks) refl

-- Every rule holds.
abbrev pub Passes : List Check → Type 0
Passes checks = All (λ c. c.1 ≡ none) checks

outcome-Passes : (checks : List Check) → Passes checks → outcome (collected checks) ≡ ok tt
outcome-Passes [] h = refl
outcome-Passes ((name, o) ∷ checks) (here, rest) = rw here (outcome-Passes checks rest)

pub validation_status :
    (e : Error)
    → is_validation e ≡ true
    → (into_response {T = Unit {0}} {P = Unit {0}} e).status ≡ 422
unfolding into_response
validation_status (app e) h = absurd (ground arith)
validation_status (validation e) h = refl

outcome-fails :
    (checks : List Check)
    → (Passes checks → ⊥)
    → outcome (collected checks) ≡ err (collected checks)
outcome-fails [] h = absurd (h tt)
outcome-fails ((name, none) ∷ checks) h = outcome-fails checks (λ p. h (refl, p))
outcome-fails ((name, some e) ∷ checks) h = refl

module _ {B T : Type 0} (decode : B → Result String T) (checks : T → List Check) (request : B) where
  -- A validated body whose text does not decode is answered `invalid json body` with the cause. One
  -- that decodes is the payload itself where every rule of its fields holds, and otherwise an error
  -- that renders with status 422 and holds, for each name, exactly the messages of the rules of that
  -- field that do not hold.
  pub validated_json_lem :
      let extracted = validated_json decode (λ value. outcome (collected (checks value))) request in
      ((text : String)
        → decode request ≡ err text
        → extracted ≡ err (with_cause (bad_request "invalid json body") text))
      × ((value : T)
          → decode request ≡ ok value
          → (Passes (checks value) → extracted ≡ ok value)
            × ((Passes (checks value) → ⊥)
                → (e : Error) × (extracted ≡ err e)
                  × ((into_response {T = Unit {0}} {P = Unit {0}} e).status ≡ 422)
                  × ((name : String) → violations_of e name ≡ failures name (checks value))))
  unfolding validated_json
  validated_json_lem = (
    λ text h. rw h refl,
    λ value h. (
      λ good. rw h (rw (outcome-Passes (checks value) good) refl),
      λ bad. (
        to_error (collected (checks value)),
        rw h (rw (outcome-fails (checks value) bad) refl),
        validation_status _ (to_error-is_validation _),
        λ name. violations_of-to_error _ name ∙ messages_at-collected name (checks value),
      ),
    ),
  )

all_pass : (checks : List Check) → outcome (collected checks) ≡ ok tt → Passes checks
all_pass [] h = tt
all_pass ((name, none) ∷ checks) h = (refl, all_pass checks h)
all_pass ((name, some e) ∷ checks) h = absurd (ground arith)

-- A payload passes its rules exactly if: for a login, neither field is empty; for a refresh, the token
-- is not empty; for a recovery, the address and the URL are well formed; for a reset, the token is
-- not empty and the password is strong; for a new user, no name is empty, the address is well formed,
-- the password is strong and the department is at least 1.
pub payloads_lem :
    (formats : Formats) (tables : CharTables)
    → ((p : LoginRequest)
        → (validate_login p ≡ ok tt)
          ↔ ((is_empty_str p.email ≡ false) × (is_empty_str p.password ≡ false)))
      × ((p : RefreshRequest) → (validate_refresh p ≡ ok tt) ↔ (is_empty_str p.token ≡ false))
      × ((p : PasswordRecoveryRequest)
          → (validate_recovery formats p ≡ ok tt)
            ↔ ((formats.email p.email ≡ true) × (formats.url p.callback_uri ≡ true)))
      × ((p : PasswordResetRequest)
          → (validate_reset tables p ≡ ok tt)
            ↔ ((is_empty_str p.token ≡ false) × (strong_password tables p.password ≡ ok tt)))
      × ((p : CreateUserRequest)
          → (validate_create_user formats tables p ≡ ok tt) ↔ (
              (is_empty_str p.user_name ≡ false)
              × (formats.email p.email ≡ true)
              × (strong_password tables p.password ≡ ok tt)
              × (is_empty_str p.first_name ≡ false)
              × (is_empty_str p.last_name ≡ false)
              × (pos 1 ≤ℤ p.department)))
unfolding validate_login validate_refresh validate_recovery validate_reset validate_create_user
payloads_lem formats tables = (
  λ p.
      let address = length_min_iff p.email in
      let password = length_min_iff p.password in
      (
        λ h. let (a, (b, end)) = all_pass (login_checks p) h in (address.0 a, password.0 b),
        λ (a, b). outcome-Passes (login_checks p) (address.1 a, (password.1 b, tt)),
      ),
  λ p.
      let token = length_min_iff p.token in
      (
        λ h. let (a, end) = all_pass (refresh_checks p) h in token.0 a,
        λ a. outcome-Passes (refresh_checks p) (token.1 a, tt),
      ),
  λ p.
      let address = passes_iff formats.email "email" p.email in
      let uri = passes_iff formats.url "url" p.callback_uri in
      (
        λ h. let (a, (b, end)) = all_pass (recovery_checks formats p) h in (address.0 a, uri.0 b),
        λ (a, b). outcome-Passes (recovery_checks formats p) (address.1 a, (uri.1 b, tt)),
      ),
  λ p.
      let token = length_min_iff p.token in
      let password = custom_iff (strong_password tables p.password) in
      (
        λ h. let (a, (b, end)) = all_pass (reset_checks tables p) h in (token.0 a, password.0 b),
        λ (a, b). outcome-Passes (reset_checks tables p) (token.1 a, (password.1 b, tt)),
      ),
  λ p.
      let user_name = length_min_iff p.user_name in
      let address = passes_iff formats.email "email" p.email in
      let password = custom_iff (strong_password tables p.password) in
      let first_name = length_min_iff p.first_name in
      let last_name = length_min_iff p.last_name in
      let department = range_min_iff p.department in
      (
        λ h.
            let (a, (b, (c, (d, (e, (f, end)))))) =
              all_pass (create_user_checks formats tables p) h in
            (
              user_name.0 a,
              address.0 b,
              password.0 c,
              first_name.0 d,
              last_name.0 e,
              department.0 f,
            ),
        λ (a, b, c, d, e, f). outcome-Passes (create_user_checks formats tables p) (
          user_name.1 a,
          (address.1 b, (password.1 c, (first_name.1 d, (last_name.1 e, (department.1 f, tt))))),
        ),
      ),
)
