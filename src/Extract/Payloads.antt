-- ===== src/Extract/Payloads.antt =====
-- The payloads of src/module/auth/adapter/handler.rs and src/module/iam/adapter/handler/user.rs: the
-- rules in the attributes of their fields.
use api_starter.Base.{String, Bool, List, [], ◌∷◌, Result}
use api_starter.Base.Int.{pos}
use api_starter.Base.Chars.{CharTables}
use api_starter.Validation.{ValidationErrors, strong_password}
use api_starter.AuthHandlers.{
  LoginRequest, RefreshRequest, PasswordRecoveryRequest, PasswordResetRequest,
}
use api_starter.Iam.Handlers.{CreateUserRequest}
use api_starter.Extract.{Check, collected, outcome, length_min, range_min, passes, custom}

-- The tests of `validator` for addresses and URLs.
pub record Formats : Type 0 where
  pub email : String → Bool
  pub url : String → Bool

abbrev pub login_checks : LoginRequest → List Check
login_checks p = ("email", length_min 1 p.email) ∷ ("password", length_min 1 p.password) ∷ []

unfoldable pub validate_login : LoginRequest → Result ValidationErrors (Unit {0})
validate_login p = outcome (collected (login_checks p))

abbrev pub refresh_checks : RefreshRequest → List Check
refresh_checks p = ("token", length_min 1 p.token) ∷ []

unfoldable pub validate_refresh : RefreshRequest → Result ValidationErrors (Unit {0})
validate_refresh p = outcome (collected (refresh_checks p))

module _ (formats : Formats) where
  abbrev pub recovery_checks : PasswordRecoveryRequest → List Check
  recovery_checks p =
      ("email", passes formats.email "email" p.email)
      ∷ ("callback_uri", passes formats.url "url" p.callback_uri)
      ∷ []

  unfoldable pub validate_recovery : PasswordRecoveryRequest → Result ValidationErrors (Unit {0})
  validate_recovery p = outcome (collected (recovery_checks p))

  module _ (tables : CharTables) where
    abbrev pub create_user_checks : CreateUserRequest → List Check
    create_user_checks p =
        ("user_name", length_min 1 p.user_name)
        ∷ ("email", passes formats.email "email" p.email)
        ∷ ("password", custom (strong_password tables p.password))
        ∷ ("first_name", length_min 1 p.first_name)
        ∷ ("last_name", length_min 1 p.last_name)
        ∷ ("department", range_min (pos 1) p.department)
        ∷ []

    unfoldable pub validate_create_user : CreateUserRequest → Result ValidationErrors (Unit {0})
    validate_create_user p = outcome (collected (create_user_checks p))

abbrev pub reset_checks : CharTables → PasswordResetRequest → List Check
reset_checks tables p =
    ("token", length_min 1 p.token) ∷ ("password", custom (strong_password tables p.password)) ∷ []

unfoldable pub validate_reset :
    CharTables → PasswordResetRequest → Result ValidationErrors (Unit {0})
validate_reset tables p = outcome (collected (reset_checks tables p))
