-- ===== src/Auth.antt =====
-- src/package/auth: identities, the store and mailer that the service works with, and the service.
pub mod Service
pub mod Postgres
pub mod Reads
pub mod Tokens
pub mod Login
pub mod Recovery
pub mod Reset
pub mod Faults
pub mod Refresh
pub mod Regain
use api_starter.Base.{String, Option, List}
use api_starter.Base.Int.{ℤ}
use api_starter.Base.Dict.{Dict}
use api_starter.Database.{Uuid, DateTime}
use api_starter.Database.Errors.{SqlError}
use api_starter.Database.Effect.{Eff}

-- src/package/auth/domain.rs
pub record Identity : Type 0 where
  pub id : Uuid
  pub email : String
  pub user_name : String
  pub password : String
  pub roles : List String

pub record AuthenticationTokens : Type 0 where
  pub token : String
  pub refresh_token : String

pub record PasswordReset : Type 0 where
  pub email : String
  pub token : String
  pub created_at : DateTime

-- The trait `Store`; the database's clock is an argument where a statement reads it.
pub record Store : Type 0 where
  pub find_user_by_id : Uuid → Eff SqlError (Option Identity)
  pub find_user_by_email : String → Eff SqlError (Option Identity)
  pub create_password_reset : DateTime → String → String → Eff SqlError (Unit {0})
  pub reset_password : String → String → Eff SqlError (Unit {0})
  pub find_password_by_token : String → Eff SqlError (Option PasswordReset)
  pub delete_password_reset : String → Eff SqlError (Unit {0})

-- The trait `Emailer`: the recipient, the subject, the template and its data. An error is its
-- `Display` text.
pub record Emailer : Type 0 where
  pub send_html : String → String → String → Dict String → Eff String (Unit {0})
