-- ===== src/AuthHandlers.antt =====
-- src/module/auth: the handlers behind the extractors, over the service.
use api_starter.Base.{ℕ, String, List}
use api_starter.Database.{DateTime}
use api_starter.Database.Effect.{Eff, ◌>>=◌, ◌>>◌, ret}
use api_starter.Errdef.{Error}
use api_starter.External.{Crypto, UuidText}
use api_starter.Auth.{AuthenticationTokens}
use api_starter.Auth.Service
use api_starter.Auth.Service.{AuthService}
use api_starter.Pagination.{MetaData}
use api_starter.Response.{Response, of_data}

pub record LoginRequest : Type 0 where
  pub email : String
  pub password : String

pub record RefreshRequest : Type 0 where
  pub token : String

pub record PasswordRecoveryRequest : Type 0 where
  pub email : String
  pub callback_uri : String

pub record PasswordResetRequest : Type 0 where
  pub token : String
  pub password : String

pub record LoginResponse : Type 0 where
  pub token : String
  pub refresh_token : String

-- `LoginResponse::from`
abbrev pub from_tokens : AuthenticationTokens → LoginResponse
from_tokens tokens = record { token = tokens.token; refresh_token = tokens.refresh_token }

module _ (crypto : Crypto) (uuid : UuidText) (service : AuthService) where
  unfoldable pub login : DateTime → LoginRequest → Eff Error (Response LoginResponse MetaData)
  login now payload = do
    tokens ← Service.login crypto uuid service now payload.email payload.password
    ret (of_data (from_tokens tokens))

  unfoldable pub refresh_token :
      DateTime → RefreshRequest → Eff Error (Response LoginResponse MetaData)
  refresh_token now payload = do
    tokens ← Service.refresh_token crypto uuid service now payload.token
    ret (of_data (from_tokens tokens))

  unfoldable pub password_recovery :
      DateTime → List ℕ → PasswordRecoveryRequest → Eff Error (Response String MetaData)
  password_recovery now random payload = do
    Service.password_recovery crypto uuid service now random payload.email payload.callback_uri
    ret (of_data "password recovery email sent")

  unfoldable pub password_reset :
      DateTime → String → PasswordResetRequest → Eff Error (Response String MetaData)
  password_reset now salt payload = do
    Service.reset_password crypto uuid service now salt payload.token payload.password
    ret (of_data "password has been changed")
