-- ===== src/Auth/Service.antt =====
-- src/package/auth/service.rs. Each operation takes the current time, which the source reads.
use api_starter.Base.{
  ℕ, ◌*◌, String, ◌<>◌, List, [], ◌∷◌, Result, ok, err, map_err, ok_or, and_then, if◌then◌else◌,
}
use api_starter.Base.Int.{ℤ, pos, ltb_ℤ}
use api_starter.Base.Clock.{add_seconds, timestamp}
use api_starter.Base.Json.{as_str, string, array, texts}
use api_starter.Base.Dict
use api_starter.Database.{Uuid, DateTime}
use api_starter.Database.Errors.{SqlError, sql_text}
use api_starter.Database.Effect.{Eff, ◌>>=◌, ◌>>◌, lift, on_error}
use api_starter.Errdef.{Error, unknown, unauthorized, not_found, bad_request, with_cause}
use api_starter.External.{Crypto, UuidText, JsonWebToken}
use api_starter.Crypto.{hash_password, compare_hash_and_password, random_token, hash_token}
use api_starter.Jwt.{Claims, TokenGenerator, JwtError, jwt_text, HmacTokenGenerator, hmac_generator}
use api_starter.Auth.{Identity, AuthenticationTokens, Store, Emailer}

abbrev pub password_reset_ttl_minutes : ℕ
password_reset_ttl_minutes = 15

abbrev pub invalid_credentials : String
invalid_credentials = "invalid username or password"

abbrev pub invalid_refresh_token : String
invalid_refresh_token = "invalid or malformed refresh token"

pub record AuthService : Type 0 where
  pub jwt : TokenGenerator
  pub store : Store
  pub mailer : Emailer
  pub token_ttl : ℤ
  pub refresh_token_ttl : ℤ

-- `Error::unknown` of a database error and of a token error.
abbrev pub sql_unknown : SqlError → Error
sql_unknown e = unknown (sql_text e)

abbrev pub jwt_unknown : JwtError → Error
jwt_unknown e = unknown (jwt_text e)

-- The two tokens, the first failure first.
abbrev pub issue : Result Error String → Result Error String → Result Error AuthenticationTokens
issue (ok token) (ok refresh) = ok (record { token = token; refresh_token = refresh })
issue (ok token) (err e) = err e
issue (err e) other = err e

module _ (uuid : UuidText) where
  abbrev pub access_claims : Identity → Claims
  access_claims user =
      ("user_id", string (uuid.to_text user.id)) ∷ ("roles", array (texts user.roles)) ∷ []

  abbrev pub refresh_claims : Identity → Claims
  refresh_claims user = ("user_id", string (uuid.to_text user.id)) ∷ []

module _ (crypto : Crypto) (uuid : UuidText) (self : AuthService) where
  unfoldable pub generate_tokens : DateTime → Identity → Result Error AuthenticationTokens
  generate_tokens now user =
      issue
        (map_err jwt_unknown (
          self.jwt.generate_token (access_claims uuid user)
            (timestamp (add_seconds now self.token_ttl))))
        (map_err jwt_unknown (
          self.jwt.generate_token (refresh_claims uuid user)
            (timestamp (add_seconds now self.refresh_token_ttl))))

  unfoldable pub user_id_from : DateTime → String → Result Error Uuid
  user_id_from now token = elim (self.jwt.validate_token (timestamp now) token) [
    | err e ↦ err (with_cause (unauthorized invalid_refresh_token) (jwt_text e))
    | ok claims ↦
        ok_or (unauthorized invalid_refresh_token)
          (and_then uuid.parse_str (and_then as_str (Dict.lookup "user_id" claims)))
  ]

  unfoldable pub require_user_by_id : Uuid → Eff Error Identity
  require_user_by_id user_id = do
    found ← on_error sql_unknown (self.store.find_user_by_id user_id)
    lift (ok_or (unauthorized invalid_refresh_token) found)

  -- `Auth::generate_token`
  unfoldable pub login : DateTime → String → String → Eff Error AuthenticationTokens
  login now email password = do
    found ← on_error sql_unknown (self.store.find_user_by_email email)
    user ← lift (ok_or (unauthorized invalid_credentials) found)
    lift (elim (compare_hash_and_password crypto user.password password) [
      | err e ↦ err (unauthorized invalid_credentials)
      | ok _ ↦ generate_tokens now user
    ])

  unfoldable pub refresh_token : DateTime → String → Eff Error AuthenticationTokens
  refresh_token now token = do
    user_id ← lift (user_id_from now token)
    user ← require_user_by_id user_id
    lift (generate_tokens now user)

  unfoldable pub get_identity : DateTime → String → Eff Error Identity
  get_identity now access_token = do
    user_id ← lift (user_id_from now access_token)
    require_user_by_id user_id

  -- `random` are the bytes that `random_token` draws.
  unfoldable pub password_recovery : DateTime → List ℕ → String → String → Eff Error (Unit {0})
  password_recovery now random email callback_uri = do
    found ← on_error sql_unknown (self.store.find_user_by_email email)
    user ← lift (ok_or (not_found "invalid email address") found)
    on_error sql_unknown (self.store.delete_password_reset email)
    let token = random_token crypto random
    on_error sql_unknown (self.store.create_password_reset now email (hash_token crypto token))
    let values = ("username", user.user_name) ∷ ("callbackURI", callback_uri <> token) ∷ []
    on_error unknown (self.mailer.send_html user.email "Password Recovery" "password-reset" values)

  -- `salt` is what `bcrypt::hash` draws.
  unfoldable pub reset_password : DateTime → String → String → String → Eff Error (Unit {0})
  reset_password now salt token new_password = do
    found ← on_error sql_unknown (self.store.find_password_by_token (hash_token crypto token))
    reset ← lift (ok_or (bad_request "invalid or expired token") found)
    lift (
        if ltb_ℤ (add_seconds reset.created_at (pos (password_reset_ttl_minutes * 60))) now
        then err (bad_request "invalid or expired token")
        else ok tt)
    hashed_password ← lift (hash_password crypto salt new_password)
    on_error sql_unknown (self.store.reset_password reset.email hashed_password)
    on_error sql_unknown (self.store.delete_password_reset reset.email)

-- The service over HS256 tokens, as the provider builds it.
abbrev pub hmac_service : JsonWebToken → HmacTokenGenerator → Store → Emailer → ℤ → ℤ → AuthService
hmac_service j g store mailer token_ttl refresh_token_ttl = record {
  jwt = hmac_generator j g;
  store = store;
  mailer = mailer;
  token_ttl = token_ttl;
  refresh_token_ttl = refresh_token_ttl;
}
