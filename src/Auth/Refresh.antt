-- ===== src/Auth/Refresh.antt =====
-- Trading a refresh token for a new pair, over the tables.
use api_starter.Base.{
  ℕ, String, ◌+◌, ◌/◌, ◌≡◌, refl, none, some, List, ok, err, Option-cases, inl, inr,
}
use api_starter.Base.Int.{ℤ, pos, ◌≤ℤ◌}
use api_starter.Base.Clock.{timestamp, nanos}
use api_starter.Database.{Uuid, DateTime, Tables}
use api_starter.Database.Effect.{Mail, calm}
use api_starter.Errdef.{unauthorized}
use api_starter.External.{Crypto, UuidText, JsonWebToken, Signs, Parses}
use api_starter.Jwt.{TokenGenerator, HmacTokenGenerator, hmac_generator}
use api_starter.Auth.{Identity, AuthenticationTokens, Emailer}
use api_starter.Auth.Postgres.{postgres_store, over_tables}
use api_starter.Auth.Reads.{by_id, identity, find_user_by_id_lem}
use api_starter.Auth.Service.{
  AuthService, hmac_service, generate_tokens, user_id_from, require_user_by_id, refresh_token,
  invalid_refresh_token,
}
use api_starter.Auth.Tokens.{user_id_from-generate_tokens}

module _ (crypto : Crypto) (uuid : UuidText) (jwt : TokenGenerator) (mailer : Emailer)
    (token_ttl refresh_token_ttl : ℤ) (t : Tables) (sent : List Mail) where
  abbrev self : AuthService
  self = over_tables jwt mailer token_ttl refresh_token_ttl

  -- A refresh with a token that names a user, where no call fails.
  refresh_token_named :
      (now : DateTime) (token : String) (id : Uuid)
      → user_id_from crypto uuid self now token ≡ ok id
      → refresh_token crypto uuid self now token (calm t sent) ≡ (
        elim (by_id id t) [
          | none ↦ err (unauthorized invalid_refresh_token)
          | some u ↦ generate_tokens crypto uuid self now (identity t u)
        ],
        calm t sent,
      )
  unfolding refresh_token require_user_by_id postgres_store
  refresh_token_named now token id named = elim (Option-cases (by_id id t)) [
    | inl e ↦ rw named (rw (find_user_by_id_lem t sent id) (rw e refl))
    | inr (u, e) ↦ rw named (rw (find_user_by_id_lem t sent id) (rw e refl))
  ]

module _ (crypto : Crypto) (uuid : UuidText) (parses : Parses uuid) (j : JsonWebToken)
    (lawful : Signs j) (g : HmacTokenGenerator) (mailer : Emailer) (token_ttl refresh_token_ttl : ℕ)
    (t : Tables) (sent : List Mail) where
  abbrev service : AuthService
  service = hmac_service j g postgres_store mailer (pos token_ttl) (pos refresh_token_ttl)

  -- Where no call fails, a refresh token that was issued to a user gives, up to its lifetime, a pair
  -- of tokens for the user with that id as the tables have it now, with the roles of now, and
  -- `unauthorized` if no user has that id any more; the tables stay as they are.
  pub refresh_token-generate_tokens :
      (issued_at : ℕ) (user : Identity) (pair : AuthenticationTokens) (later : DateTime)
      → generate_tokens crypto uuid service (pos issued_at) user ≡ ok pair
      → timestamp later ≤ℤ pos (issued_at / nanos + refresh_token_ttl)
      → refresh_token crypto uuid service later pair.refresh_token (calm t sent) ≡ (
        elim (by_id user.id t) [
          | none ↦ err (unauthorized invalid_refresh_token)
          | some u ↦ generate_tokens crypto uuid service later (identity t u)
        ],
        calm t sent,
      )
  refresh_token-generate_tokens issued_at user pair later issued soon =
      let named =
        user_id_from-generate_tokens crypto uuid parses j lawful g postgres_store mailer token_ttl
          refresh_token_ttl issued_at user pair later issued in
      refresh_token_named crypto uuid (hmac_generator j g) mailer (pos token_ttl)
        (pos refresh_token_ttl) t sent later pair.refresh_token user.id (named.1 soon)
