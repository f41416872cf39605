-- ===== src/Iam/DeletedUsers.antt =====
-- What becomes of the sessions of users whose status is `Deleted`.
use api_starter.Base.{List, nat_eq, if◌then◌else◌}
use api_starter.Base.Int.{ℤ}
use api_starter.Database.{Uuid, Tables, UserRow}
use api_starter.Database.Effect.{Mail}
use api_starter.External.{Crypto, UuidText}
use api_starter.Jwt.{TokenGenerator}
use api_starter.Auth.{Emailer}
use api_starter.Auth.Postgres.{over_tables}
use api_starter.Auth.Service.{AuthService}
use api_starter.Iam.{deleted_user_status}
use api_starter.Iam.Rows.{set_status}

-- What a deletion makes of a row.
abbrev flag : Uuid → UserRow → UserRow
flag id u = if nat_eq u.id id then set_status deleted_user_status u else u

module _ (crypto : Crypto) (uuid : UuidText) (jwt : TokenGenerator) (mailer : Emailer)
    (token_ttl refresh_token_ttl : ℤ) (t : Tables) (sent : List Mail) where
  abbrev service : AuthService
  service = over_tables jwt mailer token_ttl refresh_token_ttl
