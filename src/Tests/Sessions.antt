-- ===== src/Tests/Sessions.antt =====
-- Examples on logging in, tokens and passwords.
use api_starter.Base.{ℕ, String, ◌≡◌, refl, ◌∙◌, ap, false, some, [], ◌∷◌, ok, err, arith, ◌==◌}
use api_starter.Base.Int.{pos}
use api_starter.Base.Clock.{add_seconds, timestamp}
use api_starter.Base.Dict
use api_starter.Base.Decimal.{show_ℕ}
use api_starter.Database.{Tables}
use api_starter.Database.Effect.{calm}
use api_starter.Errdef.{bad_request, not_found}
use api_starter.Crypto.{hash_token}
use api_starter.Jwt.{generate_token, hmac_generator}
use api_starter.Auth.{AuthenticationTokens, Identity}
use api_starter.Auth.Postgres.{postgres_store, identity_of, with_password, role_names}
use api_starter.Auth.Reads.{HasKeys, identity, by_email}
use api_starter.Auth.Service.{
  AuthService, login, password_recovery, reset_password, generate_tokens, user_id_from,
  hmac_service,
}
use api_starter.Auth.Tokens.{user_id_from-generate_tokens}
use api_starter.Base.{none, some}
use api_starter.Database.Effect.{World}
use api_starter.Database.Errors.{other}
use api_starter.Auth.Faults.{Stages, reset_password-Stages}
use api_starter.Auth.Refresh.{refresh_token-generate_tokens}
use api_starter.Auth.Service.{refresh_token}
use api_starter.Auth.Login.{login_lem}
use api_starter.Auth.Recovery.{password_recovery_lem, resets_of}
use api_starter.Auth.Reset.{reset_password_lem, login-reset_password}
use api_starter.Tests.Fixtures.{
  crypto, crypto-Verifies, uuid, uuid-Parses, access, refresh, jwt, jwt-Signs, encode-access,
  encode-refresh, admin, staff, reset_row, seeds, mailer, key,
}

-- Second 1000, in nanoseconds.
abbrev pub second_1000 : ℕ
second_1000 = 1000000000000

generated_access : generate_token jwt key (Dict.remove "exp" access) (pos 4600) ≡ ok "access"
unfolding generate_token Dict.insert Dict.remove
generated_access = rw (encode-access []) refl

generated_refresh : generate_token jwt key (Dict.remove "exp" refresh) (pos 605800) ≡ ok "refresh"
unfolding generate_token Dict.insert Dict.remove
generated_refresh = rw (encode-refresh []) refl

abbrev service : AuthService
service = hmac_service jwt key postgres_store mailer (pos 3600) (pos 604800)

abbrev pub pair : AuthenticationTokens
pair = record { token = "access"; refresh_token = "refresh" }

abbrev admin_identity : Identity
admin_identity = identity_of admin ("Admin" ∷ [])

pub issued : generate_tokens crypto uuid service (pos second_1000) admin_identity ≡ ok pair
unfolding generate_tokens generate_token Dict.insert timestamp add_seconds
issued = rw (encode-access [], encode-refresh []) refl

-- At second 4600 the access token still names its user; a second later only the refresh token does.
user_id_from-generate_tokens_example :
    user_id_from crypto uuid service (pos 4601000000000) "refresh" ≡ ok 1
unfolding timestamp
user_id_from-generate_tokens_example =
    (user_id_from-generate_tokens crypto uuid uuid-Parses jwt jwt-Signs key postgres_store mailer
        3600 604800 second_1000 admin_identity pair (pos 4601000000000) issued).1
      (omega arith)

login_lem_example :
    login crypto uuid service (pos second_1000) "admin@example.com" "Passw0rd!" (calm seeds [])
    ≡ (generate_tokens crypto uuid service (pos second_1000) (identity seeds admin), calm seeds [])
login_lem_example =
    login_lem crypto uuid (hmac_generator jwt key) mailer (pos 3600) (pos 604800) seeds []
      (pos second_1000) "admin@example.com" "Passw0rd!"

seeds-HasKeys : HasKeys seeds.users
seeds-HasKeys = ((λ h. absurd (omega arith), tt), (tt, tt))

pub logged_in :
    login crypto uuid service (pos second_1000) "admin@example.com" "Passw0rd!" (calm seeds [])
    ≡ (ok pair, calm seeds [])
unfolding role_names
logged_in =
    login_lem crypto uuid (hmac_generator jwt key) mailer (pos 3600) (pos 604800) seeds []
      (pos second_1000) "admin@example.com" "Passw0rd!"
    ∙ ap (λ r. (r, calm seeds [])) issued

password_recovery_lem_example :
    password_recovery crypto uuid service
      (pos second_1000)
      []
      "nobody@example.com"
      "https://example.com/"
      (calm seeds [])
    ≡ (err (not_found "invalid email address"), calm seeds [])
password_recovery_lem_example =
    (password_recovery_lem crypto uuid (hmac_generator jwt key) mailer (pos 3600) (pos 604800) seeds
        [] (pos second_1000) [] "nobody@example.com" "https://example.com/").0
      refl

reset_password_lem_example :
    reset_password crypto uuid service (pos 1901000000000) "salt" "t" "N3w-pass!" (calm seeds [])
    ≡ (err (bad_request "invalid or expired token"), calm seeds [])
unfolding hash_token add_seconds show_ℕ
reset_password_lem_example =
    reset_password_lem crypto uuid (hmac_generator jwt key) mailer (pos 3600) (pos 604800) seeds []
      (pos 1901000000000) "salt" "t" "N3w-pass!"

login-reset_password_example :
    (after : Tables) × (reset_password crypto uuid service
        (pos second_1000)
        "salt"
        "t"
        "N3w-pass!"
        (calm seeds [])
      ≡ (ok tt, calm after []))
    × (login crypto uuid service (pos second_1000) "staff@example.com" "N3w-pass!" (calm after [])
        ≡ (
          generate_tokens crypto uuid service
              (pos second_1000)
              (identity after (with_password "N3w-pass!" staff)),
          calm after [],
        ))
    × (resets_of "staff@example.com" after.password_resets ≡ [])
    × ((other : String)
        → ("staff@example.com" == other) ≡ false
        → by_email other after ≡ by_email other seeds)
unfolding hash_token add_seconds show_ℕ
login-reset_password_example =
    login-reset_password crypto uuid (hmac_generator jwt key) mailer (pos 3600) (pos 604800) seeds
      [] crypto-Verifies (pos second_1000) (pos second_1000) "salt" "t" "N3w-pass!" "N3w-pass!"
      reset_row staff refl refl refl refl

-- The removal of the reset, the third call, fails.
abbrev third_call_fails : World
third_call_fails = record (calm seeds []) {
  calls = none ∷ none ∷ some (other "connection reset") ∷ [];
}

reset_password-Stages_example :
    Stages crypto
      (pos second_1000)
      "salt"
      "t"
      "N3w-pass!"
      seeds
      (reset_password crypto uuid service
        (pos second_1000)
        "salt"
        "t"
        "N3w-pass!"
        third_call_fails).1.tables
reset_password-Stages_example =
    reset_password-Stages crypto uuid (hmac_generator jwt key) mailer (pos 3600) (pos 604800)
      (pos second_1000) "salt" "t" "N3w-pass!" third_call_fails

refresh_token-generate_tokens_example :
    refresh_token crypto uuid service (pos 4601000000000) "refresh" (calm seeds []) ≡ (
      generate_tokens crypto uuid service (pos 4601000000000) (identity seeds admin),
      calm seeds [],
    )
unfolding timestamp
refresh_token-generate_tokens_example =
    refresh_token-generate_tokens crypto uuid uuid-Parses jwt jwt-Signs key mailer 3600 604800 seeds
      [] second_1000 admin_identity pair (pos 4601000000000) issued (omega arith)
