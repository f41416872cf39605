-- ===== src/Tests/Unit/Sessions.antt =====
-- The tests of src/package/auth/service.rs, with the store and the mailer that they are made with. The
-- store is without its two logs: where the source asserts that one is empty, the step it logs must not
-- be reached, and nothing has changed. `Utc::now()` is second 1000 and the random token of byte 7.
use api_starter.Base.Decimal.{show_ℤ, show_ℕ}
use api_starter.Base.{
  String, ◌≡◌, ◌==◌, refl, false, not, none, some, Option, List, [], ◌∷◌, ◌++◌, Result, ok, err,
  find, keep, map, nat_eq, length,
}
use api_starter.Base.Clock.{timestamp, add_seconds}
use api_starter.Base.Dict
use api_starter.Base.Int.{ℤ, pos, ◌-ℤ◌}
use api_starter.Database.{DateTime, PasswordResetRow}
use api_starter.Database.Errors.{other}
use api_starter.Database.Effect.{World, ret, lift, calm}
use api_starter.Errdef.{Error, with_cause}
use api_starter.Errdef.Code
use api_starter.Errdef.Laws.{code_of}
use api_starter.Errdef.Render.{to_string}
use api_starter.Crypto.{hash_token, random_token, compare_hash_and_password}
use api_starter.Jwt.{validate_token}
use api_starter.Auth.{Identity, Store, AuthenticationTokens, PasswordReset}
use api_starter.Auth.Service.{
  AuthService, hmac_service, login, refresh_token, get_identity, password_recovery, reset_password,
  generate_tokens, user_id_from, require_user_by_id,
}
use api_starter.Tests.Fixtures.{crypto, uuid, jwt, key, mailer, seeds}
use api_starter.Tests.Sessions.{second_1000, pair, issued}

abbrev with_resets : World → List PasswordResetRow → World
with_resets w resets = record w { tables = record (w.tables) { password_resets = resets } }

abbrev of_row : PasswordResetRow → PasswordReset
of_row r = record { email = r.email; token = r.token; created_at = r.created_at }

-- A search, as `find(…).cloned()`.
abbrev found_reset : Option PasswordResetRow → Option PasswordReset
found_reset none = none
found_reset (some r) = some (of_row r)

-- `FakeStore`: the users that it is given, and the resets.
abbrev fake_store : List Identity → Store
fake_store users = record {
  find_user_by_id = λ user_id. ret (find (λ u. nat_eq u.id user_id) users);
  find_user_by_email = λ address. ret (find (λ u. u.email == address) users);
  create_password_reset = λ now address token w. (
    ok tt,
    with_resets w (
        w.tables.password_resets
        ++ (record { email = address; token = token; created_at = now } ∷ [])),
  );
  reset_password = λ address new_password. lift (err (other "unreachable"));
  find_password_by_token =
      λ token w. (ok (found_reset (find (λ r. r.token == token) w.tables.password_resets)), w);
  delete_password_reset = λ address w.
      (ok tt, with_resets w (keep (λ r. not (r.email == address)) w.tables.password_resets));
}

abbrev a_user : Identity
a_user = record {
  id = 1;
  email = "admin@example.com";
  user_name = "admin";
  password = "Passw0rd!";
  roles = "Admin" ∷ [];
}

abbrev service_with : Store → AuthService
service_with store = hmac_service jwt key store mailer (pos 3600) (pos 604800)

abbrev service : AuthService
service = service_with (fake_store (a_user ∷ []))

abbrev now : DateTime
now = pos second_1000

-- No reset is pending.
abbrev quiet : World
quiet = with_resets (calm seeds []) []

abbrev pending : DateTime → String → World
pending created_at token =
    with_resets quiet (record { email = a_user.email; token = token; created_at = created_at } ∷ [])

-- `expect_err` with a code, where nothing is left behind.
abbrev FailsWith : {A : Type 0} → ℤ → World → Result Error A × World → Type 0
FailsWith code w out = (e : Error) × (out ≡ (err e, w)) × (code_of e ≡ code)

abbrev LoginReturnsATokenPair : Type 0
LoginReturnsATokenPair =
    (login crypto uuid service now "admin@example.com" "Passw0rd!" quiet).0 ≡ ok pair

login_returns_a_token_pair : LoginReturnsATokenPair
unfolding login compare_hash_and_password generate_tokens
login_returns_a_token_pair = issued

abbrev LoginRejectsAWrongPassword : Type 0
LoginRejectsAWrongPassword =
    (e : Error) × ((login crypto uuid service now "admin@example.com" "not the password" quiet).0
      ≡ err e)
    × (code_of e ≡ Code.unauthorized)
    × (to_string e ≡ "code 1002: invalid username or password")

login_rejects_a_wrong_password : LoginRejectsAWrongPassword
unfolding login compare_hash_and_password to_string show_ℤ
login_rejects_a_wrong_password = (_, refl, refl, refl)

abbrev LoginDoesNotRevealWhetherTheEmailExists : Type 0
LoginDoesNotRevealWhetherTheEmailExists =
    (unknown : Error) × (wrong_password : Error) × ((login crypto uuid service now
        "nobody@example.com" "Passw0rd!" quiet).0
      ≡ err unknown)
    × ((login crypto uuid service now "admin@example.com" "wrong" quiet).0 ≡ err wrong_password)
    × (to_string unknown ≡ to_string wrong_password)

login_does_not_reveal_whether_the_email_exists : LoginDoesNotRevealWhetherTheEmailExists
unfolding login compare_hash_and_password
login_does_not_reveal_whether_the_email_exists = (_, _, refl, refl, refl)

abbrev RefreshIssuesANewPair : Type 0
RefreshIssuesANewPair =
    (refreshed : AuthenticationTokens) × ((refresh_token crypto uuid service now pair.refresh_token
        quiet).0
      ≡ ok refreshed)
    × ((refreshed.token == "") ≡ false)
    × ((refreshed.refresh_token == "") ≡ false)

refresh_issues_a_new_pair : RefreshIssuesANewPair
unfolding refresh_token user_id_from validate_token ◌-ℤ◌ timestamp Dict.lookup Dict.remove
    require_user_by_id generate_tokens
refresh_issues_a_new_pair = (pair, issued, refl, refl)

abbrev RefreshRejectsAMalformedToken : Type 0
RefreshRejectsAMalformedToken =
    FailsWith Code.unauthorized quiet (refresh_token crypto uuid service now "not.a.token" quiet)

refresh_rejects_a_malformed_token : RefreshRejectsAMalformedToken
unfolding refresh_token user_id_from validate_token with_cause
refresh_rejects_a_malformed_token = (_, refl, refl)

-- The token names a user that the store does not have.
abbrev RefreshRejectsATokenForADeletedUser : Type 0
RefreshRejectsATokenForADeletedUser = FailsWith Code.unauthorized quiet (
    refresh_token crypto uuid (service_with (fake_store (record a_user { id = 2 } ∷ []))) now
      "refresh" quiet)

refresh_rejects_a_token_for_a_deleted_user : RefreshRejectsATokenForADeletedUser
unfolding refresh_token user_id_from validate_token ◌-ℤ◌ timestamp Dict.lookup Dict.remove
    require_user_by_id
refresh_rejects_a_token_for_a_deleted_user = (_, refl, refl)

abbrev GetIdentityResolvesTheUserBehindAToken : Type 0
GetIdentityResolvesTheUserBehindAToken =
    (get_identity crypto uuid service now pair.token quiet).0 ≡ ok a_user

get_identity_resolves_the_user_behind_a_token : GetIdentityResolvesTheUserBehindAToken
unfolding get_identity user_id_from validate_token ◌-ℤ◌ timestamp Dict.lookup Dict.remove
    require_user_by_id
get_identity_resolves_the_user_behind_a_token = refl

abbrev raw_token : String
raw_token = random_token crypto (7 ∷ [])

abbrev recovered : Result Error (Unit {0}) × World
recovered =
    password_recovery crypto uuid service now (7 ∷ []) "admin@example.com"
      "https://example.com/reset?token=" quiet

abbrev PasswordRecoveryStoresADigestAndMailsTheRawToken : Type 0
PasswordRecoveryStoresADigestAndMailsTheRawToken =
    (recovered.0 ≡ ok tt)
    × (recovered.1.sent
        ≡ record {
          to = "admin@example.com";
          subject = "Password Recovery";
          template = "password-reset";
          values =
              ("username", "admin") ∷ ("callbackURI", "https://example.com/reset?token=7") ∷ [];
        }
          ∷ [])
    × (raw_token ≡ "7")
    × (map (λ r. r.token) recovered.1.tables.password_resets ≡ hash_token crypto raw_token ∷ [])
    × ((hash_token crypto raw_token == raw_token) ≡ false)

password_recovery_stores_a_digest_and_mails_the_raw_token :
    PasswordRecoveryStoresADigestAndMailsTheRawToken
unfolding password_recovery random_token show_ℕ hash_token
password_recovery_stores_a_digest_and_mails_the_raw_token = (refl, refl, refl, refl, refl)

-- One reset is left.
abbrev PasswordRecoveryClearsAPreviousRequest : Type 0
PasswordRecoveryClearsAPreviousRequest =
    let after =
      (password_recovery crypto uuid service now (7 ∷ []) "admin@example.com"
        "https://example.com/reset?token=" (pending now "stale")) in
    (after.0 ≡ ok tt) × (length after.1.tables.password_resets ≡ 1)

password_recovery_clears_a_previous_request : PasswordRecoveryClearsAPreviousRequest
unfolding password_recovery
password_recovery_clears_a_previous_request = (refl, refl)

abbrev PasswordRecoveryReportsAnUnknownAddress : Type 0
PasswordRecoveryReportsAnUnknownAddress = FailsWith Code.not_found quiet (
    password_recovery crypto uuid service now (7 ∷ []) "nobody@example.com" "https://example.com/"
      quiet)

password_recovery_reports_an_unknown_address : PasswordRecoveryReportsAnUnknownAddress
unfolding password_recovery
password_recovery_reports_an_unknown_address = (_, refl, refl)

-- Sixteen minutes before.
abbrev ResetPasswordRejectsAnExpiredToken : Type 0
ResetPasswordRejectsAnExpiredToken =
    let stale = pending (pos 40000000000) (hash_token crypto "raw-token") in
    FailsWith Code.bad_request stale
      (reset_password crypto uuid service now "salt" "raw-token" "N3wP@ssword" stale)

reset_password_rejects_an_expired_token : ResetPasswordRejectsAnExpiredToken
unfolding reset_password hash_token show_ℕ add_seconds
reset_password_rejects_an_expired_token = (_, refl, refl)

abbrev ResetPasswordRejectsAnUnknownToken : Type 0
ResetPasswordRejectsAnUnknownToken =
    FailsWith Code.bad_request quiet
      (reset_password crypto uuid service now "salt" "never-issued" "N3wP@ssword" quiet)

reset_password_rejects_an_unknown_token : ResetPasswordRejectsAnUnknownToken
unfolding reset_password
reset_password_rejects_an_unknown_token = (_, refl, refl)
