-- ===== src/Tests/Lifetime.antt =====
-- Examples on what sequences of calls reach, and on regaining an account.
use api_starter.Base.{◌≡◌, refl, some, [], ◌∷◌, ok, arith}
use api_starter.Base.Int.{pos}
use api_starter.Base.Clock.{timestamp, add_seconds}
use api_starter.Database.{UserRow, Tables}
use api_starter.Database.Effect.{calm}
use api_starter.Crypto.{random_token}
use api_starter.Jwt.{hmac_generator}
use api_starter.Auth.Postgres.{over_tables, with_password}
use api_starter.Auth.Reads.{by_id, by_email, identity}
use api_starter.Auth.Service.{
  password_recovery, reset_password, login, generate_tokens, get_identity,
}
use api_starter.Auth.Regain.{Delivers, regain_lem, recovery_mail}
use api_starter.Iam.Creating.{row_of, with_row, with_grants, login-create}
use api_starter.Iam.Service.{user_service}
use api_starter.Iam.Users.{postgres_users}
use api_starter.State.Accounts.{LeavesTables}
use api_starter.State.Keys.{WellFormed, unequal}
use api_starter.State.Calls.{
  Services, create, delete, Reach, here, next, left, Reach-WellFormed, auth,
}
use api_starter.State.History.{Extends, Reach-Extends, account}
use api_starter.State.Sessions.{hmac_services, login-Reach}
use api_starter.Tests.Accounts.{listing, report, new_user}
use api_starter.Tests.Sessions.{second_1000, pair, logged_in}
use api_starter.Tests.Fixtures.{
  crypto, crypto-Verifies, uuid, uuid-Parses, jwt, jwt-Signs, staff, seeds, mailer, key, tables,
}

abbrev pub server : Services
server = hmac_services tables crypto uuid jwt key mailer 3600 604800 report listing

pub quiet : LeavesTables mailer
quiet = record { sends = λ to subject template values. record { kept = λ w. refl } }

pub seeds-WellFormed : WellFormed seeds
seeds-WellFormed = record {
  users = (
    (
      record {
        ids = λ e. absurd (omega arith);
        names = unequal "admin" "staff" refl;
        addresses = unequal "admin@example.com" "staff@example.com" refl;
      },
      tt,
    ),
    (tt, tt),
  );
  refer = (refl, (refl, tt));
  holders = (refl, tt);
  held = (refl, tt);
  roles = ((refl, tt), (tt, tt));
  grants = (tt, tt);
}

-- A user is created, and the administrator is deleted.
abbrev after_creation : Tables
after_creation = left server (pos second_1000) (create 3 "salt" new_user) (calm seeds [])

reached : Reach server seeds (left server (pos second_1000) (delete 1) (calm after_creation []))
reached =
    next (calm after_creation []) (pos second_1000) (delete 1)
      (next (calm seeds []) (pos second_1000) (create 3 "salt" new_user) here)

Reach-WellFormed_example :
    WellFormed (left server (pos second_1000) (delete 1) (calm after_creation []))
Reach-WellFormed_example = Reach-WellFormed server quiet seeds-WellFormed reached

Reach-Extends_example :
    Extends seeds (left server (pos second_1000) (delete 1) (calm after_creation []))
Reach-Extends_example = Reach-Extends server quiet reached

-- The token of a deleted administrator still names the account.
login-Reach_example :
    let t = left server (pos second_1000) (delete 1) (calm after_creation []) in
    (u : UserRow) × (now : UserRow) × (by_email "admin@example.com" seeds ≡ some u)
    × (account now ≡ account u)
    × (by_id u.id t ≡ some now)
    × (get_identity crypto uuid (auth server) (pos second_1000) pair.token (calm t [])
        ≡ (ok (identity t now), calm t []))
unfolding timestamp
login-Reach_example =
    login-Reach tables crypto uuid uuid-Parses jwt jwt-Signs key mailer quiet 3600 604800 report
      listing seeds (left server (pos second_1000) (delete 1) (calm after_creation [])) [] []
      second_1000 "admin@example.com" "Passw0rd!" pair (calm seeds []) (pos second_1000)
      seeds-WellFormed logged_in reached (omega arith)

delivers : Delivers mailer
delivers = record { delivered = λ to subject template values t sent. refl }

regain_lem_example :
    let service = over_tables (hmac_generator jwt key) mailer (pos 3600) (pos 604800) in
    let mailed = recovery_mail crypto (7 ∷ []) "https://example.com/" staff ∷ [] in
    (asked : Tables) × (after : Tables) × (password_recovery crypto uuid service
        (pos second_1000)
        (7 ∷ [])
        "staff@example.com"
        "https://example.com/"
        (calm seeds [])
      ≡ (ok tt, calm asked mailed))
    × (reset_password crypto uuid service
          (pos second_1000)
          "salt"
          (random_token crypto (7 ∷ []))
          "N3w-pass!"
          (calm asked mailed)
        ≡ (ok tt, calm after mailed))
    × (login crypto uuid service
          (pos second_1000)
          "staff@example.com"
          "N3w-pass!"
          (calm after mailed)
        ≡ (
          generate_tokens crypto uuid service
              (pos second_1000)
              (identity after (with_password "N3w-pass!" staff)),
          calm after mailed,
        ))
unfolding add_seconds
regain_lem_example =
    regain_lem crypto uuid (hmac_generator jwt key) mailer (pos 3600) (pos 604800) seeds []
      crypto-Verifies delivers (pos second_1000) (pos second_1000) (pos second_1000) (7 ∷ [])
      "staff@example.com" "https://example.com/" "salt" "N3w-pass!" "N3w-pass!" staff refl refl refl
      refl

-- A created user signs in.
login-create_example :
    let after = with_grants 3 ("Staff" ∷ []) (with_row (row_of 3 "Passw0rd!" new_user) seeds) in
    let service = user_service tables crypto (postgres_users report listing) in
    let sessions = over_tables (hmac_generator jwt key) mailer (pos 3600) (pos 604800) in
    (service.create 3 "salt" new_user (calm seeds []) ≡ (ok 3, calm after []))
    × (login crypto uuid sessions (pos second_1000) "new@example.com" "Passw0rd!" (calm after [])
        ≡ (
          generate_tokens crypto uuid sessions
              (pos second_1000)
              (identity after (row_of 3 "Passw0rd!" new_user)),
          calm after [],
        ))
login-create_example =
    login-create tables crypto uuid (hmac_generator jwt key) mailer (pos 3600) (pos 604800) report
      listing crypto-Verifies (pos second_1000) seeds [] 3 "salt" "Passw0rd!" new_user refl refl
      refl
