-- ===== src/Tests/Updating.antt =====
-- Examples on what an update writes, and on the login after it.
use api_starter.Base.{◌≡◌, refl, some, [], ◌∷◌, ok}
use api_starter.Base.Chars.{is_ascii_digit, is_whitespace}
use api_starter.Crypto.{hash_password}
use api_starter.Validation.{password_checker}
use api_starter.Base.Int.{pos}
use api_starter.Database.Effect.{calm, query, begin, commit, execute_in}
use api_starter.Iam.{UpdateUser, no_update, has_no_column_changes, id_of}
use api_starter.Iam.Sql.{assignments}
use api_starter.Iam.Rows.{update_row, set_column, set_columns, granted, insert_roles}
use api_starter.Iam.Service
use api_starter.Iam.Service.{user_service}
use api_starter.Iam.Users
use api_starter.Iam.Users.{postgres_users}
use api_starter.Iam.ColumnChanges.{IsWritten, partial_update-IsWritten}
use api_starter.Tests.Accounts.{listing, report}
use api_starter.Tests.Fixtures.{crypto, tables, seeds}
use api_starter.Jwt.{hmac_generator}
use api_starter.Auth.Postgres.{over_tables}
use api_starter.Auth.Reads.{identity}
use api_starter.Auth.Service.{login, generate_tokens}
use api_starter.Iam.Columns.{written}
use api_starter.Iam.Hashing.{hashed}
use api_starter.State.NewPassword.{login-partial_update}
use api_starter.Tests.Fixtures.{crypto-Verifies, uuid, jwt, key, mailer, staff}
use api_starter.Tests.Lifetime.{seeds-WellFormed}
use api_starter.Tests.Sessions.{second_1000}

-- A new name, status and password, and a role.
abbrev renamed : UpdateUser
renamed = record no_update {
  first_name = some "Ada";
  status = some "Deleted";
  password = some "N3wP@ssword";
  add_roles = some ("Staff" ∷ []);
}

succeeds :
    ((user_service tables crypto (postgres_users report listing)).partial_update "salt" 2 renamed
      (calm seeds [])).0
    ≡ ok tt
unfolding user_service Service.partial_update Service.require_user postgres_users query
    Service.hash_update password_checker is_ascii_digit is_whitespace hash_password begin
    Users.partial_update has_no_column_changes assignments id_of execute_in update_row set_column
    set_columns Users.find_where Users.hydrate Users.with_roles Users.map_user Users.get_user_roles
    Users.user_roles Users.add_user_roles insert_roles granted commit
succeeds = refl

partial_update-IsWritten_example :
    IsWritten tables crypto "salt" 2 renamed seeds
      ((user_service tables crypto (postgres_users report listing)).partial_update "salt" 2 renamed
        (calm seeds [])).1.tables
partial_update-IsWritten_example =
    partial_update-IsWritten tables crypto report listing "salt" 2 renamed (calm seeds []) succeeds

login-partial_update_example :
    let after =
      ((user_service tables crypto (postgres_users report listing)).partial_update "salt" 2 renamed
        (calm seeds [])).1.tables in
    let sessions = over_tables (hmac_generator jwt key) mailer (pos 3600) (pos 604800) in
    let row = written (hashed crypto "salt" renamed) staff in
    login crypto uuid sessions (pos second_1000) "staff@example.com" "N3wP@ssword" (calm after [])
    ≡ (generate_tokens crypto uuid sessions (pos second_1000) (identity after row), calm after [])
login-partial_update_example =
    login-partial_update tables crypto uuid (hmac_generator jwt key) mailer (pos 3600) (pos 604800)
      report listing crypto-Verifies "salt" "N3wP@ssword" "N3wP@ssword" 2 renamed staff
      (calm seeds []) (pos second_1000) [] seeds-WellFormed refl refl refl succeeds
