-- ===== src/Tests/Accounts.antt =====
-- Examples on users: listing, updating and deleting them.
use api_starter.Base.{String, ◌≡◌, refl, true, false, ◌||◌, none, some, [], ◌∷◌, ok, err}
use api_starter.Base.Int.{pos}
use api_starter.Database.Errors.{database}
use api_starter.Database.Effect.{World, calm}
use api_starter.Iam.{UpdateUser, CreateUser, UserService, no_update}
use api_starter.Iam.Sql.{email, count_statement, index_statement, update_statement}
use api_starter.Iam.Users.{Listing, postgres_users}
use api_starter.Iam.Service
use api_starter.Iam.Service.{user_service}
use api_starter.Database.Keeps.{FailsClean}
use api_starter.Iam.Atomicity.{services-FailsClean, postgres_users-Transactional}
use api_starter.Iam.Rows.{taken, refers}
use api_starter.Iam.Creating.{create_lem, row_of, id_there, with_row, with_grants}
use api_starter.Iam.Injection.{IsFixed, statements-IsFixed}
use api_starter.Iam.Updates.{SoftDeletes, delete-SoftDeletes}
use api_starter.Errdef.{unprocessable, invalid, add_violation}
use api_starter.Pagination.{ListRequest, default_request}
use api_starter.Tests.Fixtures.{crypto, seeds, tables}

abbrev pub listing : Listing
listing = record { count = λ pushes t. ok (pos 0); rows = λ pushes t. ok [] }

abbrev pub report : String → String
report code = code

-- The commit, the fifth call, fails.
abbrev failing : World
failing = record {
  tables = seeds;
  sent = [];
  calls = none ∷ none ∷ none ∷ none ∷ some (database none none "connection reset") ∷ [];
}

abbrev pub new_user : CreateUser
new_user = record {
  user_name = "new";
  avatar_id = "";
  email = "new@example.com";
  password = "Passw0rd!";
  first_name = "New";
  last_name = "User";
  status = pos 1;
  department_id = pos 1;
  roles = "Staff" ∷ [];
}

-- An update by which a user tries to become an administrator.
abbrev greedy : UpdateUser
greedy = record no_update {
  first_name = some "Ada";
  email = some "other@example.com";
  password = some "Passw0rd!";
  add_roles = some ("Admin" ∷ []);
}

services-FailsClean_example :
    FailsClean (Service.create tables crypto (postgres_users report listing) 3 "salt" new_user)
    × FailsClean
        (Service.partial_update tables crypto (postgres_users report listing) "salt" 2 greedy)
    × FailsClean (Service.delete tables crypto (postgres_users report listing) 2)
services-FailsClean_example =
    services-FailsClean tables crypto (postgres_users report listing)
      (postgres_users-Transactional report listing) 3 2 "salt" new_user greedy

abbrev service : UserService
service = user_service tables crypto (postgres_users report listing)

delete-SoftDeletes_example : SoftDeletes 1 seeds (service.delete 1 failing).1.tables
delete-SoftDeletes_example = delete-SoftDeletes tables crypto report listing 1 failing

abbrev hostile : ListRequest
hostile = record default_request {
  sort_by = "u.password; DROP TABLE iam.users";
  filters = ("role", "' OR TRUE --") ∷ [];
}

statements-IsFixed_example :
    IsFixed (count_statement hostile)
    × IsFixed (index_statement hostile)
    × IsFixed (update_statement 1 (email "' OR TRUE --" ∷ []))
statements-IsFixed_example = statements-IsFixed hostile 1 (email "' OR TRUE --" ∷ [])

create_lem_example :
    let row = row_of 3 "Passw0rd!" new_user in
    let created = service.create 3 "salt" new_user (calm seeds []) in
    ((id_there 3 seeds || taken row seeds.users) ≡ true
      → created ≡ (err (unprocessable "username or email is already taken"), calm seeds []))
    × ((id_there 3 seeds || taken row seeds.users) ≡ false
        → refers row seeds ≡ false
        → created ≡ (
          err (
              add_violation
                (invalid "invalid payload fields")
                "department_id"
                "invalid department id provided"),
          calm seeds [],
        ))
    × ((id_there 3 seeds || taken row seeds.users) ≡ false
        → refers row seeds ≡ true
        → created ≡ (ok 3, calm (with_grants 3 ("Staff" ∷ []) (with_row row seeds)) []))
create_lem_example =
    create_lem tables crypto report listing seeds [] 3 "salt" "Passw0rd!" new_user refl
