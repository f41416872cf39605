-- ===== src/Tests/Promoting.antt =====
-- Examples on the giving of roles, and on what the documentation says.
use api_starter.Base.{
  String, ◌≡◌, refl, ap, true, false, ◌||◌, some, none, [], ◌∷◌, ok, All, any, List, inl, inr,
  if◌then◌else◌,
}
use mathlib.Core.Option
use api_starter.Base.Int.{pos, int_eq, ◌-ℤ◌}
use api_starter.Base.Clock.{timestamp}
use api_starter.Database.{Tables}
use api_starter.Database.Effect.{calm, query}
use api_starter.Errdef.{unknown, unauthorized}
use api_starter.Errdef.Laws.{code_of}
use api_starter.Errdef.Render.{into_response}
use api_starter.Response.{of_data}
use api_starter.Jwt.{hmac_generator, validate_token}
use api_starter.Base.Dict
use api_starter.Auth.Login.{get_identity_named}
use api_starter.Auth.Reads.{identity}
use api_starter.Auth.Service.{get_identity, user_id_from}
use api_starter.Iam.{User}
use api_starter.Iam.Users
use api_starter.Iam.Users.{postgres_users, map_user, user_roles}
use api_starter.Iam.Service
use api_starter.Iam.Service.{user_service}
use api_starter.Iam.Roles.{HasRoleKeys, with_granted}
use api_starter.Iam.RoleChanges.{RolesAre, once_removed, partial_update-RolesAre}
use api_starter.Rbac.{can}
use api_starter.Rbac.Decisions.{engine, is_super, holds}
use api_starter.Server.Guards.{guarded_app, serve-user_index}
use api_starter.Base.Text.{strip_prefix}
use api_starter.Server.{Request, bearer_token}
use api_starter.Server.Routes.{mounted, mount, Mounted, route_of}
use api_starter.Server.Endpoints.{App, Draws, Answer, success, failure, handle, serve}
use api_starter.Server.Rights.{serve-SameRights}
use api_starter.Iam.SelfService.{SameRights}
use api_starter.Server.Routes
use api_starter.Server.Runs.{Asked, Ordinary, after_all, after_all-SameStanding}
use api_starter.Server.Standing.{SameStanding}
use api_starter.Server.SafeMethods.{over}
use api_starter.Server.Promotion.{
  promotion, over_postgres, users, partial_update-promotion, patch_user-promotes,
}
use api_starter.Server.Documented.{
  documented, documented_codes, describes, is_page, KeepsPromise, documented_lem,
  documented_codes_lem,
}
use api_starter.State.Calls.{auth}
use api_starter.Tests.Accounts.{listing, report}
use api_starter.Tests.Fixtures.{crypto, uuid, jwt, key, mailer, tables, seeds, admin}
use api_starter.Tests.Http.{app, formats}
use api_starter.Tests.Lifetime.{server, quiet}
use api_starter.Tests.Sessions.{second_1000}

-- The seeds, where nobody holds a role.
abbrev plain : Tables
plain = record seeds { user_has_roles = [] }

-- Every body asks for the role Admin, for user 1.
abbrev asking : App String
asking = record app {
  decode = record (app.decode) { update_user = λ text. ok (promotion "Admin") };
}

abbrev at_1000 : Draws
at_1000 = record { now = pos second_1000; random = []; salt = "salt"; fresh = 3 }

abbrev from_user_1 : Request String
from_user_1 = record { authorization = some "Bearer access"; user = none; rest = "" }

-- The route of a user's changes of its own account.
abbrev own_patch : Mounted
own_patch = record {
  path = "/v1/users/my-user";
  method = Routes.patch;
  endpoint = Routes.patch_my_user;
  layers = Routes.authenticate ∷ [];
}

plain_keys : HasRoleKeys plain.roles
plain_keys = ((refl, tt), (tt, tt))

named : user_id_from crypto uuid (auth server) (pos second_1000) "access" ≡ ok 1
unfolding user_id_from timestamp validate_token ◌-ℤ◌ Dict.lookup Dict.remove
named = refl

known :
    get_identity crypto uuid (auth server) (pos second_1000) "access" (calm plain [])
    ≡ (ok (identity plain admin), calm plain [])
known =
    get_identity_named crypto uuid (hmac_generator jwt key) mailer (pos 3600) (pos 604800) plain []
      (pos second_1000) "access" named refl

found :
    (user : User) × ((users report listing asking).find_by_id 1 (calm plain [])
      ≡ (ok user, calm plain []))
unfolding user_service Service.require_user postgres_users Users.find_where Users.hydrate
    Users.with_roles Users.get_user_roles map_user user_roles query
found = (_, refl)

-- A user without any role becomes an administrator.
patch_user-promotes_example :
    let after = calm (with_granted 1 ("Admin" ∷ []) plain) [] in
    (m : Mounted) × (route_of "/v1/users/{user-id}" Routes.patch ≡ some m)
    × (serve (over_postgres report listing asking "Admin") at_1000 m from_user_1 (calm plain [])
        ≡ (Answer.message (success (of_data "successfully update user")), after))
    × ((action : String) → (can (engine "Admin") 1 action after).0 ≡ true)
unfolding bearer_token strip_prefix
patch_user-promotes_example =
    patch_user-promotes report listing asking at_1000 "Admin" plain [] from_user_1 "access"
      (identity plain admin) 1 plain_keys refl refl known refl refl found.1

partial_update-RolesAre_example :
    RolesAre plain
      (once_removed plain 1 (some ("Admin" ∷ [])) none)
      ((users report listing asking).partial_update "salt" 1
        (promotion "Admin")
        (calm plain [])).1.tables
partial_update-RolesAre_example =
    partial_update-RolesAre tables crypto report listing "salt" 1 (promotion "Admin")
      (calm plain []) plain_keys
      (ap (λ r. r.0)
        (partial_update-promotion report listing asking plain [] 1 "salt" "Admin" found.1))

-- A user without any role may not list the users.
serve-user_index_example :
    (m : Mounted) × (route_of "/v1/users" Routes.get ≡ some m)
    × (serve (guarded_app asking "Admin") at_1000 m from_user_1 (calm plain []) ≡ (
        if is_super "Admin" 1 plain || holds "Admin" 1 "Users.View All" plain
        then handle
            (guarded_app asking "Admin")
            at_1000
            Routes.user_index
            (record from_user_1 { user = some (identity plain admin) })
            (calm plain [])
        else (failure (unauthorized "unauthorized action"), calm plain [])))
    × ((into_response {T = Unit {0}} {P = Unit {0}} (unauthorized "unauthorized action")).status
        ≡ 401)
unfolding bearer_token strip_prefix
serve-user_index_example =
    serve-user_index asking "Admin" at_1000 plain [] from_user_1 "access" (identity plain admin)
      refl known

serve-SameRights_example :
    SameRights seeds
      (serve
        (over server asking.decode formats "Admin" "1" "spec" "docs")
        at_1000
        own_patch
        from_user_1
        (calm seeds [])).1.tables
serve-SameRights_example =
    serve-SameRights server quiet asking.decode formats "Admin" "1" "spec" "docs" at_1000 own_patch
      from_user_1 (calm seeds []) refl

-- A change of another user without a token, and one of the own account with one.
abbrev two : List (Asked String)
two =
    (record {
      template = some "/v1/users/{user-id}";
      method = Routes.patch;
      draws = at_1000;
      request = record from_user_1 { authorization = none };
    })
    ∷ (record {
      template = some "/v1/users/my-user";
      method = Routes.patch;
      draws = at_1000;
      request = from_user_1;
    })
    ∷ []

ordinary : All Ordinary two
unfolding route_of mount Routes.iam_routes Routes.user_routes Routes.permission_routes
    Routes.auth_routes Routes.docs_routes Routes.health_routes mounted bearer_token
ordinary = (inl refl, (inr refl, tt))

after_all-SameStanding_example :
    SameStanding seeds
      (after_all
        (over server asking.decode formats "Admin" "1" "spec" "docs")
        two
        (calm seeds [])).tables
after_all-SameStanding_example =
    after_all-SameStanding server quiet asking.decode formats "Admin" "1" "spec" "docs" two
      (calm seeds []) ordinary

documented_lem_example :
    All (λ m. (is_page m || any (describes m) documented) ≡ true) (mounted mount)
    × All (λ o. any (λ m. describes m o) (mounted mount) ≡ true) documented
    × All (KeepsPromise app at_1000) (mounted mount)
documented_lem_example = documented_lem app at_1000

documented_codes_lem_example :
    All
      (λ row.
        code_of (unknown "down") ≡ pos row.0
        → (into_response {T = Unit {0}} {P = Unit {0}} (unknown "down")).status ≡ row.1)
      documented_codes
    × (Option.map
          (λ b. any (λ row. int_eq (pos row.0) b.code) documented_codes)
          (into_response {T = Unit {0}} {P = Unit {0}} (unknown "down")).body.error
        ≡ some false)
documented_codes_lem_example = documented_codes_lem (unknown "down") refl
