-- ===== src/Server/Promotion.antt =====
-- src/module/iam/mod.rs mounts `patch` of users behind `authenticate` alone: whom it lets give roles.
use api_starter.Base.{
  or_true, String, ◌≡◌, refl, ap, ◌∙◌, inl, inr, Bool, true, false, ◌||◌, ◌&&◌, some, List, [], ◌∷◌,
  any, find, arith, nat_eq, nat_eq_refl, ok, Option-cases, Bool-cases, any-map, any-keep, eq_refl,
  is_empty,
}
use api_starter.Database.{Uuid, Tables}
use api_starter.Database.Effect.{Mail, calm, begin, commit, execute_in, query}
use api_starter.Database.Outcomes.{no_ok}
use api_starter.Response.{of_data}
use api_starter.Auth.{Identity}
use api_starter.Auth.Reads.{by_id}
use api_starter.Auth.Service.{get_identity}
use api_starter.Iam.{User, UpdateUser, UserService, no_update, has_no_column_changes}
use api_starter.Iam.Handlers.{patch}
use api_starter.Iam.Rows.{insert_roles, granted}
use api_starter.Iam.Users.{Listing, postgres_users}
use api_starter.Iam.Users
use api_starter.Iam.Roles.{HasRoleKeys, holds_role, role_named, with_granted, holds_role-granted}
use api_starter.Iam.Service
use api_starter.Iam.Service.{user_service, hash_update}
use api_starter.Rbac.{can}
use api_starter.Rbac.Decisions.{engine, is_super, holds, can_lem}
use api_starter.Extract.{json}
use api_starter.Server.{Request, bearer_token, authenticate}
use api_starter.Server.Routes
use api_starter.Server.Routes.{Mounted, mounted, mount, route_of}
use api_starter.Server.Endpoints.{App, Draws, Answer, success, serve, stack, handle}

-- An update that asks for one role, and nothing else.
abbrev pub promotion : String → UpdateUser
promotion role = record no_update { add_roles = some (role ∷ []) }

-- The route that is mounted for `PATCH /v1/users/{user-id}`.
abbrev patch_route : Mounted
patch_route = record {
  path = "/v1/users/{user-id}";
  method = Routes.patch;
  endpoint = Routes.user_patch;
  layers = Routes.authenticate ∷ [];
}

patch_route-mounted : route_of "/v1/users/{user-id}" Routes.patch ≡ some patch_route
unfolding route_of mount Routes.iam_routes Routes.user_routes Routes.permission_routes
    Routes.auth_routes Routes.docs_routes Routes.health_routes mounted
patch_route-mounted = refl

find-any : {A : Type 0} (p : A → Bool) (xs : List A) {x : A} → find p xs ≡ some x → any p xs ≡ true
find-any p [] h = absurd (ground arith)
find-any p (y ∷ xs) h = elim (Bool-cases (p y)) [
  | inl e ↦ rw e refl
  | inr e ↦ rw e (find-any p xs (rw e at h))
]

-- The engine's super role is a role that is held.
is_super-holds_role :
    (super_role : String) (id : Uuid) (t : Tables)
    → is_super super_role id t ≡ holds_role id super_role t
is_super-holds_role super_role id t = simp (any-map, any-keep)

or_left : (p q : Bool) → p ≡ true → (p || q) ≡ true
or_left p q h = ground arith

held_now :
    (held : Bool) {named mine same : Bool}
    → named ≡ true
    → mine ≡ true
    → same ≡ true
    → (held || (named && (mine && (same || false)))) ≡ true
held_now held a b c = ground arith

-- Roles can be given to a user that is there.
insert_roles_there :
    (report : String → String) (id : Uuid) (names : List String) (t : Tables)
    → any (λ u. nat_eq u.id id) t.users ≡ true
    → insert_roles report id names t ≡ ok (with_granted id names t)
unfolding insert_roles
insert_roles_there report id names t there =
    rw (there, or_true (is_empty (granted id names t))) refl

module _ (report : String → String) (listing : Listing) {B : Type 0} (app : App B) where
  abbrev pub users : UserService
  users = user_service app.tables app.crypto (postgres_users report listing)

  -- A user that is found has a row.
  row_of_found :
      (t : Tables) (sent : List Mail) (id : Uuid) {user : User}
      → users.find_by_id id (calm t sent) ≡ (ok user, calm t sent)
      → any (λ u. nat_eq u.id id) t.users ≡ true
  unfolding user_service Service.require_user postgres_users Users.find_where Users.hydrate query
  row_of_found t sent id found = elim (Option-cases (by_id id t)) [
    | inl e ↦ absurd (no_ok (rw e at (ap (λ r. r.0) found)))
    | inr (u, e) ↦ find-any (λ u. nat_eq u.id id) t.users e
  ]

  -- The update, where no call fails.
  pub partial_update-promotion :
      (t : Tables) (sent : List Mail) (id : Uuid) (salt role : String) {user : User}
      → users.find_by_id id (calm t sent) ≡ (ok user, calm t sent)
      → users.partial_update salt id (promotion role) (calm t sent)
        ≡ (ok tt, calm (with_granted id (role ∷ []) t) sent)
  unfolding user_service Service.partial_update postgres_users hash_update begin commit
      Users.partial_update Users.add_user_roles execute_in has_no_column_changes
  partial_update-promotion t sent id salt role found = rw (found) (
      rw
        (
          insert_roles_there report id (role ∷ []) t (row_of_found t sent id found),
          Users.add_user_roles,
        )
        refl)

  -- The server over the tables, whose engine has a super role.
  abbrev pub over_postgres : String → App B
  over_postgres super_role = record app { users = users; rbac = engine super_role }

  -- Where no call fails and no two roles have one id: the server has a route for
  -- `PATCH /v1/users/{user-id}`, and whoever has a token that names a user gives the super role, if
  -- there is such a role, to any user that is found, by one update of that user over this route. The
  -- answer is a success, nothing but the grant changes, and the engine then allows that user every
  -- action.
  pub patch_user-promotes :
      (draws : Draws) (super_role : String) (t : Tables) (sent : List Mail) (q : Request B)
      (token : String) (caller : Identity) (id : Uuid) {user : User}
      → HasRoleKeys t.roles
      → role_named super_role t ≡ true
      → bearer_token q ≡ some token
      → get_identity app.crypto app.uuid app.auth draws.now token (calm t sent)
        ≡ (ok caller, calm t sent)
      → app.decode.user_id q.rest ≡ ok id
      → app.decode.update_user q.rest ≡ ok (promotion super_role)
      → users.find_by_id id (calm t sent) ≡ (ok user, calm t sent)
      → let after = calm (with_granted id (super_role ∷ []) t) sent in
        (m : Mounted) × (route_of "/v1/users/{user-id}" Routes.patch ≡ some m)
        × (serve (over_postgres super_role) draws m q (calm t sent)
            ≡ (Answer.message (success (of_data "successfully update user")), after))
        × ((action : String) → (can (engine super_role) id action after).0 ≡ true)
  unfolding serve stack handle authenticate json patch
  patch_user-promotes draws super_role t sent q token caller id keys there bearer known named asked
        found =
      (
        patch_route,
        patch_route-mounted,
        rw
            (
              bearer,
              known,
              named,
              asked,
              partial_update-promotion t sent id draws.salt super_role found,
            )
            refl,
        λ action.
            can_lem super_role id action (calm (with_granted id (super_role ∷ []) t) sent) refl
            ∙ or_left (is_super super_role id (with_granted id (super_role ∷ []) t))
                (holds super_role id action (with_granted id (super_role ∷ []) t))
                (is_super-holds_role super_role id (with_granted id (super_role ∷ []) t)
                  ∙ holds_role-granted id (super_role ∷ []) t keys id super_role
                  ∙ held_now (holds_role id super_role t) there (nat_eq_refl id)
                      (eq_refl super_role)),
      )
