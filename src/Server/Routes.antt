-- ===== src/Server/Routes.antt =====
-- The routes of src/module/health/mod.rs, src/server/docs.rs, src/module/auth/mod.rs and
-- src/module/iam/mod.rs, as the calls that they make on Axum's `Router`, and src/server/mount.rs.
use api_starter.Base.{String, List, [], ◌∷◌, ◌++◌, map, Bool, true, false, ◌&&◌, ◌==◌, Option, find}

pub data Method : Type 0 where
  get : Method
  post : Method
  patch : Method
  delete : Method

-- The functions that routes name.
pub data Endpoint : Type 0 where
  healthcheck : Endpoint
  reference : Endpoint
  spec : Endpoint
  login : Endpoint
  refresh_token : Endpoint
  password_recovery : Endpoint
  password_reset : Endpoint
  user_index : Endpoint
  user_create : Endpoint
  get_my_user : Endpoint
  patch_my_user : Endpoint
  user_get : Endpoint
  user_patch : Endpoint
  user_delete : Endpoint
  permission_index : Endpoint

-- The layers of `from_fn_with_state`: `authenticate`, and `rbac_guard` with its action.
pub data Layer : Type 0 where
  authenticate : Layer
  rbac_guard : String → Layer

-- `Router::new`, `route`, `merge` and `route_layer`.
pub data Router : Type 0 where
  new : Router
  route : Router → String → Method → Endpoint → Router
  merge : Router → Router → Router
  route_layer : Router → Layer → Router

unfoldable pub health_routes : Router
health_routes = route new "/v1/healthcheck" get healthcheck

unfoldable pub docs_routes : Router
docs_routes = route (route new "/docs" get reference) "/openapi.yaml" get spec

-- `auth::routes`
unfoldable pub auth_routes : Router
auth_routes =
    let r1 = route new "/v1/login" post login in
    let r2 = route r1 "/v1/refresh-token" post refresh_token in
    let r3 = route r2 "/v1/forgot-password" post password_recovery in
    route r3 "/v1/reset-password" post password_reset

unfoldable pub user_routes : Router
user_routes =
    let index = route_layer (route new "/v1/users" get user_index) (rbac_guard "Users.View All") in
    let r1 = route new "/v1/users" post user_create in
    let r2 = route r1 "/v1/users/my-user" get get_my_user in
    let r3 = route r2 "/v1/users/my-user" patch patch_my_user in
    let r4 = route r3 "/v1/users/{user-id}" get user_get in
    let r5 = route r4 "/v1/users/{user-id}" patch user_patch in
    let r6 = route r5 "/v1/users/{user-id}" delete user_delete in merge r6 index

unfoldable pub permission_routes : Router
permission_routes = route new "/v1/permissions" get permission_index

-- `iam::routes`
unfoldable pub iam_routes : Router
iam_routes = route_layer (merge (merge new user_routes) permission_routes) authenticate

unfoldable pub mount : Router
mount = merge (merge (merge (merge new health_routes) docs_routes) auth_routes) iam_routes

-- A route that a router has been given, with the layers that were put around it, the outermost first.
pub record Mounted : Type 0 where
  pub path : String
  pub method : Method
  pub endpoint : Endpoint
  pub layers : List Layer

abbrev pub wrapped : Layer → Mounted → Mounted
wrapped layer m = record m { layers = layer ∷ m.layers }

-- A layer goes around the routes that the router has at the time of the call.
unfoldable pub mounted : Router → List Mounted
mounted new = []
mounted (route r path method endpoint) =
    mounted r ++ (record { path = path; method = method; endpoint = endpoint; layers = [] } ∷ [])
mounted (merge r s) = mounted r ++ mounted s
mounted (route_layer r layer) = map (wrapped layer) (mounted r)

abbrev pub same_method : Method → Method → Bool
same_method get get = true
same_method post post = true
same_method patch patch = true
same_method delete delete = true
same_method a b = false

-- The route that is mounted at a path and a method.
unfoldable pub route_of : String → Method → Option Mounted
route_of path method = find (λ m. m.path == path && same_method m.method method) (mounted mount)
