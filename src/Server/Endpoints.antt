-- ===== src/Server/Endpoints.antt =====
-- What the server answers: the handlers behind their extractors, the layers around them, and the
-- fallback of src/server/mod.rs.
use api_starter.Base.{ℕ, String, Option, List, [], ◌∷◌, Result, ok, err, map_ok}
use api_starter.Base.Chars.{CharTables}
use api_starter.Database.{Uuid, DateTime}
use api_starter.Database.Effect.{World, Eff, ◌>>=◌, lift}
use api_starter.Errdef.{Error, not_found}
use api_starter.Errdef.Render.{Reply, into_response}
use api_starter.External.{Crypto, UuidText}
use api_starter.Response.{Response, of_data}
use api_starter.Auth.Service.{AuthService, get_identity}
use api_starter.AuthHandlers.{
  LoginRequest, RefreshRequest, PasswordRecoveryRequest, PasswordResetRequest, LoginResponse,
}
use api_starter.AuthHandlers
use api_starter.Iam.{UserService, PermissionService, UpdateUser}
use api_starter.Iam.Handlers.{CreateUserRequest, User, Permission, DeletedUser}
use api_starter.Iam.Handlers
use api_starter.Pagination.{MetaData, from_request_parts}
use api_starter.Rbac.{RbacEngine}
use api_starter.Extract.{json, validated_json}
use api_starter.Extract.Payloads.{
  Formats, validate_login, validate_refresh, validate_recovery, validate_create_user,
  validate_reset,
}
use api_starter.Server.{Next, auth_user, authenticate, rbac_guard, respond}
use api_starter.Server.Routes.{Endpoint, Layer, Mounted}
use api_starter.Server.Routes

-- src/module/health/mod.rs
pub record Health : Type 0 where
  pub status : String
  pub version : String

-- A reply by the type of its data; an error has none. `page` is text that is served as it stands, and
-- `rejected` the reply that an extractor of Axum itself gives.
pub data Answer : Type 0 where
  health : Reply Health MetaData → Answer
  page : String → Answer
  tokens : Reply LoginResponse MetaData → Answer
  message : Reply String MetaData → Answer
  user : Reply User MetaData → Answer
  users : Reply (List User) MetaData → Answer
  user_id : Reply Uuid MetaData → Answer
  deleted : Reply DeletedUser MetaData → Answer
  permissions : Reply (List Permission) MetaData → Answer
  failed : Reply (Unit {0}) (Unit {0}) → Answer
  rejected : String → Answer
  method_not_allowed : Answer

-- How Axum reads a request: the bodies as JSON, the id in the path, and the text of the query.
pub record Decode (B : Type 0) : Type 0 where
  pub login : B → Result String LoginRequest
  pub refresh : B → Result String RefreshRequest
  pub recovery : B → Result String PasswordRecoveryRequest
  pub reset : B → Result String PasswordResetRequest
  pub create_user : B → Result String CreateUserRequest
  pub update_user : B → Result String UpdateUser
  pub user_id : B → Result String Uuid
  pub query : B → Option String
  pub urlencoded : String → Option (List (String × String))

-- What the server is made of.
pub record App (B : Type 0) : Type 0 where
  pub decode : Decode B
  pub formats : Formats
  pub tables : CharTables
  pub crypto : Crypto
  pub uuid : UuidText
  pub auth : AuthService
  pub rbac : RbacEngine
  pub users : UserService
  pub permissions : PermissionService
  pub version : String
  pub spec : String
  pub reference : String

-- What is drawn while a request is answered: the time, random bytes, a salt and an id.
pub record Draws : Type 0 where
  pub now : DateTime
  pub random : List ℕ
  pub salt : String
  pub fresh : Uuid

-- `IntoResponse` of an error and of a result.
abbrev pub failure : Error → Answer
failure e = Answer.failed (into_response e)

abbrev pub success : {T : Type 0} → Response T MetaData → Reply T MetaData
success body = record { status = 200; body = body }

abbrev pub run :
    {T : Type 0}
    → (Reply T MetaData → Answer)
    → World
    → Eff Error (Response T MetaData)
    → Answer × World
run shape w m = respond failure (map_ok (λ body. shape (success body)) (m w).0, (m w).1)

-- The extractor `Path<Uuid>`.
abbrev pub with_path_id : Result String Uuid → World → (Uuid → Answer × World) → Answer × World
with_path_id (ok id) w f = f id
with_path_id (err text) w f = (Answer.rejected text, w)

module _ {B : Type 0} (app : App B) (draws : Draws) where
  -- The handlers on a request: the extractors in the order of a handler's arguments, and its body.
  abbrev pub health_check : Next B Answer
  health_check q w =
      (Answer.health (success (of_data (record { status = "OK"; version = app.version }))), w)

  abbrev pub docs_reference : Next B Answer
  docs_reference q w = (Answer.page app.reference, w)

  abbrev pub docs_spec : Next B Answer
  docs_spec q w = (Answer.page app.spec, w)

  abbrev pub post_login : Next B Answer
  post_login q w = run Answer.tokens w (do
    payload ← lift (validated_json app.decode.login validate_login q.rest)
    AuthHandlers.login app.crypto app.uuid app.auth draws.now payload)

  abbrev pub post_refresh_token : Next B Answer
  post_refresh_token q w = run Answer.tokens w (do
    payload ← lift (validated_json app.decode.refresh validate_refresh q.rest)
    AuthHandlers.refresh_token app.crypto app.uuid app.auth draws.now payload)

  abbrev pub post_forgot_password : Next B Answer
  post_forgot_password q w = run Answer.message w (do
    payload ← lift (validated_json app.decode.recovery (validate_recovery app.formats) q.rest)
    AuthHandlers.password_recovery app.crypto app.uuid app.auth draws.now draws.random payload)

  abbrev pub post_reset_password : Next B Answer
  post_reset_password q w = run Answer.message w (do
    payload ← lift (validated_json app.decode.reset (validate_reset app.tables) q.rest)
    AuthHandlers.password_reset app.crypto app.uuid app.auth draws.now draws.salt payload)

  abbrev pub get_users : Next B Answer
  get_users q w = run Answer.users w (
      Handlers.index app.users (from_request_parts app.decode.urlencoded (app.decode.query q.rest)))

  abbrev pub post_user : Next B Answer
  post_user q w = run Answer.user_id w (do
    payload ←
        lift (
          validated_json app.decode.create_user (validate_create_user app.formats app.tables)
            q.rest)
    Handlers.create app.users draws.fresh draws.salt payload)

  abbrev pub get_own_user : Next B Answer
  get_own_user q w =
      run Answer.user w (do caller ← lift (auth_user q); Handlers.get_my_user app.users caller)

  abbrev pub patch_own_user : Next B Answer
  patch_own_user q w = run Answer.message w (do
    caller ← lift (auth_user q)
    payload ← lift (json app.decode.update_user q.rest)
    Handlers.patch_my_user app.users draws.salt caller payload)

  abbrev pub get_user : Next B Answer
  get_user q w =
      with_path_id (app.decode.user_id q.rest) w
        (λ id. run Answer.user w (Handlers.get app.users id))

  abbrev pub patch_user : Next B Answer
  patch_user q w = with_path_id (app.decode.user_id q.rest) w (λ id. run Answer.message w (do
    payload ← lift (json app.decode.update_user q.rest)
    Handlers.patch app.users draws.salt id payload))

  abbrev pub delete_user : Next B Answer
  delete_user q w =
      with_path_id (app.decode.user_id q.rest) w
        (λ id. run Answer.deleted w (Handlers.delete app.users id))

  abbrev pub get_permissions : Next B Answer
  get_permissions q w = run Answer.permissions w (Handlers.permission_index app.permissions)

  unfoldable pub handle : Endpoint → Next B Answer
  handle Routes.healthcheck = health_check
  handle Routes.reference = docs_reference
  handle Routes.spec = docs_spec
  handle Routes.login = post_login
  handle Routes.refresh_token = post_refresh_token
  handle Routes.password_recovery = post_forgot_password
  handle Routes.password_reset = post_reset_password
  handle Routes.user_index = get_users
  handle Routes.user_create = post_user
  handle Routes.get_my_user = get_own_user
  handle Routes.patch_my_user = patch_own_user
  handle Routes.user_get = get_user
  handle Routes.user_patch = patch_user
  handle Routes.user_delete = delete_user
  handle Routes.permission_index = get_permissions

  -- A layer around the rest of the stack.
  abbrev pub around : Layer → Next B Answer → Next B Answer
  around Routes.authenticate next q w =
      respond failure (authenticate (get_identity app.crypto app.uuid app.auth draws.now) next q w)
  around (Routes.rbac_guard action) next q w =
      respond failure (rbac_guard (record { engine = app.rbac; action = action }) next q w)

  unfoldable pub stack : List Layer → Next B Answer → Next B Answer
  stack [] next = next
  stack (layer ∷ layers) next = around layer (stack layers next)

  -- A request to a mounted route.
  unfoldable pub serve : Mounted → Next B Answer
  serve m = stack m.layers (handle m.endpoint)

-- What Axum's router makes of the path and the method of a request.
pub data Match : Type 0 where
  matched : Mounted → Match
  no_method : Match
  no_path : Match

-- `router`, with `route_not_found` as its fallback. The layers around it neither look at the request
-- nor change the reply's status and body.
unfoldable pub answer : {B : Type 0} → App B → Draws → Match → Next B Answer
answer app draws (matched m) q w = serve app draws m q w
answer app draws no_method q w = (Answer.method_not_allowed, w)
answer app draws no_path q w = (failure (not_found "route not found"), w)
