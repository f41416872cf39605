-- ===== src/Server/SafeMethods.antt =====
-- The routes that only read.
use api_starter.Base.{
  String, Bool, true, false, ◌≡◌, refl, Result, ok, err, All, all, arith, not, ◌||◌,
}
use api_starter.Base.Pairwise.{All-weaken, all-All}
use api_starter.Database.{Uuid, DateTime}
use api_starter.Database.Effect.{World}
use api_starter.Database.Keeps.{Keeps, Keeps-bind, Keeps-lift, Keeps-query, Keeps-on_error}
use api_starter.Pagination.{ListRequest, from_request_parts}
use api_starter.Auth.{Identity}
use api_starter.Iam.Handlers
use api_starter.Iam.Permissions.{permission_service, postgres_permissions, list_all}
use api_starter.Rbac.Postgres.{postgres_store}
use api_starter.Rbac.Reads.{can_tables}
use api_starter.Extract.{validated_json}
use api_starter.Extract.Payloads.{Formats, validate_login, validate_refresh}
use api_starter.AuthHandlers.{LoginRequest, RefreshRequest}
use api_starter.AuthHandlers
use api_starter.Server.{Request, auth_user}
use api_starter.Server.Routes
use api_starter.Server.Routes.{
  Method, Endpoint, Layer, Mounted, mounted, mount, iam_routes, auth_routes, docs_routes,
  health_routes, user_routes, permission_routes,
}
use api_starter.Server.Endpoints.{with_path_id, App, Draws, Answer, Decode, run, handle, serve}
use api_starter.State.Calls.{Services, auth, users, sessions, list-Keeps, find-Keeps}
use api_starter.Server.Reading.{Reads, run_tables, stack-Reads}

abbrev pub is_get : Method → Bool
is_get Routes.get = true
is_get other = false

abbrev pub is_session : Endpoint → Bool
is_session Routes.login = true
is_session Routes.refresh_token = true
is_session other = false

-- The endpoints that only read.
abbrev pub only_reads : Endpoint → Bool
only_reads Routes.healthcheck = true
only_reads Routes.reference = true
only_reads Routes.spec = true
only_reads Routes.login = true
only_reads Routes.refresh_token = true
only_reads Routes.user_index = true
only_reads Routes.get_my_user = true
only_reads Routes.user_get = true
only_reads Routes.permission_index = true
only_reads other = false

-- A route is mounted for GET, signs a caller in or renews its tokens.
abbrev pub should_read : Mounted → Bool
should_read m = is_get m.method || is_session m.endpoint

-- The server over the tables.
module _ {B : Type 0} (s : Services) (decode : Decode B) (formats : Formats)
    (super_role version spec reference : String) where
  abbrev pub over : App B
  over = record {
    decode = decode;
    formats = formats;
    tables = s.tables;
    crypto = s.crypto;
    uuid = s.uuid;
    auth = auth s;
    rbac = record { super_role = super_role; store = postgres_store };
    users = users s;
    permissions = permission_service postgres_permissions;
    version = version;
    spec = spec;
    reference = reference;
  }

  index-Keeps : (request : ListRequest) → Keeps (Handlers.index (users s) request)
  unfolding Handlers.index
  index-Keeps request = Keeps-bind (list-Keeps s request) λ page. Keeps-lift _

  get-Keeps : (id : Uuid) → Keeps (Handlers.get (users s) id)
  unfolding Handlers.get
  get-Keeps id = Keeps-bind (find-Keeps s id) λ user. Keeps-lift _

  get_my_user-Keeps : (caller : Identity) → Keeps (Handlers.get_my_user (users s) caller)
  unfolding Handlers.get_my_user
  get_my_user-Keeps caller = Keeps-bind (find-Keeps s caller.id) λ user. Keeps-lift _

  permissions-Keeps : Keeps (Handlers.permission_index (permission_service postgres_permissions))
  unfolding Handlers.permission_index permission_service list_all
  permissions-Keeps =
      Keeps-bind (Keeps-on_error _ (Keeps-on_error _ (Keeps-query _))) λ found. Keeps-lift _

  login-Keeps :
      (now : DateTime) (p : LoginRequest)
      → Keeps (AuthHandlers.login s.crypto s.uuid (auth s) now p)
  unfolding AuthHandlers.login
  login-Keeps now p = Keeps-bind (sessions s now p.email p.password "").0 λ tokens. Keeps-lift _

  refresh-Keeps :
      (now : DateTime) (p : RefreshRequest)
      → Keeps (AuthHandlers.refresh_token s.crypto s.uuid (auth s) now p)
  unfolding AuthHandlers.refresh_token
  refresh-Keeps now p = Keeps-bind (sessions s now "" "" p.token).1 λ tokens. Keeps-lift _

  user_get_tables :
      (draws : Draws) (id : Result String Uuid) (w : World)
      → (with_path_id id w (λ id. run Answer.user w (Handlers.get (users s) id))).1.tables
        ≡ w.tables
  user_get_tables draws (ok id) w =
      run_tables Answer.user w (Handlers.get (users s) id) (get-Keeps id)
  user_get_tables draws (err text) w = refl

  pub handle-Reads :
      (draws : Draws) (e : Endpoint) → only_reads e ≡ true → Reads (handle over draws e)
  unfolding handle
  handle-Reads draws Routes.healthcheck h = record { reads = λ q w. refl }
  handle-Reads draws Routes.reference h = record { reads = λ q w. refl }
  handle-Reads draws Routes.spec h = record { reads = λ q w. refl }
  handle-Reads draws Routes.user_index h = record {
    reads = λ q w.
        let request = from_request_parts decode.urlencoded (decode.query q.rest) in
        run_tables Answer.users w (Handlers.index (users s) request) (index-Keeps request);
  }
  handle-Reads draws Routes.get_my_user h = record {
    reads =
        λ q w. run_tables Answer.user w _ (Keeps-bind (Keeps-lift (auth_user q)) get_my_user-Keeps);
  }
  handle-Reads draws Routes.user_get h = record {
    reads = λ q w. user_get_tables draws (decode.user_id q.rest) w;
  }
  handle-Reads draws Routes.permission_index h = record {
    reads = λ q w. run_tables Answer.permissions w _ permissions-Keeps;
  }
  handle-Reads draws Routes.login h = record {
    reads = λ q w. run_tables Answer.tokens w _ (
        Keeps-bind (Keeps-lift (validated_json decode.login validate_login q.rest))
          (login-Keeps draws.now));
  }
  handle-Reads draws Routes.refresh_token h = record {
    reads = λ q w. run_tables Answer.tokens w _ (
        Keeps-bind (Keeps-lift (validated_json decode.refresh validate_refresh q.rest))
          (refresh-Keeps draws.now));
  }
  handle-Reads draws Routes.password_recovery h = absurd (ground arith)
  handle-Reads draws Routes.password_reset h = absurd (ground arith)
  handle-Reads draws Routes.user_create h = absurd (ground arith)
  handle-Reads draws Routes.patch_my_user h = absurd (ground arith)
  handle-Reads draws Routes.user_patch h = absurd (ground arith)
  handle-Reads draws Routes.user_delete h = absurd (ground arith)

  serve-Reads :
      (draws : Draws) (m : Mounted) → only_reads m.endpoint ≡ true → Reads (serve over draws m)
  unfolding serve
  serve-Reads draws m h =
      stack-Reads over draws (λ token. (sessions s draws.now "" "" token).2) (can_tables super_role)
        m.layers _ (handle-Reads draws m.endpoint h)

  all_routes :
      all
        (λ m. not (is_get m.method || is_session m.endpoint) || only_reads m.endpoint)
        (mounted mount)
      ≡ true
  unfolding mount iam_routes auth_routes docs_routes health_routes user_routes permission_routes
      mounted
  all_routes = refl

  -- A request that is answered without a change of the tables, whatever becomes of its calls.
  abbrev pub Safe : Mounted → Type 0
  Safe m =
      (draws : Draws) (q : Request B) (w : World) → (serve over draws m q w).1.tables ≡ w.tables

  -- Every route of the server that is mounted for GET leaves all tables as they are, whatever the
  -- request, its caller and the outcome of its calls to the database; so do the routes that sign a
  -- caller in and renew its tokens.
  pub mount-Safe : All (λ m. should_read m ≡ true → Safe m) (mounted mount)
  mount-Safe =
      All-weaken (λ m. (not (should_read m) || only_reads m.endpoint) ≡ true) _ (mounted mount)
        (λ m checked_so asked draws. (serve-Reads draws m (ground arith)).reads)
        (all-All _ (mounted mount) all_routes)
