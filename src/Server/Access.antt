-- ===== src/Server/Access.antt =====
-- What a request needs to reach a handler and its service, over all routes.
use api_starter.Base.{
  String, Bool, true, false, ◌≡◌, ◌≢◌, ◌⊎◌, inl, inr, refl, none, Result, ok, err, All, All-append,
  Result-cases,
}
use api_starter.Base.Pairwise.{All-map, All-every}
use api_starter.Database.Effect.{World}
use api_starter.Errdef.{Error, unauthorized}
use api_starter.Errdef.Render.{Reply, into_response}
use api_starter.Validation.{ValidationErrors, to_error}
use api_starter.Validation.Violations.{to_error-is_validation}
use api_starter.Extract.{validated_json}
use api_starter.Extract.Laws.{validation_status}
use api_starter.Extract.Payloads.{
  validate_login, validate_refresh, validate_recovery, validate_create_user, validate_reset,
}
use api_starter.AuthHandlers.{
  LoginRequest, RefreshRequest, PasswordRecoveryRequest, PasswordResetRequest,
}
use api_starter.Iam.Handlers.{CreateUserRequest}
use api_starter.Server.{Request, authenticate, bearer_token}
use api_starter.Server.Routes
use api_starter.Server.Routes.{
  Endpoint, Layer, Router, Mounted, mounted, wrapped, mount, iam_routes, auth_routes, docs_routes,
  health_routes,
}
use api_starter.Server.Endpoints.{App, Draws, Answer, failure, handle, stack, serve}

-- The endpoints that are meant for callers without a session.
abbrev pub is_public : Endpoint → Bool
is_public Routes.healthcheck = true
is_public Routes.reference = true
is_public Routes.spec = true
is_public Routes.login = true
is_public Routes.refresh_token = true
is_public Routes.password_recovery = true
is_public Routes.password_reset = true
is_public other = false

module _ {B : Type 0} (app : App B) (draws : Draws) where
  -- A route answers every request without a bearer token `unauthorized`, and does nothing else.
  abbrev pub Refuses : Mounted → Type 0
  Refuses m =
      (q : Request B) (w : World)
      → bearer_token q ≡ none
      → serve app draws m q w ≡ (failure (unauthorized "malformed or missing jwt token"), w)

  abbrev Allowed : Mounted → Type 0
  Allowed m = (is_public m.endpoint ≡ true) ⊎ Refuses m

  pub wrapped-Refuses : (m : Mounted) → Refuses (wrapped Routes.authenticate m)
  unfolding serve stack authenticate
  wrapped-Refuses m q w h = rw h refl

  -- Every route of the server answers a request without a bearer token `unauthorized`, changes
  -- nothing and runs no handler, but for the health check, the two pages of the documentation, and
  -- the four routes with which a caller signs in, renews its tokens and resets its password.
  pub mount-Refuses : All (λ m. (is_public m.endpoint ≡ true) ⊎ Refuses m) (mounted mount)
  unfolding mount iam_routes auth_routes docs_routes health_routes mounted
  mount-Refuses =
      let open_routes =
        Routes.merge (Routes.merge (Routes.merge Routes.new health_routes) docs_routes)
          auth_routes in
      All-append Allowed (mounted open_routes) (mounted iam_routes)
        (inl refl, (inl refl, (inl refl, (inl refl, (inl refl, (inl refl, (inl refl, tt)))))))
        (All-map Allowed (wrapped Routes.authenticate) _ (
          All-every (λ m. Allowed (wrapped Routes.authenticate m)) _
            (λ m. inr (wrapped-Refuses m))))

-- A payload whose rules do not all hold.
refused_error :
    {B T : Type 0} (decode : B → Result String T)
    (validate : T → Result ValidationErrors (Unit {0})) (request : B) (p : T)
    → decode request ≡ ok p
    → validate p ≢ ok tt
    → (e : Error) × (validated_json decode validate request ≡ err e)
      × ((into_response {T = Unit {0}} {P = Unit {0}} e).status ≡ 422)
unfolding validated_json
refused_error decode validate request p h bad = elim (Result-cases (validate p)) [
  | inl (x, good) ↦ absurd (bad good)
  | inr (errors, e) ↦
      (to_error errors, rw h (rw e refl), validation_status _ (to_error-is_validation errors))
]

module _ {B : Type 0} (app : App B) (draws : Draws) (q : Request B) (w : World) where
  -- The answer has status 422, and nothing else is done.
  abbrev pub Rejects : Endpoint → Type 0
  Rejects endpoint =
      (r : Reply (Unit {0}) (Unit {0})) × (handle app draws endpoint q w ≡ (Answer.failed r, w))
      × (r.status ≡ 422)

  -- A handler with a validated body answers a payload whose rules do not all hold with status 422;
  -- its service is not called, and nothing changes.
  pub invalid_payloads-Rejects :
      ((p : LoginRequest)
        → app.decode.login q.rest ≡ ok p
        → validate_login p ≢ ok tt
        → Rejects Routes.login)
      × ((p : RefreshRequest)
          → app.decode.refresh q.rest ≡ ok p
          → validate_refresh p ≢ ok tt
          → Rejects Routes.refresh_token)
      × ((p : PasswordRecoveryRequest)
          → app.decode.recovery q.rest ≡ ok p
          → validate_recovery app.formats p ≢ ok tt
          → Rejects Routes.password_recovery)
      × ((p : PasswordResetRequest)
          → app.decode.reset q.rest ≡ ok p
          → validate_reset app.tables p ≢ ok tt
          → Rejects Routes.password_reset)
      × ((p : CreateUserRequest)
          → app.decode.create_user q.rest ≡ ok p
          → validate_create_user app.formats app.tables p ≢ ok tt
          → Rejects Routes.user_create)
  unfolding handle
  invalid_payloads-Rejects = (
    λ p h bad.
        let (e, refused, status) = refused_error app.decode.login validate_login q.rest p h bad in
        (into_response e, rw refused refl, status),
    λ p h bad.
        let (e, refused, status) =
          refused_error app.decode.refresh validate_refresh q.rest p h bad in
        (into_response e, rw refused refl, status),
    λ p h bad.
        let (e, refused, status) =
          refused_error app.decode.recovery (validate_recovery app.formats) q.rest p h bad in
        (into_response e, rw refused refl, status),
    λ p h bad.
        let (e, refused, status) =
          refused_error app.decode.reset (validate_reset app.tables) q.rest p h bad in
        (into_response e, rw refused refl, status),
    λ p h bad.
        let (e, refused, status) =
          refused_error app.decode.create_user (validate_create_user app.formats app.tables) q.rest
            p h bad in
        (into_response e, rw refused refl, status),
  )
