-- ===== src/Server.antt =====
-- src/server/middlewares: what stands between a request and its handler. The children have the routes
-- and the endpoints of src/server and src/module.
pub mod Guards
pub mod Routes
pub mod Endpoints
pub mod Access
pub mod Reading
pub mod SafeMethods
pub mod Stacks
pub mod Standing
pub mod Runs
pub mod Rights
pub mod Promotion
pub mod Documented
pub mod Context
use api_starter.Base.{
  String, Bool, true, false, not, Option, none, some, List, [], ◌∷◌, Result, ok, err, ok_or,
  and_then, if◌then◌else◌,
}
use api_starter.Base.Text.{strip_prefix, is_empty_str}
use api_starter.Database.Effect.{World, Eff, ◌>>=◌, ret, lift, on_error}
use api_starter.Errdef.{Error, unauthorized, with_cause}
use api_starter.Errdef.Render.{to_string}
use api_starter.Auth.{Identity}
use api_starter.Rbac.{RbacEngine, can}

-- What the layers read and write of a request: the header `Authorization`, where it is visible ASCII,
-- and the identity among the extensions. `B` is the rest.
pub record Request (B : Type 0) : Type 0 where
  pub authorization : Option String
  pub user : Option Identity
  pub rest : B

-- `Next`: the rest of the stack, which always answers.
abbrev pub Next : Type 0 → Type 0 → Type 0
Next B R = Request B → World → R × World

abbrev pub bearer : String
bearer = "Bearer "

-- The part of `authenticate` that finds the token.
unfoldable pub bearer_token : {B : Type 0} → Request B → Option String
bearer_token request =
    and_then (λ token. if not (is_empty_str token) then some token else none)
      (and_then (strip_prefix bearer) request.authorization)

-- `Ok(next.run(request).await)`
abbrev pub run_next : {B R : Type 0} → Next B R → Request B → Eff Error R
run_next next request w = let answer = next request w in (ok answer.0, answer.1)

-- `get_identity` is that of the service, at the time of the request.
unfoldable pub authenticate :
    {B R : Type 0} → (String → Eff Error Identity) → Next B R → Request B → Eff Error R
unfolding bearer_token
authenticate get_identity next request = do
  token ← lift (ok_or (unauthorized "malformed or missing jwt token") (bearer_token request))
  user ←
      on_error (λ e. with_cause (unauthorized "malformed or missing jwt token") (to_string e))
        (get_identity token)
  run_next next (record request { user = some user })

-- The extractor `AuthUser`.
unfoldable pub auth_user : {B : Type 0} → Request B → Result Error Identity
auth_user request = ok_or (unauthorized "user not found in context") request.user

pub record RbacState : Type 0 where
  pub engine : RbacEngine
  pub action : String

-- The answer of `can` decides.
abbrev pub admit : {B R : Type 0} → Next B R → Request B → Bool × World → Result Error R × World
admit next request (true, w) = run_next next request w
admit next request (false, w) = (err (unauthorized "unauthorized action"), w)

unfoldable pub rbac_guard : {B R : Type 0} → RbacState → Next B R → Request B → Eff Error R
rbac_guard state next request = do
  user ← lift (ok_or (unauthorized "unauthorized action") request.user)
  λ w. admit next request (can state.engine user.id state.action w)

-- A layer's error becomes its response.
abbrev pub respond : {R : Type 0} → (Error → R) → Result Error R × World → R × World
respond render (ok r, w) = (r, w)
respond render (err e, w) = (render e, w)
