-- ===== src/Server/Context.antt =====
-- src/server/middlewares/request_context.rs: what is logged of a request. The inner handlers' own events
-- are left out, and a latency stands as nanoseconds.
use api_starter.Base.{
  ℕ, String, ◌≡◌, ◌≢◌, refl, Bool, false, ◌&&◌, Option, none, some, List, [], ◌∷◌, leb, ltb,
  if◌then◌else◌, arith,
}
use api_starter.Database.Effect.{World}
use api_starter.Errdef.{Error, app, validation}
use api_starter.Errdef.Code
use api_starter.Errdef.Laws.{code_of}
use api_starter.Errdef.Render.{into_response}
use api_starter.Server.{Request, Next}
use api_starter.Server.Endpoints.{Answer, failure}

-- What the middleware reads of a request: the route that matched, the header `x-request-id` where it is
-- visible ASCII, and the peer's address, where there are such.
pub record Incoming : Type 0 where
  pub matched_path : Option String
  pub request_id : Option String
  pub address : Option String
  pub method : String
  pub path : String

pub record Span : Type 0 where
  pub route_path : String
  pub request_id : String
  pub ip_address : String
  pub method : String

-- An event with the method and the path, and at the end the status and the time since the start.
pub data Event : Type 0 where
  started : String → String → Event
  failed : String → String → ℕ → ℕ → Event
  completed : String → String → ℕ → ℕ → Event

abbrev pub unwrap_or : String → Option String → String
unwrap_or other none = other
unwrap_or other (some text) = text

unfoldable pub span_of : Incoming → Span
span_of request = record {
  route_path = unwrap_or "none" request.matched_path;
  request_id = unwrap_or "" request.request_id;
  ip_address = unwrap_or "" request.address;
  method = request.method;
}

-- `StatusCode::is_server_error`
abbrev pub is_server_error : ℕ → Bool
is_server_error status = leb 500 status && ltb status 600

abbrev pub outcome : Incoming → ℕ → ℕ → Event
outcome request status elapsed =
    if is_server_error status
    then failed request.method request.path status elapsed
    else completed request.method request.path status elapsed

-- The answer of the rest of the stack, with the span and its events.
unfoldable pub request_context :
    {B R : Type 0}
    → (R → ℕ)
    → Incoming
    → ℕ
    → Next B R
    → Request B
    → World
    → (R × World) × Span × List Event
unfolding span_of
request_context status_of request elapsed next q w =
    let response = next q w in
    (
      response,
      span_of request,
      started request.method request.path ∷ outcome request (status_of response.0) elapsed ∷ [],
    )

-- The status of an answer; `rejection` is that of an extractor's own reply.
abbrev pub status_of : ℕ → Answer → ℕ
status_of rejection (Answer.health r) = r.status
status_of rejection (Answer.page text) = 200
status_of rejection (Answer.tokens r) = r.status
status_of rejection (Answer.message r) = r.status
status_of rejection (Answer.user r) = r.status
status_of rejection (Answer.users r) = r.status
status_of rejection (Answer.user_id r) = r.status
status_of rejection (Answer.deleted r) = r.status
status_of rejection (Answer.permissions r) = r.status
status_of rejection (Answer.failed r) = r.status
status_of rejection (Answer.rejected text) = rejection
status_of rejection Answer.method_not_allowed = 405

internal_status :
    (e : Error)
    → code_of e ≡ Code.unknown
    → (into_response {T = Unit {0}} {P = Unit {0}} e).status ≡ 500
unfolding into_response
internal_status (app e) h = ground arith
internal_status (validation e) h = ground arith

other_status :
    (e : Error)
    → code_of e ≢ Code.unknown
    → is_server_error (into_response {T = Unit {0}} {P = Unit {0}} e).status ≡ false
unfolding into_response
other_status (app e) h = ground arith
other_status (validation e) h = refl

module _ {B : Type 0} (rejection : ℕ) (incoming : Incoming) (elapsed : ℕ) (next : Next B Answer)
    (q : Request B) (w w' : World) (e : Error) where
  -- A request that the rest of the stack answers with an error gets that answer; it is logged as
  -- started, and then as failed with status 500 if the error is an internal one, and as completed with
  -- the status of the error if it is not.
  pub request_context_lem :
      next q w ≡ (failure e, w')
      → let out = request_context (status_of rejection) incoming elapsed next q w in
        let status = (into_response {T = Unit {0}} {P = Unit {0}} e).status in
        let begun = started incoming.method incoming.path in
        (out.0 ≡ (failure e, w'))
        × (code_of e ≡ Code.unknown
            → out.2 ≡ begun ∷ failed incoming.method incoming.path 500 elapsed ∷ [])
        × (code_of e ≢ Code.unknown
            → out.2 ≡ begun ∷ completed incoming.method incoming.path status elapsed ∷ [])
  unfolding request_context
  request_context_lem answered = (
    answered,
    λ internal. rw (answered, internal_status e internal) refl,
    λ other. rw (answered, other_status e other) refl,
  )
