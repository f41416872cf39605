-- ===== src/Server/Guards.antt =====
-- What a request needs to reach the list of users, which stands behind both layers.
use api_starter.Base.{
  String, ◌<>◌, ◌≡◌, refl, sym, ap, ◌∙◌, ◌↔◌, inl, inr, Option-cases, Bool-cases, nat_eq,
  nat_eq_iff, nat_eq_refl, not, if◌then◌else◌, arith, code, false, Option, none, some, ok, ◌||◌,
  List, [], ◌∷◌,
}
use Prim.Native.String as Text
use text.Mathlib.TextEquality.{Char-path}
use text.Mathlib.TextLemmas.{nil-append, cons-append}
use api_starter.Base.Text.{strip_prefix, is_empty_str}
use api_starter.Database.{Tables}
use api_starter.Database.Effect.{Mail, calm}
use api_starter.Errdef.{unauthorized}
use api_starter.Errdef.Render.{into_response}
use api_starter.Auth.{Identity}
use api_starter.Auth.Service.{get_identity}
use api_starter.Rbac.Decisions.{engine, is_super, holds, can-calm}
use api_starter.Server.{Request, bearer, bearer_token, authenticate, rbac_guard}
use api_starter.Server.Routes
use api_starter.Server.Routes.{Mounted, mounted, mount, route_of}
use api_starter.Server.Endpoints.{App, Draws, failure, handle, serve, stack}

some_inj : {A : Type 0} {a b : A} → some a ≡ some b → a ≡ b
some_inj h = ground arith

some_is_some : {A B : Type 0} {a : A} → ◌≡◌ {A = Option A} none (some a) → B
some_is_some h = absurd (ground arith)

nonempty :
    (rest token : String)
    → (if not (is_empty_str rest) then some rest else none) ≡ some token
    → (is_empty_str rest ≡ false) × (rest ≡ token)
nonempty rest token h = elim (Bool-cases (is_empty_str rest)) [
  | inl e ↦ absurd (some_is_some (rw e at h))
  | inr e ↦ (e, some_inj (rw e at h))
]

strip_prefix_sound : (p s t : String) → strip_prefix p s ≡ some t → s ≡ p <> t
unfolding strip_prefix
strip_prefix_sound Text.[] s t h = some_inj h ∙ sym (nil-append t)
strip_prefix_sound (Text.◌∷◌ x p) Text.[] t h = absurd (ground arith)
strip_prefix_sound (Text.◌∷◌ x p) (Text.◌∷◌ c s) t h =
    elim (Bool-cases (nat_eq (code x) (code c))) [
      | inl e ↦
          let same : x ≡ c = Char-path x c ((nat_eq_iff _ _).0 e) in
          rw (cons-append x p t, same)
            (ap (λ r. Text.◌∷◌ c r) (strip_prefix_sound p s t (rw e at h)))
      | inr e ↦ absurd (some_is_some (rw e at h))
    ]

strip_prefix_complete : (p t : String) → strip_prefix p (p <> t) ≡ some t
unfolding strip_prefix
strip_prefix_complete Text.[] t = ap some (nil-append t)
strip_prefix_complete (Text.◌∷◌ x p) t =
    rw (cons-append x p t) (rw (nat_eq_refl (code x)) (strip_prefix_complete p t))

-- The token of a request is what follows `Bearer ` in its header: there is one exactly if the header
-- is that word, the blank and a text that is not empty.
pub bearer_token_iff :
    {B : Type 0} (request : Request B) (token : String)
    → (bearer_token request ≡ some token)
      ↔ ((request.authorization ≡ some (bearer <> token)) × (is_empty_str token ≡ false))
unfolding bearer_token
bearer_token_iff request token = (there, back)
  where
    there :
        bearer_token request ≡ some token
        → (request.authorization ≡ some (bearer <> token)) × (is_empty_str token ≡ false)
    there h = elim (Option-cases request.authorization) [
      | inl e ↦ absurd (some_is_some (rw e at h))
      | inr (text, e) ↦ elim (Option-cases (strip_prefix bearer text)) [
        | inl n ↦ absurd (some_is_some (rw n at (rw e at h)))
        | inr (rest, k) ↦
            let (plain, same) = nonempty rest token (rw k at (rw e at h)) in
            (
              e ∙ ap some (strip_prefix_sound bearer text rest k ∙ ap (λ r. bearer <> r) same),
              rw same at plain,
            )
      ]
    ]

    back :
        (request.authorization ≡ some (bearer <> token)) × (is_empty_str token ≡ false)
        → bearer_token request ≡ some token
    back (h, plain) = rw h (rw (strip_prefix_complete bearer token) (rw plain refl))

-- The route that is mounted for `GET /v1/users`.
abbrev index_route : Mounted
index_route = record {
  path = "/v1/users";
  method = Routes.get;
  endpoint = Routes.user_index;
  layers = Routes.authenticate ∷ Routes.rbac_guard "Users.View All" ∷ [];
}

index_route-mounted : route_of "/v1/users" Routes.get ≡ some index_route
unfolding route_of mount Routes.iam_routes Routes.user_routes Routes.permission_routes
    Routes.auth_routes Routes.docs_routes Routes.health_routes mounted
index_route-mounted = refl

module _ {B : Type 0} (app : App B) (super_role : String) where
  -- The server, with the engine over the tables.
  abbrev pub guarded_app : App B
  guarded_app = record app { rbac = engine super_role }

  -- Where no call fails: the server has a route for `GET /v1/users`, and a request to it with a token
  -- that names a user reaches the handler, with this identity, exactly if the tables give the user the
  -- super role or the permission `Users.View All`; otherwise it is answered `unauthorized`, of status
  -- 401, and nothing changes.
  pub serve-user_index :
      (draws : Draws) (t : Tables) (sent : List Mail) (q : Request B) (token : String)
      (caller : Identity)
      → bearer_token q ≡ some token
      → get_identity app.crypto app.uuid app.auth draws.now token (calm t sent)
        ≡ (ok caller, calm t sent)
      → (m : Mounted) × (route_of "/v1/users" Routes.get ≡ some m)
        × (serve guarded_app draws m q (calm t sent) ≡ (
            if is_super super_role caller.id t || holds super_role caller.id "Users.View All" t
            then handle guarded_app draws Routes.user_index
                (record q { user = some caller })
                (calm t sent)
            else (failure (unauthorized "unauthorized action"), calm t sent)))
        × ((into_response {T = Unit {0}} {P = Unit {0}} (unauthorized "unauthorized action")).status
            ≡ 401)
  unfolding serve stack authenticate rbac_guard into_response
  serve-user_index draws t sent q token caller h known =
      let allowed =
        is_super super_role caller.id t || holds super_role caller.id "Users.View All" t in
      (
        index_route,
        index_route-mounted,
        elim (Bool-cases allowed) [
          | inl e ↦ rw (h, known, can-calm super_role caller.id "Users.View All" t sent, e) refl
          | inr e ↦ rw (h, known, can-calm super_role caller.id "Users.View All" t sent, e) refl
        ],
        refl,
      )
