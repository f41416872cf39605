-- ===== src/Server/Runs.antt =====
-- What sequences of requests to the server cannot do, unless an administrative route is called with a
-- token.
use api_starter.Base.{
  String, Bool, true, false, not, ◌&&◌, ◌||◌, ◌==◌, ◌≡◌, refl, ◌⊎◌, inl, inr, Option, none, some,
  List, [], ◌∷◌, All, all, arith, Option-cases,
}
use api_starter.Base.Pairwise.{all-All, find-All}
use api_starter.Database.Effect.{World}
use api_starter.Extract.Payloads.{Formats}
use api_starter.State.Accounts.{LeavesTables}
use api_starter.State.Calls.{Services}
use api_starter.Server.{Request, bearer_token}
use api_starter.Server.Routes
use api_starter.Server.Routes.{
  Method, Endpoint, Mounted, same_method, mounted, mount, route_of, iam_routes, auth_routes,
  docs_routes, health_routes, user_routes, permission_routes,
}
use api_starter.Server.Endpoints.{
  App, Draws, Decode, Match, matched, no_method, no_path, serve, answer,
}
use api_starter.Server.Access.{is_public, mount-Refuses}
use api_starter.Server.SafeMethods.{over}
use api_starter.Server.Standing.{SameStanding, SameStanding-trans, writes_users, serve-SameStanding}

-- A request: the template that Axum's router finds for its path, if any, its method, and what is drawn
-- while it is answered.
pub record Asked (B : Type 0) : Type 0 where
  pub template : Option String
  pub method : Method
  pub draws : Draws
  pub request : Request B

abbrev matched_or : Option Mounted → Match
matched_or (some m) = matched m
matched_or none = no_method

abbrev pub match_of : {B : Type 0} → Asked B → Match
match_of a = elim a.template [ none ↦ no_path | some path ↦ matched_or (route_of path a.method) ]

-- The world once requests are answered, one after the other.
abbrev pub after_all : {B : Type 0} → App B → List (Asked B) → World → World
after_all app [] w = w
after_all app (a ∷ rest) w = after_all app rest (answer app a.draws (match_of a) a.request w).1

-- The places where users are created, changed and deleted.
abbrev pub is_administrative : Mounted → Bool
is_administrative m =
    (m.path == "/v1/users" && same_method m.method Routes.post)
    || (m.path == "/v1/users/{user-id}"
        && (same_method m.method Routes.patch || same_method m.method Routes.delete))

abbrev calls_administration : Match → Bool
calls_administration (matched m) = is_administrative m
calls_administration other = false

-- A request without a bearer token, or to another place.
abbrev pub Ordinary : {B : Type 0} → Asked B → Type 0
Ordinary a = (bearer_token a.request ≡ none) ⊎ (calls_administration (match_of a) ≡ false)

places :
    all
      (λ m.
        not (is_public m.endpoint || not (is_administrative m)) || not (writes_users m.endpoint))
      (mounted mount)
    ≡ true
unfolding mount iam_routes auth_routes docs_routes health_routes user_routes permission_routes
    mounted
places = refl

module _ {B : Type 0} (s : Services) (quiet : LeavesTables s.mailer) (decode : Decode B)
    (formats : Formats) (super_role version spec reference : String) where
  abbrev app : App B
  app = over s decode formats super_role version spec reference

  -- Neither place of the two kinds has an endpoint that writes users.
  ordinary_place :
      (m : Mounted)
      → not (is_public m.endpoint || not (is_administrative m)) || not (writes_users m.endpoint)
        ≡ true
      → (is_public m.endpoint ≡ true) ⊎ (is_administrative m ≡ false)
      → writes_users m.endpoint ≡ false
  ordinary_place m h (inl e) = ground arith
  ordinary_place m h (inr e) = ground arith

  matched-SameStanding :
      (draws : Draws) (path : String) (method : Method) (m : Mounted) (q : Request B) (w : World)
      → route_of path method ≡ some m
      → (bearer_token q ≡ none) ⊎ (is_administrative m ≡ false)
      → SameStanding w.tables (serve app draws m q w).1.tables
  unfolding route_of
  matched-SameStanding draws path method m q w found (inr elsewhere) =
      serve-SameStanding s quiet decode formats super_role version spec reference draws m q w (
        ordinary_place m (find-All _ _ (mounted mount) (all-All _ (mounted mount) places) found)
          (inr elsewhere))
  matched-SameStanding draws path method m q w found (inl bare) =
      elim (find-All _ _ (mounted mount) (mount-Refuses app draws) found) [
        | inl free ↦
            serve-SameStanding s quiet decode formats super_role version spec reference draws m q w
              (ordinary_place m
                (find-All _ _ (mounted mount) (all-All _ (mounted mount) places) found) (inl free))
        | inr refuses ↦ rw (refuses q w bare) (refl, refl)
      ]

  answer-SameStanding :
      (a : Asked B) (w : World)
      → Ordinary a
      → SameStanding w.tables (answer app a.draws (match_of a) a.request w).1.tables
  unfolding answer
  answer-SameStanding a w ordinary = elim (Option-cases a.template) [
    | inl e ↦ rw e (refl, refl)
    | inr (path, e) ↦ elim (Option-cases (route_of path a.method)) [
      | inl k ↦ rw (e, k) (refl, refl)
      | inr (m, k) ↦
          rw (e, k)
            (matched-SameStanding a.draws path a.method m a.request w k (rw (e, k) at ordinary))
    ]
  ]

  -- Where the mailer leaves the tables alone: whatever requests the server answers, one after the other,
  -- whatever they hold and whatever becomes of their calls to the database and of their mails, as long
  -- as each has no bearer token or does not call a place where users are created, changed or deleted:
  -- all users keep their ids, user names, addresses and statuses, no user comes or goes, and all roles
  -- are held as before.
  pub after_all-SameStanding :
      (asked : List (Asked B)) (w : World)
      → All Ordinary asked
      → SameStanding w.tables (after_all app asked w).tables
  after_all-SameStanding [] w h = (refl, refl)
  after_all-SameStanding (a ∷ rest) w (here, later) =
      let w' = (answer app a.draws (match_of a) a.request w).1 in
      SameStanding-trans w.tables w'.tables (after_all app rest w').tables
        (answer-SameStanding a w here) (after_all-SameStanding rest w' later)
