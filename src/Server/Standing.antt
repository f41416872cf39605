-- ===== src/Server/Standing.antt =====
-- Which requests leave all users with their names, addresses and statuses, and with their roles.
use api_starter.Base.{
  String, Bool, true, false, ◌==◌, ◌≡◌, refl, sym, ap, ◌∙◌, ◌⊎◌, inl, inr, List, [], ◌∷◌, map,
  arith, if◌then◌else◌, Bool-cases,
}
use mathlib.Core.Path.{subst}
use api_starter.Base.Int.{ℤ}
use api_starter.Database.{Uuid, Tables, UserRow}
use api_starter.Database.Effect.{World}
use api_starter.Database.Outcomes.{Leaves-ret}
use api_starter.Auth.Postgres.{with_password}
use api_starter.AuthHandlers
use api_starter.Extract.{validated_json}
use api_starter.Extract.Payloads.{Formats, validate_reset}
use api_starter.Iam.SelfService.{Credentials, credentials, SameRights}
use api_starter.Rbac.Reads.{can_tables}
use api_starter.State.Accounts.{LeavesTables, reset-Leaves}
use api_starter.State.Calls.{Services, sessions}
use api_starter.Server.{Request}
use api_starter.Server.Routes
use api_starter.Server.Routes.{
  Method, Endpoint, Mounted, same_method, mounted, mount, route_of, iam_routes, auth_routes,
  docs_routes, health_routes, user_routes, permission_routes,
}
use api_starter.Server.Endpoints.{App, Draws, Answer, Decode, handle, serve}
use api_starter.Server.Rights.{changes_rights, serve-SameRights}
use api_starter.Server.SafeMethods.{over}
use api_starter.Server.Stacks.{Serves, stack-Serves, on_payload}

-- Who a user is, how it is addressed and whether it may sign in.
pub record Standing : Type 0 where
  pub id : Uuid
  pub user_name : String
  pub email : String
  pub status_id : ℤ

abbrev pub standing : UserRow → Standing
standing u = record { id = u.id; user_name = u.user_name; email = u.email; status_id = u.status_id }

-- Two states of the tables with the same users and the same roles held.
abbrev pub SameStanding : Tables → Tables → Type 0
SameStanding t t' =
    (map standing t'.users ≡ map standing t.users) × (t'.user_has_roles ≡ t.user_has_roles)

pub SameStanding-trans :
    (t t' t'' : Tables) → SameStanding t t' → SameStanding t' t'' → SameStanding t t''
SameStanding-trans t t' t'' a b = (b.0 ∙ a.0, b.1 ∙ a.1)

-- The endpoints that create, change and delete users.
abbrev pub writes_users : Endpoint → Bool
writes_users Routes.user_create = true
writes_users Routes.user_patch = true
writes_users Routes.user_delete = true
writes_users other = false

-- Another endpoint changes no rights, or sets a password by a mailed token.
kinds :
    (e : Endpoint)
    → writes_users e ≡ false
    → (changes_rights e ≡ false) ⊎ (e ≡ Routes.password_reset)
kinds Routes.password_reset h = inr refl
kinds Routes.user_create h = absurd (ground arith)
kinds Routes.user_patch h = absurd (ground arith)
kinds Routes.user_delete h = absurd (ground arith)
kinds Routes.password_recovery h = inl refl
kinds Routes.patch_my_user h = inl refl
kinds Routes.healthcheck h = inl refl
kinds Routes.reference h = inl refl
kinds Routes.spec h = inl refl
kinds Routes.login h = inl refl
kinds Routes.refresh_token h = inl refl
kinds Routes.user_index h = inl refl
kinds Routes.get_my_user h = inl refl
kinds Routes.user_get h = inl refl
kinds Routes.permission_index h = inl refl

without_password : Credentials → Standing
without_password c = record {
  id = c.id;
  user_name = c.user_name;
  email = c.email;
  status_id = c.status_id;
}

standing-credentials :
    (us : List UserRow) → map without_password (map credentials us) ≡ map standing us
unfolding without_password
standing-credentials [] = refl
standing-credentials (u ∷ us) = ap (λ rows. standing u ∷ rows) (standing-credentials us)

SameRights-SameStanding : (t t' : Tables) → SameRights t t' → SameStanding t t'
SameRights-SameStanding t t' h = (
  sym (standing-credentials t'.users)
      ∙ ap (map without_password) h.0
      ∙ standing-credentials t.users,
  h.1,
)

standing-rehashed :
    (address hash : String) (us : List UserRow)
    → map standing (map (λ u. if u.email == address then with_password hash u else u) us)
      ≡ map standing us
standing-rehashed address hash [] = refl
standing-rehashed address hash (u ∷ us) = elim (Bool-cases (u.email == address)) [
  | inl e ↦ rw e (ap (λ rows. standing u ∷ rows) (standing-rehashed address hash us))
  | inr e ↦ rw e (ap (λ rows. standing u ∷ rows) (standing-rehashed address hash us))
]

module _ {B : Type 0} (s : Services) (quiet : LeavesTables s.mailer) (decode : Decode B)
    (formats : Formats) (super_role version spec reference : String) where
  abbrev app : App B
  app = over s decode formats super_role version spec reference

  resets :
      (start : Tables) (draws : Draws)
      → Serves (SameStanding start) (handle app draws Routes.password_reset)
  unfolding handle AuthHandlers.password_reset
  resets start draws = record {
    serves = λ q w kept.
        on_payload (SameStanding start) Answer.message w
          (validated_json decode.reset (validate_reset s.tables) q.rest) _ kept
          λ p. Leaves-ret _ (
            reset-Leaves s.crypto s.uuid s.jwt s.mailer s.token_ttl s.refresh_token_ttl
              (SameStanding start) w.tables kept
              (λ address hash t same. (standing-rehashed address hash t.users ∙ same.0, same.1))
              (λ rows t same. same) draws.now draws.salt p.token p.password);
  }

  pub serve-SameStanding :
      (draws : Draws) (m : Mounted) (q : Request B) (w : World)
      → writes_users m.endpoint ≡ false
      → SameStanding w.tables (serve app draws m q w).1.tables
  unfolding serve
  serve-SameStanding draws m q w h = elim (kinds m.endpoint h) [
    | inl e ↦
        SameRights-SameStanding w.tables (serve app draws m q w).1.tables
          (serve-SameRights s quiet decode formats super_role version spec reference draws m q w e)
    | inr e ↦
        (stack-Serves (SameStanding w.tables) app draws
            (λ token. (sessions s draws.now "" "" token).2) (can_tables super_role) m.layers _
            (subst (λ x. Serves (SameStanding w.tables) (handle app draws x)) (sym e)
              (resets w.tables draws))).serves
          q w (refl, refl)
  ]
