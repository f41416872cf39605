-- ===== src/Server/Rights.antt =====
-- Which requests cannot change who may do what.
use api_starter.Base.{String, Bool, true, false, ◌≡◌, refl, sym, ◌∙◌, arith}
use mathlib.Core.Path.{subst}
use api_starter.Database.{Tables}
use api_starter.Database.Effect.{World}
use api_starter.Database.Keeps.{Keeps-lift}
use api_starter.Database.Outcomes.{Gives-Keeps, Leaves-bind, Leaves-ret}
use api_starter.AuthHandlers
use api_starter.Extract.{json, validated_json}
use api_starter.Extract.Payloads.{Formats, validate_recovery}
use api_starter.Iam.Handlers
use api_starter.Iam.SelfService.{SameRights, patch_my_user-SameRights}
use api_starter.Rbac.Reads.{can_tables}
use api_starter.State.Accounts.{LeavesTables, recovery-Leaves}
use api_starter.State.Calls.{Services, users, sessions}
use api_starter.Server.{Request, auth_user}
use api_starter.Server.Routes
use api_starter.Server.Routes.{Endpoint, Mounted}
use api_starter.Server.Endpoints.{App, Draws, Answer, Decode, handle, serve}
use api_starter.Server.SafeMethods.{over, handle-Reads, only_reads}
use api_starter.Server.Stacks.{Serves, Reads-Serves, stack-Serves, on_payload}

-- The endpoints that set a password by a mailed token, and that create, change and delete users.
abbrev pub changes_rights : Endpoint → Bool
changes_rights Routes.password_reset = true
changes_rights Routes.user_create = true
changes_rights Routes.user_patch = true
changes_rights Routes.user_delete = true
changes_rights other = false

SameRights-trans : (t t' t'' : Tables) → SameRights t t' → SameRights t' t'' → SameRights t t''
SameRights-trans t t' t'' a b = (b.0 ∙ a.0, b.1 ∙ a.1)

module _ {B : Type 0} (s : Services) (quiet : LeavesTables s.mailer) (decode : Decode B)
    (formats : Formats) (super_role version spec reference : String) where
  abbrev app : App B
  app = over s decode formats super_role version spec reference

  module _ (start : Tables) where
    abbrev Q : Tables → Type 0
    Q = SameRights start

    reading : (draws : Draws) (e : Endpoint) → only_reads e ≡ true → Serves Q (handle app draws e)
    reading draws e h =
        Reads-Serves Q (handle-Reads s decode formats super_role version spec reference draws e h)

    handle-Serves :
        (draws : Draws) (e : Endpoint) → changes_rights e ≡ false → Serves Q (handle app draws e)
    unfolding handle AuthHandlers.password_recovery
    handle-Serves draws Routes.password_recovery h = record {
      serves = λ q w same.
          on_payload Q Answer.message w
            (validated_json decode.recovery (validate_recovery formats) q.rest) _ same
            λ p. Leaves-ret _ (
              recovery-Leaves s.crypto s.uuid s.jwt s.mailer s.token_ttl s.refresh_token_ttl Q
                w.tables same (λ rows t kept. kept) quiet draws.now draws.random p.email
                p.callback_uri);
    }
    handle-Serves draws Routes.patch_my_user h = record {
      serves = λ q w same. on_payload Q Answer.message w (auth_user q) _ same λ caller.
          Leaves-bind _ same (Gives-Keeps (Keeps-lift (json decode.update_user q.rest))) λ p any.
            record {
              left_as = λ v e.
                  SameRights-trans start v.tables
                    (Handlers.patch_my_user (users s) draws.salt caller p v).1.tables
                    (subst Q (sym e) same)
                    (patch_my_user-SameRights s.tables s.crypto s.report s.listing draws.salt caller
                      p v);
            };
    }
    handle-Serves draws Routes.password_reset h = absurd (ground arith)
    handle-Serves draws Routes.user_create h = absurd (ground arith)
    handle-Serves draws Routes.user_patch h = absurd (ground arith)
    handle-Serves draws Routes.user_delete h = absurd (ground arith)
    handle-Serves draws Routes.healthcheck h = reading draws Routes.healthcheck refl
    handle-Serves draws Routes.reference h = reading draws Routes.reference refl
    handle-Serves draws Routes.spec h = reading draws Routes.spec refl
    handle-Serves draws Routes.login h = reading draws Routes.login refl
    handle-Serves draws Routes.refresh_token h = reading draws Routes.refresh_token refl
    handle-Serves draws Routes.user_index h = reading draws Routes.user_index refl
    handle-Serves draws Routes.get_my_user h = reading draws Routes.get_my_user refl
    handle-Serves draws Routes.user_get h = reading draws Routes.user_get refl
    handle-Serves draws Routes.permission_index h = reading draws Routes.permission_index refl

  -- Where the mailer leaves the tables alone: a request to any route but those that set a password by a
  -- mailed token and that create, change and delete users, whatever its layers, its caller and the
  -- outcome of its calls, leaves all users their ids, names, addresses, password hashes and statuses,
  -- and all roles held as before.
  pub serve-SameRights :
      (draws : Draws) (m : Mounted) (q : Request B) (w : World)
      → changes_rights m.endpoint ≡ false
      → SameRights w.tables (serve app draws m q w).1.tables
  unfolding serve
  serve-SameRights draws m q w h =
      (stack-Serves (SameRights w.tables) app draws (λ token. (sessions s draws.now "" "" token).2)
          (can_tables super_role) m.layers _ (handle-Serves w.tables draws m.endpoint h)).serves
        q w (refl, refl)
