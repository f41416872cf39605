-- ===== src/Server/Reading.antt =====
-- Stacks that leave the tables alone.
use api_starter.Base.{
  String, Bool, true, false, ◌≡◌, refl, ◌∙◌, List, [], ◌∷◌, Result, ok, err, ok_or,
}
use api_starter.Database.{Uuid}
use api_starter.Database.Effect.{World, Eff}
use api_starter.Database.Keeps.{Keeps, Keeps-bind, Keeps-lift, Keeps-on_error}
use api_starter.Errdef.{Error, unauthorized}
use api_starter.Errdef.Render.{Reply}
use api_starter.Response.{Response}
use api_starter.Pagination.{MetaData}
use api_starter.Auth.Service.{get_identity}
use api_starter.Rbac.{can}
use api_starter.Server.{Request, Next, authenticate, rbac_guard, respond, run_next, admit}
use api_starter.Server.Routes
use api_starter.Server.Routes.{
  Method, Endpoint, Layer, Mounted, mounted, mount, iam_routes, auth_routes, docs_routes,
  health_routes, user_routes, permission_routes,
}
use api_starter.Server.Endpoints.{App, Draws, Answer, run, failure, stack, around}

pub respond_tables :
    {R : Type 0} (render : Error → R) (p : Result Error R × World)
    → (respond render p).1.tables ≡ p.1.tables
respond_tables render (ok r, w) = refl
respond_tables render (err e, w) = refl

pub run_tables :
    {T : Type 0} (shape : Reply T MetaData → Answer) (w : World)
    (m : Eff Error (Response T MetaData))
    → Keeps m
    → (run shape w m).1.tables ≡ w.tables
run_tables shape w m h = respond_tables failure _ ∙ h.kept w

-- The rest of a stack leaves the tables alone.
pub record Reads {B : Type 0} (next : Next B Answer) : Type 0 where
  pub reads : (q : Request B) (w : World) → (next q w).1.tables ≡ w.tables

guard_tables :
    {B : Type 0} (next : Next B Answer) (q : Request B) (p : Bool × World)
    → Reads next
    → (admit next q p).1.tables ≡ p.1.tables
guard_tables next q (true, w) h = h.reads q w
guard_tables next q (false, w) h = refl

run_next-Keeps :
    {B : Type 0} (next : Next B Answer) (q : Request B) → Reads next → Keeps (run_next next q)
run_next-Keeps next q h = record { kept = h.reads q }

module _ {B : Type 0} (app : App B) (draws : Draws)
    (identities : (token : String)
      → Keeps (get_identity app.crypto app.uuid app.auth draws.now token))
    (decisions : (id : Uuid) (action : String) (w : World)
      → (can app.rbac id action w).1.tables ≡ w.tables) where
  guarded-Keeps :
      (action : String) (next : Next B Answer) (q : Request B)
      → Reads next
      → Keeps (rbac_guard (record { engine = app.rbac; action = action }) next q)
  unfolding rbac_guard
  guarded-Keeps action next q h =
      Keeps-bind {f = λ user w. admit next q (can app.rbac user.id action w)}
        (Keeps-lift (ok_or (unauthorized "unauthorized action") q.user))
        λ user. record {
          kept = λ w.
              guard_tables next q (can app.rbac user.id action w) h ∙ decisions user.id action w;
        }

  authenticated-Keeps :
      (next : Next B Answer) (q : Request B)
      → Reads next
      → Keeps (authenticate (get_identity app.crypto app.uuid app.auth draws.now) next q)
  unfolding authenticate
  authenticated-Keeps next q h =
      Keeps-bind (Keeps-lift _)
        λ token. Keeps-bind (Keeps-on_error _ (identities token)) λ user. run_next-Keeps next _ h

  around-Reads :
      (layer : Layer) (next : Next B Answer) → Reads next → Reads (around app draws layer next)
  around-Reads Routes.authenticate next h = record {
    reads = λ q w. respond_tables failure _ ∙ (authenticated-Keeps next q h).kept w;
  }
  around-Reads (Routes.rbac_guard action) next h = record {
    reads = λ q w. respond_tables failure _ ∙ (guarded-Keeps action next q h).kept w;
  }

  pub stack-Reads :
      (layers : List Layer) (next : Next B Answer)
      → Reads next
      → Reads (stack app draws layers next)
  unfolding stack
  stack-Reads [] next h = h
  stack-Reads (layer ∷ layers) next h = around-Reads layer _ (stack-Reads layers next h)
