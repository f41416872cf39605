-- ===== src/Server/Stacks.antt =====
-- What a stack of layers keeps of the tables, over what the rest of it keeps.
use api_starter.Base.{
  String, Bool, true, false, ◌≡◌, refl, sym, ◌∙◌, List, [], ◌∷◌, ok_or, some, Result,
}
use mathlib.Core.Path.{subst}
use api_starter.Database.{Uuid, Tables}
use api_starter.Database.Effect.{World, Eff, lift, ◌>>=◌, on_error}
use api_starter.Database.Keeps.{Keeps, Keeps-lift, Keeps-on_error}
use api_starter.Database.Outcomes.{Gives-Keeps, Leaves, Leaves-bind}
use api_starter.Errdef.{Error, unauthorized, with_cause}
use api_starter.Errdef.Render.{to_string, Reply}
use api_starter.Response.{Response}
use api_starter.Pagination.{MetaData}
use api_starter.Auth.Service.{get_identity}
use api_starter.Rbac.{can}
use api_starter.Server.{Request, Next, bearer_token, authenticate, rbac_guard, run_next, admit}
use api_starter.Server.Routes
use api_starter.Server.Routes.{Layer}
use api_starter.Server.Endpoints.{App, Draws, Answer, failure, stack, around, run}
use api_starter.Server.Reading.{Reads, respond_tables}

-- Whatever the request, the rest of a stack leaves tables with a property where it finds such.
pub record Serves {B : Type 0} (Q : Tables → Type 0) (next : Next B Answer) : Type 0 where
  pub serves : (q : Request B) (w : World) → Q w.tables → Q (next q w).1.tables

pub Reads-Serves :
    {B : Type 0} (Q : Tables → Type 0) {next : Next B Answer} → Reads next → Serves Q next
Reads-Serves Q h = record { serves = λ q w kept. subst Q (sym (h.reads q w)) kept }

module _ {B : Type 0} (Q : Tables → Type 0) where
  guard_keeps :
      (next : Next B Answer) (q : Request B) (p : Bool × World)
      → Serves Q next
      → Q p.1.tables
      → Q (admit next q p).1.tables
  guard_keeps next q (true, w) h kept = h.serves q w kept
  guard_keeps next q (false, w) h kept = kept

  run_next-Leaves :
      (next : Next B Answer) (q : Request B) (t : Tables)
      → Serves Q next
      → Q t
      → Leaves t Q (run_next next q)
  run_next-Leaves next q t h kept = record { left_as = λ w e. h.serves q w (subst Q (sym e) kept) }

module _ {B : Type 0} (Q : Tables → Type 0) (app : App B) (draws : Draws)
    (identities : (token : String)
      → Keeps (get_identity app.crypto app.uuid app.auth draws.now token))
    (decisions : (id : Uuid) (action : String) (w : World)
      → (can app.rbac id action w).1.tables ≡ w.tables) where
  guarded-Leaves :
      (action : String) (next : Next B Answer) (q : Request B) (t : Tables)
      → Serves Q next
      → Q t
      → Leaves t Q (rbac_guard (record { engine = app.rbac; action = action }) next q)
  unfolding rbac_guard
  guarded-Leaves action next q t h kept =
      Leaves-bind {f = λ user w. admit next q (can app.rbac user.id action w)} _ kept
        (Gives-Keeps (Keeps-lift (ok_or (unauthorized "unauthorized action") q.user)))
        λ user any. record {
          left_as = λ w e.
              guard_keeps Q next q (can app.rbac user.id action w) h
                (subst Q (sym (decisions user.id action w ∙ e)) kept);
        }

  authenticated-Leaves :
      (next : Next B Answer) (q : Request B) (t : Tables)
      → Serves Q next
      → Q t
      → Leaves t Q (authenticate (get_identity app.crypto app.uuid app.auth draws.now) next q)
  unfolding authenticate
  authenticated-Leaves next q t h kept =
      Leaves-bind
        {f = λ token.
          on_error (λ e. with_cause (unauthorized "malformed or missing jwt token") (to_string e))
            (get_identity app.crypto app.uuid app.auth draws.now token)
          >>= λ user. run_next next (record q { user = some user })}
        _ kept
        (Gives-Keeps
          (Keeps-lift (ok_or (unauthorized "malformed or missing jwt token") (bearer_token q))))
        λ token named.
          Leaves-bind {f = λ user. run_next next (record q { user = some user })} _ kept
            (Gives-Keeps (
              Keeps-on_error
                (λ e. with_cause (unauthorized "malformed or missing jwt token") (to_string e))
                (identities token)))
            λ user known. run_next-Leaves Q next (record q { user = some user }) t h kept

  around-Serves :
      (layer : Layer) (next : Next B Answer)
      → Serves Q next
      → Serves Q (around app draws layer next)
  around-Serves Routes.authenticate next h = record {
    serves = λ q w kept.
        subst Q (sym (respond_tables failure _))
          ((authenticated-Leaves next q w.tables h kept).left_as w refl);
  }
  around-Serves (Routes.rbac_guard action) next h = record {
    serves = λ q w kept.
        subst Q (sym (respond_tables failure _))
          ((guarded-Leaves action next q w.tables h kept).left_as w refl);
  }

  pub stack-Serves :
      (layers : List Layer) (next : Next B Answer)
      → Serves Q next
      → Serves Q (stack app draws layers next)
  unfolding stack
  stack-Serves [] next h = h
  stack-Serves (layer ∷ layers) next h = around-Serves layer _ (stack-Serves layers next h)

module _ (Q : Tables → Type 0) where
  pub on_run :
      {T : Type 0} (shape : Reply T MetaData → Answer) (w : World)
      (m : Eff Error (Response T MetaData))
      → Leaves w.tables Q m
      → Q (run shape w m).1.tables
  on_run shape w m h = subst Q (sym (respond_tables failure _)) (h.left_as w refl)

  -- What an extractor gives, and a handler on it.
  pub on_payload :
      {P T : Type 0} (shape : Reply T MetaData → Answer) (w : World) (r : Result Error P)
      (f : P → Eff Error (Response T MetaData))
      → Q w.tables
      → ((p : P) → Leaves w.tables Q (f p))
      → Q (run shape w (lift r >>= f)).1.tables
  on_payload shape w r f kept h =
      on_run shape w (lift r >>= f)
        (Leaves-bind {f = f} (λ p. Unit {0}) kept (Gives-Keeps (Keeps-lift r)) λ p any. h p)
