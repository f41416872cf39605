-- ===== src/State/Calls.antt =====
-- The operations of both services as calls, and the tables that sequences of calls reach. Each call
-- is made at its own time, and any of its calls to the database may fail.
use api_starter.Base.{ℕ, String, refl, sym, List, [], ◌∷◌, ok}
use mathlib.Core.Path.{subst}
use api_starter.Base.Int.{ℤ}
use api_starter.Base.Chars.{CharTables}
use api_starter.Database.{Uuid, DateTime, Tables}
use api_starter.Database.Effect.{World}
use api_starter.Database.Keeps.{Keeps, Keeps-bind, Keeps-lift, Keeps-query, Keeps-on_error}
use api_starter.External.{Crypto, UuidText}
use api_starter.Jwt.{TokenGenerator}
use api_starter.Auth.{Emailer}
use api_starter.Auth.Postgres.{over_tables}
use api_starter.Auth.Service.{AuthService}
use api_starter.Auth.Service
use api_starter.Iam.{CreateUser, UpdateUser, UserService}
use api_starter.Iam.Users.{Listing, JoinedRow, postgres_users, with_all_roles}
use api_starter.Iam.Users
use api_starter.Iam.Service.{user_service, map_domain_error}
use api_starter.Iam.Service as IamService
use api_starter.Iam.Atomicity.{postgres_users-Transactional, require_user-Keeps, with_roles-Keeps}
use api_starter.Pagination.{ListRequest, new_page}
use api_starter.State.Stable.{Stable, create-Leaves, partial_update-Leaves, delete-Leaves}
use api_starter.State.Accounts.{
  LeavesTables, sessions-Keeps, password_recovery-Leaves, reset_password-Leaves,
}
use api_starter.State.Keys.{WellFormed}
use api_starter.State.Keys.Kept.{WellFormed-Stable}

-- A call of an operation, with what the source draws at random.
pub data Call : Type 0 where
  login : String → String → Call
  refresh_token : String → Call
  get_identity : String → Call
  password_recovery : List ℕ → String → String → Call
  reset_password : String → String → String → Call
  index : ListRequest → Call
  find_by_id : Uuid → Call
  create : Uuid → String → CreateUser → Call
  partial_update : String → Uuid → UpdateUser → Call
  delete : Uuid → Call

-- Both services over the tables, with what they are made of.
pub record Services : Type 0 where
  pub tables : CharTables
  pub crypto : Crypto
  pub uuid : UuidText
  pub jwt : TokenGenerator
  pub mailer : Emailer
  pub token_ttl : ℤ
  pub refresh_token_ttl : ℤ
  pub report : String → String
  pub listing : Listing

abbrev pub auth : Services → AuthService
auth s = over_tables s.jwt s.mailer s.token_ttl s.refresh_token_ttl

abbrev pub users : Services → UserService
users s = user_service s.tables s.crypto (postgres_users s.report s.listing)

-- The tables that a call leaves.
unfoldable pub left : Services → DateTime → Call → World → Tables
left s now (login email password) w =
    (Service.login s.crypto s.uuid (auth s) now email password w).1.tables
left s now (refresh_token token) w =
    (Service.refresh_token s.crypto s.uuid (auth s) now token w).1.tables
left s now (get_identity token) w =
    (Service.get_identity s.crypto s.uuid (auth s) now token w).1.tables
left s now (password_recovery random email uri) w =
    (Service.password_recovery s.crypto s.uuid (auth s) now random email uri w).1.tables
left s now (reset_password salt token password) w =
    (Service.reset_password s.crypto s.uuid (auth s) now salt token password w).1.tables
left s now (index request) w = ((users s).index request w).1.tables
left s now (find_by_id id) w = ((users s).find_by_id id w).1.tables
left s now (create fresh salt user) w = ((users s).create fresh salt user w).1.tables
left s now (partial_update salt id update) w = ((users s).partial_update salt id update w).1.tables
left s now (delete id) w = ((users s).delete id w).1.tables

pub data Reach (s : Services) (start : Tables) : Tables → Type 0 where
  here : Reach s start start
  next :
      (w : World) (now : DateTime) (call : Call)
      → Reach s start w.tables
      → Reach s start (left s now call w)

with_all_roles-Keeps : (rows : List JoinedRow) → Keeps (with_all_roles rows)
unfolding with_all_roles
with_all_roles-Keeps [] = record { kept = λ w. refl }
with_all_roles-Keeps (row ∷ rows) =
    Keeps-bind (with_roles-Keeps row)
      λ user. Keeps-bind (with_all_roles-Keeps rows) λ others. Keeps-lift (ok (user ∷ others))

index-Keeps :
    (report : String → String) (listing : Listing) (request : ListRequest)
    → Keeps (Users.index report listing request)
unfolding Users.index
index-Keeps report listing request = Keeps-bind (Keeps-on_error _ (Keeps-query _)) λ count.
    Keeps-bind (Keeps-on_error _ (Keeps-query _)) λ rows.
      Keeps-bind (Keeps-on_error _ (with_all_roles-Keeps rows))
        λ found. Keeps-lift (ok (found, count))

module _ (s : Services) where
  pub sessions :
      (now : DateTime) (email password token : String)
      → Keeps (Service.login s.crypto s.uuid (auth s) now email password)
        × Keeps (Service.refresh_token s.crypto s.uuid (auth s) now token)
        × Keeps (Service.get_identity s.crypto s.uuid (auth s) now token)
  sessions = sessions-Keeps s.crypto s.uuid s.jwt s.mailer s.token_ttl s.refresh_token_ttl

  pub list-Keeps : (request : ListRequest) → Keeps ((users s).index request)
  unfolding user_service IamService.index postgres_users
  list-Keeps request =
      Keeps-bind (Keeps-on_error map_domain_error (index-Keeps s.report s.listing request))
        λ found. Keeps-lift (ok (new_page found.0 found.1 request.page request.per_page))

  pub find-Keeps : (id : Uuid) → Keeps ((users s).find_by_id id)
  unfolding user_service
  find-Keeps id =
      require_user-Keeps s.tables s.crypto _ (postgres_users-Transactional s.report s.listing) id

module _ (s : Services) (quiet : LeavesTables s.mailer) where
  -- A property that every statement keeps survives every call.
  pub left-Stable :
      (Q : Tables → Type 0) (stable : Stable s.report Q) (w : World) (now : DateTime) (call : Call)
      → Q w.tables
      → Q (left s now call w)
  unfolding left
  left-Stable Q stable w now (login email password) q =
      subst Q (sym ((sessions s now email password "").0.kept w)) q
  left-Stable Q stable w now (refresh_token token) q =
      subst Q (sym ((sessions s now "" "" token).1.kept w)) q
  left-Stable Q stable w now (get_identity token) q =
      subst Q (sym ((sessions s now "" "" token).2.kept w)) q
  left-Stable Q stable w now (password_recovery random email uri) q =
      (password_recovery-Leaves s.crypto s.uuid s.jwt s.mailer s.token_ttl s.refresh_token_ttl
          s.report Q stable w.tables q quiet now random email uri).left_as
        w refl
  left-Stable Q stable w now (reset_password salt token password) q =
      (reset_password-Leaves s.crypto s.uuid s.jwt s.mailer s.token_ttl s.refresh_token_ttl s.report
          Q stable w.tables q now salt token password).left_as
        w refl
  left-Stable Q stable w now (index request) q = subst Q (sym ((list-Keeps s request).kept w)) q
  left-Stable Q stable w now (find_by_id id) q = subst Q (sym ((find-Keeps s id).kept w)) q
  left-Stable Q stable w now (create fresh salt user) q =
      (create-Leaves s.report Q stable s.tables s.crypto s.listing w.tables q fresh salt
          user).left_as
        w refl
  left-Stable Q stable w now (partial_update salt id update) q =
      (partial_update-Leaves s.report Q stable s.tables s.crypto s.listing w.tables q salt id
          update).left_as
        w refl
  left-Stable Q stable w now (delete id) q =
      (delete-Leaves s.report Q stable s.tables s.crypto s.listing w.tables q id).left_as w refl

  pub Reach-Stable :
      (Q : Tables → Type 0) (stable : Stable s.report Q) {start t : Tables}
      → Q start
      → Reach s start t
      → Q t
  Reach-Stable Q stable q here = q
  Reach-Stable Q stable q (next w now call r) =
      left-Stable Q stable w now call (Reach-Stable Q stable q r)

  -- Whatever is asked of the services, in whatever order and whatever becomes of their calls to the
  -- database, if the mailer leaves the tables alone then every state reached from tables with their
  -- keys has its keys: no id, user name or address is twice among the users, every user's department
  -- and status are there, every grant names a user and a role that are there, and no user holds a
  -- role twice.
  pub Reach-WellFormed : {start t : Tables} → WellFormed start → Reach s start t → WellFormed t
  Reach-WellFormed = Reach-Stable WellFormed (WellFormed-Stable s.report)
