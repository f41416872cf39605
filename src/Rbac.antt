-- ===== src/Rbac.antt =====
-- src/package/rbac/mod.rs, permission.rs and engine.rs: what a role engine asks of its store, and
-- its decisions.
pub mod Postgres
pub mod Actions
pub mod Decisions
pub mod Reads
use api_starter.Base.{
  String, Bool, true, false, Option, none, some, List, [], ◌∷◌, Result, ok, err, any, contains,
  if◌then◌else◌,
}
use api_starter.Base.Text.{split_once}
use api_starter.Base.Dict
use api_starter.Base.Dict.{Dict}
use api_starter.Database.{Uuid}
use api_starter.Database.Errors.{SqlError}
use api_starter.Database.Effect.{World, Eff}

pub record Permission : Type 0 where
  pub resource : String
  pub name : String

-- The trait `Store`.
pub record Store : Type 0 where
  pub get_roles : Uuid → Eff SqlError (List String)
  pub get_permissions : Uuid → Eff SqlError (List Permission)
  pub has_permission : Uuid → String → String → Eff SqlError Bool

pub record RbacEngine : Type 0 where
  pub super_role : String
  pub store : Store

unfoldable pub split_action : String → Option (String × String)
unfolding split_once
split_action action = split_once b'.' action

-- A failing read denies.
abbrev allowed : {A : Type 0} → (A → Bool) → Result SqlError A × World → Bool × World
allowed test (ok a, w) = (test a, w)
allowed test (err e, w) = (false, w)

unfoldable pub role_bypass : RbacEngine → Uuid → World → Bool × World
role_bypass e user_id w =
    allowed (λ roles. contains roles e.super_role) (e.store.get_roles user_id w)

abbrev pub after_bypass : Bool × World → (World → Bool × World) → Bool × World
after_bypass (true, w) check = (true, w)
after_bypass (false, w) check = check w

-- The part of `can` behind the super role.
abbrev check_action : RbacEngine → Uuid → Option (String × String) → World → Bool × World
check_action e user_id none w = (false, w)
check_action e user_id (some (resource, permission)) w =
    allowed (λ b. b) (e.store.has_permission user_id resource permission w)

unfoldable pub can : RbacEngine → Uuid → String → World → Bool × World
unfolding role_bypass
can e user_id action w =
    after_bypass (role_bypass e user_id w) (check_action e user_id (split_action action))

-- The map of granted names by resource.
unfoldable pub grant_all : Dict (List String) → List Permission → Dict (List String)
grant_all granted [] = granted
grant_all granted (p ∷ ps) = grant_all (Dict.push p.resource p.name granted) ps

-- Whether an action splits into a resource and a name granted on it.
unfoldable pub is_granted : Dict (List String) → String → Bool
is_granted granted action = elim (split_action action) [
  | none ↦ false
  | some (resource, permission) ↦ elim (Dict.lookup resource granted) [
    | none ↦ false
    | some names ↦ contains names permission
  ]
]

unfoldable pub can_any : RbacEngine → Uuid → List String → World → Bool × World
unfolding role_bypass grant_all is_granted
can_any e user_id actions w = after_bypass (role_bypass e user_id w) λ w'.
    allowed (λ permissions. any (is_granted (grant_all [] permissions)) actions)
      (e.store.get_permissions user_id w')
