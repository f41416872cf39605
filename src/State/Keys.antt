-- ===== src/State/Keys.antt =====
-- The keys that migrations/iam declares: what is unique, and what refers to what.
pub mod Rows
pub mod Grants
pub mod Kept
use api_starter.Base.{
  String, ◌≡◌, ◌≢◌, refl, sym, ◌∙◌, inl, inr, Bool, true, false, not, ◌&&◌, ◌||◌, some, List, [],
  ◌∷◌, ◌++◌, ok, map, any, find, All, All-append, any-append, arith, nat_eq, ◌==◌, eq_iff, is_empty,
  if◌then◌else◌, Bool-cases, Option-cases, ok_inj,
}
use mathlib.Core.Path.{subst}
use api_starter.Base.Int.{ℤ, int_eq, int_eq_refl}
use api_starter.Base.Pairwise.{
  Pairwise, All-map, All-weaken, All-every, All-zip, All-keep, any-eq-false, any-of-each,
  Pairwise-keep, Pairwise-append, Pairwise-map, All-empty, All-swap, find-passes,
}
use api_starter.Database.{Uuid, Tables, UserRow, RoleRow, UserHasRole}
use api_starter.Iam.Rows.{
  taken, refers, granted, delete_roles, update_row, insert_row, insert_roles, checked,
}
use api_starter.Database.Outcomes.{no_ok}
use api_starter.Auth.Postgres.{with_password}
use api_starter.State.Stable.{Stable, KeepsName}

-- The primary key and the two unique keys of `iam.users`.
pub record Apart (u v : UserRow) : Type 0 where
  pub ids : u.id ≢ v.id
  pub names : u.user_name ≢ v.user_name
  pub addresses : u.email ≢ v.email

abbrev pub same_grant : UserHasRole → UserHasRole → Bool
same_grant a b = nat_eq a.user_id b.user_id && int_eq a.role_id b.role_id

-- A user and a role are there: the foreign keys of `iam.user_has_roles`.
abbrev pub user_there : List UserRow → Uuid → Bool
user_there us id = any (λ u. nat_eq u.id id) us

abbrev pub role_there : List RoleRow → ℤ → Bool
role_there rs id = any (λ r. int_eq r.id id) rs

-- No id, user name or address is twice among the users, and no id among the roles; every user's
-- department and status are there; a user and a role that a grant names are there, and no user holds
-- a role twice.
pub record WellFormed (t : Tables) : Type 0 where
  pub users : Pairwise Apart t.users
  pub refer : All (λ u. refers u t ≡ true) t.users
  pub holders : All (λ g. user_there t.users g.user_id ≡ true) t.user_has_roles
  pub held : All (λ g. role_there t.roles g.role_id ≡ true) t.user_has_roles
  pub roles : Pairwise (λ r s. int_eq r.id s.id ≡ false) t.roles
  pub grants : Pairwise (λ a b. same_grant a b ≡ false) t.user_has_roles

pub unequal : (a b : String) → (a == b) ≡ false → a ≢ b
unequal a b h e = absurd (ground ((eq_iff a b).1 e, h, arith))
