-- ===== src/State/Keys/Grants.antt =====
-- The grants that a statement adds.
use api_starter.Base.{
  String, ◌≡◌, inl, inr, Bool, true, false, not, ◌&&◌, ◌||◌, List, any, All, arith, nat_eq,
  is_empty, Bool-cases,
}
use api_starter.Base.Int.{int_eq, int_eq_refl}
use api_starter.Base.Pairwise.{
  Pairwise, All-map, All-weaken, All-every, All-keep, any-eq-false, any-of-each, Pairwise-keep,
  Pairwise-map, All-empty,
}
use api_starter.Database.{Uuid, Tables, RoleRow, UserHasRole}
use api_starter.Iam.Rows.{granted}
use api_starter.State.Keys.{same_grant, user_there, role_there}

module _ (id : Uuid) (names : List String) (t : Tables) where
  abbrev grant : RoleRow → UserHasRole
  grant r = record { user_id = id; role_id = r.id }

  -- The user does not hold a role.
  abbrev lacks : RoleRow → Bool
  lacks r = not (any (λ g. nat_eq g.user_id id && int_eq g.role_id r.id) t.user_has_roles)

  granted_there :
      user_there t.users id ≡ true
      → All (λ g. user_there t.users g.user_id ≡ true) (granted id names t)
  unfolding granted
  granted_there e = All-map _ grant _ (All-every _ _ (λ r. e))

  pub granted_holders :
      (is_empty (granted id names t) || user_there t.users id) ≡ true
      → All (λ g. user_there t.users g.user_id ≡ true) (granted id names t)
  granted_holders h = elim (Bool-cases (user_there t.users id)) [
    | inl e ↦ granted_there e
    | inr e ↦ All-empty _ (granted id names t) (ground arith)
  ]

  pub granted_held : All (λ g. role_there t.roles g.role_id ≡ true) (granted id names t)
  unfolding granted
  granted_held = All-map _ grant _ (
      All-keep _ _ t.roles (
        All-weaken _ _ t.roles (λ r h k. h)
          (any-of-each (λ r s. int_eq s.id r.id) t.roles (λ r. int_eq_refl r.id))))

  pub granted_pairwise :
      Pairwise (λ r s. int_eq r.id s.id ≡ false) t.roles
      → Pairwise (λ a b. same_grant a b ≡ false) (granted id names t)
  unfolding granted
  granted_pairwise h =
      Pairwise-map (λ r. Unit {0}) _ _ grant _ (λ r s p q apart. ground arith)
        (All-every _ _ (λ r. tt)) (Pairwise-keep _ _ t.roles h)

  pub granted_new :
      All (λ b. All (λ a. same_grant a b ≡ false) t.user_has_roles) (granted id names t)
  unfolding granted
  granted_new = All-map _ grant _ (
      All-keep _ _ t.roles
        (All-every _ t.roles (λ r passed. any-eq-false _ t.user_has_roles (ground arith))))
