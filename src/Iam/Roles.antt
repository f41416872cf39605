-- ===== src/Iam/Roles.antt =====
-- src/module/iam/adapter/repository/user.rs: which roles the two statements on `user_has_roles` give
-- and take, as src/package/rbac reads them.
use api_starter.Base.{
  ℕ, String, ◌≡◌, refl, ap, ◌∙◌, inl, inr, Bool, true, false, not, ◌&&◌, ◌||◌, ◌==◌, List, [], ◌∷◌,
  ◌++◌, any, keep, contains, All, arith, nat_eq, nat_eq_iff, Bool-cases, any-append, any-map,
  any-keep, any-and, eq_iff, ok, ok_inj, is_empty,
}
use mathlib.Core.Path.{fun_ext}
use api_starter.Base.Int.{int_eq, int_eq_iff}
use api_starter.Base.Pairwise.{Pairwise, All-weaken, All-zip}
use api_starter.Database.{Uuid, Tables, RoleRow, UserHasRole}
use api_starter.Database.Outcomes.{no_ok}
use api_starter.Iam.Rows.{granted, delete_roles, insert_roles}
use api_starter.Rbac.Postgres.{has_role}

-- No two roles have one id.
abbrev pub HasRoleKeys : List RoleRow → Type 0
HasRoleKeys rs = Pairwise (λ r s. int_eq r.id s.id ≡ false) rs

any-eq : {A : Type 0} (p q : A → Bool) (xs : List A) → All (λ x. p x ≡ q x) xs → any p xs ≡ any q xs
any-eq p q [] h = refl
any-eq p q (x ∷ xs) (here, rest) = rw (here, any-eq p q xs rest) refl

none_like :
    (q : RoleRow → Bool) (r : RoleRow) (rs : List RoleRow)
    → All (λ s. int_eq r.id s.id ≡ false) rs
    → any (λ s. q s && int_eq s.id r.id) rs ≡ false
none_like q r [] h = refl
none_like q r (s ∷ rs) (here, rest) = ground (arith, none_like q r rs rest)

-- A search by the id of a role finds that role.
any-by_id :
    (q : RoleRow → Bool) (rs : List RoleRow)
    → HasRoleKeys rs
    → All (λ r. any (λ s. q s && int_eq s.id r.id) rs ≡ q r) rs
any-by_id q [] h = tt
any-by_id q (r ∷ rs) (apart, keys) = (
  ground (arith, none_like q r rs apart),
  All-zip _ _ _ rs (λ s a ih. ground arith) apart (any-by_id q rs keys),
)

any-guarded :
    {A : Type 0} (b : Bool) (q p : A → Bool) (xs : List A)
    → any (λ x. q x && (b && p x)) xs ≡ (b && any (λ x. q x && p x) xs)
any-guarded b q p [] = ground arith
any-guarded b q p (x ∷ xs) = ground (arith, any-guarded b q p xs)

and_comm : (a b : Bool) → (a && b) ≡ (b && a)
and_comm a b = ground arith

both : (a b : Bool) → (a && b) ≡ true → (a ≡ true) × (b ≡ true)
both a b h = (ground arith, ground arith)

nat_eq_comm : (a b : ℕ) → nat_eq a b ≡ nat_eq b a
nat_eq_comm a b = ground arith

-- The user of a test is another one, or the test is the same.
new_grant :
    (same mine held named : Bool)
    → (same ≡ true → mine ≡ held)
    → (held || (same && (named && not mine))) ≡ (held || (same && named))
new_grant true mine held named h = ground (arith, h refl)
new_grant false mine held named h = ground arith

module _ (id : Uuid) (names : List String) (t : Tables) where
  abbrev grant : RoleRow → UserHasRole
  grant r = record { user_id = id; role_id = r.id }

  -- A role that is named, and that the user does not hold.
  abbrev lacking : RoleRow → Bool
  lacking r = contains names r.name && not (has_role t id r)

  abbrev pub with_granted : Tables
  with_granted = record t { user_has_roles = t.user_has_roles ++ granted id names t }

  has_role-granted :
      (other : Uuid)
      → HasRoleKeys t.roles
      → All
          (λ r.
            has_role with_granted other r
            ≡ (has_role t other r || (nat_eq id other && contains names r.name)))
          t.roles
  unfolding granted
  has_role-granted other keys =
      All-weaken _ _ t.roles
        (λ r found.
          any-append _ t.user_has_roles (granted id names t)
          ∙ rw
              (
                any-map (λ uhr. nat_eq uhr.user_id other && int_eq uhr.role_id r.id) grant
                    (keep lacking t.roles),
                any-keep (λ s. nat_eq id other && int_eq s.id r.id) lacking t.roles,
                any-guarded (nat_eq id other) lacking (λ s. int_eq s.id r.id) t.roles,
              )
              (ap (λ b. has_role t other r || (nat_eq id other && b)) found
                ∙ new_grant (nat_eq id other) (has_role t id r) (has_role t other r)
                    (contains names r.name)
                    (λ e. ap (λ i. has_role t i r) ((nat_eq_iff id other).0 e))))
        (any-by_id lacking t.roles keys)

  abbrev named_grant : UserHasRole → Bool
  named_grant g =
      nat_eq g.user_id id && any (λ s. int_eq s.id g.role_id && contains names s.name) t.roles

  named_grant_lem :
      (other : Uuid) (r : RoleRow) (g : UserHasRole)
      → any (λ s. contains names s.name && int_eq s.id r.id) t.roles ≡ contains names r.name
      → g.user_id ≡ other
      → g.role_id ≡ r.id
      → named_grant g ≡ (nat_eq id other && contains names r.name)
  named_grant_lem other r g found user role =
      ap (λ u. nat_eq u id && any (λ s. int_eq s.id g.role_id && contains names s.name) t.roles)
        user
      ∙ ap (λ k. nat_eq other id && any (λ s. int_eq s.id k && contains names s.name) t.roles) role
      ∙ ap (λ p. nat_eq other id && any p t.roles)
          (fun_ext (λ s. and_comm (int_eq s.id r.id) (contains names s.name)))
      ∙ ap (λ b. nat_eq other id && b) found
      ∙ ap (λ b. b && contains names r.name) (nat_eq_comm other id)

  taken_away :
      (other : Uuid) (r : RoleRow) (g : UserHasRole)
      → any (λ s. contains names s.name && int_eq s.id r.id) t.roles ≡ contains names r.name
      → (not (named_grant g) && (nat_eq g.user_id other && int_eq g.role_id r.id)) ≡ (
          (nat_eq g.user_id other && int_eq g.role_id r.id)
          && not (nat_eq id other && contains names r.name))
  taken_away other r g found = elim (Bool-cases (nat_eq g.user_id other && int_eq g.role_id r.id)) [
    | inl e ↦
        let (user, role) = both (nat_eq g.user_id other) (int_eq g.role_id r.id) e in
        let named =
          named_grant_lem other r g found ((nat_eq_iff g.user_id other).0 user)
            ((int_eq_iff g.role_id r.id).0 role) in
        rw (e, named) (ground arith)
    | inr e ↦ rw e (ground arith)
  ]

  has_role-delete_roles :
      (other : Uuid)
      → HasRoleKeys t.roles
      → All
          (λ r.
            has_role (delete_roles id names t) other r
            ≡ (has_role t other r && not (nat_eq id other && contains names r.name)))
          t.roles
  unfolding delete_roles
  has_role-delete_roles other keys =
      All-weaken _ _ t.roles
        (λ r found.
          any-keep _ _ t.user_has_roles
          ∙ ap (λ p. any p t.user_has_roles) (fun_ext (λ g. taken_away other r g found))
          ∙ any-and (not (nat_eq id other && contains names r.name))
              (λ uhr. nat_eq uhr.user_id other && int_eq uhr.role_id r.id) t.user_has_roles)
        (any-by_id (λ s. contains names s.name) t.roles keys)

-- A user holds a role of a name.
abbrev pub holds_role : Uuid → String → Tables → Bool
holds_role id name t = any (λ r. has_role t id r && r.name == name) t.roles

-- There is a role of a name.
abbrev pub role_named : String → Tables → Bool
role_named name t = any (λ r. r.name == name) t.roles

any-or :
    {A : Type 0} (p q : A → Bool) (xs : List A) → any (λ x. p x || q x) xs ≡ (any p xs || any q xs)
any-or p q [] = refl
any-or p q (x ∷ xs) = ground (arith, any-or p q xs)

contains_of_eq :
    (names : List String) (own name : String)
    → (own == name) ≡ true
    → contains names own ≡ contains names name
contains_of_eq names own name e = ap (contains names) ((eq_iff own name).0 e)

-- Where a test has passed, the name of a row is the one that is asked for.
gained :
    (held mine own named eq : Bool)
    → (eq ≡ true → own ≡ named)
    → ((held || (mine && own)) && eq) ≡ ((held && eq) || (eq && (mine && named)))
gained held mine own named true h = ground (arith, h refl)
gained held mine own named false h = ground arith

lost :
    (held mine own named eq : Bool)
    → (eq ≡ true → own ≡ named)
    → ((held && not (mine && own)) && eq) ≡ ((held && eq) && not (mine && named))
lost held mine own named true h = ground (arith, h refl)
lost held mine own named false h = ground arith

module _ (id : Uuid) (names : List String) (t : Tables) (keys : HasRoleKeys t.roles) where
  -- What a grant makes of the roles that are held.
  pub holds_role-granted :
      (other : Uuid) (name : String)
      → holds_role other name (with_granted id names t) ≡ (
          holds_role other name t
          || (role_named name t && (nat_eq id other && contains names name)))
  holds_role-granted other name =
      any-eq _
        (λ r.
          (has_role t other r && r.name == name)
          || (r.name == name && (nat_eq id other && contains names name)))
        t.roles
        (All-weaken _ _ t.roles
          (λ r h. rw h (
            gained (has_role t other r) (nat_eq id other) (contains names r.name)
              (contains names name) (r.name == name) (contains_of_eq names r.name name)))
          (has_role-granted id names t other keys))
      ∙ any-or (λ r. has_role t other r && r.name == name)
          (λ r. r.name == name && (nat_eq id other && contains names name)) t.roles
      ∙ ap (λ b. holds_role other name t || b)
          (any-and (nat_eq id other && contains names name) (λ r. r.name == name) t.roles)

  -- What a removal makes of them.
  pub holds_role-delete_roles :
      (other : Uuid) (name : String)
      → holds_role other name (delete_roles id names t)
        ≡ (holds_role other name t && not (nat_eq id other && contains names name))
  unfolding delete_roles
  holds_role-delete_roles other name =
      any-eq _
        (λ r.
          (has_role t other r && r.name == name) && not (nat_eq id other && contains names name))
        t.roles
        (All-weaken _ _ t.roles
          (λ r h. rw h (
            lost (has_role t other r) (nat_eq id other) (contains names r.name)
              (contains names name) (r.name == name) (contains_of_eq names r.name name)))
          (has_role-delete_roles id names t other keys))
      ∙ any-and (not (nat_eq id other && contains names name))
          (λ r. has_role t other r && r.name == name) t.roles

pub insert_roles-eq-ok :
    (report : String → String) (id : Uuid) (names : List String) (tx : Tables) {after : Tables}
    → insert_roles report id names tx ≡ ok after
    → with_granted id names tx ≡ after
unfolding insert_roles
insert_roles-eq-ok report id names tx h =
    elim (Bool-cases (is_empty (granted id names tx) || any (λ u. nat_eq u.id id) tx.users)) [
      | inl e ↦ ok_inj (rw (e, insert_roles) at h)
      | inr e ↦ absurd (no_ok (rw (e, insert_roles) at h))
    ]
