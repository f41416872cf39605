-- ===== src/Iam/RoleChanges.antt =====
-- Which roles an update of src/module/iam/core/service/user.rs leaves to whom.
use api_starter.Base.{
  String, ◌≡◌, refl, sym, ap, ◌∙◌, inl, inr, Bool, false, not, ◌&&◌, ◌||◌, Option, none, some, List,
  [], ◌∷◌, any, contains, ◌==◌, arith, nat_eq, ok, ok_inj,
}
use mathlib.Core.Path.{subst}
use api_starter.Base.Chars.{CharTables}
use api_starter.Database.{Uuid, Tables}
use api_starter.Database.Effect.{World}
use api_starter.Database.Outcomes.{
  Gives, Gives-on_error, Gives-execute_in, Gives-begin, Gives-Keeps, Gives-if, Gives-bind,
  Gives-lift, Gives-lift_if,
}
use api_starter.Database.Ends.{Ends, Ends-bind, Ends-commit}
use api_starter.External.{Crypto}
use api_starter.Auth.Service.{sql_unknown}
use api_starter.Iam.{UpdateUser, UserService, has_no_column_changes}
use api_starter.Iam.Rows.{delete_roles, insert_roles, set_columns, update_row}
use api_starter.Iam.Sql.{assignments}
use api_starter.Iam.Users.{Listing, postgres_users}
use api_starter.Iam.Users
use api_starter.Iam.Roles.{
  HasRoleKeys, holds_role, role_named, with_granted, holds_role-granted, holds_role-delete_roles,
  insert_roles-eq-ok,
}
use api_starter.Iam.Hashing.{hash_update-hashed}
use api_starter.Iam.Service
use api_starter.Iam.Service.{user_service, map_domain_error, if_given, hash_update}
use api_starter.Iam.Atomicity.{postgres_users-Transactional, require_user-Keeps}
use api_starter.Iam.SelfService.{update_row-eq-ok}

-- An update asks for a role, to give or to take.
abbrev pub asked : Option (List String) → String → Bool
asked none name = false
asked (some names) name = contains names name

-- The table of roles is the same, and who holds a role of which name is given by a function.
abbrev pub RolesAre : Tables → (Uuid → String → Bool) → Tables → Type 0
RolesAre t f after =
    (after.roles ≡ t.roles)
    × ((other : Uuid) (name : String) → holds_role other name after ≡ f other name)

-- Who holds what once a user has been given roles, and then once roles have been taken from it.
abbrev pub once_added : Tables → Uuid → Option (List String) → Uuid → String → Bool
once_added t id add other name =
    holds_role other name t || (role_named name t && (nat_eq id other && asked add name))

abbrev pub once_removed :
    Tables → Uuid → Option (List String) → Option (List String) → Uuid → String → Bool
once_removed t id add remove other name =
    once_added t id add other name && not (nat_eq id other && asked remove name)

unasked : (held named mine : Bool) → held ≡ (held || (named && (mine && false)))
unasked held named mine = ground arith

untaken : (held mine : Bool) → held ≡ (held && not (mine && false))
untaken held mine = ground arith

module _ (report : String → String) (t : Tables) (keys : HasRoleKeys t.roles) (id : Uuid) where
  with_granted-RolesAre :
      (names : List String) (tx : Tables)
      → RolesAre t (λ other name. holds_role other name t) tx
      → RolesAre t (once_added t id (some names)) (with_granted id names tx)
  with_granted-RolesAre names tx (same, held) = (
    same,
    λ other name.
        holds_role-granted id names tx (subst HasRoleKeys (sym same) keys) other name
        ∙ rw (held other name, ap (any (λ r. r.name == name)) same) refl,
  )

  delete_roles-RolesAre :
      (add : Option (List String)) (names : List String) (tx : Tables)
      → RolesAre t (once_added t id add) tx
      → RolesAre t (once_removed t id add (some names)) (delete_roles id names tx)
  unfolding delete_roles
  delete_roles-RolesAre add names tx (same, held) = (
    same,
    λ other name.
        holds_role-delete_roles id names tx (subst HasRoleKeys (sym same) keys) other name
        ∙ rw (held other name) refl,
  )

  add_user_roles-Gives :
      (names : List String) (tx : Tables)
      → RolesAre t (λ other name. holds_role other name t) tx
      → Gives t
          (RolesAre t (once_added t id (some names)))
          (Users.add_user_roles report tx id names)
  unfolding Users.add_user_roles
  add_user_roles-Gives [] tx (same, held) = Gives-lift _ (
    same,
    λ other name.
        held other name ∙ unasked (holds_role other name t) (role_named name t) (nat_eq id other),
  )
  add_user_roles-Gives (n ∷ names) tx before = Gives-on_error _ (
      Gives-execute_in _ tx (insert_roles report id (n ∷ names)) (λ after done.
        subst (RolesAre t (once_added t id (some (n ∷ names))))
          (insert_roles-eq-ok report id (n ∷ names) tx done)
          (with_granted-RolesAre (n ∷ names) tx before)))

  remove_user_roles-Gives :
      (add : Option (List String)) (names : List String) (tx : Tables)
      → RolesAre t (once_added t id add) tx
      → Gives t
          (RolesAre t (once_removed t id add (some names)))
          (Users.remove_user_roles report tx id names)
  unfolding Users.remove_user_roles
  remove_user_roles-Gives add [] tx (same, held) =
      Gives-lift _ (same, λ other name. held other name ∙ untaken _ (nat_eq id other))
  remove_user_roles-Gives add (n ∷ names) tx before = Gives-on_error _ (
      Gives-execute_in _ tx (λ t. ok (delete_roles id (n ∷ names) t))
        (λ after done.
          subst (RolesAre t (once_removed t id add (some (n ∷ names)))) (ok_inj done)
            (delete_roles-RolesAre add (n ∷ names) tx before)))

  added-Gives :
      (add : Option (List String)) (tx : Tables)
      → RolesAre t (λ other name. holds_role other name t) tx
      → Gives t
          (RolesAre t (once_added t id add))
          (if_given tx add (Users.add_user_roles report tx id))
  added-Gives none tx (same, held) =
      Gives-lift _
        (same, λ other name. held other name ∙ unasked _ (role_named name t) (nat_eq id other))
  added-Gives (some names) tx before = Gives-on_error _ (add_user_roles-Gives names tx before)

  removed-Gives :
      (add remove : Option (List String)) (tx : Tables)
      → RolesAre t (once_added t id add) tx
      → Gives t
          (RolesAre t (once_removed t id add remove))
          (if_given tx remove (Users.remove_user_roles report tx id))
  removed-Gives add none tx (same, held) =
      Gives-lift _ (same, λ other name. held other name ∙ untaken _ (nat_eq id other))
  removed-Gives add (some names) tx before =
      Gives-on_error _ (remove_user_roles-Gives add names tx before)

  -- The columns of a user have nothing to do with its roles.
  partial_update-Gives :
      (tx : Tables) (fields : UpdateUser)
      → t ≡ tx
      → Gives t
          (RolesAre t (λ other name. holds_role other name t))
          (Users.partial_update report tx id fields)
  unfolding Users.partial_update
  partial_update-Gives tx fields e =
      Gives-if (has_no_column_changes fields)
        (Gives-lift _
          (subst (RolesAre t (λ other name. holds_role other name t)) e (refl, λ o n. refl)))
        (Gives-bind (λ cs. Unit {0}) (Gives-lift_if {r = assignments fields} (λ cs h. tt))
          λ changes any_changes. Gives-on_error (Users.update_error report) (
            Gives-execute_in _ tx (update_row report id (set_columns changes)) (λ after done.
              elim (update_row-eq-ok report id (set_columns changes) t (rw (sym e) at done)) [
                | inl k ↦
                    subst (RolesAre t (λ other name. holds_role other name t)) k (refl, λ o n. refl)
                | inr k ↦
                    subst (RolesAre t (λ other name. holds_role other name t)) k (refl, λ o n. refl)
              ])))

module _ (tables : CharTables) (crypto : Crypto) (report : String → String)
    (listing : Listing) where
  -- The hash of a new password stands in for it; the roles that are asked for stay.
  hash_update-eq-ok :
      (salt : String) (update fields : UpdateUser)
      → hash_update tables crypto (postgres_users report listing) salt update ≡ ok fields
      → (fields.add_roles ≡ update.add_roles) × (fields.remove_roles ≡ update.remove_roles)
  hash_update-eq-ok salt update fields h =
      let same = (hash_update-hashed tables crypto _ salt update fields h).0 in
      (ap (λ u. u.add_roles) (sym same), ap (λ u. u.remove_roles) (sym same))

  abbrev service : UserService
  service = user_service tables crypto (postgres_users report listing)

  -- Whatever becomes of its calls, an update that succeeds, where no two roles have one id, leaves the
  -- table of roles as it was, and exactly these holders of a role of each name: the user that is
  -- updated, if it held one before or the update adds the name and there is a role of it, unless the
  -- update removes the name too; and of the other users those that held one before.
  pub partial_update-RolesAre :
      (salt : String) (id : Uuid) (update : UpdateUser) (w : World)
      → HasRoleKeys w.tables.roles
      → (service.partial_update salt id update w).0 ≡ ok tt
      → RolesAre w.tables
          (once_removed w.tables id update.add_roles update.remove_roles)
          (service.partial_update salt id update w).1.tables
  unfolding user_service Service.partial_update postgres_users
  partial_update-RolesAre salt id update w keys done = ends.ends_as w refl tt done
    where
      ends :
          Ends w.tables
            (RolesAre w.tables (once_removed w.tables id update.add_roles update.remove_roles))
            (service.partial_update salt id update)
      ends =
          Ends-bind _
            (Gives-Keeps
              (require_user-Keeps tables crypto _ (postgres_users-Transactional report listing) id))
            λ user any_user.
              Ends-bind
                (λ fields.
                  (fields.add_roles ≡ update.add_roles)
                  × (fields.remove_roles ≡ update.remove_roles))
                (Gives-lift_if (hash_update-eq-ok salt update))
                λ fields same.
                  Ends-bind (λ tx. w.tables ≡ tx) (Gives-on_error sql_unknown Gives-begin)
                    λ tx e.
                      Ends-bind (RolesAre w.tables (λ other name. holds_role other name w.tables))
                        (Gives-on_error map_domain_error
                          (partial_update-Gives report w.tables keys id tx fields e))
                        λ updated before.
                          Ends-bind (RolesAre w.tables (once_added w.tables id fields.add_roles))
                            (added-Gives report w.tables keys id fields.add_roles updated before)
                            λ added given.
                              Ends-bind
                                (RolesAre w.tables
                                  (once_removed w.tables id fields.add_roles fields.remove_roles))
                                (removed-Gives report w.tables keys id fields.add_roles
                                  fields.remove_roles added given)
                                λ removed left. Ends-commit _ sql_unknown removed (
                                  subst
                                    (λ r.
                                      RolesAre w.tables
                                        (once_removed w.tables id update.add_roles r) removed)
                                    same.1
                                    (subst
                                      (λ a.
                                        RolesAre w.tables
                                          (once_removed w.tables id a fields.remove_roles) removed)
                                      same.0 left))
