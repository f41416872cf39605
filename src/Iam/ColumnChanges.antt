-- ===== src/Iam/ColumnChanges.antt =====
-- Which columns of which row an update of src/module/iam/core/service/user.rs writes.
use api_starter.Base.{
  String, ◌≡◌, refl, sym, ap, ◌∙◌, inl, inr, true, Option, none, some, List, [], ◌∷◌, ok, ok_inj,
  Bool-cases,
}
use mathlib.Core.Path.{subst, fun_ext}
use api_starter.Base.Chars.{CharTables}
use api_starter.Database.{Uuid, Tables, UserRow}
use api_starter.Database.Effect.{World}
use api_starter.Database.Outcomes.{
  Gives, Gives-on_error, Gives-execute_in, Gives-begin, Gives-Keeps, Gives-bind, Gives-lift,
  Gives-lift_if,
}
use api_starter.Database.Ends.{Ends, Ends-bind, Ends-commit}
use api_starter.External.{Crypto}
use api_starter.Auth.Service.{sql_unknown}
use api_starter.Iam.{UpdateUser, UserService, has_no_column_changes}
use api_starter.Iam.Columns.{
  written, with_changed, is_known, assignments-eq-ok, update_row-with_changed,
  with_changed-unchanged, written-none,
}
use api_starter.Iam.Rows.{delete_roles, insert_roles, set_columns, update_row}
use api_starter.Iam.Roles.{insert_roles-eq-ok}
use api_starter.Iam.Hashing.{hash_update-hashed, hashed, is_strong}
use api_starter.Iam.Sql.{assignments}
use api_starter.Iam.Users.{Listing, postgres_users}
use api_starter.Iam.Users
use api_starter.Iam.Service
use api_starter.Iam.Service.{user_service, map_domain_error, if_given, hash_update}
use api_starter.Iam.Atomicity.{postgres_users-Transactional, require_user-Keeps}

-- The tables but for who has which role, which is as in the first ones.
abbrev pub with_roles_of : Tables → Tables → Tables
with_roles_of t after = record after { user_has_roles = t.user_has_roles }

module _ (report : String → String) (t : Tables) (id : Uuid) where
  partial_update-Gives :
      (tx : Tables) (fields : UpdateUser)
      → t ≡ tx
      → Gives t
          (λ after. (with_changed id (written fields) t ≡ after) × (is_known fields.status ≡ true))
          (Users.partial_update report tx id fields)
  unfolding Users.partial_update
  partial_update-Gives tx fields e = elim (Bool-cases (has_no_column_changes fields)) [
    | inl none_given ↦
        let (same, known) = written-none fields none_given in
        rw (none_given, Users.partial_update)
          (Gives-lift _ (with_changed-unchanged id (written fields) t same ∙ e, known))
    | inr some_given ↦
        rw (some_given, Users.partial_update)
          (Gives-bind
            (λ cs.
              ((u : UserRow) → set_columns cs u ≡ written fields u)
              × (is_known fields.status ≡ true))
            (Gives-lift_if {r = assignments fields} (λ cs h. assignments-eq-ok fields h))
            λ changes any. Gives-on_error (Users.update_error report) (
              Gives-execute_in _ tx (update_row report id (set_columns changes)) (λ after done. (
                ap (λ f. with_changed id f t) (sym (fun_ext any.0))
                    ∙ update_row-with_changed report id (set_columns changes) t
                        (rw (sym e) at done),
                any.1,
              ))))
  ]

  -- Steps on the roles leave all else as it is.
  added-Gives :
      (new : Tables) (add : Option (List String)) (tx : Tables)
      → with_roles_of t tx ≡ new
      → Gives t
          (λ after. with_roles_of t after ≡ new)
          (if_given tx add (Users.add_user_roles report tx id))
  unfolding Users.add_user_roles
  added-Gives new none tx h = Gives-lift _ h
  added-Gives new (some []) tx h = Gives-on_error map_domain_error (Gives-lift _ h)
  added-Gives new (some (n ∷ names)) tx h = Gives-on_error _ (
      Gives-on_error _ (
        Gives-execute_in _ tx (insert_roles report id (n ∷ names)) (λ after done.
          subst (λ x. with_roles_of t x ≡ new) (insert_roles-eq-ok report id (n ∷ names) tx done)
            h)))

  removed-Gives :
      (new : Tables) (remove : Option (List String)) (tx : Tables)
      → with_roles_of t tx ≡ new
      → Gives t
          (λ after. with_roles_of t after ≡ new)
          (if_given tx remove (Users.remove_user_roles report tx id))
  unfolding Users.remove_user_roles delete_roles
  removed-Gives new none tx h = Gives-lift _ h
  removed-Gives new (some []) tx h = Gives-on_error map_domain_error (Gives-lift _ h)
  removed-Gives new (some (n ∷ names)) tx h = Gives-on_error _ (
      Gives-on_error _ (
        Gives-execute_in _ tx (λ x. ok (delete_roles id (n ∷ names) x))
          (λ after done. subst (λ x. with_roles_of t x ≡ new) (ok_inj done) h)))

-- The tables once an update is written, the roles aside, and that the update may be.
abbrev pub IsWritten : CharTables → Crypto → String → Uuid → UpdateUser → Tables → Tables → Type 0
IsWritten tables crypto salt id update t after =
    (with_roles_of t after ≡ with_changed id (written (hashed crypto salt update)) t)
    × (is_known update.status ≡ true)
    × (is_strong tables update.password ≡ true)

module _ (tables : CharTables) (crypto : Crypto) (report : String → String)
    (listing : Listing) where
  abbrev service : UserService
  service = user_service tables crypto (postgres_users report listing)

  -- Whatever becomes of its calls, an update that succeeds had no status but the two that have a name
  -- and no password that breaks the policy, and it leaves all tables as they were but for two: that of
  -- the roles of the users, and that of the users, in which exactly the columns that the update gives
  -- are written in exactly the rows with the user's id, the password as its hash.
  pub partial_update-IsWritten :
      (salt : String) (id : Uuid) (update : UpdateUser) (w : World)
      → (service.partial_update salt id update w).0 ≡ ok tt
      → IsWritten tables crypto salt id update w.tables
          (service.partial_update salt id update w).1.tables
  unfolding user_service Service.partial_update postgres_users
  partial_update-IsWritten salt id update w done = ends.ends_as w refl tt done
    where
      ends :
          Ends w.tables
            (IsWritten tables crypto salt id update w.tables)
            (service.partial_update salt id update)
      ends =
          Ends-bind _
            (Gives-Keeps
              (require_user-Keeps tables crypto _ (postgres_users-Transactional report listing) id))
            λ user any_user.
              Ends-bind _
                (Gives-lift_if
                  (hash_update-hashed tables crypto (postgres_users report listing) salt update))
                λ fields same.
                  Ends-bind (λ tx. w.tables ≡ tx) (Gives-on_error sql_unknown Gives-begin)
                    λ tx e.
                      Ends-bind _
                        (Gives-on_error map_domain_error
                          (partial_update-Gives report w.tables id tx fields e))
                        λ updated before.
                          Ends-bind
                            (λ after.
                              with_roles_of w.tables after
                              ≡ with_changed id (written fields) w.tables)
                            (added-Gives report w.tables id _ fields.add_roles updated
                              (ap (with_roles_of w.tables) (sym before.0)))
                            λ added given.
                              Ends-bind
                                (λ after.
                                  with_roles_of w.tables after
                                  ≡ with_changed id (written fields) w.tables)
                                (removed-Gives report w.tables id _ fields.remove_roles added given)
                                λ removed left. Ends-commit _ sql_unknown removed (
                                  subst
                                      (λ f.
                                        with_roles_of w.tables removed
                                        ≡ with_changed id (written f) w.tables)
                                      (sym same.0) left,
                                  subst (λ f. is_known f.status ≡ true) (sym same.0) before.1,
                                  same.1,
                                )
