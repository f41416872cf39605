-- ===== src/State/Stable.antt =====
-- What a property of the tables must be closed under to survive each statement that changes them, and
-- that it then survives every operation of the services, whatever becomes of their calls.
use api_starter.Base.{
  String, ◌≡◌, refl, Option, none, some, List, [], ◌∷◌, ok, if◌then◌else◌, map, ◌==◌, is_empty,
  ok_inj,
}
use mathlib.Core.Path.{subst}
use api_starter.Base.Chars.{CharTables}
use api_starter.Database.{Uuid, Tables, UserRow, PasswordResetRow}
use api_starter.Database.Effect.{Eff, begin, on_error}
use api_starter.Database.Keeps.{Keeps-lift}
use api_starter.Database.Outcomes.{
  Gives, Gives-if, Gives-lift, Gives-bind, Gives-on_error, Gives-execute_in, Gives-begin,
  Gives-Keeps, Gives-weaken, Leaves, Leaves-bind, Leaves-ret, Leaves-commit,
}
use api_starter.External.{Crypto}
use api_starter.Crypto.{hash_password}
use api_starter.Auth.Service.{sql_unknown}
use api_starter.Auth.Postgres.{with_password}
use api_starter.Iam.{
  CreateUser, UpdateUser, UserService, DomainError, has_no_column_changes, active_user_status,
  deleted_user_status, UserRepository,
}
use api_starter.Iam.Sql.{
  assignments, Assignment, avatar_id, first_name, last_name, email, department_id, status_id,
  password,
}
use api_starter.Iam.Rows.{
  set_columns, set_column, set_status, update_row, insert_row, insert_roles, delete_roles,
}
use api_starter.Iam.Users.{
  Listing, postgres_users, create, partial_update, delete, add_user_roles, remove_user_roles,
  update_error,
}
use api_starter.Iam.Service
use api_starter.Iam.Service.{user_service, map_domain_error, if_given, hash_update}
use api_starter.Iam.Atomicity.{postgres_users-Transactional, require_user-Keeps}

-- A change of a row that keeps its id and its user name.
pub record KeepsName (f : UserRow → UserRow) : Type 0 where
  pub same_id : (u : UserRow) → (f u).id ≡ u.id
  pub same_name : (u : UserRow) → (f u).user_name ≡ u.user_name

-- A property that every statement of the repositories keeps.
pub record Stable (report : String → String) (Q : Tables → Type 0) : Type 0 where
  pub updated :
      (id : Uuid) (f : UserRow → UserRow) (t : Tables) {after : Tables}
      → KeepsName f
      → Q t
      → update_row report id f t ≡ ok after
      → Q after
  pub inserted :
      (u : UserRow) (t : Tables) {after : Tables} → Q t → insert_row report u t ≡ ok after → Q after
  pub granting :
      (id : Uuid) (roles : List String) (t : Tables) {after : Tables}
      → Q t
      → insert_roles report id roles t ≡ ok after
      → Q after
  pub revoked : (id : Uuid) (roles : List String) (t : Tables) → Q t → Q (delete_roles id roles t)
  pub rehashed :
      (address hash : String) (t : Tables)
      → Q t
      → Q (record t {
        users = map (λ u. if u.email == address then with_password hash u else u) t.users;
      })
  pub resetting :
      (rows : List PasswordResetRow) (t : Tables) → Q t → Q (record t { password_resets = rows })

set_column_name : (c : Assignment) → KeepsName (set_column c)
unfolding set_column
set_column_name (avatar_id v) = record { same_id = λ u. refl; same_name = λ u. refl }
set_column_name (first_name v) = record { same_id = λ u. refl; same_name = λ u. refl }
set_column_name (last_name v) = record { same_id = λ u. refl; same_name = λ u. refl }
set_column_name (email v) = record { same_id = λ u. refl; same_name = λ u. refl }
set_column_name (department_id v) = record { same_id = λ u. refl; same_name = λ u. refl }
set_column_name (status_id v) = record { same_id = λ u. refl; same_name = λ u. refl }
set_column_name (password v) = record { same_id = λ u. refl; same_name = λ u. refl }

set_columns-KeepsName : (cs : List Assignment) → KeepsName (set_columns cs)
unfolding set_columns
set_columns-KeepsName [] = record { same_id = λ u. refl; same_name = λ u. refl }
set_columns-KeepsName (c ∷ cs) =
    let first = set_column_name c in
    let rest = set_columns-KeepsName cs in
    record {
      same_id = λ u. rw (rest.same_id (set_column c u), first.same_id u);
      same_name = λ u. rw (rest.same_name (set_column c u), first.same_name u);
    }

module _ (report : String → String) (Q : Tables → Type 0) (stable : Stable report Q)
    (t : Tables) where
  -- The statements of a transaction, on any copy that has the property.
  update-Gives :
      (tx : Tables) (id : Uuid) (u : UpdateUser) → Q tx → Gives t Q (partial_update report tx id u)
  unfolding partial_update
  update-Gives tx id u q = Gives-if (has_no_column_changes u) (Gives-lift Q q) (
      Gives-bind (λ cs. Unit {0}) (Gives-Keeps (Keeps-lift (assignments u)))
        λ cs any. Gives-on_error (update_error report) (
          Gives-execute_in Q tx (update_row report id (set_columns cs)) (λ after done.
            stable.updated id (set_columns cs) tx (set_columns-KeepsName cs) q done)))

  add-Gives :
      (tx : Tables) (id : Uuid) (roles : List String)
      → Q tx
      → Gives t Q (add_user_roles report tx id roles)
  unfolding add_user_roles
  add-Gives tx id roles q = Gives-if (is_empty roles) (Gives-lift Q q) (
      Gives-on_error _ (Gives-execute_in Q tx _ (λ after done. stable.granting id roles tx q done)))

  remove-Gives :
      (tx : Tables) (id : Uuid) (roles : List String)
      → Q tx
      → Gives t Q (remove_user_roles report tx id roles)
  unfolding remove_user_roles
  remove-Gives tx id roles q = Gives-if (is_empty roles) (Gives-lift Q q) (
      Gives-on_error _ (
        Gives-execute_in Q tx _
          (λ after done. subst Q (ok_inj done) (stable.revoked id roles tx q))))

  delete-Gives : (tx : Tables) (id : Uuid) → Q tx → Gives t Q (delete report tx id)
  unfolding delete
  delete-Gives tx id q = Gives-on_error _ (
      Gives-execute_in Q tx _ (λ after done.
        stable.updated id (set_status deleted_user_status) tx
          (record { same_id = λ u. refl; same_name = λ u. refl }) q done))

  create-Gives :
      (tx : Tables) (fresh : Uuid) (u : CreateUser)
      → Q tx
      → Gives t (λ made. Q made.1) (create report fresh tx u)
  unfolding create
  create-Gives tx fresh u q =
      Gives-bind Q
        (Gives-on_error _ (Gives-execute_in Q tx _ (λ after done. stable.inserted _ tx q done)))
        λ after p. Gives-bind Q (add-Gives after fresh u.roles p) λ last r. Gives-lift _ r

  if_given-Gives :
      (tx : Tables) (roles : Option (List String)) (f : List String → Eff DomainError Tables)
      → Q tx
      → ((names : List String) → Gives t Q (f names))
      → Gives t Q (if_given tx roles f)
  if_given-Gives tx none f q h = Gives-lift Q q
  if_given-Gives tx (some names) f q h = Gives-on_error map_domain_error (h names)

module _ (report : String → String) (Q : Tables → Type 0) (stable : Stable report Q)
    (tables : CharTables) (crypto : Crypto) (listing : Listing) (t : Tables) (q : Q t) where
  abbrev repository : UserRepository
  repository = postgres_users report listing

  abbrev service : UserService
  service = user_service tables crypto repository

  found-Gives :
      (id : Uuid)
      → Gives t
          (λ u. Unit {0})
          (Service.require_user tables crypto (postgres_users report listing) id)
  found-Gives id =
      Gives-Keeps
        (require_user-Keeps tables crypto _ (postgres_users-Transactional report listing) id)

  begin-Gives : Gives t Q (on_error sql_unknown begin)
  begin-Gives = Gives-on_error sql_unknown (Gives-weaken (λ tx e. subst Q e q) Gives-begin)

  pub create-Leaves :
      (fresh : Uuid) (salt : String) (u : CreateUser) → Leaves t Q (service.create fresh salt u)
  unfolding user_service Service.create postgres_users
  create-Leaves fresh salt u =
      Leaves-bind (λ hash. Unit {0}) q
        (Gives-Keeps (Keeps-lift (hash_password crypto salt u.password)))
        λ hash any. Leaves-bind Q q begin-Gives λ tx p.
          Leaves-bind (λ made. Q made.1) q
            (Gives-on_error map_domain_error (
              create-Gives report Q stable t tx fresh
                (record u { password = hash; status = active_user_status }) p))
            λ made r. Leaves-ret (λ x. made.0) (Leaves-commit Q sql_unknown made.1 q r)

  pub partial_update-Leaves :
      (salt : String) (id : Uuid) (u : UpdateUser) → Leaves t Q (service.partial_update salt id u)
  unfolding user_service Service.partial_update postgres_users
  partial_update-Leaves salt id u =
      Leaves-bind (λ found. Unit {0}) q (found-Gives id)
        λ user any.
          Leaves-bind (λ fields. Unit {0}) q
            (Gives-Keeps (Keeps-lift (hash_update tables crypto repository salt u)))
            λ fields some_fields. Leaves-bind Q q begin-Gives λ tx p.
              Leaves-bind Q q
                (Gives-on_error map_domain_error (update-Gives report Q stable t tx id fields p))
                λ updated p1.
                  Leaves-bind Q q
                    (if_given-Gives report Q stable t updated fields.add_roles _ p1
                      (λ names. add-Gives report Q stable t updated id names p1))
                    λ added p2.
                      Leaves-bind Q q
                        (if_given-Gives report Q stable t added fields.remove_roles _ p2
                          (λ names. remove-Gives report Q stable t added id names p2))
                        λ removed p3. Leaves-commit Q sql_unknown removed q p3

  pub delete-Leaves : (id : Uuid) → Leaves t Q (service.delete id)
  unfolding user_service Service.delete postgres_users
  delete-Leaves id =
      Leaves-bind (λ found. Unit {0}) q (found-Gives id)
        λ user any. Leaves-bind Q q begin-Gives λ tx p.
          Leaves-bind Q q (Gives-on_error map_domain_error (delete-Gives report Q stable t tx id p))
            λ deleted r. Leaves-commit Q sql_unknown deleted q r
