-- ===== src/Iam/Atomicity.antt =====
-- What a repository must promise for the service to change all or nothing, and that the repository
-- over the tables keeps it.
use api_starter.Base.{
  String, refl, Option, none, some, List, [], ◌∷◌, Bool, true, false, if◌then◌else◌,
}
use api_starter.Base.Chars.{CharTables}
use api_starter.Database.{Uuid, Tables}
use api_starter.Database.Effect.{Eff}
use api_starter.Database.Keeps.{
  Keeps, FailsClean, Keeps-bind, FailsClean-bind, FailsClean-ret, Keeps-on_error, Keeps-query,
  Keeps-execute_in, Keeps-begin, Keeps-lift, FailsClean-commit,
}
use api_starter.External.{Crypto}
use api_starter.Auth.Service.{sql_unknown}
use api_starter.Iam.{UserRepository, CreateUser, UpdateUser, DomainError, has_no_column_changes}
use api_starter.Iam.Users.{
  Listing, JoinedRow, postgres_users, create, partial_update, delete, add_user_roles,
  remove_user_roles, find_where, hydrate, with_roles, get_user_roles,
}
use api_starter.Iam.Service.{require_user, hash_update, map_domain_error, if_given}
use api_starter.Iam.Service

-- What a repository promises: its statements in a transaction, and its reads, leave the committed
-- tables alone.
pub record Transactional (r : UserRepository) : Type 0 where
  pub create_Keeps : (fresh : Uuid) (tx : Tables) (u : CreateUser) → Keeps (r.create fresh tx u)
  pub find_Keeps : (id : Uuid) → Keeps (r.find_by_id id)
  pub add_Keeps :
      (tx : Tables) (id : Uuid) (roles : List String) → Keeps (r.add_user_roles tx id roles)
  pub remove_Keeps :
      (tx : Tables) (id : Uuid) (roles : List String) → Keeps (r.remove_user_roles tx id roles)
  pub update_Keeps : (tx : Tables) (id : Uuid) (u : UpdateUser) → Keeps (r.partial_update tx id u)
  pub delete_Keeps : (tx : Tables) (id : Uuid) → Keeps (r.delete tx id)

module _ (tables : CharTables) (crypto : Crypto) (r : UserRepository)
    (lawful : Transactional r) where
  pub require_user-Keeps : (id : Uuid) → Keeps (require_user tables crypto r id)
  unfolding require_user
  require_user-Keeps id =
      Keeps-bind (Keeps-on_error _ (lawful.find_Keeps id)) (λ found. Keeps-lift _)

  if_given-Keeps :
      (tx : Tables) (roles : Option (List String)) (f : List String → Eff DomainError Tables)
      → ((names : List String) → Keeps (f names))
      → Keeps (if_given tx roles f)
  if_given-Keeps tx none f h = record { kept = λ w. refl }
  if_given-Keeps tx (some names) f h = Keeps-on_error _ (h names)

  -- Over any repository whose statements in a transaction leave the committed tables alone, and
  -- whatever becomes of any call, a creation, an update or a deletion of a user that gives an error
  -- leaves all tables as they were, a failing commit included.
  pub services-FailsClean :
      (fresh id : Uuid) (salt : String) (new_user : CreateUser) (update : UpdateUser)
      → FailsClean (Service.create tables crypto r fresh salt new_user)
        × FailsClean (Service.partial_update tables crypto r salt id update)
        × FailsClean (Service.delete tables crypto r id)
  unfolding Service.create Service.partial_update Service.delete
  services-FailsClean fresh id salt new_user update = (
    FailsClean-bind (Keeps-lift _) λ hashed. FailsClean-bind (Keeps-on_error _ Keeps-begin) λ tx.
        FailsClean-bind (Keeps-on_error _ (lawful.create_Keeps fresh tx _))
          λ created. FailsClean-ret _ (FailsClean-commit sql_unknown created.1),
    FailsClean-bind (require_user-Keeps id) λ user. FailsClean-bind (Keeps-lift _) λ fields.
        FailsClean-bind (Keeps-on_error _ Keeps-begin) λ tx.
          FailsClean-bind (Keeps-on_error _ (lawful.update_Keeps tx id fields)) λ updated.
            FailsClean-bind
              (if_given-Keeps updated fields.add_roles _ (lawful.add_Keeps updated id))
              λ added.
                FailsClean-bind
                  (if_given-Keeps added fields.remove_roles _ (lawful.remove_Keeps added id))
                  λ removed. FailsClean-commit sql_unknown removed,
    FailsClean-bind (require_user-Keeps id) λ user.
        FailsClean-bind (Keeps-on_error _ Keeps-begin) λ tx.
          FailsClean-bind (Keeps-on_error _ (lawful.delete_Keeps tx id))
            λ deleted. FailsClean-commit sql_unknown deleted,
  )

pub with_roles-Keeps : (row : JoinedRow) → Keeps (with_roles row)
unfolding with_roles get_user_roles
with_roles-Keeps row =
    Keeps-bind (Keeps-lift _) λ user. Keeps-bind (Keeps-query _) λ roles. Keeps-lift _

hydrate-Keeps : (row : Option JoinedRow) → Keeps (hydrate row)
unfolding hydrate
hydrate-Keeps none = record { kept = λ w. refl }
hydrate-Keeps (some row) = Keeps-bind (Keeps-on_error _ (with_roles-Keeps row)) λ user. Keeps-lift _

if-Keeps :
    {E A : Type 0} (b : Bool) {m n : Eff E A} → Keeps m → Keeps n → Keeps (if b then m else n)
if-Keeps true h k = h
if-Keeps false h k = k

-- The repository over the tables.
module _ (report : String → String) (listing : Listing) where
  add-Keeps :
      (tx : Tables) (id : Uuid) (roles : List String) → Keeps (add_user_roles report tx id roles)
  unfolding add_user_roles
  add-Keeps tx id [] = record { kept = λ w. refl }
  add-Keeps tx id (name ∷ names) = Keeps-on_error _ (Keeps-execute_in tx _)

  remove-Keeps :
      (tx : Tables) (id : Uuid) (roles : List String) → Keeps (remove_user_roles report tx id roles)
  unfolding remove_user_roles
  remove-Keeps tx id [] = record { kept = λ w. refl }
  remove-Keeps tx id (name ∷ names) = Keeps-on_error _ (Keeps-execute_in tx _)

  update-Keeps : (tx : Tables) (id : Uuid) (u : UpdateUser) → Keeps (partial_update report tx id u)
  unfolding partial_update
  update-Keeps tx id u =
      if-Keeps (has_no_column_changes u) (record { kept = λ w. refl })
        (Keeps-bind (Keeps-lift _) λ changes. Keeps-on_error _ (Keeps-execute_in tx _))

  -- Every statement of the repository over the tables in a transaction, and its search by id, leaves
  -- the committed tables alone, whatever becomes of the calls.
  pub postgres_users-Transactional : Transactional (postgres_users report listing)
  unfolding postgres_users create find_where delete
  postgres_users-Transactional = record {
    create_Keeps = λ fresh tx u.
        Keeps-bind (Keeps-on_error _ (Keeps-execute_in tx _))
          λ inserted. Keeps-bind (add-Keeps inserted fresh u.roles) λ after. Keeps-lift _;
    find_Keeps = λ id. Keeps-bind (Keeps-on_error _ (Keeps-query _)) λ row. hydrate-Keeps row;
    add_Keeps = add-Keeps;
    remove_Keeps = remove-Keeps;
    update_Keeps = update-Keeps;
    delete_Keeps = λ tx id. Keeps-on_error _ (Keeps-execute_in tx _);
  }
