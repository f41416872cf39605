-- ===== src/Iam/Service.antt =====
-- src/module/iam/core/service/user.rs, over any repository.
use api_starter.Base.{String, Option, none, some, List, Result, ok, err, ok_or, map_ok}
use api_starter.Base.Chars.{CharTables}
use api_starter.Database.{Uuid, Tables}
use api_starter.Database.Effect.{Eff, ◌>>=◌, ◌>>◌, ret, lift, on_error, begin, commit}
use api_starter.Errdef.{Error, not_found, unprocessable, invalid, unknown, add_violation}
use api_starter.External.{Crypto}
use api_starter.Crypto.{hash_password}
use api_starter.Validation.{password_checker}
use api_starter.Auth.Service.{sql_unknown}
use api_starter.Iam.{
  User, CreateUser, UpdateUser, UserRepository, UserService, DomainError, user_not_found,
  user_duplicate_constraint, status_not_found, department_not_found_constraint, database,
  active_user_status,
}
use api_starter.Database.Errors.{sql_text}
use api_starter.Pagination.{ListRequest, Page, new_page}

unfoldable pub map_domain_error : DomainError → Error
map_domain_error user_not_found = not_found "user does not exists"
map_domain_error user_duplicate_constraint = unprocessable "username or email is already taken"
map_domain_error status_not_found =
    add_violation (invalid "invalid payload fields") "status" "field must be of valid type"
map_domain_error department_not_found_constraint =
    add_violation (invalid "invalid payload fields") "department_id"
      "invalid department id provided"
map_domain_error (database e) = unknown (sql_text e)

abbrev pub weak_password : String → Error
weak_password message = add_violation (invalid "invalid payload fields") "password" message

-- `as_deref` and a step for the roles that are given.
abbrev pub if_given :
    Tables → Option (List String) → (List String → Eff DomainError Tables) → Eff Error Tables
if_given tx none f = ret tx
if_given tx (some roles) f = on_error map_domain_error (f roles)

module _ (tables : CharTables) (crypto : Crypto) (repository : UserRepository) where
  unfoldable pub require_user : Uuid → Eff Error User
  require_user user_id = do
    found ← on_error map_domain_error (repository.find_by_id user_id)
    lift (ok_or (not_found "user does not exists") found)

  unfoldable pub index : ListRequest → Eff Error (Page User)
  index request = do
    found ← on_error map_domain_error (repository.index request)
    ret (new_page found.0 found.1 request.page request.per_page)

  -- `fresh` is the id that the server draws, `salt` what `bcrypt::hash` draws.
  unfoldable pub create : Uuid → String → CreateUser → Eff Error Uuid
  create fresh salt new_user = do
    hashed ← lift (hash_password crypto salt new_user.password)
    tx ← on_error sql_unknown begin
    created ← on_error map_domain_error (
        repository.create fresh tx
          (record new_user { password = hashed; status = active_user_status }))
    on_error sql_unknown (commit created.1)
    ret created.0

  -- The update with its password checked and hashed.
  unfoldable pub hash_update : String → UpdateUser → Result Error UpdateUser
  hash_update salt fields = elim (fields.password) [
    | none ↦ ok fields
    | some password ↦ elim (password_checker tables password) [
      | err message ↦ err (weak_password message)
      | ok _ ↦
          map_ok (λ hashed. record fields { password = some hashed })
            (hash_password crypto salt password)
    ]
  ]

  unfoldable pub partial_update : String → Uuid → UpdateUser → Eff Error (Unit {0})
  partial_update salt user_id update = do
    user ← require_user user_id
    fields ← lift (hash_update salt update)
    tx ← on_error sql_unknown begin
    updated ← on_error map_domain_error (repository.partial_update tx user_id fields)
    added ← if_given updated fields.add_roles (repository.add_user_roles updated user_id)
    removed ← if_given added fields.remove_roles (repository.remove_user_roles added user_id)
    on_error sql_unknown (commit removed)

  unfoldable pub delete : Uuid → Eff Error (Unit {0})
  delete user_id = do
    user ← require_user user_id
    tx ← on_error sql_unknown begin
    deleted ← on_error map_domain_error (repository.delete tx user_id)
    on_error sql_unknown (commit deleted)

  unfoldable pub user_service : UserService
  user_service = record {
    index = index;
    create = create;
    find_by_id = require_user;
    partial_update = partial_update;
    delete = delete;
  }
