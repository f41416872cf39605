-- ===== src/Iam.antt =====
-- src/module/iam: users and permissions. This file has the domain types (core/domain) and the ports
-- (core/ports.rs). The type of a statement in a transaction carries the transaction's own copy of the
-- tables, which `commit` puts in place.
pub mod Sql
pub mod Rows
pub mod Users
pub mod Permissions
pub mod Service
pub mod Handlers
pub mod Injection
pub mod Atomicity
pub mod Updates
pub mod DeletedUsers
pub mod SelfService
pub mod Creating
pub mod Roles
pub mod Columns
pub mod Hashing
pub mod ColumnChanges
pub mod RoleChanges
use api_starter.Base.{
  String, Bool, true, false, ◌&&◌, Option, none, some, List, ◌==◌, if◌then◌else◌,
}
use api_starter.Base.Int.{ℤ, pos}
use api_starter.Database.{Uuid, Tables}
use api_starter.Database.Errors.{SqlError, sql_text}
use api_starter.Database.Effect.{Eff}
use api_starter.Errdef.{Error}
use api_starter.Pagination.{ListRequest, Page}

pub record Company : Type 0 where
  pub id : ℤ
  pub name : String

pub record Department : Type 0 where
  pub id : ℤ
  pub name : String
  pub company : Company

pub record Permission : Type 0 where
  pub id : ℤ
  pub name : String
  pub resource : String
  pub in_module : String

pub record Role : Type 0 where
  pub role_id : ℤ
  pub name : String

abbrev pub active_user_status : ℤ
active_user_status = pos 1

abbrev pub deleted_user_status : ℤ
deleted_user_status = pos 2

pub record Status : Type 0 where
  pub id : ℤ
  pub status : String

-- `UserStatus::id_of`
unfoldable pub id_of : String → Option ℤ
id_of status =
    if status == "Active"
    then some active_user_status
    else if status == "Deleted"
    then some deleted_user_status
    else none

pub record User : Type 0 where
  pub id : Uuid
  pub user_name : String
  pub avatar_id : String
  pub email : String
  pub password : String
  pub first_name : String
  pub last_name : String
  pub status : Status
  pub department : Department
  pub roles : List Role

pub record CreateUser : Type 0 where
  pub user_name : String
  pub avatar_id : String
  pub email : String
  pub password : String
  pub first_name : String
  pub last_name : String
  pub status : ℤ
  pub department_id : ℤ
  pub roles : List String

pub data DomainError : Type 0 where
  user_not_found : DomainError
  user_duplicate_constraint : DomainError
  status_not_found : DomainError
  department_not_found_constraint : DomainError
  database : SqlError → DomainError

-- `Display`
abbrev pub domain_text : DomainError → String
domain_text user_not_found = "user does not exists"
domain_text user_duplicate_constraint = "column is taken"
domain_text status_not_found = "invalid user status"
domain_text department_not_found_constraint = "invalid department id"
domain_text (database e) = sql_text e

pub record UpdateUser : Type 0 where
  pub avatar_id : Option String
  pub first_name : Option String
  pub last_name : Option String
  pub email : Option String
  pub department_id : Option ℤ
  pub status : Option String
  pub password : Option String
  pub add_roles : Option (List String)
  pub remove_roles : Option (List String)

-- `UpdateUser::default`
abbrev pub no_update : UpdateUser
no_update = record {
  avatar_id = none;
  first_name = none;
  last_name = none;
  email = none;
  department_id = none;
  status = none;
  password = none;
  add_roles = none;
  remove_roles = none;
}

-- `Option::is_none`
abbrev pub is_none : {A : Type 0} → Option A → Bool
is_none none = true
is_none (some a) = false

unfoldable pub has_no_column_changes : UpdateUser → Bool
has_no_column_changes u =
    is_none u.avatar_id
    && is_none u.first_name
    && is_none u.last_name
    && is_none u.email
    && is_none u.department_id
    && is_none u.status
    && is_none u.password

unfoldable pub restricted_to_self : UpdateUser → UpdateUser
restricted_to_self u = record no_update {
  avatar_id = u.avatar_id;
  first_name = u.first_name;
  last_name = u.last_name;
  department_id = u.department_id;
}

-- The trait `UserRepository`. The id that the server draws for a new row is an argument.
pub record UserRepository : Type 0 where
  pub index : ListRequest → Eff DomainError (List User × ℤ)
  pub create : Uuid → Tables → CreateUser → Eff DomainError (Uuid × Tables)
  pub find_by_id : Uuid → Eff DomainError (Option User)
  pub find_by_user_name : String → Eff DomainError (Option User)
  pub find_by_email : String → Eff DomainError (Option User)
  pub add_user_roles : Tables → Uuid → List String → Eff DomainError Tables
  pub remove_user_roles : Tables → Uuid → List String → Eff DomainError Tables
  pub partial_update : Tables → Uuid → UpdateUser → Eff DomainError Tables
  pub delete : Tables → Uuid → Eff DomainError Tables

-- The trait `PermissionRepository`.
pub record PermissionRepository : Type 0 where
  pub list_all : Eff DomainError (List Permission)
  pub list_permissions_by_role : ℤ → Eff DomainError (List Permission)

-- The trait `UserService`. What the server and `bcrypt` draw are arguments.
pub record UserService : Type 0 where
  pub index : ListRequest → Eff Error (Page User)
  pub create : Uuid → String → CreateUser → Eff Error Uuid
  pub find_by_id : Uuid → Eff Error User
  pub partial_update : String → Uuid → UpdateUser → Eff Error (Unit {0})
  pub delete : Uuid → Eff Error (Unit {0})

-- The trait `PermissionService`.
pub record PermissionService : Type 0 where
  pub list_all : Eff Error (List Permission)
