-- ===== src/Database.antt =====
-- src/database/mod.rs and the tables of migrations/iam. A row is a record, a column that may be
-- NULL an `Option`, and a table a list in the order in which the server returns its rows.
pub mod Errors
pub mod Effect
pub mod Keeps
pub mod Outcomes
pub mod Ends
use api_starter.Base.{ℕ, String, Option, List}
use api_starter.Base.Int.{ℤ}

-- A `Uuid`, as its 128-bit number.
abbrev pub Uuid : Type 0
Uuid = ℕ

-- `DateTime<Utc>`, in nanoseconds since the epoch.
abbrev pub DateTime : Type 0
DateTime = ℤ

pub record StatusRow : Type 0 where
  pub id : ℤ
  pub status : Option String

pub record CompanyRow : Type 0 where
  pub id : ℤ
  pub name : String

pub record DepartmentRow : Type 0 where
  pub id : ℤ
  pub name : Option String
  pub company_id : Option ℤ

pub record UserRow : Type 0 where
  pub id : Uuid
  pub user_name : String
  pub avatar_id : String
  pub email : String
  pub password : String
  pub first_name : String
  pub last_name : String
  pub status_id : ℤ
  pub department_id : ℤ

pub record ModuleRow : Type 0 where
  pub id : ℤ
  pub name : String

pub record PermissionRow : Type 0 where
  pub id : ℤ
  pub name : Option String
  pub resource : Option String
  pub module_id : Option ℤ

pub record RoleRow : Type 0 where
  pub id : ℤ
  pub name : String

pub record RoleHasPermission : Type 0 where
  pub role_id : ℤ
  pub permission_id : ℤ

pub record UserHasRole : Type 0 where
  pub user_id : Uuid
  pub role_id : ℤ

pub record PasswordResetRow : Type 0 where
  pub email : String
  pub token : String
  pub created_at : DateTime

-- The schema `iam`.
pub record Tables : Type 0 where
  pub user_statuses : List StatusRow
  pub companies : List CompanyRow
  pub departments : List DepartmentRow
  pub users : List UserRow
  pub modules : List ModuleRow
  pub permissions : List PermissionRow
  pub roles : List RoleRow
  pub role_has_permissions : List RoleHasPermission
  pub user_has_roles : List UserHasRole
  pub password_resets : List PasswordResetRow
