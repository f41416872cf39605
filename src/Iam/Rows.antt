-- ===== src/Iam/Rows.antt =====
-- What the fixed statements of src/module/iam/adapter/repository/user.rs change in the tables, with the
-- keys that migrations/iam declares. `report` is the server's text for a violation of the code it is
-- given.
use api_starter.Base.{
  String, Bool, not, ◌&&◌, ◌||◌, ◌==◌, none, some, List, [], ◌∷◌, ◌++◌, map, any, find, keep,
  nat_eq, contains, Result, ok, err, if◌then◌else◌, is_empty,
}
use api_starter.Base.Int.{ℤ, int_eq}
use api_starter.Database.{Uuid, Tables, UserRow, UserHasRole}
use api_starter.Database.Errors.{SqlError, database, unique_violation, foreign_key_violation}
use api_starter.Iam.{CreateUser}
use api_starter.Iam.Sql.{
  Assignment, avatar_id, first_name, last_name, email, department_id, status_id, password,
}

-- Another row has the name or the address of a row: the unique keys of `iam.users`.
abbrev pub taken : UserRow → List UserRow → Bool
taken u us =
    any (λ v. not (nat_eq v.id u.id) && (v.user_name == u.user_name || v.email == u.email)) us

-- The rows that a row refers to are there: the foreign keys of `iam.users`.
abbrev pub refers : UserRow → Tables → Bool
refers u t =
    any (λ d. int_eq d.id u.department_id) t.departments
    && any (λ s. int_eq s.id u.status_id) t.user_statuses

-- The rows that `INSERT INTO iam.user_has_roles … ON CONFLICT DO NOTHING` adds.
unfoldable pub granted : Uuid → List String → Tables → List UserHasRole
granted user_id roles t =
    map (λ r. record { user_id = user_id; role_id = r.id })
      (keep
        (λ r.
          contains roles r.name
          && not
              (any (λ uhr. nat_eq uhr.user_id user_id && int_eq uhr.role_id r.id) t.user_has_roles))
        t.roles)

unfoldable pub delete_roles : Uuid → List String → Tables → Tables
delete_roles user_id roles t = record t {
  user_has_roles =
      keep
        (λ uhr. not (
          nat_eq uhr.user_id user_id
          && any (λ r. int_eq r.id uhr.role_id && contains roles r.name) t.roles))
        t.user_has_roles;
}

-- The row that `INSERT INTO iam.users` writes.
abbrev pub new_row : Uuid → CreateUser → UserRow
new_row fresh user = record {
  id = fresh;
  user_name = user.user_name;
  avatar_id = user.avatar_id;
  email = user.email;
  password = user.password;
  first_name = user.first_name;
  last_name = user.last_name;
  status_id = user.status;
  department_id = user.department_id;
}

-- What an assignment of the statement does to a row.
unfoldable pub set_column : Assignment → UserRow → UserRow
set_column (avatar_id v) u = record u { avatar_id = v }
set_column (first_name v) u = record u { first_name = v }
set_column (last_name v) u = record u { last_name = v }
set_column (email v) u = record u { email = v }
set_column (department_id v) u = record u { department_id = v }
set_column (status_id v) u = record u { status_id = v }
set_column (password v) u = record u { password = v }

unfoldable pub set_columns : List Assignment → UserRow → UserRow
unfolding set_column
set_columns [] u = u
set_columns (c ∷ cs) u = set_columns cs (set_column c u)

abbrev pub set_status : ℤ → UserRow → UserRow
set_status status u = record u { status_id = status }

module _ (report : String → String) where
  abbrev pub violation : {A : Type 0} → String → Result SqlError A
  violation code = err (database (some code) none (report code))

  abbrev pub checked : UserRow → Tables → Tables → Result SqlError Tables
  checked u t after =
      if taken u t.users
      then violation unique_violation
      else if refers u t
      then ok after
      else violation foreign_key_violation

  -- `UPDATE iam.users … WHERE id = …`: the row with the id, if there is one.
  unfoldable pub update_row : Uuid → (UserRow → UserRow) → Tables → Result SqlError Tables
  update_row user_id f t = elim (find (λ u. nat_eq u.id user_id) t.users) [
    | none ↦ ok t
    | some u ↦
        checked (f u) t
          (record t { users = map (λ v. if nat_eq v.id user_id then f v else v) t.users })
  ]

  -- `INSERT INTO iam.users`, with the id that the server draws.
  unfoldable pub insert_row : UserRow → Tables → Result SqlError Tables
  insert_row u t =
      if any (λ v. nat_eq v.id u.id) t.users
      then violation unique_violation
      else checked u t (record t { users = t.users ++ (u ∷ []) })

  unfoldable pub insert_roles : Uuid → List String → Tables → Result SqlError Tables
  unfolding granted
  insert_roles user_id roles t =
      if is_empty (granted user_id roles t) || any (λ u. nat_eq u.id user_id) t.users
      then ok (record t { user_has_roles = t.user_has_roles ++ granted user_id roles t })
      else violation foreign_key_violation
