-- ===== src/Iam/Users.antt =====
-- src/module/iam/adapter/repository/user.rs: the repository over the tables. The reads are written as
-- what their text selects, and Iam/Rows has what the other statements change; what the two statements
-- of a listing select is the server's, `listing`.
use api_starter.Base.{
  String, Bool, ◌&&◌, ◌==◌, Option, none, some, List, [], ◌∷◌, map, find, keep, flat, nat_eq,
  Result, ok, err, if◌then◌else◌, and_then, is_empty,
}
use api_starter.Base.Int.{ℤ, int_eq}
use api_starter.Database.{Uuid, Tables, UserRow}
use api_starter.Database.Errors.{
  SqlError, has_code, code_of, unique_violation, foreign_key_violation, not_null_violation,
}
use api_starter.Database.Effect.{Eff, ◌>>=◌, ret, lift, on_error, query, execute_in}
use api_starter.Iam.{
  User, Role, CreateUser, UpdateUser, UserRepository, DomainError, has_no_column_changes,
  user_duplicate_constraint, status_not_found, department_not_found_constraint, deleted_user_status,
}
use api_starter.Iam
use api_starter.Iam.Sql.{Push, assignments, count_statement, index_statement}
use api_starter.Iam.Rows.{
  delete_roles, new_row, set_columns, set_status, update_row, insert_row, insert_roles,
}
use api_starter.Pagination.{ListRequest}
use api_starter.Rbac.Postgres.{text_column}

-- A row of the join of `SELECT_USER`.
pub record JoinedRow : Type 0 where
  pub user : UserRow
  pub status_id : ℤ
  pub status : Option String
  pub department_id : ℤ
  pub department_name : Option String
  pub company_id : ℤ
  pub company_name : String

-- What the server answers to the two statements of a listing.
pub record Listing : Type 0 where
  pub count : List Push → Tables → Result SqlError ℤ
  pub rows : List Push → Tables → Result SqlError (List JoinedRow)

-- The joined row of a user.
abbrev pub join_row : Tables → UserRow → Option JoinedRow
join_row t u =
    and_then
      (λ us.
        and_then
          (λ d.
            and_then
              (λ company.
                and_then
                  (λ c. some (record {
                    user = u;
                    status_id = us.id;
                    status = us.status;
                    department_id = d.id;
                    department_name = d.name;
                    company_id = c.id;
                    company_name = c.name;
                  }))
                  (find (λ c. int_eq company c.id) t.companies))
              d.company_id)
          (find (λ d. int_eq u.department_id d.id) t.departments))
      (find (λ us. int_eq u.status_id us.id) t.user_statuses)

unfoldable pub map_user : JoinedRow → Result SqlError User
map_user row = elim (text_column "status" row.status) [
  | err e ↦ err e
  | ok status ↦ elim (text_column "department_name" row.department_name) [
    | err e ↦ err e
    | ok name ↦ ok (record {
      id = row.user.id;
      user_name = row.user.user_name;
      avatar_id = row.user.avatar_id;
      email = row.user.email;
      password = row.user.password;
      first_name = row.user.first_name;
      last_name = row.user.last_name;
      status = record { id = row.status_id; status = status };
      department = record {
        id = row.department_id;
        name = name;
        company = record { id = row.company_id; name = row.company_name };
      };
      roles = [];
    })
  ]
]

unfoldable pub user_roles : Uuid → Tables → List Role
user_roles user_id t =
    flat
      (λ r.
        map (λ uhr. record { role_id = r.id; name = r.name })
          (keep (λ uhr. int_eq r.id uhr.role_id && nat_eq uhr.user_id user_id) t.user_has_roles))
      t.roles

unfoldable pub get_user_roles : Uuid → Eff SqlError (List Role)
get_user_roles user_id = query (λ t. ok (user_roles user_id t))

-- The user of a row, with its roles.
unfoldable pub with_roles : JoinedRow → Eff SqlError User
unfolding get_user_roles map_user
with_roles row = do
  user ← lift (map_user row)
  roles ← get_user_roles user.id
  ret (record user { roles = roles })

unfoldable pub hydrate : Option JoinedRow → Eff DomainError (Option User)
unfolding with_roles
hydrate none = ret none
hydrate (some row) = do user ← on_error Iam.database (with_roles row); ret (some user)

-- The loop of `index` over the rows.
unfoldable pub with_all_roles : List JoinedRow → Eff SqlError (List User)
unfolding with_roles
with_all_roles [] = ret []
with_all_roles (row ∷ rows) = do
  user ← with_roles row
  users ← with_all_roles rows
  ret (user ∷ users)

-- The one row of `SELECT_USER` with a condition on a key.
abbrev pub select_where : (UserRow → Bool) → Tables → Result SqlError (Option JoinedRow)
select_where p t = ok (and_then (join_row t) (find p t.users))

unfoldable pub find_where : (UserRow → Bool) → Eff DomainError (Option User)
unfolding hydrate
find_where p = do row ← on_error Iam.database (query (select_where p)); hydrate row

module _ (report : String → String) where
  unfoldable pub add_user_roles : Tables → Uuid → List String → Eff DomainError Tables
  add_user_roles tx user_id roles =
      if is_empty roles
      then ret tx
      else on_error Iam.database (execute_in tx (insert_roles report user_id roles))

  unfoldable pub remove_user_roles : Tables → Uuid → List String → Eff DomainError Tables
  remove_user_roles tx user_id roles =
      if is_empty roles
      then ret tx
      else on_error Iam.database (execute_in tx (λ t. ok (delete_roles user_id roles t)))

  abbrev insert_error : SqlError → DomainError
  insert_error e =
      if has_code e unique_violation
      then user_duplicate_constraint
      else if has_code e foreign_key_violation
      then department_not_found_constraint
      else Iam.database e

  unfoldable pub create : Uuid → Tables → CreateUser → Eff DomainError (Uuid × Tables)
  create fresh tx user = do
    inserted ← on_error insert_error (execute_in tx (insert_row report (new_row fresh user)))
    with_them ← add_user_roles inserted fresh user.roles
    ret (fresh, with_them)

  abbrev pub update_error : SqlError → DomainError
  update_error e = elim (code_of e) [
    | none ↦ Iam.database e
    | some code ↦
        if code == not_null_violation
        then status_not_found
        else if code == foreign_key_violation
        then department_not_found_constraint
        else if code == unique_violation
        then user_duplicate_constraint
        else Iam.database e
  ]

  unfoldable pub partial_update : Tables → Uuid → UpdateUser → Eff DomainError Tables
  partial_update tx user_id fields = if has_no_column_changes fields then ret tx else (do
    changes ← lift (assignments fields)
    on_error update_error (execute_in tx (update_row report user_id (set_columns changes))))

  -- The row is kept and flipped to the status `Deleted`.
  unfoldable pub delete : Tables → Uuid → Eff DomainError Tables
  delete tx user_id =
      on_error Iam.database
        (execute_in tx (update_row report user_id (set_status deleted_user_status)))

  module _ (listing : Listing) where
    unfoldable pub index : ListRequest → Eff DomainError (List User × ℤ)
    index request = do
      total_count ← on_error Iam.database (query (listing.count (count_statement request)))
      rows ← on_error Iam.database (query (listing.rows (index_statement request)))
      users ← on_error Iam.database (with_all_roles rows)
      ret (users, total_count)

    unfoldable pub postgres_users : UserRepository
    unfolding find_where
    postgres_users = record {
      index = index;
      create = create;
      find_by_id = λ user_id. find_where (λ u. nat_eq u.id user_id);
      find_by_user_name = λ user_name. find_where (λ u. u.user_name == user_name);
      find_by_email = λ address. find_where (λ u. u.email == address);
      add_user_roles = add_user_roles;
      remove_user_roles = remove_user_roles;
      partial_update = partial_update;
      delete = delete;
    }
