-- ===== src/Iam/Sql.antt =====
-- The statements that src/module/iam/adapter/repository/user.rs builds, as the calls that it makes on
-- a `QueryBuilder`, in their order: text that becomes part of the statement, and bound values.
use api_starter.Base.{
  String, ◌<>◌, Option, none, some, List, [], ◌∷◌, ◌++◌, ◌==◌, Result, ok, err, map_ok,
  if◌then◌else◌, and_then, flat,
}
use api_starter.Base.Int.{ℤ}
use api_starter.Base.Decimal.{parse_i32}
use api_starter.Database.{Uuid}
use api_starter.Iam.{UpdateUser, DomainError, status_not_found, id_of}
use api_starter.Pagination.{ListRequest, filter, offset}

pub data Argument : Type 0 where
  text : String → Argument
  number : ℤ → Argument
  uuid : Uuid → Argument

-- `push` and `push_bind` of a builder; `push`, with a comma before all but the first, and
-- `push_bind_unseparated` of its list of assignments.
pub data Push : Type 0 where
  push : String → Push
  push_bind : Argument → Push
  separated : String → Push
  bind_unseparated : Argument → Push

abbrev pub select_user : String
select_user =
    "SELECT u.id, u.user_name, u.avatar_id, u.email, u.password, u.first_name, u.last_name, us.id AS status_id, us.status, d.id AS department_id, d.name AS department_name, c.id AS company_id, c.name AS company_name FROM iam.users u INNER JOIN iam.user_statuses us ON u.status_id = us.id INNER JOIN iam.departments d ON u.department_id = d.id INNER JOIN iam.companies c ON d.company_id = c.id"

abbrev pub count_user : String
count_user =
    "SELECT COUNT(*) AS total FROM iam.users u INNER JOIN iam.user_statuses us ON u.status_id = us.id INNER JOIN iam.departments d ON u.department_id = d.id INNER JOIN iam.companies c ON d.company_id = c.id"

unfoldable pub sort_column : String → String
sort_column sort_by =
    if sort_by == "email"
    then "u.email"
    else if sort_by == "first_name"
    then "u.first_name"
    else if sort_by == "last_name"
    then "u.last_name"
    else if sort_by == "status"
    then "us.status"
    else if sort_by == "department"
    then "d.name"
    else "u.user_name"

unfoldable pub sort_order : String → String
sort_order order = if order == "asc" then "asc" else "desc"

-- The pushes of an `if let`.
abbrev pub if_some : {A : Type 0} → Option A → (A → List Push) → List Push
if_some none f = []
if_some (some a) f = f a

abbrev pub status_filter : ℤ → List Push
status_filter status_id = push " AND us.id = " ∷ push_bind (number status_id) ∷ []

abbrev pub department_filter : ℤ → List Push
department_filter department_id =
    push " AND u.department_id = " ∷ push_bind (number department_id) ∷ []

abbrev pub role_filter : String → List Push
role_filter role =
    push
      " AND EXISTS (SELECT 1 FROM iam.user_has_roles uhr INNER JOIN iam.roles r ON uhr.role_id = r.id WHERE uhr.user_id = u.id AND r.name = "
    ∷ push_bind (text role)
    ∷ push ")"
    ∷ []

abbrev pub first_name_filter : String → List Push
first_name_filter first_name =
    push " AND u.first_name ILIKE " ∷ push_bind (text ("%" <> first_name <> "%")) ∷ []

unfoldable pub push_filters : ListRequest → List Push
push_filters r =
    if_some (and_then id_of (filter r "status")) status_filter
    ++ if_some (and_then parse_i32 (filter r "department_id")) department_filter
    ++ if_some (filter r "role") role_filter
    ++ if_some (filter r "first_name") first_name_filter

unfoldable pub count_statement : ListRequest → List Push
count_statement r = push count_user ∷ push " WHERE TRUE" ∷ push_filters r

-- The text that `format!` makes of the sort column and the direction.
abbrev pub order_by : ListRequest → String
order_by r = " ORDER BY " <> sort_column r.sort_by <> " " <> sort_order r.order

unfoldable pub index_statement : ListRequest → List Push
index_statement r =
    (push select_user ∷ push " WHERE TRUE" ∷ push_filters r)
    ++ (push (order_by r)
        ∷ push " LIMIT "
        ∷ push_bind (number r.per_page)
        ∷ push " OFFSET "
        ∷ push_bind (number (offset r))
        ∷ [])

-- An assignment of the `UPDATE`.
pub data Assignment : Type 0 where
  avatar_id : String → Assignment
  first_name : String → Assignment
  last_name : String → Assignment
  email : String → Assignment
  department_id : ℤ → Assignment
  status_id : ℤ → Assignment
  password : String → Assignment

abbrev pub assign : {A : Type 0} → (A → Assignment) → Option A → List Assignment
assign f none = []
assign f (some a) = f a ∷ []

-- The assignment of the status, whose name must be known.
abbrev pub assign_status : Option String → Result DomainError (List Assignment)
assign_status none = ok []
assign_status (some status) = elim (id_of status) [
  | none ↦ err status_not_found
  | some id ↦ ok (status_id id ∷ [])
]

-- The assignments of an update, in the order in which they are written.
unfoldable pub assignments : UpdateUser → Result DomainError (List Assignment)
assignments u =
    map_ok
      (λ status.
        assign avatar_id u.avatar_id
        ++ assign first_name u.first_name
        ++ assign last_name u.last_name
        ++ assign email u.email
        ++ assign department_id u.department_id
        ++ status
        ++ assign password u.password)
      (assign_status u.status)

abbrev pub push_assignment : Assignment → List Push
push_assignment (avatar_id v) = separated "avatar_id = " ∷ bind_unseparated (text v) ∷ []
push_assignment (first_name v) = separated "first_name = " ∷ bind_unseparated (text v) ∷ []
push_assignment (last_name v) = separated "last_name = " ∷ bind_unseparated (text v) ∷ []
push_assignment (email v) = separated "email = " ∷ bind_unseparated (text v) ∷ []
push_assignment (department_id v) = separated "department_id = " ∷ bind_unseparated (number v) ∷ []
push_assignment (status_id v) = separated "status_id = " ∷ bind_unseparated (number v) ∷ []
push_assignment (password v) = separated "password = " ∷ bind_unseparated (text v) ∷ []

unfoldable pub update_statement : Uuid → List Assignment → List Push
update_statement user_id changes =
    (push "UPDATE iam.users SET " ∷ flat push_assignment changes)
    ++ (push " WHERE id = " ∷ push_bind (uuid user_id) ∷ [])
