-- ===== src/Iam/Columns.antt =====
-- src/module/iam/adapter/repository/user.rs: what the assignments of an UPDATE make of a row.
use api_starter.Base.{
  String, ◌≡◌, refl, sym, ap, ◌∙◌, inl, inr, Bool, true, false, Option, none, some, List, [], ◌∷◌,
  ◌++◌, map, find, nat_eq, arith, ok, Bool-cases, Option-cases, ok_inj, map_ok-eq-ok, unwrap_or,
  and_then, if◌then◌else◌,
}
use api_starter.Database.{Uuid, Tables, UserRow}
use api_starter.Database.Outcomes.{no_ok}
use api_starter.Iam.{UpdateUser, has_no_column_changes, id_of, is_none}
use api_starter.Iam.Sql.{Assignment, assignments, assign, assign_status}
use api_starter.Iam.Sql
use api_starter.Iam.Rows.{set_column, set_columns, update_row}
use api_starter.Iam.SelfService.{checked-eq-ok}

-- A row with the columns that an update gives, the password as it is given.
abbrev pub written : UpdateUser → UserRow → UserRow
written fields u = record {
  id = u.id;
  user_name = u.user_name;
  avatar_id = unwrap_or u.avatar_id fields.avatar_id;
  email = unwrap_or u.email fields.email;
  password = unwrap_or u.password fields.password;
  first_name = unwrap_or u.first_name fields.first_name;
  last_name = unwrap_or u.last_name fields.last_name;
  status_id = unwrap_or u.status_id (and_then id_of fields.status);
  department_id = unwrap_or u.department_id fields.department_id;
}

-- The tables with a change of the rows with an id.
abbrev pub with_changed : Uuid → (UserRow → UserRow) → Tables → Tables
with_changed id f t = record t { users = map (λ u. if nat_eq u.id id then f u else u) t.users }

-- A status that is given is one of the two names.
abbrev pub is_known : Option String → Bool
is_known none = true
is_known (some status) = elim (id_of status) [ none ↦ false | some id ↦ true ]

set_columns-append :
    (cs ds : List Assignment) (u : UserRow) {v w : UserRow}
    → set_columns cs u ≡ v
    → set_columns ds v ≡ w
    → set_columns (cs ++ ds) u ≡ w
unfolding set_columns
set_columns-append [] ds u h k = ap (set_columns ds) h ∙ k
set_columns-append (c ∷ cs) ds u h k = set_columns-append cs ds (set_column c u) h k

-- One assignment of the list, which sets what a column is.
set_columns-assign :
    {A : Type 0} (f : A → Assignment) (s : A → UserRow → UserRow) (g : UserRow → A) (o : Option A)
    (u : UserRow)
    → ((v : A) → set_column (f v) u ≡ s v u)
    → s (g u) u ≡ u
    → set_columns (assign f o) u ≡ s (unwrap_or (g u) o) u
unfolding set_columns
set_columns-assign f s g none u h k = sym k
set_columns-assign f s g (some v) u h k = h v

assign_status-eq-ok :
    (status : Option String) {cs : List Assignment}
    → assign_status status ≡ ok cs
    → (assign Sql.status_id (and_then id_of status) ≡ cs) × (is_known status ≡ true)
assign_status-eq-ok none h = (ok_inj h, refl)
assign_status-eq-ok (some status) {cs} h = elim (Option-cases (id_of status)) [
  | inl e ↦ absurd (no_ok (rw (e, assign_status) at h))
  | inr (id, e) ↦ (rw e (ok_inj (rw (e, assign_status) at h)), rw (e, is_known) refl)
]

-- What the assignments of an update make of a row.
written_lem :
    (fields : UpdateUser) (u : UserRow)
    → set_columns
        (assign Sql.avatar_id fields.avatar_id
          ++ assign Sql.first_name fields.first_name
          ++ assign Sql.last_name fields.last_name
          ++ assign Sql.email fields.email
          ++ assign Sql.department_id fields.department_id
          ++ assign Sql.status_id (and_then id_of fields.status)
          ++ assign Sql.password fields.password)
        u
      ≡ written fields u
unfolding set_column
written_lem fields u =
    set_columns-append _ _ u
      (set_columns-append _ _ u
        (set_columns-append _ _ u
          (set_columns-append _ _ u
            (set_columns-append _ _ u
              (set_columns-append _ _ u
                (set_columns-assign Sql.avatar_id (λ v r. record r { avatar_id = v })
                  (λ r. r.avatar_id) fields.avatar_id u (λ v. refl) refl)
                (set_columns-assign Sql.first_name (λ v r. record r { first_name = v })
                  (λ r. r.first_name) fields.first_name _ (λ v. refl) refl))
              (set_columns-assign Sql.last_name (λ v r. record r { last_name = v })
                (λ r. r.last_name) fields.last_name _ (λ v. refl) refl))
            (set_columns-assign Sql.email (λ v r. record r { email = v }) (λ r. r.email)
              fields.email _ (λ v. refl) refl))
          (set_columns-assign Sql.department_id (λ v r. record r { department_id = v })
            (λ r. r.department_id) fields.department_id _ (λ v. refl) refl))
        (set_columns-assign Sql.status_id (λ v r. record r { status_id = v }) (λ r. r.status_id)
          (and_then id_of fields.status) _ (λ v. refl) refl))
      (set_columns-assign Sql.password (λ v r. record r { password = v }) (λ r. r.password)
        fields.password _ (λ v. refl) refl)

pub assignments-eq-ok :
    (fields : UpdateUser) {cs : List Assignment}
    → assignments fields ≡ ok cs
    → ((u : UserRow) → set_columns cs u ≡ written fields u) × (is_known fields.status ≡ true)
unfolding assignments
assignments-eq-ok fields {cs} h =
    let (status, found, whole) = map_ok-eq-ok _ (assign_status fields.status) h in
    let (named, known) = assign_status-eq-ok fields.status found in
    (λ u. ap (λ l. set_columns l u) (sym whole) ∙ rw (sym named) (written_lem fields u), known)

unnamed :
    (id : Uuid) (f : UserRow → UserRow) (us : List UserRow)
    → find (λ u. nat_eq u.id id) us ≡ none
    → map (λ u. if nat_eq u.id id then f u else u) us ≡ us
unnamed id f [] h = refl
unnamed id f (u ∷ us) h = elim (Bool-cases (nat_eq u.id id)) [
  | inl e ↦ absurd (ground arith)
  | inr e ↦ rw e (ap (λ l. u ∷ l) (unnamed id f us (rw (e, find) at h)))
]

unchanged :
    (id : Uuid) (f : UserRow → UserRow) (us : List UserRow)
    → ((u : UserRow) → f u ≡ u)
    → map (λ u. if nat_eq u.id id then f u else u) us ≡ us
unchanged id f [] h = refl
unchanged id f (u ∷ us) h = elim (Bool-cases (nat_eq u.id id)) [
  | inl e ↦ rw (e, h u, unchanged id f us h) refl
  | inr e ↦ rw (e, unchanged id f us h) refl
]

-- The statement changes every row of the id, and there may be none.
pub update_row-with_changed :
    (report : String → String) (id : Uuid) (f : UserRow → UserRow) (t : Tables) {after : Tables}
    → update_row report id f t ≡ ok after
    → with_changed id f t ≡ after
unfolding update_row
update_row-with_changed report id f t done =
    elim (Option-cases (find (λ u. nat_eq u.id id) t.users)) [
      | inl e ↦
          ap (λ us. record t { users = us }) (unnamed id f t.users e)
          ∙ ok_inj (rw (e, update_row) at done)
      | inr (u, e) ↦ checked-eq-ok report (f u) t _ (rw (e, update_row) at done)
    ]

pub with_changed-unchanged :
    (id : Uuid) (f : UserRow → UserRow) (t : Tables)
    → ((u : UserRow) → f u ≡ u)
    → with_changed id f t ≡ t
with_changed-unchanged id f t h = ap (λ us. record t { users = us }) (unchanged id f t.users h)

is_none-eq-true : {A : Type 0} (o : Option A) → is_none o ≡ true → o ≡ none
is_none-eq-true none h = refl
is_none-eq-true (some a) h = absurd (ground arith)

-- Where no column is given, there is nothing to write.
pub written-none :
    (fields : UpdateUser)
    → has_no_column_changes fields ≡ true
    → ((u : UserRow) → written fields u ≡ u) × (is_known fields.status ≡ true)
unfolding has_no_column_changes
written-none fields h =
    let avatar_id : fields.avatar_id ≡ none = is_none-eq-true fields.avatar_id (ground arith) in
    let first_name : fields.first_name ≡ none = is_none-eq-true fields.first_name (ground arith) in
    let last_name : fields.last_name ≡ none = is_none-eq-true fields.last_name (ground arith) in
    let email : fields.email ≡ none = is_none-eq-true fields.email (ground arith) in
    let department : fields.department_id ≡ none =
      is_none-eq-true fields.department_id (ground arith) in
    let status : fields.status ≡ none = is_none-eq-true fields.status (ground arith) in
    let password : fields.password ≡ none = is_none-eq-true fields.password (ground arith) in
    (
      λ u. rw (avatar_id, first_name, last_name, email, department, status, password) refl,
      rw status refl,
    )
