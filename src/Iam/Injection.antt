-- ===== src/Iam/Injection.antt =====
-- The text of the statements that are built from a request.
use api_starter.Base.{
  String, ◌<>◌, ◌≡◌, refl, ◌⊎◌, inl, inr, Bool, true, Option, none, some, List, [], ◌∷◌, ◌++◌, ◌==◌,
  ◌||◌, if_cases, All, All-append, and_then, contains, flat,
}
use api_starter.Base.Decimal.{parse_i32}
use api_starter.Database.{Uuid}
use api_starter.Iam.{id_of}
use api_starter.Iam.Sql.{
  Push, push, push_bind, separated, bind_unseparated, push_filters, count_statement,
  index_statement, select_user, count_user, sort_column, sort_order, if_some, Assignment, avatar_id,
  first_name, last_name, email, department_id, status_id, password, push_assignment,
  update_statement, status_filter, department_filter, role_filter, first_name_filter,
}
use api_starter.Pagination.{ListRequest, filter}

-- The texts that the statements may have as parts.
abbrev pub fragments : List String
fragments =
    select_user ∷ count_user ∷ " WHERE TRUE" ∷ " AND us.id = " ∷ " AND u.department_id = "
    ∷ " AND EXISTS (SELECT 1 FROM iam.user_has_roles uhr INNER JOIN iam.roles r ON uhr.role_id = r.id WHERE uhr.user_id = u.id AND r.name = "
    ∷ ")" ∷ " AND u.first_name ILIKE " ∷ " LIMIT " ∷ " OFFSET " ∷ "UPDATE iam.users SET "
    ∷ " WHERE id = " ∷ "avatar_id = " ∷ "first_name = " ∷ "last_name = " ∷ "email = "
    ∷ "department_id = " ∷ "status_id = " ∷ "password = " ∷ []

-- The sort clauses of a listing.
abbrev pub sort_clauses : List String
sort_clauses =
    " ORDER BY u.email asc" ∷ " ORDER BY u.email desc" ∷ " ORDER BY u.first_name asc"
    ∷ " ORDER BY u.first_name desc" ∷ " ORDER BY u.last_name asc" ∷ " ORDER BY u.last_name desc"
    ∷ " ORDER BY us.status asc" ∷ " ORDER BY us.status desc" ∷ " ORDER BY d.name asc"
    ∷ " ORDER BY d.name desc" ∷ " ORDER BY u.user_name asc" ∷ " ORDER BY u.user_name desc" ∷ []

-- A call on the builder whose text, if it adds any, is one of the fixed ones.
abbrev pub is_fixed : Push → Bool
is_fixed (push s) = contains fragments s || contains sort_clauses s
is_fixed (separated s) = contains fragments s
is_fixed (push_bind a) = true
is_fixed (bind_unseparated a) = true

abbrev pub IsFixed : List Push → Type 0
IsFixed = All (λ p. is_fixed p ≡ true)

-- A value that is bound, with texts that do not depend on it.
if_some-IsFixed :
    {A : Type 0} (o : Option A) (f : A → List Push)
    → ((a : A) → IsFixed (f a))
    → IsFixed (if_some o f)
if_some-IsFixed none f h = tt
if_some-IsFixed (some a) f h = h a

push_filters-IsFixed : (r : ListRequest) → IsFixed (push_filters r)
unfolding push_filters
push_filters-IsFixed r =
    let status = and_then id_of (filter r "status") in
    let department = and_then parse_i32 (filter r "department_id") in
    let role = filter r "role" in
    let name = filter r "first_name" in
    let a = if_some status status_filter in
    let b = if_some department department_filter in
    let c = if_some role role_filter in
    All-append _ (a ++ b ++ c) (if_some name first_name_filter)
      (All-append _ (a ++ b) c
        (All-append _ a b (if_some-IsFixed status status_filter (λ v. (refl, (refl, tt))))
          (if_some-IsFixed department department_filter (λ v. (refl, (refl, tt)))))
        (if_some-IsFixed role role_filter (λ v. (refl, (refl, (refl, tt))))))
      (if_some-IsFixed name first_name_filter (λ v. (refl, (refl, tt))))

-- What holds of every sort column, in both directions, holds of what a request chooses.
sort_ind :
    (P : String → String → Type 0) (sort_by order : String)
    → ((o : String)
        → (o ≡ "asc") ⊎ (o ≡ "desc")
        → P "u.email" o
          × P "u.first_name" o
          × P "u.last_name" o
          × P "us.status" o
          × P "d.name" o
          × P "u.user_name" o)
    → P (sort_column sort_by) (sort_order order)
unfolding sort_column sort_order
sort_ind P sort_by order h =
    let (by_email, by_first, by_last, by_status, by_department, by_name) = h (sort_order order) (
      if_cases (λ o. (o ≡ "asc") ⊎ (o ≡ "desc")) (order == "asc") (λ h. inl refl)
        (λ h. inr refl)) in
    if_cases Q (sort_by == "email") (λ e. by_email)
      (λ e.
        if_cases Q (sort_by == "first_name") (λ e. by_first)
          (λ e.
            if_cases Q (sort_by == "last_name") (λ e. by_last)
              (λ e.
                if_cases Q (sort_by == "status") (λ e. by_status)
                  (λ e. if_cases Q (sort_by == "department") (λ e. by_department) (λ e. by_name)))))
  where
    Q : String → Type 0
    Q c = P c (sort_order order)

sort_clause :
    (sort_by order : String)
    → is_fixed (push (" ORDER BY " <> sort_column sort_by <> " " <> sort_order order)) ≡ true
sort_clause sort_by order =
    sort_ind (λ c o. is_fixed (push (" ORDER BY " <> c <> " " <> o)) ≡ true) sort_by order
      λ o h. elim h [
        | inl e ↦ rw e (refl, refl, refl, refl, refl, refl)
        | inr e ↦ rw e (refl, refl, refl, refl, refl, refl)
      ]

flat-IsFixed : (changes : List Assignment) → IsFixed (flat push_assignment changes)
flat-IsFixed [] = tt
flat-IsFixed (c ∷ cs) = All-append _ (push_assignment c) _ (one c) (flat-IsFixed cs)
  where
    one : (c : Assignment) → IsFixed (push_assignment c)
    one (avatar_id v) = (refl, (refl, tt))
    one (first_name v) = (refl, (refl, tt))
    one (last_name v) = (refl, (refl, tt))
    one (email v) = (refl, (refl, tt))
    one (department_id v) = (refl, (refl, tt))
    one (status_id v) = (refl, (refl, tt))
    one (password v) = (refl, (refl, tt))

-- Whatever a request or an update holds, every text that becomes part of a statement that is built
-- from it is one of nineteen fixed fragments or twelve sort clauses: no value of the request is ever
-- part of the text of a statement.
pub statements-IsFixed :
    (r : ListRequest) (user_id : Uuid) (changes : List Assignment)
    → IsFixed (count_statement r)
      × IsFixed (index_statement r)
      × IsFixed (update_statement user_id changes)
unfolding count_statement index_statement update_statement
statements-IsFixed r user_id changes =
    let filters = push_filters-IsFixed r in
    (
      (refl, (refl, filters)),
      (
        refl,
        (
          refl,
          All-append _ (push_filters r) _ filters
              (sort_clause r.sort_by r.order, (refl, (refl, (refl, (refl, tt))))),
        ),
      ),
      (
        refl,
        All-append _ (flat push_assignment changes) _ (flat-IsFixed changes) (refl, (refl, tt)),
      ),
    )
