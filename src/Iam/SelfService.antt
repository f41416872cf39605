-- ===== src/Iam/SelfService.antt =====
-- What a user can change about its own account.
use api_starter.Base.{
  String, ◌≡◌, refl, sym, ◌∙◌, ap, ◌⊎◌, inl, inr, Option, none, some, List, [], ◌∷◌, ◌++◌, ok,
  Option-cases, arith, Bool, true, false, Bool-cases, if◌then◌else◌, nat_eq, map, find, All,
  All-append, ok_inj,
}
use mathlib.Core.Path.{subst}
use api_starter.Base.Int.{ℤ}
use api_starter.Database.{Uuid, Tables, UserRow}
use api_starter.Iam.{UpdateUser, restricted_to_self, has_no_column_changes}
use api_starter.Iam.Sql.{
  Assignment, avatar_id, first_name, last_name, email, department_id, status_id, password,
  assignments, assign,
}
use api_starter.Iam.Users.{partial_update, Listing, postgres_users}
use api_starter.Iam.Rows.{set_columns, set_column, update_row, checked, taken, refers}
use api_starter.Database.Effect.{World}
use api_starter.Base.Chars.{CharTables}
use api_starter.External.{Crypto}
use api_starter.Auth.{Identity}
use api_starter.Auth.Service.{sql_unknown}
use api_starter.Iam.{UserService}
use api_starter.Iam.Handlers.{patch_my_user}
use api_starter.Iam.Service
use api_starter.Iam.Service.{user_service, hash_update, require_user}
use api_starter.Iam.Atomicity.{postgres_users-Transactional, require_user-Keeps}
use api_starter.Database.Outcomes.{
  Gives, Gives-if, Gives-lift, Gives-lift_if, Gives-bind, Gives-on_error, Gives-execute_in,
  Gives-begin, Gives-Keeps, Leaves, Leaves-bind, Leaves-ret, Leaves-commit,
}

-- What of a row decides how its user signs in and whether it may.
pub record Credentials : Type 0 where
  pub id : Uuid
  pub user_name : String
  pub email : String
  pub password : String
  pub status_id : ℤ

abbrev pub credentials : UserRow → Credentials
credentials u = record {
  id = u.id;
  user_name = u.user_name;
  email = u.email;
  password = u.password;
  status_id = u.status_id;
}

-- Two states of the tables with the same credentials, row by row, and the same roles held.
abbrev pub SameRights : Tables → Tables → Type 0
SameRights t t' =
    (map credentials t'.users ≡ map credentials t.users) × (t'.user_has_roles ≡ t.user_has_roles)

-- An assignment that a restricted update may make.
abbrev is_profile : Assignment → Bool
is_profile (avatar_id v) = true
is_profile (first_name v) = true
is_profile (last_name v) = true
is_profile (department_id v) = true
is_profile (email v) = false
is_profile (status_id v) = false
is_profile (password v) = false

credentials-set_column :
    (c : Assignment) (u : UserRow)
    → is_profile c ≡ true
    → credentials (set_column c u) ≡ credentials u
unfolding set_column
credentials-set_column (avatar_id v) u h = refl
credentials-set_column (first_name v) u h = refl
credentials-set_column (last_name v) u h = refl
credentials-set_column (department_id v) u h = refl
credentials-set_column (email v) u h = absurd (ground arith)
credentials-set_column (status_id v) u h = absurd (ground arith)
credentials-set_column (password v) u h = absurd (ground arith)

-- Assignments of the profile keep the credentials of a row.
credentials-set_columns :
    (cs : List Assignment) (u : UserRow)
    → All (λ c. is_profile c ≡ true) cs
    → credentials (set_columns cs u) ≡ credentials u
unfolding set_columns
credentials-set_columns [] u h = refl
credentials-set_columns (c ∷ cs) u (here, rest) =
    credentials-set_columns cs (set_column c u) rest ∙ credentials-set_column c u here

assign-All :
    {A : Type 0} (f : A → Assignment) (o : Option A)
    → ((v : A) → is_profile (f v) ≡ true)
    → All (λ c. is_profile c ≡ true) (assign f o)
assign-All f none h = tt
assign-All f (some v) h = (h v, tt)

-- A restricted update makes assignments of the profile only.
restricted_assignments :
    (u : UpdateUser) {cs : List Assignment}
    → assignments (restricted_to_self u) ≡ ok cs
    → All (λ c. is_profile c ≡ true) cs
unfolding assignments restricted_to_self
restricted_assignments u h =
    subst (All (λ c. is_profile c ≡ true)) (ok_inj h)
      (profile u.avatar_id u.first_name u.last_name u.department_id)
  where
    profile :
        (a b c : Option String) (d : Option ℤ)
        → All
            (λ x. is_profile x ≡ true)
            (assign avatar_id a
              ++ assign first_name b
              ++ assign last_name c
              ++ []
              ++ assign department_id d
              ++ []
              ++ [])
    profile a b c d =
        let ab = assign avatar_id a ++ assign first_name b in
        let abc = ab ++ assign last_name c in
        All-append _ (abc ++ [] ++ assign department_id d ++ []) []
          (All-append _ (abc ++ [] ++ assign department_id d) []
            (All-append _ (abc ++ []) (assign department_id d)
              (All-append _ abc []
                (All-append _ ab (assign last_name c)
                  (All-append _ (assign avatar_id a) (assign first_name b)
                    (assign-All avatar_id a (λ v. refl)) (assign-All first_name b (λ v. refl)))
                  (assign-All last_name c (λ v. refl)))
                tt)
              (assign-All department_id d (λ v. refl)))
            tt)
          tt

credentials_of_rows :
    (id : Uuid) (f : UserRow → UserRow) (us : List UserRow)
    → ((u : UserRow) → credentials (f u) ≡ credentials u)
    → map credentials (map (λ v. if nat_eq v.id id then f v else v) us) ≡ map credentials us
credentials_of_rows id f [] h = refl
credentials_of_rows id f (u ∷ us) h = elim (Bool-cases (nat_eq u.id id)) [
  | inl e ↦ rw e (rw (h u) (ap (λ cs. credentials u ∷ cs) (credentials_of_rows id f us h)))
  | inr e ↦ rw e (ap (λ cs. credentials u ∷ cs) (credentials_of_rows id f us h))
]

module _ (report : String → String) where
  -- A change that passes the checks is made.
  pub checked-eq-ok :
      (u : UserRow) (t after : Tables) {t' : Tables} → checked report u t after ≡ ok t' → after ≡ t'
  checked-eq-ok u t after h = elim (Bool-cases (taken u t.users)) [
    | inl e ↦ absurd (ground arith)
    | inr e ↦ elim (Bool-cases (refers u t)) [
      | inl k ↦ ok_inj (rw (e, k) at h)
      | inr k ↦ absurd (ground arith)
    ]
  ]

  -- What an update of a row that succeeds makes of the tables.
  pub update_row-eq-ok :
      (id : Uuid) (f : UserRow → UserRow) (t : Tables) {after : Tables}
      → update_row report id f t ≡ ok after
      → (t ≡ after)
        ⊎ (record t { users = map (λ v. if nat_eq v.id id then f v else v) t.users } ≡ after)
  unfolding update_row
  update_row-eq-ok id f t done = elim (Option-cases (find (λ u. nat_eq u.id id) t.users)) [
    | inl e ↦ inl (ok_inj (rw (e, update_row) at done))
    | inr (u, e) ↦ inr (checked-eq-ok (f u) t _ (rw (e, update_row) at done))
  ]

  -- A row that is changed within its credentials leaves all rights as they are.
  update_row-SameRights :
      (id : Uuid) (f : UserRow → UserRow) (t : Tables) {after : Tables}
      → ((u : UserRow) → credentials (f u) ≡ credentials u)
      → update_row report id f t ≡ ok after
      → SameRights t after
  update_row-SameRights id f t h done = elim (update_row-eq-ok id f t done) [
    | inl e ↦ subst (SameRights t) e (refl, refl)
    | inr e ↦ subst (SameRights t) e (credentials_of_rows id f t.users h, refl)
  ]

  -- What a restricted update makes of a transaction's copy.
  partial_update-Gives :
      (t tx : Tables) (id : Uuid) (u : UpdateUser)
      → t ≡ tx
      → Gives t (SameRights t) (partial_update report tx id (restricted_to_self u))
  unfolding partial_update
  partial_update-Gives t tx id u e =
      Gives-if (has_no_column_changes (restricted_to_self u))
        (Gives-lift (SameRights t) (subst (SameRights t) e (refl, refl)))
        (Gives-bind (λ cs. All (λ c. is_profile c ≡ true) cs)
          (Gives-lift_if (λ cs h. restricted_assignments u h))
          λ changes profile. Gives-on_error _ (
            Gives-execute_in (SameRights t) tx _ (λ after done.
              update_row-SameRights id (set_columns changes) t
                (λ row. credentials-set_columns changes row profile) (rw (sym e) at done))))

module _ (tables : CharTables) (crypto : Crypto) (report : String → String)
    (listing : Listing) where
  abbrev service : UserService
  service = user_service tables crypto (postgres_users report listing)

  -- Whatever a user sends as an update of its own account, and whatever becomes of the calls to the
  -- database, all users keep their ids, names, addresses, password hashes and statuses, and all roles
  -- are held as before.
  pub patch_my_user-SameRights :
      (salt : String) (auth_user : Identity) (payload : UpdateUser) (w : World)
      → SameRights w.tables (patch_my_user service salt auth_user payload w).1.tables
  unfolding patch_my_user user_service Service.partial_update hash_update restricted_to_self
      postgres_users
  patch_my_user-SameRights salt auth_user payload w = leaves.left_as w refl
    where
      leaves : Leaves w.tables (SameRights w.tables) (patch_my_user service salt auth_user payload)
      leaves = Leaves-ret _ (
          Leaves-bind _ (refl, refl)
            (Gives-Keeps (
              require_user-Keeps tables crypto _ (postgres_users-Transactional report listing)
                auth_user.id))
            λ user any.
              Leaves-bind (λ tx. w.tables ≡ tx) (refl, refl)
                (Gives-on_error sql_unknown Gives-begin)
                λ tx e.
                  Leaves-bind (SameRights w.tables) (refl, refl)
                    (Gives-on_error _
                      (partial_update-Gives report w.tables tx auth_user.id payload e))
                    λ updated same. Leaves-commit _ sql_unknown updated (refl, refl) same)
