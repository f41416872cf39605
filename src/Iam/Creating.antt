-- ===== src/Iam/Creating.antt =====
-- src/module/iam/core/service/user.rs: what `create` does over the tables, and that the user can
-- sign in.
use api_starter.Base.{
  or_true, String, ◌≡◌, refl, ◌∙◌, inl, inr, Bool, true, false, not, ◌&&◌, ◌||◌, some, List, [],
  ◌∷◌, ◌++◌, ok, err, any, find, nat_eq, ◌==◌, eq_refl, arith, Bool-cases, is_empty, any-append,
  if◌then◌else◌,
}
use api_starter.Base.Int.{ℤ}
use api_starter.Base.Chars.{CharTables}
use api_starter.Database.{Uuid, DateTime, Tables, UserRow}
use api_starter.Database.Errors.{unique_violation, foreign_key_violation}
use api_starter.Database.Effect.{Mail, calm, begin, commit, execute_in}
use api_starter.Errdef.{unprocessable, invalid, add_violation}
use api_starter.External.{Crypto, UuidText, Verifies}
use api_starter.Crypto.{hash_password}
use api_starter.Jwt.{TokenGenerator}
use api_starter.Auth.{Emailer}
use api_starter.Auth.Postgres.{over_tables}
use api_starter.Auth.Reads.{by_email, identity}
use api_starter.Auth.Login.{login_lem}
use api_starter.Auth.Service.{login, generate_tokens}
use api_starter.Iam.{CreateUser, UserService, active_user_status}
use api_starter.Iam.Rows.{taken, refers, granted, new_row, insert_row, insert_roles, violation}
use api_starter.Iam.Users.{Listing, postgres_users}
use api_starter.Iam.Users
use api_starter.Iam.Service
use api_starter.Iam.Service.{user_service, map_domain_error}

-- The row of a new user, under the hash of its password.
abbrev pub row_of : Uuid → String → CreateUser → UserRow
row_of fresh hash u = new_row fresh (record u { password = hash; status = active_user_status })

-- The id is that of a row.
abbrev pub id_there : Uuid → Tables → Bool
id_there id t = any (λ v. nat_eq v.id id) t.users

-- The tables with the new row, and then with its roles.
abbrev pub with_row : UserRow → Tables → Tables
with_row u t = record t { users = t.users ++ (u ∷ []) }

abbrev pub with_grants : Uuid → List String → Tables → Tables
with_grants id names t =
    if is_empty names
    then t
    else record t { user_has_roles = t.user_has_roles ++ granted id names t }

or_false : {p q : Bool} → p ≡ false → (p || q) ≡ true → q ≡ true
or_false f h = ground arith

apart_from : (p q r : Bool) → p ≡ false → (not p && (q || r)) ≡ false → r ≡ false
apart_from p q r f h = ground arith

neither : (p q : Bool) → (p || q) ≡ false → (p ≡ false) × (q ≡ false)
neither p q h = (ground arith, ground arith)

-- The statement that inserts a row, on its three branches.
module _ (report : String → String) (row : UserRow) (t : Tables) where
  insert_row-taken :
      (id_there row.id t || taken row t.users) ≡ true
      → insert_row report row t ≡ violation report unique_violation
  unfolding insert_row
  insert_row-taken h = elim (Bool-cases (id_there row.id t)) [
    | inl there ↦ rw there
    | inr absent ↦ rw absent (rw (or_false absent h))
  ]

  insert_row-refused :
      (id_there row.id t || taken row t.users) ≡ false
      → refers row t ≡ false
      → insert_row report row t ≡ violation report foreign_key_violation
  unfolding insert_row
  insert_row-refused h r =
      let (absent, free) = neither (id_there row.id t) (taken row t.users) h in rw (absent, free, r)

  insert_row-free :
      (id_there row.id t || taken row t.users) ≡ false
      → refers row t ≡ true
      → insert_row report row t ≡ ok (with_row row t)
  unfolding insert_row
  insert_row-free h r =
      let (absent, free) = neither (id_there row.id t) (taken row t.users) h in rw (absent, free, r)

  id_there-with_row : id_there row.id (with_row row t) ≡ true
  id_there-with_row = rw (any-append (λ v. nat_eq v.id row.id) t.users (row ∷ [])) (ground arith)

  -- The roles of a row that is there.
  add_user_roles-with_row :
      (sent : List Mail) (names : List String)
      → Users.add_user_roles report (with_row row t) row.id names (calm t sent)
        ≡ (ok (with_grants row.id names (with_row row t)), calm t sent)
  unfolding Users.add_user_roles insert_roles execute_in
  add_user_roles-with_row sent [] = refl
  add_user_roles-with_row sent (name ∷ names) =
      rw (id_there-with_row, or_true (is_empty (granted row.id (name ∷ names) (with_row row t))))
        refl

module _ (tables : CharTables) (crypto : Crypto) (report : String → String) (listing : Listing)
    (t : Tables) (sent : List Mail) (fresh : Uuid) (salt hash : String) (u : CreateUser) where
  abbrev service : UserService
  service = user_service tables crypto (postgres_users report listing)

  -- Where no call fails and the password can be hashed, a creation whose id, name or address another
  -- row has answers that the username or email is taken, one of an unknown department or status
  -- answers that the department is invalid, and both leave the tables; any other gives the id and adds
  -- the row, under the hash, and its roles.
  pub create_lem :
      crypto.bcrypt_hash salt u.password ≡ ok hash
      → let row = row_of fresh hash u in
        let created = service.create fresh salt u (calm t sent) in
        ((id_there fresh t || taken row t.users) ≡ true
          → created ≡ (err (unprocessable "username or email is already taken"), calm t sent))
        × ((id_there fresh t || taken row t.users) ≡ false
            → refers row t ≡ false
            → created ≡ (
              err (
                  add_violation
                    (invalid "invalid payload fields")
                    "department_id"
                    "invalid department id provided"),
              calm t sent,
            ))
        × ((id_there fresh t || taken row t.users) ≡ false
            → refers row t ≡ true
            → created ≡ (ok fresh, calm (with_grants fresh u.roles (with_row row t)) sent))
  unfolding user_service Service.create postgres_users Users.create begin commit execute_in
      hash_password map_domain_error
  create_lem hashed = (
    λ h. rw (hashed, insert_row-taken report (row_of fresh hash u) t h, Users.create),
    λ h r. rw (hashed, insert_row-refused report (row_of fresh hash u) t h r, Users.create),
    λ h r.
        rw (hashed, insert_row-free report (row_of fresh hash u) t h r, Users.create)
          (rw (add_user_roles-with_row report (row_of fresh hash u) t sent u.roles) refl),
  )

-- A row whose keys no other has is the one of its address.
own_address :
    (row : UserRow) (users : List UserRow)
    → any (λ v. nat_eq v.id row.id) users ≡ false
    → taken row users ≡ false
    → find (λ v. v.email == row.email) (users ++ (row ∷ [])) ≡ some row
own_address row [] absent free = rw (eq_refl row.email) refl
own_address row (v ∷ users) absent free =
    let (other, others) =
      neither (nat_eq v.id row.id) (any (λ x. nat_eq x.id row.id) users) absent in
    let (apart, rest) =
      neither (not (nat_eq v.id row.id) && (v.user_name == row.user_name || v.email == row.email))
        (taken row users) free in
    rw
      (apart_from (nat_eq v.id row.id) (v.user_name == row.user_name) (v.email == row.email) other
        apart)
      (own_address row users others rest)

by_email-with_grants :
    (email : String) (id : Uuid) (names : List String) (t : Tables)
    → by_email email (with_grants id names t) ≡ by_email email t
by_email-with_grants email id [] t = refl
by_email-with_grants email id (name ∷ names) t = refl

-- Where no call fails: a user that is created with a password that can be hashed, with an id, a name
-- and an address that no row has, and with a department and a status that are there, gets the id, and
-- a login with the address and the password then gives the tokens of the new row.
pub login-create :
    (tables : CharTables) (crypto : Crypto) (uuid : UuidText) (jwt : TokenGenerator)
    (mailer : Emailer) (token_ttl refresh_token_ttl : ℤ) (report : String → String)
    (listing : Listing) (verifies : Verifies crypto) (now : DateTime) (t : Tables)
    (sent : List Mail) (fresh : Uuid) (salt hash : String) (u : CreateUser)
    → crypto.bcrypt_hash salt u.password ≡ ok hash
    → (id_there fresh t || taken (row_of fresh hash u) t.users) ≡ false
    → refers (row_of fresh hash u) t ≡ true
    → let row = row_of fresh hash u in
      let after = with_grants fresh u.roles (with_row row t) in
      let service = user_service tables crypto (postgres_users report listing) in
      let sessions = over_tables jwt mailer token_ttl refresh_token_ttl in
      (service.create fresh salt u (calm t sent) ≡ (ok fresh, calm after sent))
      × (login crypto uuid sessions now u.email u.password (calm after sent)
          ≡ (generate_tokens crypto uuid sessions now (identity after row), calm after sent))
login-create tables crypto uuid jwt mailer token_ttl refresh_token_ttl report listing verifies now t
      sent fresh salt hash u hashed free refers_there =
    let row = row_of fresh hash u in
    let after = with_grants fresh u.roles (with_row row t) in
    let (absent, unique) = neither (id_there fresh t) (taken row t.users) free in
    let there : by_email u.email after ≡ some row =
      by_email-with_grants u.email fresh u.roles (with_row row t)
      ∙ own_address row t.users absent unique in
    (
      (create_lem tables crypto report listing t sent fresh salt hash u hashed).2 free refers_there,
      login_lem crypto uuid jwt mailer token_ttl refresh_token_ttl after sent now u.email u.password
          ∙ rw (there, verifies salt u.password hash hashed) refl,
    )
