-- ===== src/Auth/Reads.antt =====
-- What the reads of the store find where no call fails, and the keys of the table of users.
use api_starter.Base.{
  String, Bool, false, ◌≡◌, ◌≢◌, Option, some, List, [], ◌∷◌, ◌==◌, nat_eq, nat_eq_refl, find, All,
  arith, Option-cases, inl, inr, ok, Bool-cases,
}
use mathlib.Core.Path.{subst}
use api_starter.Database.{Uuid, Tables, UserRow}
use api_starter.Database.Effect.{Mail, calm, query}
use api_starter.Auth.{Identity}
use api_starter.Auth.Postgres.{
  find_user_by_id, find_user_by_email, identity_of, role_names, map_option,
}

-- The row of a user, by id and by address.
abbrev pub by_id : Uuid → Tables → Option UserRow
by_id id t = find (λ u. nat_eq u.id id) t.users

abbrev pub by_email : String → Tables → Option UserRow
by_email email t = find (λ u. u.email == email) t.users

-- The identity of a row, with the names of its roles.
abbrev pub identity : Tables → UserRow → Identity
identity t u = identity_of u (role_names u.id t)

module _ (t : Tables) (sent : List Mail) where
  pub find_user_by_id_lem :
      (id : Uuid)
      → find_user_by_id id (calm t sent) ≡ (ok (map_option (identity t) (by_id id t)), calm t sent)
  unfolding find_user_by_id query
  find_user_by_id_lem id = elim (Option-cases (by_id id t)) [ inl e ↦ rw e | inr (u, e) ↦ rw e ]

  pub find_user_by_email_lem :
      (email : String)
      → find_user_by_email email (calm t sent)
        ≡ (ok (map_option (identity t) (by_email email t)), calm t sent)
  unfolding find_user_by_email query
  find_user_by_email_lem email = elim (Option-cases (by_email email t)) [
    | inl e ↦ rw e
    | inr (u, e) ↦ rw e
  ]

-- The primary key of the table: no id twice.
abbrev pub HasKeys : List UserRow → Type 0
HasKeys [] = Unit
HasKeys (u ∷ us) = All (λ v. v.id ≢ u.id) us × HasKeys us

pub id_of_found :
    (p : UserRow → Bool) (P : UserRow → Type 0) (us : List UserRow) {u : UserRow}
    → All P us
    → find p us ≡ some u
    → P u
id_of_found p P [] h e = absurd (ground arith)
id_of_found p P (v ∷ us) {u} (here, rest) e = elim (Bool-cases (p v)) [
  | inl hit ↦ subst P (ground arith) here
  | inr miss ↦ id_of_found p P us rest (rw miss at e)
]

-- A row that any search finds is the one that its id finds.
pub find_by_key :
    (p : UserRow → Bool) (us : List UserRow) {u : UserRow}
    → HasKeys us
    → find p us ≡ some u
    → find (λ v. nat_eq v.id u.id) us ≡ some u
find_by_key p [] h e = absurd (ground arith)
find_by_key p (v ∷ us) {u} (fresh, rest) e = elim (Bool-cases (p v)) [
  | inl hit ↦ let same : v ≡ u = ground arith in rw (same, nat_eq_refl u.id)
  | inr miss ↦
      let later : find p us ≡ some u = rw miss at e in
      let other : u.id ≢ v.id = id_of_found p (λ x. x.id ≢ v.id) us fresh later in
      let apart : nat_eq v.id u.id ≡ false = ground arith in rw apart (find_by_key p us rest later)
]
