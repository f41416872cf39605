-- ===== src/State/NewPassword.antt =====
-- What an update of a password by src/module/iam means for src/package/auth.
use api_starter.Base.{
  String, ◌≡◌, refl, ap, ◌∙◌, inl, inr, true, some, List, [], ◌∷◌, ok, map, find, nat_eq, ◌==◌,
  eq_iff, eq_refl, arith, Bool-cases, if◌then◌else◌, unwrap_or, and_then,
}
use api_starter.Base.Int.{ℤ}
use api_starter.Base.Chars.{CharTables}
use api_starter.Base.Pairwise.{Pairwise}
use api_starter.Database.{Uuid, DateTime, UserRow}
use api_starter.Database.Effect.{World, Mail, calm}
use api_starter.External.{Crypto, Verifies, UuidText}
use api_starter.Crypto.{hash_password}
use api_starter.Jwt.{TokenGenerator}
use api_starter.Auth.{Emailer}
use api_starter.Auth.Postgres.{over_tables}
use api_starter.Auth.Reads.{by_id, by_email, identity, id_of_found}
use api_starter.Auth.Service.{AuthService, login, generate_tokens}
use api_starter.Auth.Login.{login_lem}
use api_starter.Iam.{UpdateUser, UserService}
use api_starter.Iam.Columns.{written}
use api_starter.Iam.ColumnChanges.{partial_update-IsWritten}
use api_starter.Iam.Hashing.{hashed, hash_of}
use api_starter.Iam.Users.{Listing, postgres_users}
use api_starter.Iam.Service.{user_service}
use api_starter.State.Stable.{partial_update-Leaves}
use api_starter.State.Keys.{WellFormed, Apart}
use api_starter.State.Keys.Kept.{WellFormed-Stable}

-- The row of an id, after a change that keeps ids.
find-changed :
    (id : Uuid) (f : UserRow → UserRow) (us : List UserRow) {u : UserRow}
    → ((v : UserRow) → (f v).id ≡ v.id)
    → find (λ v. nat_eq v.id id) us ≡ some u
    → find (λ v. nat_eq v.id id) (map (λ v. if nat_eq v.id id then f v else v) us) ≡ some (f u)
find-changed id f [] kept h = absurd (ground arith)
find-changed id f (v ∷ us) {u} kept h = elim (Bool-cases (nat_eq v.id id)) [
  | inl e ↦
      let same : v ≡ u = ground arith in
      let named : nat_eq (f v).id id ≡ true = ap (λ i. nat_eq i id) (kept v) ∙ e in
      rw e (rw named (ap (λ r. some (f r)) same))
  | inr e ↦ rw e (rw e (find-changed id f us kept (rw (e, find) at h)))
]

-- Where no address is twice, the row of an id is the row of its address.
find-address :
    (id : Uuid) (us : List UserRow) {u : UserRow}
    → Pairwise Apart us
    → find (λ v. nat_eq v.id id) us ≡ some u
    → find (λ v. v.email == u.email) us ≡ some u
find-address id [] apart h = absurd (ground arith)
find-address id (v ∷ us) {u} (here, rest) h = elim (Bool-cases (nat_eq v.id id)) [
  | inl e ↦ let same : v ≡ u = ground arith in rw (same, eq_refl u.email) refl
  | inr e ↦
      let later : find (λ x. nat_eq x.id id) us ≡ some u = rw (e, find) at h in
      let other = id_of_found (λ x. nat_eq x.id id) (Apart v) us here later in
      elim (Bool-cases (v.email == u.email)) [
        | inl k ↦ absurd (other.addresses ((eq_iff v.email u.email).0 k))
        | inr k ↦ rw k (find-address id us rest later)
      ]
]

hash_of-eq-some :
    (crypto : Crypto) (salt password hash : String)
    → crypto.bcrypt_hash salt password ≡ ok hash
    → hash_of crypto salt password ≡ some hash
unfolding hash_password
hash_of-eq-some crypto salt password hash h = rw h refl

module _ (tables : CharTables) (crypto : Crypto) (uuid : UuidText) (jwt : TokenGenerator)
    (mailer : Emailer) (token_ttl refresh_token_ttl : ℤ) (report : String → String)
    (listing : Listing) where
  abbrev users : UserService
  users = user_service tables crypto (postgres_users report listing)

  abbrev sessions : AuthService
  sessions = over_tables jwt mailer token_ttl refresh_token_ttl

  -- On tables with their keys, whatever becomes of its calls: if an update of a user that is there
  -- gives a password and succeeds, then a login with the password and with the address that the user
  -- has now, where no call fails, gives the tokens of the row that the update has written, under the
  -- roles that the user has now.
  pub login-partial_update :
      (verifies : Verifies crypto) (salt password hash : String) (id : Uuid) (update : UpdateUser)
      (u : UserRow) (w : World) (now : DateTime) (sent : List Mail)
      → WellFormed w.tables
      → by_id id w.tables ≡ some u
      → update.password ≡ some password
      → crypto.bcrypt_hash salt password ≡ ok hash
      → (users.partial_update salt id update w).0 ≡ ok tt
      → let after = (users.partial_update salt id update w).1.tables in
        let row = written (hashed crypto salt update) u in
        login crypto uuid sessions now row.email password (calm after sent)
        ≡ (generate_tokens crypto uuid sessions now (identity after row), calm after sent)
  login-partial_update verifies salt password hash id update u w now sent keys found given made
        done =
      let after = (users.partial_update salt id update w).1.tables in
      let row = written (hashed crypto salt update) u in
      let rows =
        ap (λ t. t.users)
          (partial_update-IsWritten tables crypto report listing salt id update w done).0 in
      let kept : WellFormed after =
        (partial_update-Leaves report WellFormed (WellFormed-Stable report) tables crypto listing
            w.tables keys salt id update).left_as
          w refl in
      let by_key : by_id id after ≡ some row =
        ap (find (λ v. nat_eq v.id id)) rows
        ∙ find-changed id (written (hashed crypto salt update)) w.tables.users (λ v. refl) found in
      let there : by_email row.email after ≡ some row =
        find-address id after.users kept.users by_key in
      let stored : row.password ≡ hash =
        ap (λ p. unwrap_or u.password (and_then (hash_of crypto salt) p)) given
        ∙ ap (unwrap_or u.password) (hash_of-eq-some crypto salt password hash made) in
      login_lem crypto uuid jwt mailer token_ttl refresh_token_ttl after sent now row.email password
      ∙ rw (there, stored, verifies salt password hash made) refl
