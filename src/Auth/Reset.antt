-- ===== src/Auth/Reset.antt =====
-- Setting a new password with a reset token, over the tables.
use api_starter.Base.{
  ◌*◌, String, ◌≡◌, refl, inl, inr, ap, Bool, false, Option, none, some, List, [], ◌∷◌, ok, err,
  arith, Option-cases, Result-cases, Bool-cases, find, ◌==◌, eq_iff, if◌then◌else◌, map,
}
use api_starter.Base.Int.{ℤ, pos, ltb_ℤ}
use api_starter.Base.Clock.{add_seconds}
use api_starter.Database.{DateTime, Tables, UserRow, PasswordResetRow}
use api_starter.Database.Effect.{Mail, calm, query, execute}
use api_starter.Errdef.{bad_request}
use api_starter.External.{Crypto, UuidText, Verifies}
use api_starter.Crypto.{hash_token, hash_password}
use api_starter.Jwt.{TokenGenerator}
use api_starter.Auth.{Emailer}
use api_starter.Auth.Postgres.{
  postgres_store, over_tables, with_password, delete_password_reset, find_password_by_token,
}
use api_starter.Auth.Postgres
use api_starter.Auth.Reads.{by_email, identity}
use api_starter.Auth.Recovery.{resets_of, other_resets, resets_of-other_resets}
use api_starter.Auth.Login.{login_lem}
use api_starter.Auth.Service.{
  AuthService, password_reset_ttl_minutes, reset_password, login, generate_tokens,
}

-- The pending reset that a raw token names.
abbrev pub reset_for : Crypto → String → Tables → Option PasswordResetRow
reset_for crypto token t = find (λ r. r.token == hash_token crypto token) t.password_resets

-- A reset is too old at a time.
abbrev pub expired : DateTime → PasswordResetRow → Bool
expired now r = ltb_ℤ (add_seconds r.created_at (pos (password_reset_ttl_minutes * 60))) now

-- The tables once a new hash is set for an address and its resets are gone.
abbrev pub changed : String → String → Tables → Tables
changed email hash t = record t {
  users = map (λ u. if u.email == email then with_password hash u else u) t.users;
  password_resets = other_resets email t.password_resets;
}

-- Where the rows of an address get a new hash, the row that its search finds has it, and that of
-- another address is as before.
find_changed :
    (email hash : String) (us : List UserRow) {u : UserRow}
    → find (λ v. v.email == email) us ≡ some u
    → find
        (λ v. v.email == email)
        (map (λ v. if v.email == email then with_password hash v else v) us)
      ≡ some (with_password hash u)
find_changed email hash [] h = absurd (ground arith)
find_changed email hash (v ∷ us) {u} h = elim (Bool-cases (v.email == email)) [
  | inl e ↦
      let same : v ≡ u = ground arith in rw e (rw e (ap (λ x. some (with_password hash x)) same))
  | inr e ↦ rw e (rw e (find_changed email hash us (rw e at h)))
]

find_unchanged :
    (email other hash : String) (us : List UserRow)
    → (email == other) ≡ false
    → find
        (λ v. v.email == other)
        (map (λ v. if v.email == email then with_password hash v else v) us)
      ≡ find (λ v. v.email == other) us
find_unchanged email other hash [] apart = refl
find_unchanged email other hash (v ∷ us) apart = elim (Bool-cases (v.email == email)) [
  | inl e ↦
      let miss : (v.email == other) ≡ false = rw ((eq_iff _ _).0 e) apart in
      rw e (rw miss (find_unchanged email other hash us apart))
  | inr e ↦
      rw e (
        ap (λ x. if v.email == other then some v else x) (find_unchanged email other hash us apart))
]

module _ (crypto : Crypto) (uuid : UuidText) (jwt : TokenGenerator) (mailer : Emailer)
    (token_ttl refresh_token_ttl : ℤ) (t : Tables) (sent : List Mail) where
  abbrev self : AuthService
  self = over_tables jwt mailer token_ttl refresh_token_ttl

  find_password_by_token_lem :
      (token : String)
      → find_password_by_token token (calm t sent) ≡ (
        ok (Postgres.map_option Postgres.reset_of (find (λ r. r.token == token) t.password_resets)),
        calm t sent,
      )
  unfolding find_password_by_token query
  find_password_by_token_lem token =
      elim (Option-cases (find (λ r. r.token == token) t.password_resets)) [
        | inl e ↦ rw e
        | inr (r, e) ↦ rw e
      ]

  -- A reset, where no call fails: a token that names no pending reset or one that is older than its
  -- time to live, and a password that cannot be hashed, give an error and change nothing;
  -- otherwise every user of the address of the reset, and no other, has the new hash, and the
  -- pending resets of that address, and no others, are gone.
  pub reset_password_lem :
      (now : DateTime) (salt token new_password : String)
      → reset_password crypto uuid self now salt token new_password (calm t sent)
        ≡ elim (reset_for crypto token t) [
          | none ↦ (err (bad_request "invalid or expired token"), calm t sent)
          | some r ↦
              if expired now r
              then (err (bad_request "invalid or expired token"), calm t sent)
              else elim (hash_password crypto salt new_password) [
                | err e ↦ (err e, calm t sent)
                | ok hash ↦ (ok tt, calm (changed r.email hash t) sent)
              ]
        ]
  unfolding reset_password postgres_store Postgres.reset_password delete_password_reset execute
  reset_password_lem now salt token new_password = elim (Option-cases (reset_for crypto token t)) [
    | inl e ↦ rw (find_password_by_token_lem (hash_token crypto token), e) refl
    | inr (r, e) ↦
        rw (find_password_by_token_lem (hash_token crypto token), e)
          (elim (Bool-cases (expired now r)) [
            | inl old ↦ rw old refl
            | inr fresh ↦ elim (Result-cases (hash_password crypto salt new_password)) [
              | inl (hash, h) ↦ rw fresh (rw h refl)
              | inr (text, h) ↦ rw fresh (rw h refl)
            ]
          ])
  ]

-- After a reset that finds a pending, unexpired reset and hashes the new password, where no call
-- fails: a user of that address logs in with the new password and gets the tokens of an identity
-- with the user's id, no reset is pending for the address, and the row that any other address finds
-- is as before.
pub login-reset_password :
    (crypto : Crypto) (uuid : UuidText) (jwt : TokenGenerator) (mailer : Emailer)
    (token_ttl refresh_token_ttl : ℤ) (t : Tables) (sent : List Mail) (verifies : Verifies crypto)
    (now later : DateTime) (salt token new_password hash : String) (r : PasswordResetRow)
    (u : UserRow)
    → reset_for crypto token t ≡ some r
    → expired now r ≡ false
    → crypto.bcrypt_hash salt new_password ≡ ok hash
    → by_email r.email t ≡ some u
    → let service = over_tables jwt mailer token_ttl refresh_token_ttl in
      (after : Tables) × (reset_password crypto uuid service now salt token new_password
          (calm t sent)
        ≡ (ok tt, calm after sent))
      × (login crypto uuid service later r.email new_password (calm after sent) ≡ (
        generate_tokens crypto uuid service later (identity after (with_password hash u)),
        calm after sent,
      ))
      × (resets_of r.email after.password_resets ≡ [])
      × ((other : String) → (r.email == other) ≡ false → by_email other after ≡ by_email other t)
unfolding hash_password
login-reset_password crypto uuid jwt mailer token_ttl refresh_token_ttl t sent verifies now later
      salt token new_password hash r u named fresh hashed found =
    let after = changed r.email hash t in
    (
      after,
      rw
          (
            reset_password_lem crypto uuid jwt mailer token_ttl refresh_token_ttl t sent now salt
                token new_password,
            named,
          )
          (rw (fresh) (rw hashed refl)),
      rw
          (
            login_lem crypto uuid jwt mailer token_ttl refresh_token_ttl after sent later r.email
                new_password,
            find_changed r.email hash t.users found,
          )
          (rw (verifies salt new_password hash hashed) refl),
      resets_of-other_resets r.email t.password_resets,
      λ other apart. find_unchanged r.email other hash t.users apart,
    )
