-- ===== src/Auth/Login.antt =====
-- Logging in, and the identity behind a session, over the tables.
use api_starter.Base.{
  ℕ, String, ◌+◌, ◌/◌, ◌≡◌, refl, sym, inl, inr, ◌∙◌, ap, Bool, true, false, Option, none, some,
  List, Result, ok, err, arith, Option-cases, Result-cases, ◌==◌, and_then,
}
use api_starter.Base.Int.{ℤ, pos, ◌≤ℤ◌}
use api_starter.Base.Clock.{timestamp, nanos}
use api_starter.Database.{Uuid, DateTime, Tables, UserRow}
use api_starter.Database.Effect.{World, Mail, calm}
use api_starter.Errdef.{unauthorized}
use api_starter.External.{Crypto, UuidText, JsonWebToken, Signs, Parses}
use api_starter.Crypto.{compare_hash_and_password}
use api_starter.Jwt.{TokenGenerator, HmacTokenGenerator, hmac_generator}
use api_starter.Auth.{AuthenticationTokens, Emailer}
use api_starter.Auth.Postgres.{postgres_store, over_tables}
use api_starter.Auth.Reads.{
  by_id, by_email, identity, find_user_by_id_lem, find_user_by_email_lem, HasKeys, find_by_key,
}
use api_starter.Auth.Service.{
  AuthService, hmac_service, generate_tokens, user_id_from, require_user_by_id, login, get_identity,
  invalid_credentials,
}
use api_starter.Auth.Tokens.{user_id_from-generate_tokens}

abbrev some_if_ok : Result String Bool → UserRow → Option UserRow
some_if_ok (ok true) u = some u
some_if_ok (ok false) u = none
some_if_ok (err e) u = none

-- The row of an address, if its hash verifies the password.
abbrev pub verified : Crypto → String → String → Tables → Option UserRow
verified crypto email password t =
    and_then (λ u. some_if_ok (crypto.bcrypt_verify password u.password) u) (by_email email t)

-- A verified row is that of the address, and its hash verifies the password.
verified-eq-some :
    (crypto : Crypto) (email password : String) (t : Tables) {u : UserRow}
    → verified crypto email password t ≡ some u
    → (by_email email t ≡ some u) × (crypto.bcrypt_verify password u.password ≡ ok true)
verified-eq-some crypto email password t {u} h = elim (Option-cases (by_email email t)) [
  | inl e ↦ absurd (ground arith)
  | inr (v, e) ↦
      let there : some_if_ok (crypto.bcrypt_verify password v.password) v ≡ some u = rw e at h in
      elim (Result-cases (crypto.bcrypt_verify password v.password)) [
        | inl (true, b) ↦ let same : v ≡ u = ground arith in (rw e (ap some same), rw same at b)
        | inl (false, b) ↦ absurd (ground arith)
        | inr (text, b) ↦ absurd (ground arith)
      ]
]

module _ (crypto : Crypto) (uuid : UuidText) (jwt : TokenGenerator) (mailer : Emailer)
    (token_ttl refresh_token_ttl : ℤ) (t : Tables) (sent : List Mail) where
  abbrev self : AuthService
  self = over_tables jwt mailer token_ttl refresh_token_ttl

  -- A login, where no call fails, changes nothing. It gives the tokens of the user of the address if
  -- the password verifies against the stored hash; an unknown address, a wrong password and an
  -- unreadable hash all give one and the same error.
  pub login_lem :
      (now : DateTime) (email password : String)
      → login crypto uuid self now email password (calm t sent) ≡ (
        elim (verified crypto email password t) [
          | none ↦ err (unauthorized invalid_credentials)
          | some u ↦ generate_tokens crypto uuid self now (identity t u)
        ],
        calm t sent,
      )
  unfolding login compare_hash_and_password postgres_store
  login_lem now email password = elim (Option-cases (by_email email t)) [
    | inl e ↦ rw (find_user_by_email_lem t sent email, e)
    | inr (u, e) ↦
        rw (find_user_by_email_lem t sent email, e)
          (elim (Result-cases (crypto.bcrypt_verify password u.password)) [
            | inl (true, h) ↦ rw h
            | inl (false, h) ↦ rw h
            | inr (text, h) ↦ rw h
          ])
  ]

  -- Where no call fails, the identity behind a token that names a user is the row of that user.
  pub get_identity_named :
      (now : DateTime) (token : String) {id : Uuid} {u : UserRow}
      → user_id_from crypto uuid self now token ≡ ok id
      → by_id id t ≡ some u
      → get_identity crypto uuid self now token (calm t sent) ≡ (ok (identity t u), calm t sent)
  unfolding get_identity require_user_by_id postgres_store
  get_identity_named now token {id} named found =
      rw named (rw (find_user_by_id_lem t sent id) (rw found refl))

  -- The user whose tokens a login gives.
  pub issued_user :
      (now : DateTime) (email password : String) {tokens : AuthenticationTokens} {w : World}
      → login crypto uuid self now email password (calm t sent) ≡ (ok tokens, w)
      → (u : UserRow) × (by_email email t ≡ some u)
        × (crypto.bcrypt_verify password u.password ≡ ok true)
        × (generate_tokens crypto uuid self now (identity t u) ≡ ok tokens)
  issued_user now email password h =
      let outcome = ap (λ p. p.0) (sym (login_lem now email password) ∙ h) in
      elim (Option-cases (verified crypto email password t)) [
        | inl none_left ↦ absurd (ground arith)
        | inr (u, e) ↦
            let (found, good) = verified-eq-some crypto email password t e in
            (u, found, good, rw e at outcome)
      ]

module _ (crypto : Crypto) (uuid : UuidText) (parses : Parses uuid) (j : JsonWebToken)
    (lawful : Signs j) (g : HmacTokenGenerator) (mailer : Emailer) (token_ttl refresh_token_ttl : ℕ)
    (t : Tables) (sent : List Mail) where
  abbrev service : AuthService
  service = hmac_service j g postgres_store mailer (pos token_ttl) (pos refresh_token_ttl)

  -- A login, where no call fails and no id occurs twice among the users, that succeeds gives tokens
  -- for a user of that address whose hash verifies the password; up to the lifetime of the
  -- access token that token, and up to its own lifetime the refresh token too, is answered with
  -- the identity of that user, its current roles included.
  pub login_session :
      (issued_at : ℕ) (email password : String) (tokens : AuthenticationTokens) (w : World)
      (later : DateTime)
      → HasKeys t.users
      → login crypto uuid service (pos issued_at) email password (calm t sent) ≡ (ok tokens, w)
      → (u : UserRow) × (by_email email t ≡ some u)
        × (crypto.bcrypt_verify password u.password ≡ ok true)
        × (timestamp later ≤ℤ pos (issued_at / nanos + token_ttl)
            → get_identity crypto uuid service later tokens.token (calm t sent)
              ≡ (ok (identity t u), calm t sent))
        × (timestamp later ≤ℤ pos (issued_at / nanos + refresh_token_ttl)
            → get_identity crypto uuid service later tokens.refresh_token (calm t sent)
              ≡ (ok (identity t u), calm t sent))
  login_session issued_at email password tokens w later keys h =
      let (u, found, good, made) =
        issued_user crypto uuid (hmac_generator j g) mailer (pos token_ttl) (pos refresh_token_ttl)
          t sent (pos issued_at) email password h in
      let by_key = find_by_key (λ v. v.email == email) t.users keys found in
      let named =
        user_id_from-generate_tokens crypto uuid parses j lawful g postgres_store mailer token_ttl
          refresh_token_ttl issued_at (identity t u) tokens later made in
      (
        u,
        found,
        good,
        λ soon.
            get_identity_named crypto uuid (hmac_generator j g) mailer (pos token_ttl)
              (pos refresh_token_ttl) t sent later tokens.token (named.0 soon) by_key,
        λ soon.
            get_identity_named crypto uuid (hmac_generator j g) mailer (pos token_ttl)
              (pos refresh_token_ttl) t sent later tokens.refresh_token (named.1 soon) by_key,
      )
