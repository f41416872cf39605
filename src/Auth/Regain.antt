-- ===== src/Auth/Regain.antt =====
-- The whole way back into an account whose password is lost.
use api_starter.Base.{
  ℕ, ◌*◌, String, ◌<>◌, ◌≡◌, refl, ap, ◌∙◌, inl, inr, Bool, false, none, some, List, [], ◌∷◌, ok,
  arith, Bool-cases, find, ◌==◌, eq_refl,
}
use api_starter.Base.Int.{ℤ, pos, ltb_ℤ}
use api_starter.Base.Dict.{Dict}
use api_starter.Base.Clock.{add_seconds}
use api_starter.Database.{DateTime, Tables, UserRow, PasswordResetRow}
use api_starter.Database.Effect.{Mail, calm}
use api_starter.External.{Crypto, UuidText, Verifies}
use api_starter.Crypto.{hash_token, random_token}
use api_starter.Jwt.{TokenGenerator}
use api_starter.Auth.{Emailer}
use api_starter.Auth.Postgres.{over_tables, with_password}
use api_starter.Auth.Reads.{by_email, identity}
use api_starter.Auth.Recovery.{resets_of, other_resets, pending, password_recovery_lem}
use api_starter.Auth.Reset.{reset_for, login-reset_password}
use api_starter.Auth.Service.{
  password_recovery, reset_password, login, generate_tokens, password_reset_ttl_minutes,
}

-- A mailer that takes every mail.
pub record Delivers (mailer : Emailer) : Type 0 where
  pub delivered :
      (to subject template : String) (values : Dict String) (t : Tables) (sent : List Mail)
      → mailer.send_html to subject template values (calm t sent) ≡ (
        ok tt,
        calm t (record { to = to; subject = subject; template = template; values = values } ∷ sent),
      )

some_is_none : {A B : Type 0} {a : A} → some a ≡ none → B
some_is_none h = absurd (ground arith)

-- A token that no other address has is found among those of the address.
find_own :
    (email token : String) (rows : List PasswordResetRow)
    → find (λ r. r.token == token) (other_resets email rows) ≡ none
    → find (λ r. r.token == token) rows ≡ find (λ r. r.token == token) (resets_of email rows)
find_own email token [] h = refl
find_own email token (r ∷ rows) h = elim (Bool-cases (r.email == email)) [
  | inl e ↦ elim (Bool-cases (r.token == token)) [
    | inl k ↦ rw (e, k) refl
    | inr k ↦ rw (e, k) (find_own email token rows (rw e at h))
  ]
  | inr e ↦ elim (Bool-cases (r.token == token)) [
    | inl k ↦ absurd (some_is_none (rw k at (rw e at h)))
    | inr k ↦ rw (e, k) (find_own email token rows (rw k at (rw e at h)))
  ]
]

-- The link of a recovery mail.
abbrev pub recovery_mail : Crypto → List ℕ → String → UserRow → Mail
recovery_mail crypto random uri u = record {
  to = u.email;
  subject = "Password Recovery";
  template = "password-reset";
  values = ("username", u.user_name) ∷ ("callbackURI", uri <> random_token crypto random) ∷ [];
}

-- Where no call fails and the mailer takes every mail: a user who asks for a recovery is sent a mail
-- with a link that ends in a token; unless a pending reset of another address has the hash of the same
-- token, a reset with that token within fifteen minutes, by a password that can be hashed, succeeds;
-- and then a login with the address and the new password gives the tokens of the user.
pub regain_lem :
    (crypto : Crypto) (uuid : UuidText) (jwt : TokenGenerator) (mailer : Emailer)
    (token_ttl refresh_token_ttl : ℤ) (t : Tables) (sent : List Mail) (verifies : Verifies crypto)
    (delivers : Delivers mailer) (now soon last : DateTime) (random : List ℕ)
    (email uri salt new_password hash : String) (u : UserRow)
    → by_email email t ≡ some u
    → find
        (λ r. r.token == hash_token crypto (random_token crypto random))
        (other_resets email t.password_resets)
      ≡ none
    → ltb_ℤ (add_seconds now (pos (password_reset_ttl_minutes * 60))) soon ≡ false
    → crypto.bcrypt_hash salt new_password ≡ ok hash
    → let service = over_tables jwt mailer token_ttl refresh_token_ttl in
      let mailed = recovery_mail crypto random uri u ∷ sent in
      (asked : Tables) × (after : Tables) × (password_recovery crypto uuid service now random email
          uri
          (calm t sent)
        ≡ (ok tt, calm asked mailed))
      × (reset_password crypto uuid service soon salt
            (random_token crypto random)
            new_password
            (calm asked mailed)
          ≡ (ok tt, calm after mailed))
      × (login crypto uuid service last email new_password (calm after mailed) ≡ (
        generate_tokens crypto uuid service last (identity after (with_password hash u)),
        calm after mailed,
      ))
regain_lem crypto uuid jwt mailer token_ttl refresh_token_ttl t sent verifies delivers now soon last
      random email uri salt new_password hash u found alone fresh hashed =
    let token = random_token crypto random in
    let digest = hash_token crypto token in
    let mailed = recovery_mail crypto random uri u ∷ sent in
    let (asked, recovered, own, others, same) =
      (password_recovery_lem crypto uuid jwt mailer token_ttl refresh_token_ttl t sent now random
          email uri).1
        u found in
    let is_it : PasswordResetRow → Bool = λ r. r.token == digest in
    let named : reset_for crypto token asked ≡ some (pending now email digest) =
      find_own email digest asked.password_resets (ap (find is_it) others ∙ alone)
      ∙ (ap (find is_it) own ∙ rw (eq_refl digest) refl) in
    let (after, reset, signed, gone, rest) =
      login-reset_password crypto uuid jwt mailer token_ttl refresh_token_ttl asked mailed verifies
        soon last salt token new_password hash (pending now email digest) u named fresh hashed
        (ap (find (λ v. v.email == email)) same ∙ found) in
    (
      asked,
      after,
      recovered
          ∙ rw
              (delivers.delivered u.email "Password Recovery" "password-reset"
                (("username", u.user_name) ∷ ("callbackURI", uri <> token) ∷ []) asked sent)
              refl,
      reset,
      signed,
    )
