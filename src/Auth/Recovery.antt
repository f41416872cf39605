-- ===== src/Auth/Recovery.antt =====
-- Asking for a password reset, over the tables.
use api_starter.Base.{
  ℕ, String, ◌<>◌, ◌≡◌, refl, inl, inr, ap, Bool, not, none, some, List, [], ◌∷◌, ◌++◌, Result, err,
  Bool-cases, keep, ◌==◌, eq_refl,
}
use api_starter.Base.Int.{ℤ}
use api_starter.Database.{DateTime, Tables, UserRow, PasswordResetRow}
use api_starter.Database.Effect.{World, Mail, calm, execute, on_error}
use api_starter.Errdef.{Error, not_found, unknown}
use api_starter.External.{Crypto, UuidText}
use api_starter.Crypto.{hash_token, random_token}
use api_starter.Jwt.{TokenGenerator}
use api_starter.Auth.{Emailer}
use api_starter.Auth.Postgres.{
  postgres_store, over_tables, delete_password_reset, create_password_reset,
}
use api_starter.Auth.Reads.{by_email, find_user_by_email_lem}
use api_starter.Auth.Service.{AuthService, password_recovery}

-- The pending resets of an address.
abbrev pub resets_of : String → List PasswordResetRow → List PasswordResetRow
resets_of email rows = keep (λ r. r.email == email) rows

-- The resets of the other addresses.
abbrev pub other_resets : String → List PasswordResetRow → List PasswordResetRow
other_resets email rows = keep (λ r. not (r.email == email)) rows

pub resets_of-other_resets :
    (email : String) (rows : List PasswordResetRow) → resets_of email (other_resets email rows) ≡ []
resets_of-other_resets email [] = refl
resets_of-other_resets email (r ∷ rows) = elim (Bool-cases (r.email == email)) [
  | inl e ↦ rw e (resets_of-other_resets email rows)
  | inr e ↦ rw e (rw e (resets_of-other_resets email rows))
]

pub other_resets-other_resets :
    (email : String) (rows : List PasswordResetRow)
    → other_resets email (other_resets email rows) ≡ other_resets email rows
other_resets-other_resets email [] = refl
other_resets-other_resets email (r ∷ rows) = elim (Bool-cases (r.email == email)) [
  | inl e ↦ rw e (other_resets-other_resets email rows)
  | inr e ↦ rw e (rw e (ap (λ rs. r ∷ rs) (other_resets-other_resets email rows)))
]

keep-append :
    {A : Type 0} (p : A → Bool) (xs ys : List A) → keep p (xs ++ ys) ≡ keep p xs ++ keep p ys
keep-append p [] ys = refl
keep-append p (x ∷ xs) ys = elim (Bool-cases (p x)) [
  | inl e ↦ rw e (ap (λ rs. x ∷ rs) (keep-append p xs ys))
  | inr e ↦ rw e (keep-append p xs ys)
]

append_nil : {A : Type 0} (xs : List A) → xs ++ [] ≡ xs
append_nil [] = refl
append_nil (x ∷ xs) = ap (λ rs. x ∷ rs) (append_nil xs)

abbrev pub pending : DateTime → String → String → PasswordResetRow
pending now email token = record { email = email; token = token; created_at = now }

-- The tables once an address has its one new reset.
abbrev recovered : DateTime → String → String → Tables → Tables
recovered now email token t = record t {
  password_resets = other_resets email t.password_resets ++ (pending now email token ∷ []);
}

-- An address that has recovered has one pending reset, the new one; those of the others stay.
recovered_resets :
    (now : DateTime) (email token : String) (rows : List PasswordResetRow)
    → (resets_of email (other_resets email rows ++ (pending now email token ∷ []))
        ≡ pending now email token ∷ [])
      × (other_resets email (other_resets email rows ++ (pending now email token ∷ []))
          ≡ other_resets email rows)
recovered_resets now email token rows = (
  rw (keep-append (λ r. r.email == email) (other_resets email rows) (pending now email token ∷ []))
      (rw (resets_of-other_resets email rows, eq_refl email) refl),
  rw
      (keep-append (λ r. not (r.email == email)) (other_resets email rows)
        (pending now email token ∷ []))
      (rw (other_resets-other_resets email rows, eq_refl email)
        (append_nil (other_resets email rows))),
)

module _ (crypto : Crypto) (uuid : UuidText) (jwt : TokenGenerator) (mailer : Emailer)
    (token_ttl refresh_token_ttl : ℤ) (t : Tables) (sent : List Mail) where
  abbrev self : AuthService
  self = over_tables jwt mailer token_ttl refresh_token_ttl

  -- The mail that a recovery hands to the mailer, with the raw token.
  abbrev pub hand_over : List ℕ → String → UserRow → World → Result Error (Unit {0}) × World
  hand_over random uri u = on_error unknown (
      mailer.send_html u.email "Password Recovery" "password-reset"
        (("username", u.user_name) ∷ ("callbackURI", uri <> random_token crypto random) ∷ []))

  -- A recovery, where no call to the database fails. For an address that no user has it gives
  -- `not_found` and changes nothing. Otherwise it hands a mail with the raw token to the mailer,
  -- at a time when the tables hold exactly one pending reset for the address, with the hash of that
  -- token and the current time, and the resets of every other address as before.
  pub password_recovery_lem :
      (now : DateTime) (random : List ℕ) (email uri : String)
      → (by_email email t ≡ none
          → password_recovery crypto uuid self now random email uri (calm t sent)
            ≡ (err (not_found "invalid email address"), calm t sent))
        × ((u : UserRow)
            → by_email email t ≡ some u
            → (after : Tables) × (password_recovery crypto uuid self now random email uri
                  (calm t sent)
                ≡ hand_over random uri u (calm after sent))
              × (resets_of email after.password_resets
                  ≡ pending now email (hash_token crypto (random_token crypto random)) ∷ [])
              × (other_resets email after.password_resets ≡ other_resets email t.password_resets)
              × (after.users ≡ t.users))
  unfolding password_recovery postgres_store delete_password_reset create_password_reset execute
  password_recovery_lem now random email uri = (
    λ e. rw (find_user_by_email_lem t sent email, e) refl,
    λ u e.
        let token = hash_token crypto (random_token crypto random) in
        let (one, rest) = recovered_resets now email token t.password_resets in
        (
          recovered now email token t,
          rw (find_user_by_email_lem t sent email, e) refl,
          one,
          rest,
          refl,
        ),
  )
