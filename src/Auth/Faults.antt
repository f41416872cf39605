-- ===== src/Auth/Faults.antt =====
-- What a password reset leaves behind where calls to the database fail.
use api_starter.Base.{
  ◌*◌, String, ◌≡◌, refl, ◌∙◌, ap, ◌⊎◌, inl, inr, Bool, true, false, some, ok, err, ok_or, arith,
  map, ◌==◌, if◌then◌else◌, ok_inj, find, ok_or-eq-ok,
}
use api_starter.Base.Int.{ℤ, pos, ltb_ℤ}
use api_starter.Base.Clock.{add_seconds}
use api_starter.Database.{DateTime, Tables}
use api_starter.Database.Effect.{World}
use api_starter.Database.Outcomes.{
  Gives, Gives-on_error, Gives-query, Gives-bind, Gives-lift, Gives-lift_if, Leaves, Leaves-bind,
  Leaves-execute, Leaves-last,
}
use api_starter.Errdef.{Error, bad_request}
use api_starter.External.{Crypto, UuidText}
use api_starter.Crypto.{hash_token, hash_password}
use api_starter.Jwt.{TokenGenerator}
use api_starter.Auth.{Emailer, PasswordReset}
use api_starter.Auth.Postgres.{
  postgres_store, over_tables, with_password, find_password_by_token, delete_password_reset,
  reset_of, map_option,
}
use api_starter.Auth.Postgres
use api_starter.Auth.Reset.{reset_for, changed}
use api_starter.Auth.Service.{AuthService, sql_unknown, reset_password, password_reset_ttl_minutes}

-- The tables with the new hash set, and the reset still pending.
abbrev pub rehashed : String → String → Tables → Tables
rehashed email hash t = record t {
  users = map (λ u. if u.email == email then with_password hash u else u) t.users;
}

-- A pending reset for a token that is not too old.
abbrev pub Valid : Crypto → DateTime → String → Tables → PasswordReset → Type 0
Valid crypto now token t r =
    (map_option reset_of (reset_for crypto token t) ≡ some r)
    × (ltb_ℤ (add_seconds r.created_at (pos (password_reset_ttl_minutes * 60))) now ≡ false)

-- The tables as they were, or, for a valid reset, with the new hash set, and then with the resets of
-- the address gone.
abbrev pub Stages : Crypto → DateTime → String → String → String → Tables → Tables → Type 0
Stages crypto now salt token new_password t t' =
    (t ≡ t')
    ⊎ ((r : PasswordReset) × (hash : String) × Valid crypto now token t r
        × (hash_password crypto salt new_password ≡ ok hash)
        × ((rehashed r.email hash t ≡ t') ⊎ (changed r.email hash t ≡ t')))

abbrev invalid : Error
invalid = bad_request "invalid or expired token"

unexpired : (e : Error) (b : Bool) {x : Unit {0}} → (if b then err e else ok tt) ≡ ok x → b ≡ false
unexpired e true h = absurd (ground arith)
unexpired e false h = refl

find_password_by_token-Gives :
    (t : Tables) (token : String)
    → Gives t
        (λ found. map_option reset_of (find (λ r. r.token == token) t.password_resets) ≡ found)
        (find_password_by_token token)
unfolding find_password_by_token
find_password_by_token-Gives t token =
    Gives-bind _ (Gives-query _) λ row e. Gives-lift _ (ap (map_option reset_of) (ok_inj e))

module _ (crypto : Crypto) (uuid : UuidText) (jwt : TokenGenerator) (mailer : Emailer)
    (token_ttl refresh_token_ttl : ℤ) where
  abbrev service : AuthService
  service = over_tables jwt mailer token_ttl refresh_token_ttl

  -- Whatever becomes of its calls to the database, a reset leaves the tables as they were unless the
  -- token names a pending reset that is not too old and the new password can be hashed; then it
  -- leaves them as they were, or with the new hash set for the users of the reset's address, or in
  -- addition with the resets of that address gone.
  pub reset_password-Stages :
      (now : DateTime) (salt token new_password : String) (w : World)
      → Stages crypto now salt token new_password w.tables
          (reset_password crypto uuid service now salt token new_password w).1.tables
  unfolding reset_password postgres_store Postgres.reset_password delete_password_reset
  reset_password-Stages now salt token new_password w = leaves.left_as w refl
    where
      leaves :
          Leaves w.tables
            (Stages crypto now salt token new_password w.tables)
            (reset_password crypto uuid service now salt token new_password)
      leaves =
          Leaves-bind _ (inl refl)
            (Gives-on_error sql_unknown
              (find_password_by_token-Gives w.tables (hash_token crypto token)))
            λ found e.
              Leaves-bind (λ r. found ≡ some r) (inl refl)
                (Gives-lift_if {r = ok_or invalid found} (λ r h. ok_or-eq-ok invalid found h))
                λ r named.
                  Leaves-bind
                    (λ x.
                      ltb_ℤ (add_seconds r.created_at (pos (password_reset_ttl_minutes * 60))) now
                      ≡ false)
                    (inl refl)
                    (Gives-lift_if
                      {r = if ltb_ℤ
                          (add_seconds r.created_at (pos (password_reset_ttl_minutes * 60))) now
                        then err invalid
                        else ok tt}
                      (λ x h. unexpired invalid _ h))
                    λ x fresh.
                      Leaves-bind (λ hash. hash_password crypto salt new_password ≡ ok hash)
                        (inl refl)
                        (Gives-lift_if {r = hash_password crypto salt new_password} (λ hash h. h))
                        λ hash hashed. Leaves-execute _ sql_unknown _ _ (inl refl) refl (
                          Leaves-last _ sql_unknown _
                            (inr (r, hash, (e ∙ named, fresh), hashed, inl refl)) refl
                            (inr (r, hash, (e ∙ named, fresh), hashed, inr refl)))
