-- ===== src/State/Accounts.antt =====
-- A property that every statement keeps survives the operations of src/package/auth/service.rs over the
-- tables.
use api_starter.Base.{
  ℕ, ◌*◌, String, ◌==◌, map, refl, Option, none, some, List, ok, err, if◌then◌else◌, ok_or,
}
use api_starter.Base.Int.{ℤ, pos, ltb_ℤ}
use api_starter.Base.Clock.{add_seconds}
use api_starter.Base.Dict.{Dict}
use api_starter.Database.{Uuid, DateTime, Tables, UserRow, PasswordResetRow}
use api_starter.Database.Keeps.{Keeps, Keeps-bind, Keeps-lift, Keeps-query, Keeps-on_error}
use api_starter.Database.Outcomes.{
  Gives-Keeps, Leaves, Leaves-bind, Leaves-execute, Leaves-last, Leaves-Keeps,
}
use api_starter.Errdef.{bad_request, not_found, unauthorized, unknown}
use api_starter.External.{Crypto, UuidText}
use api_starter.Crypto.{hash_token, hash_password}
use api_starter.Jwt.{TokenGenerator}
use api_starter.Auth.{Emailer}
use api_starter.Auth.Postgres.{
  postgres_store, with_password, over_tables, find_password_by_token, delete_password_reset,
  find_user_by_id, find_user_by_email, enrich, get_user_roles, create_password_reset,
}
use api_starter.Auth.Postgres
use api_starter.Auth.Service.{
  AuthService, sql_unknown, reset_password, password_reset_ttl_minutes, password_recovery, login,
  refresh_token, get_identity, require_user_by_id, user_id_from, invalid_credentials,
}
use api_starter.State.Stable.{Stable}

enrich-Keeps : (row : Option UserRow) → Keeps (enrich row)
unfolding enrich get_user_roles
enrich-Keeps none = record { kept = λ w. refl }
enrich-Keeps (some row) = Keeps-bind (Keeps-query _) λ roles. Keeps-lift _

find_user_by_id-Keeps : (id : Uuid) → Keeps (find_user_by_id id)
unfolding find_user_by_id
find_user_by_id-Keeps id = Keeps-bind (Keeps-query _) enrich-Keeps

find_user_by_email-Keeps : (email : String) → Keeps (find_user_by_email email)
unfolding find_user_by_email
find_user_by_email-Keeps email = Keeps-bind (Keeps-query _) enrich-Keeps

find_password_by_token-Keeps : (token : String) → Keeps (find_password_by_token token)
unfolding find_password_by_token
find_password_by_token-Keeps token = Keeps-bind (Keeps-query _) λ row. Keeps-lift _

-- A mailer that leaves the tables alone.
pub record LeavesTables (mailer : Emailer) : Type 0 where
  pub sends :
      (to subject template : String) (values : Dict String)
      → Keeps (mailer.send_html to subject template values)

module _ (crypto : Crypto) (uuid : UuidText) (jwt : TokenGenerator) (mailer : Emailer)
    (token_ttl refresh_token_ttl : ℤ) where
  abbrev service : AuthService
  service = over_tables jwt mailer token_ttl refresh_token_ttl

  require_user_by_id-Keeps : (id : Uuid) → Keeps (require_user_by_id crypto uuid service id)
  unfolding require_user_by_id postgres_store
  require_user_by_id-Keeps id =
      Keeps-bind (Keeps-on_error sql_unknown (find_user_by_id-Keeps id)) λ found. Keeps-lift _

  -- Signing in, renewing tokens and looking up a caller leave the tables alone.
  pub sessions-Keeps :
      (now : DateTime) (email password token : String)
      → Keeps (login crypto uuid service now email password)
        × Keeps (refresh_token crypto uuid service now token)
        × Keeps (get_identity crypto uuid service now token)
  unfolding login refresh_token get_identity postgres_store
  sessions-Keeps now email password token = (
    Keeps-bind (Keeps-on_error sql_unknown (find_user_by_email-Keeps email)) λ found.
        Keeps-bind (Keeps-lift (ok_or (unauthorized invalid_credentials) found))
          λ user. Keeps-lift _,
    Keeps-bind (Keeps-lift (user_id_from crypto uuid service now token))
        λ id. Keeps-bind (require_user_by_id-Keeps id) λ user. Keeps-lift _,
    Keeps-bind (Keeps-lift (user_id_from crypto uuid service now token)) require_user_by_id-Keeps,
  )

  module _ (Q : Tables → Type 0) (t : Tables) (q : Q t) where
    -- What a request for a reset keeps is what a change of the resets keeps.
    pub recovery-Leaves :
        (resetting : (rows : List PasswordResetRow) (t : Tables)
          → Q t
          → Q (record t { password_resets = rows }))
        (quiet : LeavesTables mailer) (now : DateTime) (random : List ℕ) (email uri : String)
        → Leaves t Q (password_recovery crypto uuid service now random email uri)
    unfolding password_recovery postgres_store delete_password_reset create_password_reset
    recovery-Leaves resetting quiet now random email uri =
        Leaves-bind (λ found. Unit {0}) q
          (Gives-Keeps (Keeps-on_error sql_unknown (find_user_by_email-Keeps email)))
          λ found any.
            Leaves-bind (λ user. Unit {0}) q
              (Gives-Keeps (Keeps-lift (ok_or (not_found "invalid email address") found)))
              λ user one.
                let cleared = resetting _ t q in
                let asked = resetting _ _ cleared in
                Leaves-execute Q sql_unknown _ _ q refl (
                  Leaves-execute Q sql_unknown _ _ cleared refl
                    (Leaves-Keeps Q asked (Keeps-on_error unknown (quiet.sends _ _ _ _))))

    -- And a reset keeps what changes of password hashes and of the resets keep.
    pub reset-Leaves :
        (rehashed : (address hash : String) (t : Tables)
          → Q t
          → Q (record t {
            users = map (λ u. if u.email == address then with_password hash u else u) t.users;
          }))
        (resetting : (rows : List PasswordResetRow) (t : Tables)
          → Q t
          → Q (record t { password_resets = rows }))
        (now : DateTime) (salt token new_password : String)
        → Leaves t Q (reset_password crypto uuid service now salt token new_password)
    unfolding reset_password postgres_store Postgres.reset_password delete_password_reset
    reset-Leaves rehashed resetting now salt token new_password =
        let invalid = bad_request "invalid or expired token" in
        Leaves-bind (λ found. Unit {0}) q
          (Gives-Keeps
            (Keeps-on_error sql_unknown (find_password_by_token-Keeps (hash_token crypto token))))
          λ found any.
            Leaves-bind (λ r. Unit {0}) q (Gives-Keeps (Keeps-lift (ok_or invalid found)))
              λ r named.
                Leaves-bind (λ x. Unit {0}) q
                  (Gives-Keeps (
                    Keeps-lift (
                      if ltb_ℤ (add_seconds r.created_at (pos (password_reset_ttl_minutes * 60)))
                        now
                      then err invalid
                      else ok tt)))
                  λ x fresh.
                    Leaves-bind (λ hash. Unit {0}) q
                      (Gives-Keeps (Keeps-lift (hash_password crypto salt new_password)))
                      λ hash hashed.
                        let set = rehashed r.email hash t q in
                        Leaves-execute Q sql_unknown _ _ q refl
                          (Leaves-last Q sql_unknown _ set refl (resetting _ _ set))

  module _ (report : String → String) (Q : Tables → Type 0) (stable : Stable report Q) (t : Tables)
      (q : Q t) where
    pub password_recovery-Leaves :
        (quiet : LeavesTables mailer) (now : DateTime) (random : List ℕ) (email uri : String)
        → Leaves t Q (password_recovery crypto uuid service now random email uri)
    password_recovery-Leaves = recovery-Leaves Q t q stable.resetting

    pub reset_password-Leaves :
        (now : DateTime) (salt token new_password : String)
        → Leaves t Q (reset_password crypto uuid service now salt token new_password)
    reset_password-Leaves = reset-Leaves Q t q stable.rehashed stable.resetting
