-- ===== src/Iam/Hashing.antt =====
-- What src/module/iam/core/service/user.rs makes of the password of an update.
use api_starter.Base.{
  String, ◌≡◌, refl, sym, ap, ◌∙◌, inl, inr, Bool, true, false, Option, none, some, Result, ok, err,
  Option-cases, Result-cases, ok_inj, map_ok-eq-ok, and_then,
}
use api_starter.Base.Chars.{CharTables}
use api_starter.Database.Outcomes.{no_ok}
use api_starter.External.{Crypto}
use api_starter.Crypto.{hash_password}
use api_starter.Validation.{password_checker}
use api_starter.Iam.{UpdateUser, UserRepository}
use api_starter.Iam.Service.{hash_update}

-- A password that is given passes the policy.
abbrev pub is_strong : CharTables → Option String → Bool
is_strong tables none = true
is_strong tables (some password) = elim (password_checker tables password) [
  | err message ↦ false
  | ok _ ↦ true
]

-- `Result::ok`
abbrev pub given_ok : {E A : Type 0} → Result E A → Option A
given_ok (ok a) = some a
given_ok (err e) = none

-- The hash of a password, if it can be hashed.
abbrev pub hash_of : Crypto → String → String → Option String
hash_of crypto salt password = given_ok (hash_password crypto salt password)

-- An update with the hash of its password in the password's place.
abbrev pub hashed : Crypto → String → UpdateUser → UpdateUser
hashed crypto salt update = record update {
  password = and_then (hash_of crypto salt) update.password;
}

module _ (tables : CharTables) (crypto : Crypto) (repository : UserRepository) where
  pub hash_update-hashed :
      (salt : String) (update fields : UpdateUser)
      → hash_update tables crypto repository salt update ≡ ok fields
      → (hashed crypto salt update ≡ fields) × (is_strong tables update.password ≡ true)
  unfolding hash_update
  hash_update-hashed salt update fields h = elim (Option-cases update.password) [
    | inl e ↦ (
      ap (λ p. record update { password = p }) (ap (and_then (hash_of crypto salt)) e ∙ sym e)
          ∙ ok_inj (rw (e, hash_update) at h),
      rw e refl,
    )
    | inr (password, e) ↦ elim (Result-cases (password_checker tables password)) [
      | inl (checked, k) ↦
          let (digest, made, same) =
            map_ok-eq-ok (λ digest. record update { password = some digest })
              (hash_password crypto salt password) (rw (k) at (rw (e, hash_update) at h)) in
          (
            ap (λ p. record update { password = p })
                  (ap (and_then (hash_of crypto salt)) e ∙ ap given_ok made)
                ∙ same,
            rw (e, k, is_strong) refl,
          )
      | inr (message, k) ↦ absurd (no_ok (rw k at (rw (e, hash_update) at h)))
    ]
  ]
