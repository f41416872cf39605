-- ===== src/Jwt/Tokens.antt =====
-- Round trip and expiry of the tokens.
use api_starter.Base.{ℕ, String, ◌≡◌, true, ok, err, arith}
use api_starter.Base.Int.{ℤ, pos, ltb_ℤ, ◌-ℤ◌, ◌≤ℤ◌}
use api_starter.Base.Json.{number}
use api_starter.Base.Dict
use api_starter.Base.Dict.{lookup-insert, remove-insert}
use api_starter.External.{JsonWebToken, Signs}
use api_starter.Jwt.{Claims, parse, HmacTokenGenerator, generate_token, validate_token, no_leeway}

less_nothing : (e now : ℤ) → ltb_ℤ e (now -ℤ pos 0) ≡ ltb_ℤ e now
unfolding ◌-ℤ◌
less_nothing e now = ground arith

module _ (j : JsonWebToken) (lawful : Signs j) (g : HmacTokenGenerator) where
  signed :
      (claims : Claims) (token : String) (expires_at : ℤ)
      → generate_token j g claims expires_at ≡ ok token
      → j.encode (Dict.insert "exp" (number expires_at) claims) g.secret ≡ ok token
  unfolding generate_token
  signed claims token expires_at h = ground arith

  -- A token of this generator validates, until the second of its expiry and with no grace after
  -- it, to the claims that it was made of, less a claim "exp"; later it is refused.
  pub validate_token-generate_token :
      (claims : Claims) (token : String) (expiry : ℕ) (now : ℤ)
      → generate_token j g claims (pos expiry) ≡ ok token
      → (now ≤ℤ pos expiry → validate_token j g now token ≡ ok (Dict.remove "exp" claims))
        × (ltb_ℤ (pos expiry) now ≡ true
            → (text : String) × (validate_token j g now token ≡ err (parse text)))
  unfolding validate_token
  validate_token-generate_token claims token expiry now made =
      let e = signed claims token (pos expiry) made in
      let at = lookup-insert "exp" "exp" (number (pos expiry)) claims in
      (
        λ soon.
            rw
              (lawful.accepts _ g.secret token no_leeway expiry now e at
                (rw less_nothing (ground arith)))
              (rw (remove-insert "exp" (number (pos expiry)) claims)),
        λ late.
            let (text, refused) =
              lawful.expires _ g.secret token no_leeway expiry now e at (rw less_nothing late) in
            (text, rw refused),
      )
