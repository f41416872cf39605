-- ===== src/Jwt.antt =====
-- src/package/jwt/mod.rs: claims, and HS256 tokens over them.
pub mod Tokens
use api_starter.Base.{ℕ, ◌<>◌, String, List, [], ◌∷◌, Result, map_err, map_ok}
use api_starter.Base.Int.{ℤ}
use api_starter.Base.Json.{Value, number}
use api_starter.Base.Dict
use api_starter.Base.Dict.{Dict}
use api_starter.External.{JsonWebToken, Options}

abbrev pub Claims : Type 0
Claims = Dict Value

pub data JwtError : Type 0 where
  sign : String → JwtError
  parse : String → JwtError

-- `Display`
abbrev pub jwt_text : JwtError → String
jwt_text (sign e) = "error encountered when signing jwt token: " <> e
jwt_text (parse e) = "error parsing jwt token: " <> e

-- The trait `TokenGenerator`; validation also depends on the time, in seconds.
pub record TokenGenerator : Type 0 where
  pub generate_token : Claims → ℤ → Result JwtError String
  pub validate_token : ℤ → String → Result JwtError Claims

-- `HmacTokenGenerator`: one key signs and verifies.
pub record HmacTokenGenerator : Type 0 where
  pub secret : List ℕ

abbrev pub no_leeway : Options
no_leeway = record { required_spec_claims = "exp" ∷ []; leeway = 0 }

module _ (j : JsonWebToken) (g : HmacTokenGenerator) where
  unfoldable pub generate_token : Claims → ℤ → Result JwtError String
  generate_token claims expires_at =
      map_err sign (j.encode (Dict.insert "exp" (number expires_at) claims) g.secret)

  unfoldable pub validate_token : ℤ → String → Result JwtError Claims
  validate_token now token =
      map_ok (Dict.remove "exp") (map_err parse (j.decode token g.secret no_leeway now))

  abbrev pub hmac_generator : TokenGenerator
  hmac_generator = record { generate_token = generate_token; validate_token = validate_token }
