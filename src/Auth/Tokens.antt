-- ===== src/Auth/Tokens.antt =====
-- The tokens that the service issues, over the HS256 generator: what they lead back to, and when.
use api_starter.Base.{ℕ, String, ◌+◌, ◌/◌, ◌≡◌, refl, true, some, Result, ok, err, map_err, arith}
use api_starter.Base.Int.{pos, ltb_ℤ, ◌≤ℤ◌}
use api_starter.Base.Clock.{timestamp, timestamp-add_seconds, nanos}
use api_starter.Base.Json.{string}
use api_starter.Base.Dict
use api_starter.Database.{Uuid, DateTime}
use api_starter.Errdef.{Error, unauthorized, with_cause}
use api_starter.External.{Crypto, UuidText, JsonWebToken, Signs, Parses}
use api_starter.Jwt.{Claims, parse, jwt_text, HmacTokenGenerator, generate_token}
use api_starter.Jwt.Tokens.{validate_token-generate_token}
use api_starter.Auth.{Identity, AuthenticationTokens, Store, Emailer}
use api_starter.Auth.Service.{
  AuthService, hmac_service, generate_tokens, user_id_from, access_claims, refresh_claims,
  invalid_refresh_token, jwt_unknown, issue,
}

-- The parts of an issued pair.
issue-eq-ok :
    (a b : Result Error String) (pair : AuthenticationTokens)
    → issue a b ≡ ok pair
    → (a ≡ ok pair.token) × (b ≡ ok pair.refresh_token)
issue-eq-ok (ok a) (ok b) pair h = ground arith
issue-eq-ok (ok a) (err e) pair h = absurd (ground arith)
issue-eq-ok (err e) b pair h = absurd (ground arith)

map_err-eq-ok :
    {E F A : Type 0} (f : E → F) (r : Result E A) {a : A} → map_err f r ≡ ok a → r ≡ ok a
map_err-eq-ok f (ok a) h = ground arith
map_err-eq-ok f (err e) h = absurd (ground arith)

module _ (crypto : Crypto) (uuid : UuidText) (parses : Parses uuid) (j : JsonWebToken)
    (lawful : Signs j) (g : HmacTokenGenerator) (store : Store) (mailer : Emailer)
    (token_ttl refresh_token_ttl : ℕ) where
  abbrev pub self : AuthService
  self = hmac_service j g store mailer (pos token_ttl) (pos refresh_token_ttl)

  -- A token made of claims that name a user leads back to that user until its expiry, and is
  -- refused afterwards.
  user_id_from_claims :
      (claims : Claims) (id : Uuid) (token : String) (expiry : ℕ) (later : DateTime)
      → Dict.lookup "user_id" (Dict.remove "exp" claims) ≡ some (string (uuid.to_text id))
      → generate_token j g claims (pos expiry) ≡ ok token
      → (timestamp later ≤ℤ pos expiry → user_id_from crypto uuid self later token ≡ ok id)
        × (ltb_ℤ (pos expiry) (timestamp later) ≡ true
            → (text : String) × (user_id_from crypto uuid self later token
                ≡ err (with_cause (unauthorized invalid_refresh_token) text)))
  unfolding user_id_from
  user_id_from_claims claims id token expiry later named made =
      let (soon, late) =
        validate_token-generate_token j lawful g claims token expiry (timestamp later) made in
      (
        λ h. rw (soon h, user_id_from) (rw named (rw (parses id))),
        λ h. let (text, refused) = late h in (jwt_text (parse text), rw (refused, user_id_from)),
      )

  -- The two tokens of a pair, as the generator made them.
  pair-made :
      (t : ℕ) (user : Identity) (pair : AuthenticationTokens)
      → generate_tokens crypto uuid self (pos t) user ≡ ok pair
      → (generate_token j g (access_claims uuid user) (pos (t / nanos + token_ttl)) ≡ ok pair.token)
        × (generate_token j g (refresh_claims uuid user) (pos (t / nanos + refresh_token_ttl))
            ≡ ok pair.refresh_token)
  unfolding generate_tokens
  pair-made t user pair h =
      let (first, second) = issue-eq-ok _ _ pair h in
      (
        rw (timestamp-add_seconds t token_ttl) at (map_err-eq-ok jwt_unknown _ first),
        rw (timestamp-add_seconds t refresh_token_ttl) at (map_err-eq-ok jwt_unknown _ second),
      )

  -- Each token of a pair that is issued to a user at a time names that user as long as the
  -- seconds since then are at most its own lifetime, wherever a token is asked for: the refresh
  -- token too is taken for an access token.
  pub user_id_from-generate_tokens :
      (t : ℕ) (user : Identity) (pair : AuthenticationTokens) (later : DateTime)
      → generate_tokens crypto uuid self (pos t) user ≡ ok pair
      → (timestamp later ≤ℤ pos (t / nanos + token_ttl)
          → user_id_from crypto uuid self later pair.token ≡ ok user.id)
        × (timestamp later ≤ℤ pos (t / nanos + refresh_token_ttl)
            → user_id_from crypto uuid self later pair.refresh_token ≡ ok user.id)
        × (ltb_ℤ (pos (t / nanos + token_ttl)) (timestamp later) ≡ true
            → (text : String) × (user_id_from crypto uuid self later pair.token
                ≡ err (with_cause (unauthorized invalid_refresh_token) text)))
        × (ltb_ℤ (pos (t / nanos + refresh_token_ttl)) (timestamp later) ≡ true
            → (text : String) × (user_id_from crypto uuid self later pair.refresh_token
                ≡ err (with_cause (unauthorized invalid_refresh_token) text)))
  unfolding Dict.lookup Dict.remove
  user_id_from-generate_tokens t user pair later issued =
      let (access, refresh) = pair-made t user pair issued in
      let a =
        user_id_from_claims (access_claims uuid user) user.id pair.token (t / nanos + token_ttl)
          later refl access in
      let r =
        user_id_from_claims (refresh_claims uuid user) user.id pair.refresh_token
          (t / nanos + refresh_token_ttl) later refl refresh in
      (a.0, r.0, a.1, r.1)
