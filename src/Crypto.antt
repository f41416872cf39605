-- ===== src/Crypto.antt =====
-- src/package/crypto.rs
use api_starter.Base.{ℕ, String, true, false, List, Result, ok, err, map_err}
use api_starter.Errdef.{Error, unknown, unauthorized, with_cause}
use api_starter.External.{Crypto}

module _ (c : Crypto) where
  unfoldable pub hash_password : String → String → Result Error String
  hash_password salt password = map_err unknown (c.bcrypt_hash salt password)

  unfoldable pub compare_hash_and_password : String → String → Result Error (Unit {0})
  compare_hash_and_password hashed password = elim (c.bcrypt_verify password hashed) [
    | ok true ↦ ok tt
    | ok false ↦ err (unauthorized "password mismatch")
    | err error ↦ err (with_cause (unauthorized "password mismatch") error)
  ]

  -- The 32 random bytes are the argument.
  unfoldable pub random_token : List ℕ → String
  random_token bytes = c.hex_encode bytes

  unfoldable pub hash_token : String → String
  hash_token raw_token = c.hex_encode (c.sha256 raw_token)
