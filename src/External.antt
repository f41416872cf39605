-- ===== src/External.antt =====
-- What the service takes from crates that are not part of the repository, as records of functions,
-- with what their documentation promises as hypotheses. Failures carry their `Display` text.
use api_starter.Base.{ℕ, String, Bool, true, false, Option, some, List, Result, ok, err, ◌≡◌}
use api_starter.Base.Int.{ℤ, pos, ltb_ℤ, ◌-ℤ◌}
use api_starter.Base.Json.{Value, number}
use api_starter.Base.Dict
use api_starter.Base.Dict.{Dict}
use api_starter.Database.{Uuid}

-- `bcrypt`, `sha2`, `hex`. The salt that `bcrypt::hash` draws is an argument.
pub record Crypto : Type 0 where
  pub bcrypt_hash : String → String → Result String String
  pub bcrypt_verify : String → String → Result String Bool
  pub sha256 : String → List ℕ
  pub hex_encode : List ℕ → String

-- A password verifies against each hash made of it.
abbrev pub Verifies : Crypto → Type 0
Verifies c =
    (salt password hash : String)
    → c.bcrypt_hash salt password ≡ ok hash
    → c.bcrypt_verify password hash ≡ ok true

-- `uuid`: `to_string` and `Uuid::parse_str(…).ok()`.
pub record UuidText : Type 0 where
  pub to_text : Uuid → String
  pub parse_str : String → Option Uuid

abbrev pub Parses : UuidText → Type 0
Parses u = (id : Uuid) → u.parse_str (u.to_text id) ≡ some id

-- `jsonwebtoken::Validation` for HS256: the required claims and the grace period in seconds.
pub record Options : Type 0 where
  pub required_spec_claims : List String
  pub leeway : ℕ

-- `jsonwebtoken::encode` and `decode` with HS256, at a key and, for `decode`, at a time in seconds.
pub record JsonWebToken : Type 0 where
  pub encode : Dict Value → List ℕ → Result String String
  pub decode : String → List ℕ → Options → ℤ → Result String (Dict Value)

-- A token that was signed with a key decodes under that key to its claims, unless its expiry, a
-- time after the epoch, lies before the current time less the grace period: then it fails.
pub record Signs (j : JsonWebToken) : Type 0 where
  pub accepts :
      (claims : Dict Value) (key : List ℕ) (token : String) (options : Options) (expiry : ℕ)
      (now : ℤ)
      → j.encode claims key ≡ ok token
      → Dict.lookup "exp" claims ≡ some (number (pos expiry))
      → ltb_ℤ (pos expiry) (now -ℤ pos options.leeway) ≡ false
      → j.decode token key options now ≡ ok claims
  pub expires :
      (claims : Dict Value) (key : List ℕ) (token : String) (options : Options) (expiry : ℕ)
      (now : ℤ)
      → j.encode claims key ≡ ok token
      → Dict.lookup "exp" claims ≡ some (number (pos expiry))
      → ltb_ℤ (pos expiry) (now -ℤ pos options.leeway) ≡ true
      → (text : String) × (j.decode token key options now ≡ err text)
