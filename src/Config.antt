-- ===== src/Config.antt =====
-- src/config: the connection string; the children have the other settings.
pub mod Dsn
pub mod Settings
pub mod Names
pub mod Given
pub mod Variables
pub mod Defaults
use api_starter.Base.{ℕ, String, ◌<>◌, Char, code, Bool, true, false, nat_eq, if◌then◌else◌}
use api_starter.Base.Decimal.{show_ℕ}
use Prim.Native.String.{[], ◌∷◌}

-- config/db.rs
pub record Db : Type 0 where
  pub host : String
  pub port : ℕ
  pub database : String
  pub username : String
  pub password : String
  pub max_connections : ℕ
  pub run_migrations : Bool

unfoldable pub encode_char : Char → String
encode_char c =
    if nat_eq (code c) b'@'
    then "%40"
    else if nat_eq (code c) b':'
    then "%3A"
    else if nat_eq (code c) b'/'
    then "%2F"
    else if nat_eq (code c) b'?'
    then "%3F"
    else if nat_eq (code c) b'#'
    then "%23"
    else if nat_eq (code c) b'['
    then "%5B"
    else if nat_eq (code c) b']'
    then "%5D"
    else c ∷ []

unfoldable pub encode : String → String
unfolding encode_char
encode [] = []
encode (c ∷ s) = encode_char c <> encode s

unfoldable pub to_url : Db → String
to_url db =
    "postgres://"
    <> encode db.username
    <> ":"
    <> encode db.password
    <> "@"
    <> db.host
    <> ":"
    <> show_ℕ db.port
    <> "/"
    <> db.database

-- `MaskedString` of src/package/masked.rs, under `{:?}`.
abbrev pub masked_string : String
masked_string = "************"

abbrev debug_bool : Bool → String
debug_bool true = "true"
debug_bool false = "false"

-- `{:?}` of the settings; `quoted` is that of a text.
unfoldable pub debug_db : (String → String) → Db → String
debug_db quoted db =
    "Db { host: "
    <> quoted db.host
    <> ", port: "
    <> show_ℕ db.port
    <> ", database: "
    <> quoted db.database
    <> ", username: "
    <> quoted db.username
    <> ", password: "
    <> masked_string
    <> ", max_connections: "
    <> show_ℕ db.max_connections
    <> ", run_migrations: "
    <> debug_bool db.run_migrations
    <> " }"
