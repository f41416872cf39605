-- ===== src/Config/Settings.antt =====
-- src/config: the settings that are read from the environment, and src/package/masked.rs.
use api_starter.Base.{
  ℕ, String, ◌==◌, Bool, true, false, Option, none, some, List, Result, ok, ◌>>=◌, unwrap_or,
  if◌then◌else◌, map_ok,
}
use api_starter.Base.Int.{ℤ, pos}
use api_starter.Base.Text.{trim}
use api_starter.Base.Chars.{into_bytes}
use api_starter.Config.{Db}
use api_starter.Env.{
  Error, to_ascii_lowercase, string, string_or, required, u16_or, u32_or, i64_or, boolean_or,
  parsed_or,
}

-- config/logger.rs
pub data LogLevel : Type 0 where
  trace : LogLevel
  debug : LogLevel
  info : LogLevel
  warn : LogLevel
  error : LogLevel

abbrev pub level_text : LogLevel → String
level_text trace = "trace"
level_text debug = "debug"
level_text info = "info"
level_text warn = "warn"
level_text error = "error"

-- `LogLevel::from_str(…).ok()`
unfoldable pub parse_level : String → Option LogLevel
parse_level value =
    let name = to_ascii_lowercase (trim value) in
    if name == "trace"
    then some trace
    else if name == "debug"
    then some debug
    else if name == "info"
    then some info
    else if name == "warn"
    then some warn
    else if name == "warning"
    then some warn
    else if name == "error"
    then some error
    else none

pub record Logger : Type 0 where
  pub level : LogLevel
  pub directory : String

-- config/server.rs
pub record Server : Type 0 where
  pub port : ℕ

pub data Environment : Type 0 where
  local : Environment
  development : Environment
  production : Environment

abbrev pub environment_text : Environment → String
environment_text local = "local"
environment_text development = "development"
environment_text production = "production"

-- `Environment::is_production` and `Deployment::is_production`
abbrev pub is_production : Environment → Bool
is_production production = true
is_production other = false

-- `Environment::from_str(…).ok()`
unfoldable pub parse_environment : String → Option Environment
parse_environment value =
    let name = to_ascii_lowercase (trim value) in
    if name == "local"
    then some local
    else if name == "development"
    then some development
    else if name == "production"
    then some production
    else none

pub record Deployment : Type 0 where
  pub name : String
  pub environment : Environment
  pub time_zone : String

-- config/mail.rs
pub record Mail : Type 0 where
  pub host : String
  pub port : ℕ
  pub username : String
  pub password : String
  pub from_address : String
  pub from_name : String

-- `MaskedBytes`, which prints as a constant.
pub record MaskedBytes : Type 0 where
  pub expose : List ℕ

abbrev pub masked_text : MaskedBytes → String
masked_text m = "************"

abbrev pub masked_json : MaskedBytes → String
masked_json m = "********"

-- config/jwt.rs
pub record Jwt : Type 0 where
  pub secret : MaskedBytes

unfoldable pub new_jwt : String → Jwt
new_jwt secret = record { secret = record { expose = into_bytes secret } }

-- config/auth.rs
pub record Auth : Type 0 where
  pub access_token_ttl_in_seconds : ℤ
  pub refresh_token_ttl_in_seconds : ℤ

pub record AppConfig : Type 0 where
  pub server : Server
  pub logger : Logger
  pub deployment : Deployment
  pub db : Db
  pub mail : Mail
  pub jwt : Jwt
  pub auth : Auth

-- The variables once the file `.env` has been read.
module _ (var : String → Option String) where
  unfoldable pub load_server : Result Error Server
  load_server = map_ok (λ port. record { port = port }) (u16_or var "APP_PORT" 3000)

  unfoldable pub load_logger : Result Error Logger
  load_logger = do
    level ← parsed_or var parse_level "LOGGER_LEVEL" info
    ok (record { level = level; directory = string_or var "LOGGER_DIRECTORY" "storage/logs" })

  unfoldable pub load_deployment : Result Error Deployment
  load_deployment = do
    environment ← parsed_or var parse_environment "APP_ENVIRONMENT" development
    ok (record {
      name = string_or var "APP_NAME" "App_sample";
      environment = environment;
      time_zone = string_or var "APP_TIMEZONE" "America/Belize";
    })

  unfoldable pub load_db : Result Error Db
  load_db = do
    port ← u16_or var "DB_PORT" 5432
    max_connections ← u32_or var "DB_MAX_CONNECTIONS" 10
    run_migrations ← boolean_or var "DB_RUN_MIGRATIONS" true
    ok (record {
      host = string_or var "DB_HOST" "127.0.0.1";
      port = port;
      database = string_or var "DB_DATABASE" "api_starter";
      username = string_or var "DB_USERNAME" "root";
      password = string_or var "DB_PASSWORD" "password";
      max_connections = max_connections;
      run_migrations = run_migrations;
    })

  unfoldable pub load_mail : Result Error Mail
  load_mail = do
    port ← u16_or var "MAIL_PORT" 1025
    ok (record {
      host = string_or var "MAIL_HOST" "mail";
      port = port;
      username = unwrap_or "" (string var "MAIL_USERNAME");
      password = unwrap_or "" (string var "MAIL_PASSWORD");
      from_address = string_or var "MAIL_FROM_ADDRESS" "noreply@example.com";
      from_name = string_or var "MAIL_FROM_NAME" "noreply";
    })

  unfoldable pub load_jwt : Result Error Jwt
  load_jwt = map_ok new_jwt (required var "JWT_SECRET")

  unfoldable pub load_auth : Result Error Auth
  load_auth = do
    access ← i64_or var "AUTHENTICATION_ACCESS_TOKEN_TTL_SECONDS" (pos 3600)
    refresh ← i64_or var "AUTHENTICATION_REFRESH_TOKEN_TTL_SECONDS" (pos 604800)
    ok (record { access_token_ttl_in_seconds = access; refresh_token_ttl_in_seconds = refresh })

  -- `AppConfig::load`
  unfoldable pub load : Result Error AppConfig
  load = do
    server ← load_server
    logger ← load_logger
    deployment ← load_deployment
    db ← load_db
    mail ← load_mail
    jwt ← load_jwt
    auth ← load_auth
    ok (record {
      server = server;
      logger = logger;
      deployment = deployment;
      db = db;
      mail = mail;
      jwt = jwt;
      auth = auth;
    })
