-- ===== src/Startup.antt =====
-- src/main.rs, src/provider/mod.rs and src/module/iam/service.rs: what a start of the binary does. What
-- lies outside is a record of functions, and errors are their `Display` texts.
pub mod Commands
pub mod Laws
use api_starter.Base.{
  ℕ, String, ◌<>◌, Bool, true, false, Option, none, some, List, [], ◌∷◌, Result, ok, err, map_err,
  if◌then◌else◌, ◌==◌,
}
use api_starter.Base.Chars.{CharTables}
use api_starter.Database.Effect.{Eff, ◌>>=◌, ◌>>◌, ret, lift}
use api_starter.External.{Crypto, JsonWebToken}
use api_starter.Jwt.{HmacTokenGenerator, hmac_generator}
use api_starter.Auth.{Emailer}
use api_starter.Auth.Service.{AuthService}
use api_starter.Auth.Postgres
use api_starter.Rbac.{RbacEngine}
use api_starter.Rbac.Postgres as RbacPostgres
use api_starter.Iam.{UserService, PermissionService}
use api_starter.Iam.Users.{Listing, postgres_users}
use api_starter.Iam.Service.{user_service}
use api_starter.Iam.Permissions.{permission_service, postgres_permissions}
use api_starter.Config.{Db, to_url}
use api_starter.Config.Settings.{AppConfig, load}
use api_starter.Env
use api_starter.Logger.{init}
use api_starter.Emailer.{Lettre, smtp_emailer, new_emailer}
use api_starter.Migrations.{Migrator, migrate, migrate_module, names}

-- `Display` of `env::Error`
abbrev pub env_text : Env.Error → String
env_text (Env.missing key) = "environment variable `" <> key <> "` is required"
env_text (Env.invalid key value) =
    "environment variable `" <> key <> "` has an invalid value: " <> value

abbrev pub super_role : String
super_role = "Admin"

-- `iam::Services`
pub record Services : Type 0 where
  pub user : UserService
  pub permission : PermissionService

pub record Provider : Type 0 where
  pub config : AppConfig
  pub auth : AuthService
  pub rbac : RbacEngine
  pub iam : Services

-- What the binary takes from outside.
pub record Outside (Mailbox Message : Type 0) : Type 0 where
  pub tables : CharTables
  pub crypto : Crypto
  pub jwt : JsonWebToken
  pub lettre : Lettre Mailbox Message
  pub template : String
  pub report : String → String
  pub listing : Listing
  pub rust_log : Option String
  pub build : String → Result String (Unit {0})
  pub connect : ℕ → String → Eff String (Unit {0})
  pub run : Migrator → Eff String (Unit {0})
  pub listen : Provider → Eff String (Unit {0})

module _ {Mailbox Message : Type 0} (out : Outside Mailbox Message) where
  -- `Database::connect`
  unfoldable pub connect : Db → Eff String (Unit {0})
  connect cfg = out.connect cfg.max_connections (to_url cfg)

  -- `iam::Services::new`
  abbrev pub new_services : Services
  new_services = record {
    user = user_service out.tables out.crypto (postgres_users out.report out.listing);
    permission = permission_service postgres_permissions;
  }

  -- What `inject_default` puts together.
  abbrev pub wired : AppConfig → Provider
  wired config = record {
    config = config;
    auth = record {
      jwt = hmac_generator out.jwt (record { secret = config.jwt.secret.expose });
      store = Postgres.postgres_store;
      mailer = smtp_emailer out.template out.lettre (new_emailer config.mail);
      token_ttl = config.auth.access_token_ttl_in_seconds;
      refresh_token_ttl = config.auth.refresh_token_ttl_in_seconds;
    };
    rbac = record { super_role = super_role; store = RbacPostgres.postgres_store };
    iam = new_services;
  }

  unfoldable pub inject_default : AppConfig → Eff String Provider
  inject_default config = do
    connect config.db
    if config.db.run_migrations then migrate out.run else ret tt
    ret (wired config)

  unfoldable pub serve : AppConfig → Eff String (Unit {0})
  serve config = do provider ← inject_default config; out.listen provider

  abbrev pub join : List String → String
  join [] = ""
  join (name ∷ []) = name
  join (name ∷ other ∷ rest) = name <> ", " <> join (other ∷ rest)

  abbrev pub unknown_module : String → String
  unknown_module name = "unknown module `" <> name <> "`. Known modules: " <> join names

  abbrev pub unknown_command : String → String
  unknown_command other = "unknown command `" <> other <> "`. Usage: server [migrate [<module>]]"

  -- `migrate` of src/main.rs
  unfoldable pub migrate_command : AppConfig → Option String → Eff String (Unit {0})
  migrate_command config none = do connect config.db; migrate out.run
  migrate_command config (some name) = do
    connect config.db
    known ← migrate_module out.run name
    if known then ret tt else lift (err (unknown_module name))

  abbrev pub first : List String → Option String
  first [] = none
  first (arg ∷ args) = some arg

  -- The dispatch on the arguments.
  unfoldable pub run_command : AppConfig → List String → Eff String (Unit {0})
  run_command config [] = serve config
  run_command config (command ∷ args) =
      if command == "migrate"
      then migrate_command config (first args)
      else lift (err (unknown_command command))

  -- `main`, on the variables and the arguments. A log directory that cannot be made ends the process
  -- with a panic, which is an error here.
  unfoldable pub main : (String → Option String) → List String → Eff String (Unit {0})
  main var args = do
    config ← lift (map_err env_text (load var))
    logger ← lift (init out.rust_log out.build config.logger config.deployment)
    run_command config args
