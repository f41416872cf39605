-- ===== src/Config/Defaults.antt =====
-- The settings that need not be given.
use api_starter.Base.{
  String, ◌≡◌, ◌≢◌, inl, inr, refl, true, false, Option, none, some, ok, err, arith, Option-cases,
  ◌==◌, eq_iff,
}
use api_starter.Base.Int.{pos}
use api_starter.Base.Decimal.{parse_unsigned, parse_i64}
use api_starter.Env.{
  missing, string, string_or, required, u16_or, u32_or, i64_or, boolean_or, boolean, parsed,
  parsed_or,
}
use api_starter.Config.Settings.{
  info, parse_level, development, parse_environment, AppConfig, load, load_server, load_logger,
  load_deployment, load_db, load_mail, load_jwt, load_auth, new_jwt,
}

-- The settings where only the secret is given.
abbrev pub defaults : String → AppConfig
defaults secret = record {
  server = record { port = 3000 };
  logger = record { level = info; directory = "storage/logs" };
  deployment = record {
    name = "App_sample";
    environment = development;
    time_zone = "America/Belize";
  };
  db = record {
    host = "127.0.0.1";
    port = 5432;
    database = "api_starter";
    username = "root";
    password = "password";
    max_connections = 10;
    run_migrations = true;
  };
  mail = record {
    host = "mail";
    port = 1025;
    username = "";
    password = "";
    from_address = "noreply@example.com";
    from_name = "noreply";
  };
  jwt = new_jwt secret;
  auth = record {
    access_token_ttl_in_seconds = pos 3600;
    refresh_token_ttl_in_seconds = pos 604800;
  };
}

module _ (var : String → Option String)
    (unset : (key : String) → key ≢ "JWT_SECRET" → string var key ≡ none) where
  absent : (key : String) → (key == "JWT_SECRET") ≡ false → string var key ≡ none
  absent key h = unset key (λ e. absurd (ground ((eq_iff key "JWT_SECRET").1 e, h, arith)))

  fallback :
      {T : Type 0} (parse : String → Option T) (key : String) (default : T)
      → (key == "JWT_SECRET") ≡ false
      → parsed_or var parse key default ≡ ok default
  unfolding parsed_or parsed
  fallback parse key default h = rw (absent key h, parsed) refl

  text_default :
      (key default : String) → (key == "JWT_SECRET") ≡ false → string_or var key default ≡ default
  unfolding string_or
  text_default key default h = rw (absent key h) refl

  boolean_default : boolean_or var "DB_RUN_MIGRATIONS" true ≡ ok true
  unfolding boolean_or boolean parsed
  boolean_default = rw (absent "DB_RUN_MIGRATIONS" refl, parsed) refl

  load_server_default : load_server var ≡ ok (record { port = 3000 })
  unfolding load_server u16_or
  load_server_default = rw (fallback (parse_unsigned 65535) "APP_PORT" 3000 refl) refl

  load_logger_default : load_logger var ≡ ok (record { level = info; directory = "storage/logs" })
  unfolding load_logger
  load_logger_default =
      rw
        (
          fallback parse_level "LOGGER_LEVEL" info refl,
          text_default "LOGGER_DIRECTORY" "storage/logs" refl,
        )
        refl

  load_deployment_default : load_deployment var ≡ ok ((defaults "").deployment)
  unfolding load_deployment
  load_deployment_default =
      rw
        (
          fallback parse_environment "APP_ENVIRONMENT" development refl,
          text_default "APP_NAME" "App_sample" refl,
          text_default "APP_TIMEZONE" "America/Belize" refl,
        )
        refl

  load_db_default : load_db var ≡ ok ((defaults "").db)
  unfolding load_db u16_or u32_or
  load_db_default =
      rw
        (
          fallback (parse_unsigned 65535) "DB_PORT" 5432 refl,
          fallback (parse_unsigned 4294967295) "DB_MAX_CONNECTIONS" 10 refl,
          boolean_default,
          text_default "DB_HOST" "127.0.0.1" refl,
          text_default "DB_DATABASE" "api_starter" refl,
          text_default "DB_USERNAME" "root" refl,
          text_default "DB_PASSWORD" "password" refl,
        )
        refl

  load_mail_default : load_mail var ≡ ok ((defaults "").mail)
  unfolding load_mail u16_or
  load_mail_default =
      rw
        (
          fallback (parse_unsigned 65535) "MAIL_PORT" 1025 refl,
          text_default "MAIL_HOST" "mail" refl,
          absent "MAIL_USERNAME" refl,
          absent "MAIL_PASSWORD" refl,
          text_default "MAIL_FROM_ADDRESS" "noreply@example.com" refl,
          text_default "MAIL_FROM_NAME" "noreply" refl,
        )
        refl

  load_auth_default : load_auth var ≡ ok ((defaults "").auth)
  unfolding load_auth i64_or
  load_auth_default =
      rw
        (
          fallback parse_i64 "AUTHENTICATION_ACCESS_TOKEN_TTL_SECONDS" (pos 3600) refl,
          fallback parse_i64 "AUTHENTICATION_REFRESH_TOKEN_TTL_SECONDS" (pos 604800) refl,
        )
        refl

  -- Where no variable but the secret is set to a text that is not blank, the settings load exactly if
  -- the secret is, with the documented defaults; otherwise the error names the secret.
  pub load-defaults : load var ≡ elim (string var "JWT_SECRET") [
    | none ↦ err (missing "JWT_SECRET")
    | some secret ↦ ok (defaults secret)
  ]
  unfolding load load_jwt required
  load-defaults =
      rw
        (
          load_server_default, load_logger_default, load_deployment_default, load_db_default,
          load_mail_default, load_auth_default,
        )
        (elim (Option-cases (string var "JWT_SECRET")) [
          | inl e ↦ rw e refl
          | inr (secret, e) ↦ rw e refl
        ])
