-- ===== src/Config/Variables.antt =====
-- Where the settings come from: each from its variable, or from its default.
use api_starter.Base.{String, ◌≡◌, inl, inr, refl, true, Option, some, arith}
use api_starter.Base.Int.{pos}
use api_starter.Base.Chars.{into_bytes}
use api_starter.Base.Decimal.{parse_i64}
use api_starter.Env.{string_or, required, u16_or, u32_or, i64_or, read_boolean}
use api_starter.Config.Settings.{
  AppConfig, load, load_server, load_logger, load_deployment, load_db, load_mail, load_jwt,
  load_auth, new_jwt, Server, Logger, Deployment, Mail, Jwt, Auth, info, parse_level, development,
  parse_environment,
}
use api_starter.Config.{Db}
use api_starter.Config.Given.{
  Given, Number, Says, Yields, Yields-bind, Yields-map_ok, string-cases, string_or-Given,
  parsed_or-Given, boolean_or-Given, number,
}

module _ (var : String → Option String) where
  abbrev pub ServerIs : Server → Type 0
  ServerIs c = Number var 65535 "APP_PORT" 3000 c.port

  abbrev pub LoggerIs : Logger → Type 0
  LoggerIs c =
      Given var parse_level "LOGGER_LEVEL" info c.level
      × Given var some "LOGGER_DIRECTORY" "storage/logs" c.directory

  abbrev pub DeploymentIs : Deployment → Type 0
  DeploymentIs c =
      Given var parse_environment "APP_ENVIRONMENT" development c.environment
      × Given var some "APP_NAME" "App_sample" c.name
      × Given var some "APP_TIMEZONE" "America/Belize" c.time_zone

  abbrev pub DbIs : Db → Type 0
  DbIs c =
      Number var 65535 "DB_PORT" 5432 c.port
      × Number var 4294967295 "DB_MAX_CONNECTIONS" 10 c.max_connections
      × Given var (read_boolean var) "DB_RUN_MIGRATIONS" true c.run_migrations
      × Given var some "DB_HOST" "127.0.0.1" c.host
      × Given var some "DB_DATABASE" "api_starter" c.database
      × Given var some "DB_USERNAME" "root" c.username
      × Given var some "DB_PASSWORD" "password" c.password

  abbrev pub MailIs : Mail → Type 0
  MailIs c =
      Number var 65535 "MAIL_PORT" 1025 c.port
      × Given var some "MAIL_HOST" "mail" c.host
      × Given var some "MAIL_USERNAME" "" c.username
      × Given var some "MAIL_PASSWORD" "" c.password
      × Given var some "MAIL_FROM_ADDRESS" "noreply@example.com" c.from_address
      × Given var some "MAIL_FROM_NAME" "noreply" c.from_name

  -- The secret has no default.
  abbrev pub JwtIs : Jwt → Type 0
  JwtIs c = (text : String) × Says var "JWT_SECRET" text × (c.secret.expose ≡ into_bytes text)

  abbrev pub AuthIs : Auth → Type 0
  AuthIs c =
      Given var parse_i64 "AUTHENTICATION_ACCESS_TOKEN_TTL_SECONDS" (pos 3600)
        c.access_token_ttl_in_seconds
      × Given var parse_i64 "AUTHENTICATION_REFRESH_TOKEN_TTL_SECONDS" (pos 604800)
          c.refresh_token_ttl_in_seconds

  abbrev pub FromVariables : AppConfig → Type 0
  FromVariables c =
      ServerIs c.server
      × LoggerIs c.logger
      × DeploymentIs c.deployment
      × DbIs c.db
      × MailIs c.mail
      × JwtIs c.jwt
      × AuthIs c.auth

  load_server-Yields : Yields var ServerIs (load_server var)
  unfolding load_server u16_or
  load_server-Yields =
      Yields-map_ok var (Number var 65535 "APP_PORT" 3000) ServerIs _ (u16_or var "APP_PORT" 3000)
        (number var 65535 "APP_PORT" 3000 (omega arith) (λ text refused. rw refused refl))
        (λ n h. h)

  load_logger-Yields : Yields var LoggerIs (load_logger var)
  unfolding load_logger
  load_logger-Yields =
      Yields-bind var (Given var parse_level "LOGGER_LEVEL" info) LoggerIs _ _
        (parsed_or-Given var parse_level "LOGGER_LEVEL" info (λ text refused. rw refused refl))
        λ level h. (h, string_or-Given var "LOGGER_DIRECTORY" "storage/logs")

  load_deployment-Yields : Yields var DeploymentIs (load_deployment var)
  unfolding load_deployment
  load_deployment-Yields =
      Yields-bind var (Given var parse_environment "APP_ENVIRONMENT" development) DeploymentIs _ _
        (parsed_or-Given var parse_environment "APP_ENVIRONMENT" development
          (λ text refused. rw refused refl))
        λ environment h. (
          h,
          string_or-Given var "APP_NAME" "App_sample",
          string_or-Given var "APP_TIMEZONE" "America/Belize",
        )

  load_db-Yields : Yields var DbIs (load_db var)
  unfolding load_db u16_or u32_or
  load_db-Yields =
      Yields-bind var (Number var 65535 "DB_PORT" 5432) DbIs _ _
        (number var 65535 "DB_PORT" 5432 (omega arith) (λ text refused. rw refused refl))
        λ port a.
          Yields-bind var (Number var 4294967295 "DB_MAX_CONNECTIONS" 10) DbIs _ _
            (number var 4294967295 "DB_MAX_CONNECTIONS" 10 (omega arith)
              (λ text refused. rw refused refl))
            λ connections b.
              Yields-bind var (Given var (read_boolean var) "DB_RUN_MIGRATIONS" true) DbIs _ _
                (boolean_or-Given var "DB_RUN_MIGRATIONS" true (λ text refused. rw refused refl))
                λ run c. (
                  a,
                  b,
                  c,
                  string_or-Given var "DB_HOST" "127.0.0.1",
                  string_or-Given var "DB_DATABASE" "api_starter",
                  string_or-Given var "DB_USERNAME" "root",
                  string_or-Given var "DB_PASSWORD" "password",
                )

  load_mail-Yields : Yields var MailIs (load_mail var)
  unfolding load_mail u16_or string_or
  load_mail-Yields =
      Yields-bind var (Number var 65535 "MAIL_PORT" 1025) MailIs _ _
        (number var 65535 "MAIL_PORT" 1025 (omega arith) (λ text refused. rw refused refl))
        λ port a. (
          a,
          string_or-Given var "MAIL_HOST" "mail",
          string_or-Given var "MAIL_USERNAME" "",
          string_or-Given var "MAIL_PASSWORD" "",
          string_or-Given var "MAIL_FROM_ADDRESS" "noreply@example.com",
          string_or-Given var "MAIL_FROM_NAME" "noreply",
        )

  load_jwt-Yields : Yields var JwtIs (load_jwt var)
  unfolding load_jwt required new_jwt
  load_jwt-Yields = elim (string-cases var "JWT_SECRET") [
    | inl (e, blank) ↦ rw e (refl, blank)
    | inr (text, e, says) ↦ rw e (text, says, refl)
  ]

  load_auth-Yields : Yields var AuthIs (load_auth var)
  unfolding load_auth i64_or
  load_auth-Yields =
      Yields-bind var (Given var parse_i64 "AUTHENTICATION_ACCESS_TOKEN_TTL_SECONDS" (pos 3600))
        AuthIs _ _
        (parsed_or-Given var parse_i64 "AUTHENTICATION_ACCESS_TOKEN_TTL_SECONDS" (pos 3600)
          (λ text refused. rw refused refl))
        λ a h.
          Yields-bind var
            (Given var parse_i64 "AUTHENTICATION_REFRESH_TOKEN_TTL_SECONDS" (pos 604800)) AuthIs _ _
            (parsed_or-Given var parse_i64 "AUTHENTICATION_REFRESH_TOKEN_TTL_SECONDS" (pos 604800)
              (λ text refused. rw refused refl))
            λ b k. (h, k)

  -- Either the settings load, and then each is its default where its variable is not set or set to white
  -- space only, and otherwise what its parser makes of the variable's text without the white space
  -- around it; ports are at most 65535 and connections at most 4294967295; and the secret, which has no
  -- default, is the bytes of such a text of `JWT_SECRET`. Or the error says that `JWT_SECRET` is missing,
  -- which is then not set or white space only, or it names a variable and the
  -- text that it is set to, which the parser of its setting refuses.
  pub load-FromVariables : Yields var FromVariables (load var)
  unfolding load
  load-FromVariables = Yields-bind var ServerIs FromVariables _ _ load_server-Yields λ server a.
      Yields-bind var LoggerIs FromVariables _ _ load_logger-Yields λ logger b.
        Yields-bind var DeploymentIs FromVariables _ _ load_deployment-Yields λ deployment c.
          Yields-bind var DbIs FromVariables _ _ load_db-Yields λ db d.
            Yields-bind var MailIs FromVariables _ _ load_mail-Yields λ mail e.
              Yields-bind var JwtIs FromVariables _ _ load_jwt-Yields λ jwt f.
                Yields-bind var AuthIs FromVariables _ _ load_auth-Yields
                  λ auth g. (a, b, c, d, e, f, g)
