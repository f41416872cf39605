-- ===== src/Tests/Starting.antt =====
-- Examples on settings and starting.
use api_starter.Base.{
  String, ◌≡◌, ◌≢◌, refl, Option, none, some, [], ◌∷◌, ok, err, ◌==◌, if◌then◌else◌, Bool-cases,
  eq_iff, inl, inr,
}
use api_starter.Base.Text.{trim}
use api_starter.Database.Effect.{World, calm, ret}
use api_starter.Env.{string}
use api_starter.Config.Given.{Yields}
use api_starter.Config.Variables.{FromVariables, load-FromVariables}
use api_starter.Config.Defaults.{defaults, load-defaults}
use api_starter.Startup.{Outside, main, run_command, migrate_command, connect}
use api_starter.Logger.{init}
use api_starter.Migrations.{migrate, migrate_each, all}
use api_starter.Config.Settings.{AppConfig, load}
use api_starter.Startup.Commands.{iam}
use api_starter.Startup.Laws.{main_lem}
use api_starter.Tests.Accounts.{listing, report}
use api_starter.Tests.Fixtures.{crypto, jwt, seeds, tables}

-- Only the secret is set.
abbrev secret_only : String → Option String
secret_only key = if key == "JWT_SECRET" then some " s3cret " else none

others_unset : (key : String) → key ≢ "JWT_SECRET" → string secret_only key ≡ none
unfolding string
others_unset key other = elim (Bool-cases (key == "JWT_SECRET")) [
  | inl e ↦ absurd (other ((eq_iff key "JWT_SECRET").0 e))
  | inr e ↦ rw e refl
]

load-FromVariables_example : Yields secret_only (FromVariables secret_only) (load secret_only)
load-FromVariables_example = load-FromVariables secret_only

-- Mailboxes and messages are texts; the pool connects, and everything else succeeds.
abbrev outside : Outside String String
outside = record {
  tables = tables;
  crypto = crypto;
  jwt = jwt;
  lettre = record {
    parse = λ text. ok text;
    body = λ sender recipient subject text. ok text;
    send = λ transport message. ret tt;
  };
  template = "Hey {{username}}";
  report = report;
  listing = listing;
  rust_log = none;
  build = λ directory. ok tt;
  connect = λ connections url. ret tt;
  run = λ migrator. ret tt;
  listen = λ provider. ret tt;
}

loaded : load secret_only ≡ ok (defaults "s3cret")
unfolding string trim
loaded = load-defaults secret_only others_unset

migrated : main outside secret_only ("migrate" ∷ []) (calm seeds []) ≡ (ok tt, calm seeds [])
unfolding main init run_command migrate_command connect migrate migrate_each all
migrated = rw loaded refl

-- `migrate`, where everything outside succeeds.
main_lem_example :
    (config : AppConfig) × (v : World) × (load secret_only ≡ ok config)
    × (connect outside config.db (calm seeds []) ≡ (ok tt, v))
    × (outside.run iam v ≡ (ok tt, calm seeds []))
main_lem_example =
    (main_lem outside secret_only (calm seeds []) (λ m w. (err "broken", w)) (λ provider. ret tt)
        []).3
      (calm seeds []) migrated
