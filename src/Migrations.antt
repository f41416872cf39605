-- ===== src/Migrations.antt =====
-- src/database/migrations.rs and the migrating part of src/database/mod.rs. `run` is
-- `Migrator::run` on the pool, with the `Display` text of its error.
use api_starter.Base.{String, ◌==◌, Bool, true, false, Option, none, some, List, [], ◌∷◌, map, find}
use api_starter.Database.Effect.{Eff, ◌>>◌, ret}

-- What `sqlx::migrate!` embeds, by its directory, and the setting that is changed.
pub record Migrator : Type 0 where
  pub directory : String
  pub ignore_missing : Bool

pub record ModuleMigrations : Type 0 where
  pub name : String
  pub migrator : Migrator

unfoldable pub set_up : String → Migrator → ModuleMigrations
set_up name migrator = record { name = name; migrator = record migrator { ignore_missing = true } }

unfoldable pub all : List ModuleMigrations
unfolding set_up
all = set_up "iam" (record { directory = "./migrations/iam"; ignore_missing = false }) ∷ []

unfoldable pub find_module : String → Option ModuleMigrations
find_module name = find (λ m. m.name == name) all

unfoldable pub names : List String
names = map (λ m. m.name) all

module _ (run : Migrator → Eff String (Unit {0})) where
  -- `Database::migrate_with`
  abbrev pub migrate_with : ModuleMigrations → Eff String (Unit {0})
  migrate_with m = run m.migrator

  -- The loop of `Database::migrate`.
  unfoldable pub migrate_each : List ModuleMigrations → Eff String (Unit {0})
  migrate_each [] = ret tt
  migrate_each (m ∷ ms) = do migrate_with m; migrate_each ms

  unfoldable pub migrate : Eff String (Unit {0})
  unfolding migrate_each
  migrate = migrate_each all

  unfoldable pub migrate_module : String → Eff String Bool
  migrate_module name = elim (find_module name) [
    | some m ↦ do migrate_with m; ret true
    | none ↦ ret false
  ]
