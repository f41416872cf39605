-- ===== src/Startup/Commands.antt =====
-- What the commands of src/main.rs do on settings that have been loaded.
use api_starter.Base.{
  String, ◌≡◌, refl, sym, ap, ◌∙◌, inl, inr, ◌==◌, ◌&&◌, Bool, true, false, none, some, List, [],
  ◌∷◌, Result, ok, err, contains, if◌then◌else◌, Bool-cases, arith, map, find,
}
use api_starter.Database.Effect.{World, Eff, ◌>>◌, ret, proceed}
use api_starter.Config.Settings.{AppConfig}
use api_starter.Database.Outcomes.{no_ok}
use api_starter.Migrations.{
  Migrator, ModuleMigrations, migrate, migrate_each, migrate_module, names, find_module, all,
  set_up,
}
use api_starter.Startup.{
  Outside, connect, inject_default, serve, wired, migrate_command, run_command, unknown_module,
  unknown_command,
}

find_named :
    (name : String) (ms : List ModuleMigrations)
    → contains (map (λ m. m.name) ms) name ≡ false
    → find (λ m. m.name == name) ms ≡ none
find_named name [] h = refl
find_named name (m ∷ ms) h = elim (Bool-cases (m.name == name)) [
  | inl e ↦ absurd (ground arith)
  | inr e ↦ rw e (find_named name ms (rw e at h))
]

migrate_unknown :
    (run : Migrator → Eff String (Unit {0})) (name : String) (w : World)
    → contains names name ≡ false
    → migrate_module run name w ≡ (ok false, w)
unfolding migrate_module find_module names
migrate_unknown run name w h = rw (find_named name all h, migrate_module) refl

-- The starts that are meant to migrate.
abbrev pub migrates : AppConfig → List String → Bool
migrates config [] = config.db.run_migrations
migrates config (command ∷ []) = command == "migrate"
migrates config (command ∷ name ∷ args) = command == "migrate" && contains names name

-- The arguments that are a command.
abbrev pub is_command : List String → Bool
is_command [] = true
is_command (command ∷ args) = command == "migrate"

-- The migrations of the only module.
abbrev pub iam : Migrator
iam = record { directory = "./migrations/iam"; ignore_missing = true }

-- A step that is switched off only passes on.
switched_off :
    {A B : Type 0} (p : Result String (Unit {0}) × World) (b : Bool) (m : Eff String (Unit {0}))
    (a : A) (k : A → Eff String B)
    → b ≡ false
    → proceed (proceed p (λ x. (if b then m else ret tt) >> ret a)) k ≡ proceed p (λ x. k a)
switched_off p true m a k off = absurd (ground arith)
switched_off (ok x, w) false m a k off = refl
switched_off (err e, w) false m a k off = refl

-- What is run behind an unknown module's name.
refused :
    (run : Migrator → Eff String (Unit {0})) (name text : String)
    (p : Result String (Unit {0}) × World)
    → contains names name ≡ false
    → proceed p (λ x w.
      proceed (migrate_module run name w) (λ known. if known then ret tt else (λ v. (err text, v))))
      ≡ proceed p (λ x w. (err text, w))
refused run name text (ok x, w) h = rw (migrate_unknown run name w h) refl
refused run name text (err e, w) h = refl

module _ {Mailbox Message : Type 0} (out : Outside Mailbox Message)
    (run : Migrator → Eff String (Unit {0})) (config : AppConfig) (w : World) where
  abbrev other : Outside Mailbox Message
  other = record out { run = run }

  pub run_command-migrates :
      (args : List String)
      → migrates config args ≡ false
      → run_command out config args w ≡ run_command other config args w
  unfolding run_command migrate_command serve inject_default connect
  run_command-migrates [] h =
      switched_off (connect out config.db w) config.db.run_migrations (migrate out.run)
        (wired out config) out.listen h
      ∙ sym (
          switched_off (connect out config.db w) config.db.run_migrations (migrate run)
            (wired out config) out.listen h)
  run_command-migrates (command ∷ []) h = rw h refl
  run_command-migrates (command ∷ name ∷ args) h = elim (Bool-cases (command == "migrate")) [
    | inl e ↦
        let unknown : contains names name ≡ false = ground arith in
        rw e (
          refused out.run name (unknown_module out name) (connect out config.db w) unknown
          ∙ sym (refused run name (unknown_module out name) (connect out config.db w) unknown))
    | inr e ↦ rw e refl
  ]

-- Where a chain of calls succeeds, its first call does, and so does the rest.
proceed-eq-ok :
    {A B : Type 0} (p : Result String A × World) (k : A → Eff String B) {b : B} {w' : World}
    → proceed p k ≡ (ok b, w')
    → (a : A) × (v : World) × (p ≡ (ok a, v)) × (k a v ≡ (ok b, w'))
proceed-eq-ok (ok a, v) k h = (a, v, refl, h)
proceed-eq-ok (err e, v) k h = absurd (no_ok (ap (λ r. r.0) h))

-- A run whose success is only passed on.
passed_on :
    (p : Result String (Unit {0}) × World) {w' : World}
    → proceed p (λ x. ret tt) ≡ (ok tt, w')
    → p ≡ (ok tt, w')
passed_on (ok x, v) h = h
passed_on (err e, v) h = absurd (no_ok (ap (λ r. r.0) h))

found_and_run :
    (p : Result String (Unit {0}) × World) (text : String) {w' : World}
    → proceed (proceed p (λ x. ret true)) (λ known. if known then ret tt else (λ v. (err text, v)))
      ≡ (ok tt, w')
    → p ≡ (ok tt, w')
found_and_run (ok x, v) text h = h
found_and_run (err e, v) text h = absurd (no_ok (ap (λ r. r.0) h))

module_run :
    (run : Migrator → Eff String (Unit {0})) (name text : String) (v : World) {w' : World}
    → proceed (migrate_module run name v) (λ known. if known then ret tt else (λ u. (err text, u)))
      ≡ (ok tt, w')
    → run iam v ≡ (ok tt, w')
unfolding migrate_module find_module all set_up
module_run run name text v h = elim (Bool-cases ("iam" == name)) [
  | inl e ↦
      let here : find_module name ≡ some (record { name = "iam"; migrator = iam }) = rw e refl in
      found_and_run (run iam v) text (rw (here, migrate_module) at h)
  | inr e ↦
      let absent : find_module name ≡ none = rw e refl in
      absurd (no_ok (ap (λ r. r.0) (rw (absent, migrate_module) at h)))
]

module _ {Mailbox Message : Type 0} (out : Outside Mailbox Message) (config : AppConfig)
    (w : World) where
  -- Where `migrate` succeeds, so do the connection and the migrations of the module.
  pub migrate_command-eq-ok :
      (args : List String) {w' : World}
      → run_command out config ("migrate" ∷ args) w ≡ (ok tt, w')
      → (v : World) × (connect out config.db w ≡ (ok tt, v)) × (out.run iam v ≡ (ok tt, w'))
  unfolding run_command migrate_command migrate migrate_each all set_up
  migrate_command-eq-ok [] h =
      let (x, v, connected, rest) = proceed-eq-ok (connect out config.db w) _ h in
      (v, connected, passed_on (out.run iam v) rest)
  migrate_command-eq-ok (name ∷ args) h =
      let (x, v, connected, rest) = proceed-eq-ok (connect out config.db w) _ h in
      (v, connected, module_run out.run name (unknown_module out name) v rest)

  -- Arguments that are no command change nothing.
  pub run_command-unknown :
      (args : List String)
      → is_command args ≡ false
      → (text : String) × (run_command out config args w ≡ (err text, w))
  unfolding run_command
  run_command-unknown [] h = absurd (ground arith)
  run_command-unknown (command ∷ args) h = (unknown_command out command, rw h refl)
