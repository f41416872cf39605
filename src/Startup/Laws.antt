-- ===== src/Startup/Laws.antt =====
-- Which ways to start the binary migrate, listen or do nothing.
use api_starter.Base.{
  String, ◌≡◌, refl, ap, inl, inr, false, Option, List, ◌∷◌, Result, ok, err, Result-cases,
}
use api_starter.Database.Effect.{World, Eff}
use api_starter.Config.Settings.{AppConfig, load}
use api_starter.Database.Outcomes.{no_ok}
use api_starter.Logger.{Subscriber, init}
use api_starter.Migrations.{Migrator}
use api_starter.Startup.Commands.{
  migrates, is_command, iam, run_command-migrates, migrate_command-eq-ok, run_command-unknown,
}
use api_starter.Startup.{Outside, env_text, connect, migrate_command, run_command, main, Provider}

module _ {Mailbox Message : Type 0} (out : Outside Mailbox Message) (var : String → Option String)
    (w : World) where
  -- The logger of the settings.
  abbrev pub logger : AppConfig → Result String Subscriber
  logger config = init out.rust_log out.build config.logger config.deployment

  main-migrates :
      (run : Migrator → Eff String (Unit {0})) (args : List String)
      → ((config : AppConfig) → load var ≡ ok config → migrates config args ≡ false)
      → main out var args w ≡ main (record out { run = run }) var args w
  unfolding main
  main-migrates run args h = elim (Result-cases (load var)) [
    | inl (config, e) ↦ elim (Result-cases (logger config)) [
      | inl (started, k) ↦ rw (e, k) (run_command-migrates out run config w args (h config e))
      | inr (text, k) ↦ rw (e, k) refl
    ]
    | inr (failed, e) ↦ rw e refl
  ]

  main-listens :
      (listen : Provider → Eff String (Unit {0})) (command : String) (args : List String)
      → main out var (command ∷ args) w
        ≡ main (record out { listen = listen }) var (command ∷ args) w
  unfolding main run_command migrate_command connect
  main-listens listen command args = refl

  main-fails :
      (args : List String)
      → ((config : AppConfig) (started : Subscriber)
          → load var ≡ ok config
          → logger config ≡ ok started
          → is_command args ≡ false)
      → (text : String) × (main out var args w ≡ (err text, w))
  unfolding main
  main-fails args h = elim (Result-cases (load var)) [
    | inl (config, e) ↦ elim (Result-cases (logger config)) [
      | inl (started, k) ↦
          let (text, failed) = run_command-unknown out config w args (h config started e k) in
          (text, rw (e, k) failed)
      | inr (text, k) ↦ (text, rw (e, k) refl)
    ]
    | inr (failed, e) ↦ (env_text failed, rw e refl)
  ]

  main-migrated :
      (args : List String) {w' : World}
      → main out var ("migrate" ∷ args) w ≡ (ok tt, w')
      → (config : AppConfig) × (v : World) × (load var ≡ ok config)
        × (connect out config.db w ≡ (ok tt, v))
        × (out.run iam v ≡ (ok tt, w'))
  unfolding main
  main-migrated args h = elim (Result-cases (load var)) [
    | inl (config, e) ↦ elim (Result-cases (logger config)) [
      | inl (started, k) ↦
          let (v, connected, ran) = migrate_command-eq-ok out config w args (rw (e, k) at h) in
          (config, v, e, connected, ran)
      | inr (text, k) ↦ absurd (no_ok (ap (λ r. r.0) (rw (e, k) at h)))
    ]
    | inr (failed, e) ↦ absurd (no_ok (ap (λ r. r.0) (rw e at h)))
  ]

  -- Apart from an argument-less start whose settings switch migrations on, and from `migrate`, alone or
  -- with the name of a module, no start runs a migration: the outcome does not depend on what running one
  -- would do. Whatever the command, only a start without arguments listens. A start whose settings do not
  -- load, whose log directory cannot be made, or whose command is not known gives an error and changes
  -- nothing. And `migrate` succeeds only if the settings load, the connection is made, and the
  -- migrations of the module `iam` then run with success, as the last thing that is done.
  pub main_lem :
      (run : Migrator → Eff String (Unit {0})) (listen : Provider → Eff String (Unit {0}))
      (args : List String)
      → (((config : AppConfig) → load var ≡ ok config → migrates config args ≡ false)
          → main out var args w ≡ main (record out { run = run }) var args w)
        × ((command : String)
            → main out var (command ∷ args) w
              ≡ main (record out { listen = listen }) var (command ∷ args) w)
        × (((config : AppConfig) (started : Subscriber)
              → load var ≡ ok config
              → logger config ≡ ok started
              → is_command args ≡ false)
            → (text : String) × (main out var args w ≡ (err text, w)))
        × ((w' : World)
            → main out var ("migrate" ∷ args) w ≡ (ok tt, w')
            → (config : AppConfig) × (v : World) × (load var ≡ ok config)
              × (connect out config.db w ≡ (ok tt, v))
              × (out.run iam v ≡ (ok tt, w')))
  main_lem run listen args = (
    main-migrates run args,
    λ command. main-listens listen command args,
    main-fails args,
    λ w' h. main-migrated args h,
  )
