-- ===== src/Tests/Access.antt =====
-- Examples on who may do what, and on the layers in front of the handlers.
use api_starter.Base.{◌≡◌, refl, true, some, [], ◌∷◌, ◌||◌}
use api_starter.Database.Errors.{other}
use api_starter.Database.Effect.{World, calm}
use api_starter.Rbac.{can, can_any}
use api_starter.Rbac.Decisions.{engine, is_super, holds, can_lem, failures_never_grant}
use api_starter.Tests.Fixtures.{seeds}

abbrev quiet : World
quiet = calm seeds []

can_lem_example :
    (can (engine "Root") 1 "Users.View All" quiet).0
    ≡ (is_super "Root" 1 seeds || holds "Root" 1 "Users.View All" seeds)
can_lem_example = can_lem "Root" 1 "Users.View All" quiet refl

-- The reading of the roles fails.
abbrev broken : World
broken = record quiet { calls = some (other "connection reset") ∷ [] }

failures_never_grant_example :
    ((can (engine "Admin") 1 "Users.View All" broken).0 ≡ true
      → (can (engine "Admin") 1 "Users.View All" quiet).0 ≡ true)
    × ((can_any (engine "Admin") 1 ("Users.View All" ∷ []) broken).0 ≡ true
        → (can_any (engine "Admin") 1 ("Users.View All" ∷ []) quiet).0 ≡ true)
failures_never_grant_example =
    failures_never_grant "Admin" 1 "Users.View All" ("Users.View All" ∷ []) broken
