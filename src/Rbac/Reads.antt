-- ===== src/Rbac/Reads.antt =====
-- A decision only reads.
use api_starter.Base.{
  String, Bool, true, false, ◌≡◌, refl, ◌∙◌, Option, none, some, Result, ok, err,
}
use api_starter.Database.{Uuid}
use api_starter.Database.Errors.{SqlError}
use api_starter.Database.Effect.{World}
use api_starter.Database.Keeps.{Keeps-query}
use api_starter.Rbac.{RbacEngine, can, role_bypass, allowed, after_bypass, check_action}
use api_starter.Rbac.Postgres.{postgres_store}

allowed_tables :
    {A : Type 0} (test : A → Bool) (p : Result SqlError A × World)
    → (allowed test p).1.tables ≡ p.1.tables
allowed_tables test (ok a, w) = refl
allowed_tables test (err e, w) = refl

after_tables :
    (p : Bool × World) (check : World → Bool × World)
    → ((w : World) → (check w).1.tables ≡ w.tables)
    → (after_bypass p check).1.tables ≡ p.1.tables
after_tables (true, w) check h = refl
after_tables (false, w) check h = h w

module _ (super_role : String) where
  abbrev engine : RbacEngine
  engine = record { super_role = super_role; store = postgres_store }

  check_tables :
      (id : Uuid) (parts : Option (String × String)) (w : World)
      → (check_action engine id parts w).1.tables ≡ w.tables
  unfolding postgres_store
  check_tables id none w = refl
  check_tables id (some (resource, permission)) w =
      allowed_tables (λ b. b) _ ∙ (Keeps-query _).kept w

  pub can_tables :
      (id : Uuid) (action : String) (w : World) → (can engine id action w).1.tables ≡ w.tables
  unfolding can role_bypass postgres_store
  can_tables id action w =
      after_tables (role_bypass engine id w) _ (check_tables id _)
      ∙ allowed_tables _ _
      ∙ (Keeps-query _).kept w
