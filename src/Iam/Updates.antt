-- ===== src/Iam/Updates.antt =====
-- Deleting users, and what an update can do that is not restricted.
use api_starter.Base.{String, ◌≡◌, refl, sym, ◌⊎◌, inl, if◌then◌else◌, nat_eq, map}
use api_starter.Base.Chars.{CharTables}
use api_starter.Database.{Uuid, Tables}
use api_starter.Database.Effect.{World}
use api_starter.External.{Crypto}
use api_starter.Auth.Service.{sql_unknown}
use api_starter.Iam.{UserService, deleted_user_status}
use api_starter.Iam.Users.{Listing, postgres_users, delete}
use api_starter.Iam.Rows.{set_status}
use api_starter.Iam.Service
use api_starter.Iam.Service.{user_service, map_domain_error}
use api_starter.Iam.Atomicity.{postgres_users-Transactional, require_user-Keeps}
use api_starter.Database.Outcomes.{
  Gives-on_error, Gives-execute_in, Gives-begin, Gives-Keeps, Leaves, Leaves-bind, Leaves-commit,
}
use api_starter.Iam.SelfService.{update_row-eq-ok}

-- The tables once the rows with an id have the status `Deleted`.
abbrev pub soft_deleted : Uuid → Tables → Tables
soft_deleted id t = record t {
  users = map (λ u. if nat_eq u.id id then set_status deleted_user_status u else u) t.users;
}

-- The tables as they were, or with the user's status flipped.
abbrev pub SoftDeletes : Uuid → Tables → Tables → Type 0
SoftDeletes id t t' = (t ≡ t') ⊎ (soft_deleted id t ≡ t')

module _ (tables : CharTables) (crypto : Crypto) (report : String → String)
    (listing : Listing) where
  abbrev service : UserService
  service = user_service tables crypto (postgres_users report listing)

  -- Whatever becomes of the calls to the database, a deletion leaves the tables as they were, or
  -- with the status of the rows with the user's id, and nothing else, set to `Deleted`: no row of
  -- any table is ever removed.
  pub delete-SoftDeletes :
      (id : Uuid) (w : World) → SoftDeletes id w.tables (service.delete id w).1.tables
  unfolding user_service Service.delete postgres_users delete
  delete-SoftDeletes id w = leaves.left_as w refl
    where
      leaves : Leaves w.tables (SoftDeletes id w.tables) (service.delete id)
      leaves =
          Leaves-bind _ (inl refl)
            (Gives-Keeps
              (require_user-Keeps tables crypto _ (postgres_users-Transactional report listing) id))
            λ user any.
              Leaves-bind (λ tx. w.tables ≡ tx) (inl refl) (Gives-on_error sql_unknown Gives-begin)
                λ tx e.
                  Leaves-bind (SoftDeletes id w.tables) (inl refl)
                    (Gives-on_error map_domain_error (
                      Gives-on_error _ (
                        Gives-execute_in (SoftDeletes id w.tables) tx _ (λ after done.
                          update_row-eq-ok report id (set_status deleted_user_status) w.tables
                            (rw (sym e) at done)))))
                    λ deleted h. Leaves-commit _ sql_unknown deleted (inl refl) h
