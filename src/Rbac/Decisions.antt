-- ===== src/Rbac/Decisions.antt =====
-- What the engine decides, over any store and over the tables.
use api_starter.Base.{
  String, Bool, true, false, ◌&&◌, ◌||◌, ◌==◌, ◌≡◌, refl, sym, ◌∙◌, inl, inr, none, some, List, [],
  ◌∷◌, ◌++◌, map, ap, Result-cases, arith, any, keep, contains, any-flat, any-map, any-keep,
  any-append, ok, Bool-cases, if◌then◌else◌, Option-cases,
}
use mathlib.Core.Path.{fun_ext}
use api_starter.Base.Dict
use api_starter.Base.Dict.{Dict, items, items-push}
use api_starter.Database.{Uuid, Tables, PermissionRow}
use api_starter.Database.Effect.{Mail, World, calm, query}
use api_starter.Rbac.{Permission, RbacEngine, split_action, can, can_any, grant_all, is_granted}
use api_starter.Rbac.Postgres.{
  postgres_store, has_role, select_roles, select_permissions, exists_permission, held_permissions,
  column_is, decode_permission, collect_rows,
}

contains-if :
    (b : Bool) (names : List String) (new name : String)
    → contains (if b then names ++ (new ∷ []) else names) name
      ≡ (contains names name || (b && new == name))
contains-if true names new name = any-append (λ x. x == name) names (new ∷ []) ∙ ground arith
contains-if false names new name = ground arith

-- The names that a resource has in the map of grants.
contains-grant_all :
    (m : Dict (List String)) (ps : List Permission) (resource name : String)
    → contains (items resource (grant_all m ps)) name
      ≡ (contains (items resource m) name || any (λ p. p.resource == resource && p.name == name) ps)
unfolding grant_all
contains-grant_all m [] resource name = ground arith
contains-grant_all m (p ∷ ps) resource name =
    rw
      (
        contains-grant_all (Dict.push p.resource p.name m) ps resource name,
        items-push p.resource resource p.name m,
        contains-if (p.resource == resource) (items resource m) p.name name,
      )
      (ground arith)

is_granted-grant_all :
    (ps : List Permission) (action resource name : String)
    → split_action action ≡ some (resource, name)
    → is_granted (grant_all [] ps) action ≡ any (λ p. p.resource == resource && p.name == name) ps
unfolding is_granted Dict.lookup
is_granted-grant_all ps action resource name split =
    rw (split, is_granted) (ground (arith, contains-grant_all [] ps resource name))

-- Decoding keeps what a comparison of the columns finds.
any-collect_rows :
    (rows : List PermissionRow) (ps : List Permission) (resource name : String)
    → collect_rows decode_permission rows ≡ ok ps
    → any (λ p. p.resource == resource && p.name == name) ps
      ≡ any (λ p. column_is p.resource resource && column_is p.name name) rows
any-collect_rows [] ps resource name e = ground arith
any-collect_rows (r ∷ rows) ps resource name e =
    elim (Result-cases (collect_rows decode_permission rows)) [
      | inl (qs, rest) ↦ ground (arith, any-collect_rows rows qs resource name rest)
      | inr (x, failed) ↦ absurd (ground arith)
    ]

any-held_permissions :
    (user_id : Uuid) (t : Tables) (resource name : String)
    → exists_permission user_id resource name t
      ≡ ok (
          any
            (λ p. column_is p.resource resource && column_is p.name name)
            (held_permissions user_id t))
unfolding exists_permission held_permissions
any-held_permissions user_id t resource name = simp (any-flat, any-map, any-keep)

module _ (super_role : String) where
  -- The engine over the tables.
  abbrev pub engine : RbacEngine
  engine = record { super_role = super_role; store = postgres_store }

  -- Whether a user holds the super role.
  abbrev pub is_super : Uuid → Tables → Bool
  is_super user_id t = contains (map (λ r. r.name) (keep (has_role t user_id) t.roles)) super_role

  -- Whether one of the permissions that a user holds is the action.
  abbrev pub holds : Uuid → String → Tables → Bool
  holds user_id action t = elim (split_action action) [
    | none ↦ false
    | some (resource, name) ↦
        any (λ p. column_is p.resource resource && column_is p.name name)
          (held_permissions user_id t)
  ]

  -- Where no call fails, an action is allowed exactly to a user with the super role or with a
  -- permission, in the rows that the joins select, whose resource and name the action names.
  pub can_lem :
      (user_id : Uuid) (action : String) (w : World)
      → w.calls ≡ []
      → (can engine user_id action w).0
        ≡ (is_super user_id w.tables || holds user_id action w.tables)
  unfolding can postgres_store query select_roles
  can_lem user_id action w quiet = rw quiet (elim (Bool-cases (is_super user_id w.tables)) [
    | inl held ↦ rw held refl
    | inr plain ↦ elim (Option-cases (split_action action)) [
      | inl malformed ↦ rw (plain, malformed, holds) refl
      | inr ((resource, name), split) ↦
          rw (plain, split, holds, any-held_permissions user_id w.tables resource name) refl
    ]
  ])

  -- And a decision leaves a world without failures as it is.
  pub can-calm :
      (user_id : Uuid) (action : String) (t : Tables) (sent : List Mail)
      → can engine user_id action (calm t sent)
        ≡ (is_super user_id t || holds user_id action t, calm t sent)
  unfolding can postgres_store query select_roles
  can-calm user_id action t sent = elim (Bool-cases (is_super user_id t)) [
    | inl held ↦ rw held refl
    | inr plain ↦ elim (Option-cases (split_action action)) [
      | inl malformed ↦ rw (plain, malformed, holds) refl
      | inr ((resource, name), split) ↦
          rw (plain, split, holds, any-held_permissions user_id t resource name) refl
    ]
  ]

  granted-holds :
      (user_id : Uuid) (t : Tables) (ps : List Permission) (action : String)
      → select_permissions user_id t ≡ ok ps
      → is_granted (grant_all [] ps) action ≡ holds user_id action t
  unfolding select_permissions is_granted
  granted-holds user_id t ps action decoded = elim (Option-cases (split_action action)) [
    | inl malformed ↦ rw (malformed, is_granted, holds) refl
    | inr ((resource, name), split) ↦
        rw (is_granted-grant_all ps action resource name split, split, holds)
          (any-collect_rows (held_permissions user_id t) ps resource name decoded)
  ]

  any-granted :
      (user_id : Uuid) (t : Tables) (ps : List Permission) (actions : List String)
      → select_permissions user_id t ≡ ok ps
      → any (is_granted (grant_all [] ps)) actions ≡ any (λ a. holds user_id a t) actions
  any-granted user_id t ps [] decoded = refl
  any-granted user_id t ps (a ∷ actions) decoded =
      rw (granted-holds user_id t ps a decoded, any-granted user_id t ps actions decoded)

  can_any_lem :
      (user_id : Uuid) (actions : List String) (ps : List Permission) (w : World)
      → w.calls ≡ []
      → select_permissions user_id w.tables ≡ ok ps
      → (can_any engine user_id actions w).0
        ≡ (is_super user_id w.tables || any (λ a. holds user_id a w.tables) actions)
  unfolding can_any postgres_store query select_roles
  can_any_lem user_id actions ps w quiet decoded =
      rw quiet (elim (Bool-cases (is_super user_id w.tables)) [
        | inl held ↦ rw held refl
        | inr plain ↦ rw (plain, decoded) (any-granted user_id w.tables ps actions decoded)
      ])

  any_or :
      (b : Bool) (p : String → Bool) (a : String) (xs : List String)
      → any (λ x. b || p x) (a ∷ xs) ≡ (b || any p (a ∷ xs))
  any_or b p a [] = ground arith
  any_or b p a (x ∷ xs) = ground (arith, any_or b p x xs)

  -- Checking several actions at once, against the map of all grants, allows exactly what checking
  -- them one by one allows for at least one of them, where no call fails, the permissions of the
  -- user decode, and there is an action to check.
  pub can_any-any :
      (user_id : Uuid) (action : String) (actions : List String) (ps : List Permission) (w : World)
      → w.calls ≡ []
      → select_permissions user_id w.tables ≡ ok ps
      → (can_any engine user_id (action ∷ actions) w).0
        ≡ any (λ a. (can engine user_id a w).0) (action ∷ actions)
  can_any-any user_id action actions ps w quiet decoded =
      can_any_lem user_id (action ∷ actions) ps w quiet decoded
      ∙ sym (any_or (is_super user_id w.tables) (λ a. holds user_id a w.tables) action actions)
      ∙ ap (λ (p : String → Bool). any p (action ∷ actions))
          (fun_ext (λ a. sym (can_lem user_id a w quiet)))

  -- A call that fails never grants: what is allowed under failures is allowed without them.
  pub failures_never_grant :
      (user_id : Uuid) (action : String) (actions : List String) (w : World)
      → let calm = record w { calls = [] } in
        ((can engine user_id action w).0 ≡ true → (can engine user_id action calm).0 ≡ true)
        × ((can_any engine user_id actions w).0 ≡ true
            → (can_any engine user_id actions calm).0 ≡ true)
  unfolding can can_any postgres_store query select_roles
  failures_never_grant user_id action actions w = (ground arith, ground arith)
