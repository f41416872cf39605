-- ===== src/Rbac/Postgres.antt =====
-- src/package/rbac/store.rs: the store over the tables. A query is written as the rows that its
-- text selects; a NULL column fails to decode as a text.
use api_starter.Base.{
  String, Bool, false, ◌&&◌, ◌==◌, Option, none, some, List, [], ◌∷◌, map, any, keep, flat, nat_eq,
  Result, ok, err,
}
use api_starter.Base.Int.{int_eq}
use api_starter.Database.{Uuid, Tables, PermissionRow, RoleRow}
use api_starter.Database.Errors.{SqlError, other}
use api_starter.Database.Effect.{query}
use api_starter.Rbac.{Permission, Store}

-- Whether a user holds a role, by `user_has_roles`.
abbrev pub has_role : Tables → Uuid → RoleRow → Bool
has_role t user_id r =
    any (λ uhr. nat_eq uhr.user_id user_id && int_eq uhr.role_id r.id) t.user_has_roles

unfoldable pub select_roles : Uuid → Tables → Result SqlError (List String)
select_roles user_id t = ok (map (λ r. r.name) (keep (has_role t user_id) t.roles))

-- The rows of the join, once for each way in which the user holds a permission.
unfoldable pub held_permissions : Uuid → Tables → List PermissionRow
held_permissions user_id t =
    flat
      (λ p.
        flat
          (λ rhp.
            map (λ uhr. p)
              (keep
                (λ uhr.
                  int_eq p.id rhp.permission_id
                  && int_eq uhr.role_id rhp.role_id
                  && nat_eq uhr.user_id user_id)
                t.user_has_roles))
          t.role_has_permissions)
      t.permissions

-- `try_get` of a text column.
abbrev pub text_column : String → Option String → Result SqlError String
text_column column (some v) = ok v
text_column column none = err (other column)

abbrev pub decode_permission : PermissionRow → Result SqlError Permission
decode_permission p = elim (text_column "resource" p.resource) [
  | err e ↦ err e
  | ok resource ↦ elim (text_column "name" p.name) [
    | err e ↦ err e
    | ok name ↦ ok (record { resource = resource; name = name })
  ]
]

-- `collect` into a `Result`.
abbrev pub collect_rows :
    {A B : Type 0} → (A → Result SqlError B) → List A → Result SqlError (List B)
collect_rows decode [] = ok []
collect_rows decode (x ∷ xs) = elim (decode x) [
  | err e ↦ err e
  | ok y ↦ elim (collect_rows decode xs) [ err e ↦ err e | ok ys ↦ ok (y ∷ ys) ]
]

unfoldable pub select_permissions : Uuid → Tables → Result SqlError (List Permission)
unfolding held_permissions
select_permissions user_id t = collect_rows decode_permission (held_permissions user_id t)

-- `=` of SQL on a column that may be NULL.
abbrev pub column_is : Option String → String → Bool
column_is none s = false
column_is (some v) s = v == s

unfoldable pub exists_permission : Uuid → String → String → Tables → Result SqlError Bool
exists_permission user_id resource permission t = ok (
    any
      (λ p.
        any
          (λ rhp.
            any
              (λ uhr.
                int_eq p.id rhp.permission_id
                && int_eq uhr.role_id rhp.role_id
                && nat_eq uhr.user_id user_id
                && (column_is p.resource resource && column_is p.name permission))
              t.user_has_roles)
          t.role_has_permissions)
      t.permissions)

unfoldable pub postgres_store : Store
postgres_store = record {
  get_roles = λ user_id. query (select_roles user_id);
  get_permissions = λ user_id. query (select_permissions user_id);
  has_permission =
      λ user_id resource permission. query (exists_permission user_id resource permission);
}
