-- ===== src/Iam/Permissions.antt =====
-- src/module/iam/adapter/repository/permission.rs and core/service/permission.rs.
use api_starter.Base.{none, some, List, [], map, keep, flat, Result, ok, err}
use api_starter.Base.Int.{ℤ, int_eq}
use api_starter.Database.{Tables, PermissionRow, ModuleRow}
use api_starter.Database.Errors.{SqlError}
use api_starter.Database.Effect.{Eff, on_error, query}
use api_starter.Errdef.{unknown}
use api_starter.Iam.{
  Permission, PermissionRepository, PermissionService, DomainError, database, domain_text,
}
use api_starter.Rbac.Postgres.{text_column, collect_rows}

-- The rows of the join of `SELECT_PERMISSION`.
unfoldable pub joined : Tables → List (PermissionRow × ModuleRow)
joined t =
    flat
      (λ p. elim (p.module_id) [
        | none ↦ []
        | some id ↦ map (λ m. (p, m)) (keep (λ m. int_eq id m.id) t.modules)
      ])
      t.permissions

unfoldable pub map_permission : PermissionRow × ModuleRow → Result SqlError Permission
map_permission (p, m) = elim (text_column "name" p.name) [
  | err e ↦ err e
  | ok name ↦ elim (text_column "resource" p.resource) [
    | err e ↦ err e
    | ok resource ↦ ok (record { id = p.id; name = name; resource = resource; in_module = m.name })
  ]
]

unfoldable pub list_all : Eff DomainError (List Permission)
unfolding joined map_permission
list_all = on_error database (query (λ t. collect_rows map_permission (joined t)))

unfoldable pub list_permissions_by_role : ℤ → Eff DomainError (List Permission)
unfolding joined map_permission
list_permissions_by_role role_id = on_error database (
    query λ t. collect_rows map_permission (
      flat
        (λ row.
          map (λ rp. row)
            (keep (λ rp. int_eq rp.role_id role_id)
              (keep (λ rp. int_eq row.0.id rp.permission_id) t.role_has_permissions)))
        (joined t)))

abbrev pub postgres_permissions : PermissionRepository
postgres_permissions = record {
  list_all = list_all;
  list_permissions_by_role = list_permissions_by_role;
}

-- `PermissionServiceImpl`
unfoldable pub permission_service : PermissionRepository → PermissionService
permission_service repository = record {
  list_all = on_error (λ e. unknown (domain_text e)) repository.list_all;
}
