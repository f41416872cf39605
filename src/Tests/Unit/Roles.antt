-- ===== src/Tests/Unit/Roles.antt =====
-- The tests of src/package/rbac/mod.rs and engine.rs, with the store that they are made with, of
-- src/module/iam/core/ports.rs and service/permission.rs, and of the sort order of
-- adapter/repository/user.rs.
use api_starter.Base.{
  String, ◌≡◌, ◌==◌, ◌&&◌, refl, true, false, none, some, List, [], ◌∷◌, any, map, Result, ok, err,
}
use api_starter.Base.Int.{pos}
use api_starter.Base.Dict
use api_starter.Database.Errors.{other}
use api_starter.Database.Effect.{World, ret, lift, calm}
use api_starter.Errdef.{unknown}
use api_starter.Iam.{
  UpdateUser, no_update, has_no_column_changes, restricted_to_self, PermissionRepository,
  DomainError, database,
}
use api_starter.Iam as Iam
use api_starter.Iam.Permissions.{permission_service}
use api_starter.Iam.Sql.{sort_column, sort_order}
use api_starter.Rbac.{Permission, RbacEngine, Store, split_action, can, can_any}
use api_starter.Tests.Fixtures.{seeds}

abbrev SplitsOnTheFirstSeparator : Type 0
SplitsOnTheFirstSeparator =
    (split_action "Users.View All" ≡ some ("Users", "View All"))
    × (split_action "Catalogues.Add.Tags" ≡ some ("Catalogues", "Add.Tags"))
    × (split_action "Users" ≡ none)

splits_on_the_first_separator : SplitsOnTheFirstSeparator
unfolding split_action
splits_on_the_first_separator = (refl, refl, refl)

-- `FakeStore`: the same roles and permissions for every user.
abbrev fake_store : List String → List Permission → Store
fake_store roles permissions = record {
  get_roles = λ user_id. ret roles;
  get_permissions = λ user_id. ret permissions;
  has_permission = λ user_id resource permission.
      ret (any (λ p. p.resource == resource && p.name == permission) permissions);
}

abbrev engine : List String → List (String × String) → RbacEngine
engine roles permissions = record {
  super_role = "Admin";
  store = fake_store roles (map (λ p. record { resource = p.0; name = p.1 }) permissions);
}

abbrev quiet : World
quiet = calm seeds []

abbrev staff_engine : RbacEngine
staff_engine = engine ("Staff" ∷ []) (("Users", "View All") ∷ [])

abbrev TheSuperRoleBypassesPermissionChecks : Type 0
TheSuperRoleBypassesPermissionChecks =
    (can (engine ("Admin" ∷ []) []) 7 "Users.View All" quiet).0 ≡ true

the_super_role_bypasses_permission_checks : TheSuperRoleBypassesPermissionChecks
unfolding can
the_super_role_bypasses_permission_checks = refl

abbrev GrantsAnExplicitlyAssignedPermission : Type 0
GrantsAnExplicitlyAssignedPermission =
    ((can staff_engine 7 "Users.View All" quiet).0 ≡ true)
    × ((can staff_engine 7 "Users.Delete" quiet).0 ≡ false)

grants_an_explicitly_assigned_permission : GrantsAnExplicitlyAssignedPermission
unfolding can split_action
grants_an_explicitly_assigned_permission = (refl, refl)

abbrev RejectsAMalformedAction : Type 0
RejectsAMalformedAction = (can staff_engine 7 "Users" quiet).0 ≡ false

rejects_a_malformed_action : RejectsAMalformedAction
unfolding can split_action
rejects_a_malformed_action = refl

abbrev CanAnyMatchesASingleGrantedAction : Type 0
CanAnyMatchesASingleGrantedAction =
    ((can_any staff_engine 7 ("Users.Delete" ∷ "Users.View All" ∷ []) quiet).0 ≡ true)
    × ((can_any staff_engine 7 ("Users.Delete" ∷ []) quiet).0 ≡ false)

can_any_matches_a_single_granted_action : CanAnyMatchesASingleGrantedAction
unfolding can_any split_action Dict.lookup Dict.push
can_any_matches_a_single_granted_action = (refl, refl)

abbrev RestrictingToSelfDropsPrivilegedFields : Type 0
RestrictingToSelfDropsPrivilegedFields =
    let payload = restricted_to_self (record no_update {
      first_name = some "Ada";
      status = some "Deleted";
      password = some "hunter2";
      add_roles = some ("Admin" ∷ []);
    }) in
    (payload.first_name ≡ some "Ada")
    × (payload.status ≡ none)
    × (payload.password ≡ none)
    × (payload.add_roles ≡ none)

restricting_to_self_drops_privileged_fields : RestrictingToSelfDropsPrivilegedFields
unfolding restricted_to_self
restricting_to_self_drops_privileged_fields = (refl, refl, refl, refl)

abbrev DetectsARoleOnlyPayload : Type 0
DetectsARoleOnlyPayload =
    has_no_column_changes (record no_update { add_roles = some ("Staff" ∷ []) }) ≡ true

detects_a_role_only_payload : DetectsARoleOnlyPayload
unfolding has_no_column_changes
detects_a_role_only_payload = refl

-- `FakePermissionRepository`; the listing by role is not reached.
abbrev fake_permissions : Result DomainError (List Iam.Permission) → PermissionRepository
fake_permissions permissions = record {
  list_all = lift permissions;
  list_permissions_by_role = λ role_id. lift permissions;
}

abbrev listed : Iam.Permission
listed = record { id = pos 1; name = "View All"; resource = "Users"; in_module = "IAM Module" }

abbrev ListsEveryPermission : Type 0
ListsEveryPermission =
    ((permission_service (fake_permissions (ok (listed ∷ [])))).list_all quiet).0 ≡ ok (listed ∷ [])

lists_every_permission : ListsEveryPermission
unfolding permission_service
lists_every_permission = refl

abbrev ADatabaseFailureStaysInternal : Type 0
ADatabaseFailureStaysInternal =
    (cause : String) × (((permission_service
          (fake_permissions (err (database (other "no rows"))))).list_all
        quiet).0
      ≡ err (unknown cause))

a_database_failure_stays_internal : ADatabaseFailureStaysInternal
unfolding permission_service
a_database_failure_stays_internal = (_, refl)

abbrev OnlyWhitelistedColumnsReachTheOrderByClause : Type 0
OnlyWhitelistedColumnsReachTheOrderByClause =
    (sort_column "email" ≡ "u.email")
    × (sort_column "department" ≡ "d.name")
    × (sort_column "status" ≡ "us.status")
    × (sort_column "u.password; DROP TABLE iam.users" ≡ "u.user_name")
    × (sort_column "" ≡ "u.user_name")

only_whitelisted_columns_reach_the_order_by_clause : OnlyWhitelistedColumnsReachTheOrderByClause
unfolding sort_column
only_whitelisted_columns_reach_the_order_by_clause = (refl, refl, refl, refl, refl)

abbrev TheSortDirectionIsNeverTakenVerbatim : Type 0
TheSortDirectionIsNeverTakenVerbatim =
    (sort_order "asc" ≡ "asc")
    × (sort_order "desc" ≡ "desc")
    × (sort_order "; DELETE FROM iam.users" ≡ "desc")

the_sort_direction_is_never_taken_verbatim : TheSortDirectionIsNeverTakenVerbatim
unfolding sort_order
the_sort_direction_is_never_taken_verbatim = (refl, refl, refl)
