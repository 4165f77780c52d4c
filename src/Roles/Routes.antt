-- ===== src/Roles/Routes.antt =====
-- The routes of `RoleController`, `PermissionController` and `TenantController` of src/modules/role,
-- src/modules/permission and src/modules/tenant, each as a function of its request. No guard stands
-- before any of them, and the application registers no global guard, so a handler never reads the
-- request beside its body and its parameters.
--
-- The lists (`findAll`) are left out.
use learn_nestjs.Common.{Option}
use learn_nestjs.Common.Text.{Text}
use learn_nestjs.Common.Results.{Exec}
use learn_nestjs.Database.{Role, Tenant, AppRole, UserRole, Table}
use learn_nestjs.Auth.World.{Services, World}
use learn_nestjs.Endpoints.{Incoming}
use learn_nestjs.Roles.{
  RolePermission, PermissionRow, create_role, assign_to_user, create_tenant, assign_permission,
  create_permission,
}

module _ (S : Services) where
  -- POST roles
  unfoldable pub post_role : Role → Option Text → Incoming → Exec (World S) AppRole
  unfolding create_role
  post_role name tenant_id r = create_role S name tenant_id

  -- POST roles/:roleId/users/:userId
  unfoldable pub post_role_user : Text → Text → Incoming → Exec (World S) UserRole
  unfolding assign_to_user
  post_role_user role_id user_id r = assign_to_user S role_id user_id

  -- POST tenants
  unfoldable pub post_tenant : Text → Option Text → Incoming → Exec (World S) Tenant
  unfolding create_tenant
  post_tenant name domain r = create_tenant S name domain

module _ (links : Table (λ (l : RolePermission). l.id)) where
  -- POST roles/:roleId/permissions/:permissionId
  unfoldable pub post_role_permission : Text → Text → Incoming → Exec links.State RolePermission
  unfolding assign_permission
  post_role_permission role_id permission_id r = assign_permission links role_id permission_id

module _ (permissions : Table (λ (p : PermissionRow). p.id)) where
  -- POST permissions
  unfoldable pub post_permission :
      Text → Text → Option Text → Incoming → Exec permissions.State PermissionRow
  unfolding create_permission
  post_permission action subject description r =
      create_permission permissions action subject description
