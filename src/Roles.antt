-- ===== src/Roles.antt =====
-- `RoleService`, `PermissionService` and `TenantService` of src/modules/role, src/modules/permission and
-- src/modules/tenant. Their routes are in Roles/Routes.
--
-- The lists (`findAll`) are left out. A row that a constraint refuses is an exception of the client, of
-- whose codes the model names the first.
pub mod Escalation
pub mod Routes
use learn_nestjs.Common.{◌-◌, Option, none, some}
use learn_nestjs.Common.Text.{Text}
use learn_nestjs.Common.Results.{Failure, Exec, ok, err, database}
use learn_nestjs.Database.{Role, Tenant, AppRole, UserRole, Table}
use learn_nestjs.Auth.World.{Services, World}
use learn_nestjs.Auth.Users.{option_eq}

pub record RolePermission : Type 0 where
  pub id : Text
  pub role_id : Text
  pub permission_id : Text

pub record PermissionRow : Type 0 where
  pub id : Text
  pub action : Text
  pub subject : Text
  pub description : Option Text

abbrev pub refused_row : Failure
refused_row = database "P2002"

-- `create` on a table, with the row that is made.
module _ {Row : Type 0} {key : Row → Text} (table : Table key) where
  abbrev pub create_in : (Text → Row) → Exec table.State Row
  create_in make s = elim (table.create make s) [
    | none ↦ (err refused_row, s)
    | some (row, t) ↦ (ok row, t)
  ]

module _ (S : Services) where
  unfoldable pub create_role : Role → Option Text → Exec (World S) AppRole
  create_role name tenant_id w =
      let (r, t) =
        create_in S.app_roles (λ id. record { id = id; name = name; tenant_id = tenant_id })
          w.app_roles in
      (r, record w { app_roles = t })

  unfoldable pub assign_to_user : Text → Text → Exec (World S) UserRole
  assign_to_user role_id user_id w =
      let (r, t) =
        create_in S.user_roles (λ id. record { id = id; user_id = user_id; role_id = role_id })
          w.user_roles in
      (r, record w { user_roles = t })

  unfoldable pub create_tenant : Text → Option Text → Exec (World S) Tenant
  create_tenant name domain w =
      let (r, t) =
        create_in S.tenants (λ id. record { id = id; name = name; domain = domain }) w.tenants in
      (r, record w { tenants = t })

  unfoldable pub resolve_by_domain : Text → World S → Option Tenant
  resolve_by_domain domain w =
      S.tenants.find_first (λ t. option_eq t.domain (some domain)) w.tenants

module _ (links : Table (λ (l : RolePermission). l.id)) where
  unfoldable pub assign_permission : Text → Text → Exec links.State RolePermission
  assign_permission role_id permission_id =
      create_in links (λ id. record { id = id; role_id = role_id; permission_id = permission_id })

module _ (permissions : Table (λ (p : PermissionRow). p.id)) where
  unfoldable pub create_permission :
      Text → Text → Option Text → Exec permissions.State PermissionRow
  create_permission action subject description =
      create_in permissions
        (λ id. record { id = id; action = action; subject = subject; description = description })
