-- ===== src/Samples/Grants.antt =====
-- A deployment whose claims read the tables of the roles, and the theorem on the open routes of the roles applied to it.
use learn_nestjs.Common.{true, Option, none, some, List, [], ◌∷◌, ◌++◌, if◌then◌else◌}
use learn_nestjs.Common.Text.{Text, codes, text_eq}
use learn_nestjs.Database.{
  User, Role, super_admin, Tenant, OAuthAccount, AppRole, UserRole, Permission,
}
use learn_nestjs.Auth.World.{Services, World}
use learn_nestjs.Samples.Models.{runs}
use learn_nestjs.Samples.World.{ann, ann_id, servers, one_row, no_rows}
use learn_nestjs.Samples.Servers.{create_row, Rows}
use learn_nestjs.Roles.{create_role, assign_to_user}
use learn_nestjs.Endpoints.{Incoming}

abbrev Links : Type 0
Links = Rows (λ (l : UserRole). l.id)

abbrev RoleRows : Type 0
RoleRows = Rows (λ (r : AppRole). r.id)

abbrev of_link : Text → RoleRows → Option UserRole → List (Role × List Permission)
of_link id roles none = []
of_link id roles (some link) =
    if text_eq link.user_id id
    then (elim (roles.at link.role_id) [ none ↦ [] | some role ↦ (role.name, []) ∷ [] ])
    else []

-- The roles of the links with the given identifiers.
unfoldable linked_roles : Text → RoleRows → Links → List Text → List (Role × List Permission)
linked_roles id roles links [] = []
linked_roles id roles links (k ∷ ks) =
    of_link id roles (links.at k) ++ linked_roles id roles links ks

abbrev granting : Services
granting = record servers {
  grants =
      λ id roles links. record { roles = linked_roles id roles links links.ids; permissions = [] };
}

abbrev start : World granting
start = record {
  cache = record { connected = true; memory = []; remote = [] };
  users = one_row (λ (u : User). u.id) ann;
  tenants = no_rows (λ (t : Tenant). t.id);
  accounts = no_rows (λ (a : OAuthAccount). a.id);
  app_roles = no_rows (λ (r : AppRole). r.id);
  user_roles = no_rows (λ (r : UserRole). r.id);
  audits = [];
  mails = [];
  draws = 0;
  now = 1000000;
}

abbrev new_role : AppRole
new_role = record { id = codes "new"; name = super_admin; tenant_id = none }

abbrev new_link : UserRole
new_link = record { id = codes "new"; user_id = ann_id; role_id = codes "new" }

abbrev with_role : World granting
with_role = (create_role granting super_admin none start).1

abbrev with_link : World granting
with_link = (assign_to_user granting (codes "new") ann_id with_role).1

unfoldable grants_runs : Unit {0}
unfolding runs create_role assign_to_user create_row linked_roles
grants_runs = tt

-- A request without a token.
abbrev anonymous : Incoming
anonymous = record {
  authorization = none;
  access_cookie = none;
  tenant_header = none;
  domain_header = none;
  user_agent = none;
  ip = none;
}
