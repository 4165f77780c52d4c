-- ===== src/Guards.antt =====
-- The guards of src/common/guards: who may reach a handler. Signatures are checked by the JWT
-- library, with the secret of the configuration.
pub mod Laws
pub mod Logout
use learn_nestjs.Common.{
  ◌-◌, ◌/◌, Bool, true, false, not, ◌&&◌, ◌||◌, Option, none, some, or_else, or_option, List, [],
  ◌∷◌, map, if◌then◌else◌,
}
use learn_nestjs.Common.Text.{Text, codes, is_empty, to_lower, starts_with, drop}
use learn_nestjs.Common.Lists.{any, every, contains, add_all}
use learn_nestjs.Common.Results.{Failure, Result, ok, err, unauthorized, forbidden}
use learn_nestjs.Database.{User, banned, super_admin, admin, user}
use learn_nestjs.Auth.Keys.{blacklist_key}
use learn_nestjs.Auth.World.{Services, World, JwtPayload, find_user}
use learn_nestjs.Auth.Users.{option_eq, truthy, is_banned}
use learn_nestjs.Auth.Tokens.{role_text}
use learn_nestjs.Common.Maps.{Map, lookup}

-- The user that a guard finds in the request.
pub record AuthenticatedUser : Type 0 where
  pub id : Text
  pub role : Option Text
  pub roles : List Text
  pub permissions : List Text

-- A value in the parameters, the body or the query of a request.
pub data Field : Type 0 where
  string : Text → Field
  other : Field

abbrev pub token_required : Failure
token_required = unauthorized "Access token is required"

abbrev pub token_revoked : Failure
token_revoked = unauthorized "Access token has been revoked"

abbrev pub account_not_found : Failure
account_not_found = unauthorized "User not found"

abbrev pub your_account_banned : Failure
your_account_banned = unauthorized "Your account has been banned"

abbrev pub token_invalid : Failure
token_invalid = unauthorized "Invalid or expired access token"

abbrev pub no_user : Failure
no_user = forbidden "No user found in request"

abbrev pub access_denied : Failure
access_denied = forbidden "Access denied"

abbrev pub user_context_missing : Failure
user_context_missing = forbidden "User context missing"

abbrev pub missing_permissions : Failure
missing_permissions = forbidden "Missing required permissions"

-- src/common/guards/auth.guard.ts

-- `extractToken`: the header comes before the cookie.
unfoldable pub extract_token : Option Text → Option Text → Option Text
extract_token none cookie = cookie
extract_token (some header) cookie =
    if starts_with header (codes "Bearer ") then some (drop 7 header) else cookie

module _ (S : Services) where
  unfoldable pub admit_user : JwtPayload → Option User → Result (Option AuthenticatedUser)
  admit_user payload none = err account_not_found
  admit_user payload (some u) =
      if is_banned u.status
      then err your_account_banned
      else ok (
          some (record {
            id = u.id;
            role = some (role_text u.role);
            roles = payload.roles;
            permissions = payload.permissions;
          }))

  unfoldable pub check_token : Text → World S → Result (Option AuthenticatedUser)
  unfolding admit_user
  check_token token w = elim (S.verify_access token w.now) [
    | none ↦ err token_invalid
    | some payload ↦
        if S.cache.exists (blacklist_key (S.sha256 token)) w.cache
        then err token_revoked
        else admit_user payload (find_user S payload.sub w)
  ]

  -- `JwtStrategy.validate` of src/modules/auth/auth.strategy.ts, on the payload of a verified token
  unfoldable pub validate : JwtPayload → World S → Result (Option AuthenticatedUser)
  unfolding admit_user
  validate payload w = admit_user payload (find_user S payload.sub w)

  -- `AuthGuard.canActivate`: `none` is a public route, with no user set.
  unfoldable pub auth_guard :
      Bool → Option Text → Option Text → World S → Result (Option AuthenticatedUser)
  unfolding extract_token check_token
  auth_guard is_public header cookie w =
      if is_public
      then ok none
      else if truthy (extract_token header cookie)
      then check_token (or_else (extract_token header cookie) []) w
      else err token_required

-- src/common/guards/roles.guard.ts

abbrev pub start_roles : Option Text → List Text
start_roles none = []
start_roles (some r) = if is_empty r then [] else to_lower r ∷ []

-- The roles of the user, in lower case.
unfoldable pub assigned_roles : AuthenticatedUser → List Text
assigned_roles u = add_all (start_roles u.role) (map to_lower u.roles)

unfoldable pub roles_guard : List Text → Option AuthenticatedUser → Result Bool
roles_guard [] u = ok true
roles_guard (r ∷ rs) none = err no_user
roles_guard (r ∷ rs) (some u) =
    if any (λ required. contains (assigned_roles u) (to_lower required)) (r ∷ rs)
    then ok true
    else err access_denied

-- src/common/guards/permissions.guard.ts

unfoldable pub get_string_value : Map Field → Text → Option Text
get_string_value source key = elim (lookup key source) [
  | none ↦ none
  | some (string s) ↦ some s
  | some other ↦ none
]

-- The owner of the resource that a request names.
unfoldable pub owner_of : Map Field → Map Field → Map Field → Text → Option Text
owner_of params body query key =
    or_option (get_string_value params key)
      (or_option (get_string_value body key) (get_string_value query key))

abbrev pub is_administrator : AuthenticatedUser → Bool
is_administrator u =
    let roles = add_all [] (map to_lower u.roles) in
    contains roles (codes "admin") || contains roles (codes "super_admin")

abbrev pub owner_admits : Option Text → Option Text → AuthenticatedUser → Bool
owner_admits none owner u = false
owner_admits (some key) owner u =
    not (is_empty key) && (option_eq owner (some u.id) || is_administrator u)

unfoldable pub permissions_guard :
    List Text
    → Option Text
    → Map Field
    → Map Field
    → Map Field
    → Option AuthenticatedUser
    → Result Bool
permissions_guard [] owner_param params body query u = ok true
permissions_guard (p ∷ ps) owner_param params body query none = err user_context_missing
permissions_guard (p ∷ ps) owner_param params body query (some u) =
    if every (contains (add_all [] u.permissions)) (p ∷ ps)
    then ok true
    else if owner_admits owner_param (owner_of params body query (or_else owner_param [])) u
    then ok true
    else err missing_permissions

-- src/common/guards/ws-auth.guard.ts

unfoldable pub ws_auth_guard : Option Text → Result Bool
ws_auth_guard user_id = if truthy user_id then ok true else err (unauthorized "Unauthorized")
