-- ===== src/Guards/Laws.antt =====
-- What the guards establish.
use learn_nestjs.Common.{
  ◌≡◌, ◌↔◌, ◌⊎◌, inl, inr, refl, ap, fun_ext, Bool, true, false, not, ◌&&◌, ◌||◌, Option, none,
  some, or_else, List, [], ◌∷◌, map, arith, Option-cases,
}
use learn_nestjs.Common.Text.{Text, text_eq_iff, to_lower}
use learn_nestjs.Common.Lists.{any, every, contains, add_all, contains-add_all}
use learn_nestjs.Common.Results.{ok, is_ok}
use learn_nestjs.Database.{User}
use learn_nestjs.Auth.Keys.{blacklist_key}
use learn_nestjs.Auth.World.{Services, World, JwtPayload, cache_get, find_user}
use learn_nestjs.Auth.Users.{option_eq, truthy, is_banned}
use learn_nestjs.Common.Maps.{Map}
use learn_nestjs.Guards.{
  AuthenticatedUser, Field, extract_token, admit_user, check_token, auth_guard, start_roles,
  assigned_roles, roles_guard, owner_of, is_administrator, owner_admits, permissions_guard,
  validate,
}

module _ (S : Services) where
  -- What `AuthGuard` has established when it lets a request with a user through.
  pub record IsAdmitted (header cookie : Option Text) (w : World S) (u : AuthenticatedUser)
      : Type 0 where
    pub token : Text
    pub given : extract_token header cookie ≡ some token
    pub payload : JwtPayload
    pub signed : S.verify_access token w.now ≡ some payload
    pub not_revoked : cache_get S (blacklist_key (S.sha256 token)) w ≡ none
    pub account : User
    pub exists : find_user S payload.sub w ≡ some account
    pub not_banned : is_banned account.status ≡ false
    pub same_id : u.id ≡ account.id
    pub same_permissions : u.permissions ≡ payload.permissions

  admit_user_sound :
      (payload : JwtPayload) (found : Option User) (u : AuthenticatedUser)
      → admit_user S payload found ≡ ok (some u)
      → (account : User) × (found ≡ some account)
        × (is_banned account.status ≡ false)
        × (u.id ≡ account.id)
        × (u.permissions ≡ payload.permissions)
  unfolding admit_user
  admit_user_sound payload none u h = cc
  admit_user_sound payload (some account) u h =
      (account, refl, ground arith, ground arith, ground arith)

  check_token_sound :
      (header cookie : Option Text) (token : Text) (w : World S) (u : AuthenticatedUser)
      → extract_token header cookie ≡ some token
      → check_token S token w ≡ ok (some u)
      → IsAdmitted header cookie w u
  unfolding check_token
  check_token_sound header cookie token w u given h =
      elim (Option-cases (S.verify_access token w.now)) [
        | inl bad ↦ absurd (ground arith)
        | inr (payload, signed) ↦
            let admitted : admit_user S payload (find_user S payload.sub w) ≡ ok (some u) =
              ground arith in
            let (account, exists, free, same_id, same_permissions) =
              admit_user_sound payload (find_user S payload.sub w) u admitted in
            record {
              token = token;
              given = given;
              payload = payload;
              signed = signed;
              not_revoked =
                  ground (arith, S.cache.exists-get (blacklist_key (S.sha256 token)) w.cache);
              account = account;
              exists = exists;
              not_banned = free;
              same_id = same_id;
              same_permissions = same_permissions;
            }
      ]

  -- `AuthGuard` sets a user only for a request that carries a token, in the header or else in the
  -- cookie, whose signature verifies, that is not blacklisted, and whose subject is the account of
  -- that user, not banned; the permissions are those of the token.
  pub auth_guard_sound :
      (is_public : Bool) (header cookie : Option Text) (w : World S) (u : AuthenticatedUser)
      → auth_guard S is_public header cookie w ≡ ok (some u)
      → IsAdmitted header cookie w u
  unfolding auth_guard
  auth_guard_sound is_public header cookie w u h =
      elim (Option-cases (extract_token header cookie)) [
        | inl missing ↦ absurd (ground arith)
        | inr (token, given) ↦ check_token_sound header cookie token w u given (ground arith)
      ]

  -- A token that verifies passes `AuthGuard` exactly where the strategy accepts its payload and the token
  -- is not blacklisted.
  check_token-validate :
      (token : Text) (payload : JwtPayload) (w : World S)
      → S.verify_access token w.now ≡ some payload
      → is_ok (check_token S token w) ≡ (
          is_ok (validate S payload w)
          && not (S.cache.exists (blacklist_key (S.sha256 token)) w.cache))
  unfolding check_token validate
  check_token-validate token payload w signed = ground arith

-- `RolesGuard` admits exactly the requests to a route without required roles and those of a user
-- who has one of the required roles, in any spelling of its case.
pub roles_guard_iff :
    (required : List Text) (u : AuthenticatedUser)
    → (roles_guard required (some u) ≡ ok true) ↔ (
        (required ≡ [])
        ⊎ (any
              (λ r.
                contains (start_roles u.role) (to_lower r)
                || contains (map to_lower u.roles) (to_lower r))
              required
            ≡ true))
unfolding roles_guard assigned_roles
roles_guard_iff [] u = (λ h. inl refl, λ h. refl)
roles_guard_iff (r ∷ rs) u =
    let same : any (λ x. contains (assigned_roles u) (to_lower x)) (r ∷ rs)
        ≡ any
            (λ x.
              contains (start_roles u.role) (to_lower x)
              || contains (map to_lower u.roles) (to_lower x))
            (r ∷ rs) =
      ap (λ p. any p (r ∷ rs))
        (fun_ext
          (λ x. contains-add_all (start_roles u.role) (map to_lower u.roles) (to_lower x))) in
    (λ h. inr (ground (arith, same)), λ h. ground (arith, same))

contains-add_all_empty : (xs : List Text) (a : Text) → contains (add_all [] xs) a ≡ contains xs a
unfolding contains
contains-add_all_empty xs a = contains-add_all [] xs a

option_eq_iff : (o : Option Text) (a : Text) → (option_eq o (some a) ≡ true) ↔ (o ≡ some a)
option_eq_iff none a = ground arith
option_eq_iff (some b) a = ground (arith, text_eq_iff b a)

owner_admits_lem :
    (key owner : Option Text) (u : AuthenticatedUser)
    → owner_admits key owner u ≡ (truthy key && (option_eq owner (some u.id) || is_administrator u))
owner_admits_lem none owner u = refl
owner_admits_lem (some k) owner u = refl

-- `PermissionsGuard` admits exactly the requests to a route without required permissions, those of a
-- user who has all of them, and, where the route names the parameter of the owner, those of the
-- owner of the resource and of an administrator.
pub permissions_guard_iff :
    (required : List Text) (owner_param : Option Text) (params body query : Map Field)
    (u : AuthenticatedUser)
    → (permissions_guard required owner_param params body query (some u) ≡ ok true) ↔ (
        (every (contains u.permissions) required ≡ true)
        ⊎ ((truthy owner_param ≡ true)
            × ((owner_of params body query (or_else owner_param []) ≡ some u.id)
                ⊎ (is_administrator u ≡ true))))
unfolding permissions_guard
permissions_guard_iff [] owner_param params body query u =
    (λ h. inl (unfold every in refl), λ h. refl)
permissions_guard_iff (p ∷ ps) owner_param params body query u =
    let required = p ∷ ps in
    let owner = owner_of params body query (or_else owner_param []) in
    let same : every (contains (add_all [] u.permissions)) required
        ≡ every (contains u.permissions) required =
      ap (λ q. every q required) (fun_ext (contains-add_all_empty u.permissions)) in
    ground (arith, same, option_eq_iff owner u.id, owner_admits_lem owner_param owner u)
