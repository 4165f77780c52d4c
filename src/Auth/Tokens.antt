-- ===== src/Auth/Tokens.antt =====
-- Token pairs, the sessions of refresh tokens, revocation and presence: the methods of
-- src/modules/auth/auth.service.ts on tokens, over src/shared/jwt.service.ts.
pub mod Issued
pub mod Revocation
use learn_nestjs.Common.{
  ℕ, zero, suc, ◌+◌, ◌-◌, ◌*◌, ◌/◌, ◌%◌, ◌^◌, Bool, true, false, not, ◌&&◌, Option, none, some,
  or_else, List, [], ◌∷◌, ◌++◌, if◌then◌else◌, ltb,
}
use learn_nestjs.Common.Text.{Text, codes, is_empty, to_lower}
use learn_nestjs.Common.Lists.{length, add}
use learn_nestjs.Common.Results.{
  Failure, Exec, ok, err, unauthorized, return, gets, when, modify, ◌>>=◌, ◌>>◌,
}
use learn_nestjs.Redis.Driver.{text, json}
use learn_nestjs.Database.{User, Role, super_admin, admin, manager, user, Permission}
use learn_nestjs.Auth.Keys.{
  refresh_session_key, refresh_session_prefix, refresh_token_key, presence_key, blacklist_key,
  colon,
}
use learn_nestjs.Auth.World.{
  Services, World, AuthContext, session, JwtPayload, Grants, cache_set, cache_del, find_user,
  update_user, random, audit,
}

-- src/shared/jwt.service.ts

pub record TokenPair : Type 0 where
  pub access_token : Text
  pub refresh_token : Text
  pub user_role : Text

-- `String(n)` for an integer of at most `fuel` digits; numbers below 10 ^ 21 are printed whole.
print_from : ℕ → ℕ → Text → Text
print_from zero n acc = acc
print_from (suc fuel) n acc =
    let rest = print_from fuel (n / 10) ((b'0' + n % 10) ∷ acc) in
    if ltb n 10 then (b'0' + n) ∷ acc else rest

unfoldable pub print_number : ℕ → Text
unfolding print_from
print_number n = print_from 21 n []

abbrev pub role_text : Role → Text
role_text super_admin = codes "SUPER_ADMIN"
role_text admin = codes "ADMIN"
role_text manager = codes "MANAGER"
role_text user = codes "USER"

pub record Claims : Type 0 where
  pub user_role : Text
  pub roles : List Text
  pub permissions : List Text

-- The loop over the roles of a user.
unfoldable pub collect_roles : List Text → List (Role × List Permission) → List Text
collect_roles acc [] = acc
collect_roles acc ((r, ps) ∷ gs) = collect_roles (add (to_lower (role_text r)) acc) gs

-- `${action}:${subject}`
abbrev pub permission_text : Permission → Text
permission_text p = colon p.action p.subject

abbrev pub is_named : Permission → Bool
is_named p = not (is_empty p.action) && not (is_empty p.subject)

unfoldable pub collect_permissions : List Text → List Permission → List Text
collect_permissions acc [] = acc
collect_permissions acc (p ∷ ps) =
    collect_permissions (if is_named p then add (permission_text p) acc else acc) ps

unfoldable pub collect_role_permissions : List Text → List (Role × List Permission) → List Text
unfolding collect_permissions
collect_role_permissions acc [] = acc
collect_role_permissions acc ((r, ps) ∷ gs) =
    collect_role_permissions (collect_permissions acc ps) gs

unfoldable pub claims_of : Option User → Grants → Claims
unfolding collect_roles collect_permissions collect_role_permissions
claims_of none granted = record { user_role = codes "USER"; roles = []; permissions = [] }
claims_of (some u) granted = record {
  user_role = role_text u.role;
  roles = collect_roles (to_lower (role_text u.role) ∷ []) granted.roles;
  permissions = collect_permissions (collect_role_permissions [] granted.roles) granted.permissions;
}

-- 7 * 24 * 60 * 60
abbrev pub refresh_ttl_seconds : ℕ
refresh_ttl_seconds = 7 * 24 * 60 * 60

abbrev pub max_of : ℕ → ℕ → ℕ
max_of a b = if ltb a b then b else a

abbrev pub invalid_refresh_token : Failure
invalid_refresh_token = unauthorized "Invalid refresh token"

abbrev pub refresh_token_revoked : Failure
refresh_token_revoked = unauthorized "Refresh token revoked or expired"

module _ (S : Services) where
  -- min + floor(random * (max - min)), in decimal
  unfoldable pub generate_otp_code : ℕ → Exec (World S) Text
  generate_otp_code length = do
    let max = 10 ^ length
    let min = 10 ^ (length - 1)
    drawn ← random S (max - min)
    return (print_number (drawn + min))

  unfoldable pub generate_token_pair : JwtPayload → World S → TokenPair
  generate_token_pair payload w = record {
    access_token = S.sign_access payload w.now;
    refresh_token = S.sign_refresh payload w.now;
    user_role = payload.user_role;
  }

  unfoldable pub build_authorization_claims : Text → World S → Claims
  unfolding claims_of
  build_authorization_claims user_id w =
      claims_of (find_user S user_id w) (S.grants user_id w.app_roles w.user_roles)

  unfoldable pub issue_tokens : Text → Option Text → AuthContext → Exec (World S) TokenPair
  unfolding build_authorization_claims generate_token_pair
  issue_tokens user_id tenant_id ctx = do
    claims ← gets (build_authorization_claims user_id)
    tokens ← gets (
        generate_token_pair (record {
          sub = user_id;
          tenant_id = tenant_id;
          user_role = claims.user_role;
          roles = claims.roles;
          permissions = claims.permissions;
          exp = none;
        }))
    let refresh_hash = S.sha256 tokens.refresh_token
    cache_set S (refresh_session_key user_id refresh_hash)
        (json (
          session (record {
            user_id = user_id;
            tenant_id = tenant_id;
            refresh_token_hash = refresh_hash;
            user_agent = ctx.user_agent;
            ip_address = ctx.ip_address;
          })))
        refresh_ttl_seconds
    cache_set S (refresh_token_key user_id) (text tokens.refresh_token) refresh_ttl_seconds
    return tokens

  unfoldable pub refresh_tokens : Text → AuthContext → Exec (World S) TokenPair
  refresh_tokens refresh_token ctx w = elim (S.verify_refresh refresh_token w.now) [
    | none ↦ (err invalid_refresh_token, w)
    | some payload ↦
        let key = refresh_session_key payload.sub (S.sha256 refresh_token) in
        if not (S.cache.exists key w.cache)
        then (err refresh_token_revoked, w)
        else (do
          tokens ← issue_tokens payload.sub payload.tenant_id ctx
          cache_del S key
          return tokens)
            w
  ]

  unfoldable pub del_each : List Text → S.cache.State → S.cache.State
  del_each [] c = c
  del_each (k ∷ ks) c = del_each ks (S.cache.del k c)

  unfoldable pub revoke_user_sessions : Text → Exec (World S) Unit
  unfolding del_each
  revoke_user_sessions user_id = do
    cache_del S (refresh_token_key user_id)
    session_keys ← gets (λ w. S.cache.keys (refresh_session_prefix user_id ++ codes "*") w.cache)
    modify (λ w. record w { cache = del_each session_keys w.cache })

  unfoldable pub blacklist_access_token : Text → Exec (World S) Unit
  blacklist_access_token token w = elim (S.verify_access token w.now) [
    | none ↦ (ok tt, w)
    | some payload ↦
        cache_set S (blacklist_key (S.sha256 token)) (text (codes "1"))
          (max_of (or_else payload.exp 0 - w.now / 1000) 1) w
  ]

  unfoldable pub touch_presence : Text → Bool → Exec (World S) Unit
  touch_presence user_id true = do
    update_user S user_id (λ u. record u { is_online = true })
    cache_set S (presence_key user_id) (text (codes "true")) 120
  touch_presence user_id false = do
    now ← gets (λ w. w.now)
    update_user S user_id (λ u. record u { is_online = false; last_seen_at = some now })
    cache_del S (presence_key user_id)

  unfoldable pub logout : Text → AuthContext → Exec (World S) Unit
  logout user_id ctx = do
    revoke_user_sessions user_id
    elim ctx.access_token [
      | none ↦ return tt
      | some token ↦ when (not (is_empty token)) (blacklist_access_token token)
    ]
    touch_presence user_id false
    audit S "auth.user.logout" (some user_id) ctx.tenant_id [] ctx
