-- ===== src/Guards/Logout.antt =====
-- `logout` and `AuthGuard`.
use learn_nestjs.Common.{
  ◌-◌, ◌/◌, ◌≡◌, refl, true, false, Option, some, is_some, or_else, List, [], String, arith,
}
use learn_nestjs.Common.Text.{Text, codes, text_eq, text_eq_refl, is_empty}
use learn_nestjs.Common.Results.{ok, err}
use learn_nestjs.Redis.Driver.{text}
use learn_nestjs.Auth.Keys.{presence_key, blacklist_key}
use learn_nestjs.Auth.World.{Services, World, AuthContext, JwtPayload, cache_get, audit}
use learn_nestjs.Auth.Tokens.{
  revoke_user_sessions, blacklist_access_token, touch_presence, logout, max_of,
}
use learn_nestjs.Auth.Tokens.Revocation.{revoke_user_sessions_now, revoke_user_sessions_result}
use learn_nestjs.Guards.{token_revoked, check_token}

presence_key-ne-blacklist_key : (u h : Text) → text_eq (presence_key u) (blacklist_key h) ≡ false
unfolding presence_key blacklist_key text_eq
presence_key-ne-blacklist_key u h = refl

module _ (S : Services) where
  check_token_revoked :
      (token : Text) (payload : JwtPayload) (w : World S)
      → S.verify_access token w.now ≡ some payload
      → is_some (cache_get S (blacklist_key (S.sha256 token)) w) ≡ true
      → check_token S token w ≡ err token_revoked
  unfolding check_token
  check_token_revoked token payload w signed listed =
      ground (arith, S.cache.exists-get (blacklist_key (S.sha256 token)) w.cache)

  -- What follows the blacklisting in `logout` keeps the entry and the clock.
  touch_presence_keeps :
      (u h : Text) (w : World S)
      → (cache_get S (blacklist_key h) (touch_presence S u false w).1
          ≡ cache_get S (blacklist_key h) w)
        × ((touch_presence S u false w).1.now ≡ w.now)
  unfolding touch_presence
  touch_presence_keeps u h w = ground (
    arith,
    S.cache.get-del (presence_key u) (blacklist_key h) w.cache,
    presence_key-ne-blacklist_key u h,
  )

  audit_keeps :
      (a : String) (u t : Option Text) (d : List (String × Text)) (ctx : AuthContext) (w : World S)
      → ((audit S a u t d ctx w).1.cache ≡ w.cache) × ((audit S a u t d ctx w).1.now ≡ w.now)
  unfolding audit
  audit_keeps a u t d ctx w = ground arith

  blacklist_lem :
      (token : Text) (payload : JwtPayload) (w : World S)
      → S.verify_access token w.now ≡ some payload
      → (is_some (cache_get S (blacklist_key (S.sha256 token)) (blacklist_access_token S token w).1)
          ≡ true)
        × ((blacklist_access_token S token w).1.now ≡ w.now)
        × ((blacklist_access_token S token w).0 ≡ ok tt)
  unfolding blacklist_access_token
  blacklist_lem token payload w signed =
      let key = blacklist_key (S.sha256 token) in
      let life = max_of (or_else payload.exp 0 - w.now / 1000) 1 in
      (
        ground (arith, S.cache.get-set key key (text (codes "1")) life w.cache, text_eq_refl key),
        ground arith,
        ground arith,
      )

  -- A `logout` with an access token that verifies leaves its hash in the blacklist.
  pub logout_lists :
      (u token : Text) (payload : JwtPayload) (ctx : AuthContext) (w : World S)
      → ctx.access_token ≡ some token
      → is_empty token ≡ false
      → S.verify_access token w.now ≡ some payload
      → (is_some (cache_get S (blacklist_key (S.sha256 token)) (logout S u ctx w).1) ≡ true)
        × ((logout S u ctx w).1.now ≡ w.now)
  unfolding logout
  logout_lists u token payload ctx w given filled signed =
      let revoked = (revoke_user_sessions S u w).1 in
      let listed = (blacklist_access_token S token revoked).1 in
      let touched = (touch_presence S u false listed).1 in
      let (held, at, done) =
        blacklist_lem token payload revoked (ground (arith, revoke_user_sessions_now S u w)) in
      let (kept, at_touch) = touch_presence_keeps u (S.sha256 token) listed in
      let (kept', at_audit) =
        audit_keeps "auth.user.logout" (some u) ctx.tenant_id [] ctx touched in
      let final : World S = (logout S u ctx w).1 in
      let same : (final.cache ≡ touched.cache) × (final.now ≡ touched.now) =
        ground (arith, revoke_user_sessions_result S u w) in
      (ground arith, ground (arith, revoke_user_sessions_now S u w))

  -- After a `logout` with an access token that verifies, `AuthGuard` refuses that token for as long
  -- as Redis keeps the entry, even where the logout failed later on.
  pub logout_revokes :
      (u token : Text) (payload : JwtPayload) (ctx : AuthContext) (w : World S)
      → ctx.access_token ≡ some token
      → is_empty token ≡ false
      → S.verify_access token w.now ≡ some payload
      → check_token S token (logout S u ctx w).1 ≡ err token_revoked
  logout_revokes u token payload ctx w given filled signed =
      let (listed, at) = logout_lists u token payload ctx w given filled signed in
      check_token_revoked token payload (logout S u ctx w).1 (ground arith) listed
