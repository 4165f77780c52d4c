-- ===== src/Endpoints/Exit.antt =====
-- What is left of an access token after `POST /auth/logout`.
use learn_nestjs.Common.{
  ℕ, ◌≡◌, inl, inr, refl, subst, ◌∙◌, true, false, not, Option, none, some, is_some, arith,
  Option-cases,
}
use learn_nestjs.Common.Text.{Text, text_eq, is_empty, starts_with}
use learn_nestjs.Common.Results.{ok, is_ok}
use learn_nestjs.Redis.Driver.{glob_free}
use learn_nestjs.Database.{User}
use learn_nestjs.Auth.Keys.{refresh_session_prefix, refresh_token_key, presence_key, blacklist_key}
use learn_nestjs.Auth.World.{Services, World, AuthContext, JwtPayload, cache_get, find_user, audit}
use learn_nestjs.Auth.Users.{is_banned}
use learn_nestjs.Auth.Tokens.{revoke_user_sessions, touch_presence, logout}
use learn_nestjs.Auth.Tokens.Revocation.{get-revoke_user_sessions, revoke_user_sessions_result}
use learn_nestjs.Guards.{AuthenticatedUser, extract_token, admit_user, check_token, auth_guard}
use learn_nestjs.Guards.Logout.{logout_revokes}
use learn_nestjs.Endpoints.{Incoming, bearer_token, logout_context, guarded, post_logout}
use learn_nestjs.Guards.Laws.{auth_guard_sound}

module _ (S : Services) where
  -- The routes read the header as `AuthGuard` does, but not the cookie.
  bearer-extract :
      (header cookie : Option Text) (token : Text)
      → bearer_token header ≡ some token
      → extract_token header cookie ≡ some token
  unfolding bearer_token extract_token
  bearer-extract none cookie token h = ground arith
  bearer-extract (some header) cookie token h = ground arith

  foreign_keys :
      (u h : Text)
      → (text_eq (refresh_token_key u) (blacklist_key h) ≡ false)
        × (starts_with (blacklist_key h) (refresh_session_prefix u) ≡ false)
        × (text_eq (presence_key u) (blacklist_key h) ≡ false)
  unfolding refresh_token_key blacklist_key refresh_session_prefix presence_key text_eq starts_with
  foreign_keys u h = (refl, refl, refl)

  -- A `logout` without an access token adds nothing to the blacklist.
  logout_unlisted :
      (u h : Text) (ctx : AuthContext) (w : World S)
      → glob_free (refresh_session_prefix u) ≡ true
      → ctx.access_token ≡ none
      → cache_get S (blacklist_key h) (logout S u ctx w).1 ≡ cache_get S (blacklist_key h) w
  unfolding logout touch_presence audit
  logout_unlisted u h ctx w plain silent =
      let (a, b, c) = foreign_keys u h in
      let revoked = (revoke_user_sessions S u w).1 in
      ground (
        arith,
        revoke_user_sessions_result S u w,
        get-revoke_user_sessions S u (blacklist_key h) w plain,
        S.cache.get-del (presence_key u) (blacklist_key h) revoked.cache,
      )

  -- The account after a `logout`.
  abbrev gone_offline : ℕ → User → User
  gone_offline now u = record u { is_online = false; last_seen_at = some now }

  logout_account :
      (u : Text) (account : User) (ctx : AuthContext) (w : World S)
      → ctx.access_token ≡ none
      → find_user S u w ≡ some account
      → (find_user S u (logout S u ctx w).1 ≡ some (gone_offline w.now account))
        × ((logout S u ctx w).1.now ≡ w.now)
  unfolding logout touch_presence audit revoke_user_sessions
  logout_account u account ctx w silent stands =
      let row = S.users.find_unique-update u (gone_offline w.now) account w.users stands refl in
      (ground arith, ground arith)

  -- A token that is still good for a request that came by it.
  still_good :
      (token : Text) (payload : JwtPayload) (account : User) (w : World S)
      → S.verify_access token w.now ≡ some payload
      → cache_get S (blacklist_key (S.sha256 token)) w ≡ none
      → find_user S payload.sub w ≡ some account
      → is_banned account.status ≡ false
      → is_ok (check_token S token w) ≡ true
  unfolding check_token admit_user
  still_good token payload account w signed unlisted stands free =
      ground (arith, S.cache.exists-get (blacklist_key (S.sha256 token)) w.cache)

  -- The request after its own logout.
  abbrev left_world : Incoming → World S → World S
  left_world r w = (post_logout S r w).1

  abbrev log_out : Text → Incoming → World S → World S
  log_out id r w = (logout S id (logout_context r) w).1

  left_world_lem :
      (r : Incoming) (u : AuthenticatedUser) (w : World S)
      → auth_guard S false r.authorization r.access_cookie w ≡ ok (some u)
      → left_world r w ≡ log_out u.id r w
  unfolding post_logout guarded
  left_world_lem r u w h = ground arith

  -- `AuthGuard` on a token that it found.
  guard_checks :
      (header cookie : Option Text) (token : Text) (w : World S)
      → extract_token header cookie ≡ some token
      → is_empty token ≡ false
      → auth_guard S false header cookie w ≡ check_token S token w
  unfolding auth_guard
  guard_checks header cookie token w given filled = ground arith

  given_token :
      (header cookie : Option Text) (token : Text) (u : AuthenticatedUser) (w : World S)
      → extract_token header cookie ≡ some token
      → auth_guard S false header cookie w ≡ ok (some u)
      → is_empty token ≡ false
  unfolding auth_guard
  given_token header cookie token u w given h = ground arith

  -- The request comes by a cookie.
  cookie_stays :
      (r : Incoming) (u : AuthenticatedUser) (w : World S)
      → auth_guard S false r.authorization r.access_cookie w ≡ ok (some u)
      → glob_free (refresh_session_prefix u.id) ≡ true
      → bearer_token r.authorization ≡ none
      → is_ok (auth_guard S false r.authorization r.access_cookie (log_out u.id r w)) ≡ true
  cookie_stays r u w h plain silent =
      let a = auth_guard_sound S false r.authorization r.access_cookie w u h in
      let filled = given_token r.authorization r.access_cookie a.token u w a.given h in
      let own : u.id ≡ a.payload.sub =
        a.same_id ∙ S.users.find_unique_key a.payload.sub a.account w.users a.exists in
      let ctx = logout_context r in
      let (stands, at) = logout_account u.id a.account ctx w silent (ground (arith, a.exists)) in
      let after : World S = log_out u.id r w in
      rw (guard_checks r.authorization r.access_cookie a.token after a.given filled) (
        still_good a.token a.payload (gone_offline w.now a.account) after (ground (arith, a.signed))
          (ground
            (arith, a.not_revoked, logout_unlisted u.id (S.sha256 a.token) ctx w plain silent))
          (ground arith) a.not_banned)

  -- The request comes by the header.
  header_goes :
      (r : Incoming) (u : AuthenticatedUser) (token : Text) (w : World S)
      → auth_guard S false r.authorization r.access_cookie w ≡ ok (some u)
      → bearer_token r.authorization ≡ some token
      → is_ok (auth_guard S false r.authorization r.access_cookie (log_out u.id r w)) ≡ false
  header_goes r u token w h sent =
      let a = auth_guard_sound S false r.authorization r.access_cookie w u h in
      let given = bearer-extract r.authorization r.access_cookie token sent in
      let filled = given_token r.authorization r.access_cookie token u w given h in
      let same : a.token ≡ token = ground (arith, a.given) in
      let ctx = logout_context r in
      let refused =
        logout_revokes S u.id token a.payload ctx w sent filled
          (subst (λ t. S.verify_access t w.now ≡ some a.payload) same a.signed) in
      ground (
        arith,
        guard_checks r.authorization r.access_cookie token (log_out u.id r w) given filled,
        refused,
      )

  -- After the logout of a user without the characters of a pattern in the identifier, the same request
  -- passes `AuthGuard` again exactly where it did not give its token in the header: the token of a
  -- cookie stays good.
  pub post_logout_admits :
      (r : Incoming) (u : AuthenticatedUser) (w : World S)
      → auth_guard S false r.authorization r.access_cookie w ≡ ok (some u)
      → glob_free (refresh_session_prefix u.id) ≡ true
      → is_ok (auth_guard S false r.authorization r.access_cookie (post_logout S r w).1)
        ≡ not (is_some (bearer_token r.authorization))
  post_logout_admits r u w h plain = elim (Option-cases (bearer_token r.authorization)) [
    | inl silent ↦ ground (arith, left_world_lem r u w h, cookie_stays r u w h plain silent)
    | inr (token, sent) ↦ ground (arith, left_world_lem r u w h, header_goes r u token w h sent)
  ]
