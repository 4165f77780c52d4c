-- ===== src/Adapter/Revocation.antt =====
-- Sockets after a logout.
use learn_nestjs.Common.{◌≡◌, true, false, some, is_some, arith}
use learn_nestjs.Common.Text.{Text, is_empty}
use learn_nestjs.Auth.Keys.{blacklist_key}
use learn_nestjs.Auth.World.{Services, World, AuthContext, JwtPayload, cache_get}
use learn_nestjs.Auth.Tokens.{logout}
use learn_nestjs.Adapter.{
  SocketHandshake, revoked, rejected, handshake_token, access_token_of, admit_payload, check_access,
  authenticate_socket,
}
use learn_nestjs.Guards.Logout.{logout_lists}

module _ (S : Services) where
  -- A handshake with a revoked token.
  check_access_revoked :
      (token : Text) (payload : JwtPayload) (w : World S)
      → S.verify_access token w.now ≡ some payload
      → is_some (cache_get S (blacklist_key (S.sha256 token)) w) ≡ true
      → check_access S token w ≡ rejected revoked
  unfolding check_access admit_payload
  check_access_revoked token payload w signed listed =
      ground (arith, S.cache.exists-get (blacklist_key (S.sha256 token)) w.cache)

  -- After a `logout` with an access token that verifies, no handshake whose token is that one, up to
  -- white space around it, lets a socket in, for as long as Redis keeps the entry.
  pub logout-authenticate_socket :
      (u token : Text) (h : SocketHandshake) (payload : JwtPayload) (ctx : AuthContext)
      (w : World S)
      → ctx.access_token ≡ some token
      → is_empty token ≡ false
      → S.verify_access token w.now ≡ some payload
      → access_token_of (handshake_token h) ≡ some token
      → authenticate_socket S h (logout S u ctx w).1 ≡ rejected revoked
  unfolding authenticate_socket
  logout-authenticate_socket u token h payload ctx w given filled signed sent =
      let (listed, at) = logout_lists S u token payload ctx w given filled signed in
      let after : World S = (logout S u ctx w).1 in
      let refused : check_access S token after ≡ rejected revoked =
        check_access_revoked token payload after (ground arith) listed in
      ground arith
