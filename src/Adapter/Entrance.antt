-- ===== src/Adapter/Entrance.antt =====
-- The handshake of a socket against `AuthGuard`.
use learn_nestjs.Common.{◌≡◌, Bool, true, false, not, ◌&&◌, ◌||◌, Option, none, some, arith}
use learn_nestjs.Common.Text.{Text, is_empty, trim}
use learn_nestjs.Common.Results.{is_ok}
use learn_nestjs.Database.{User}
use learn_nestjs.Auth.Keys.{blacklist_key}
use learn_nestjs.Auth.World.{Services, World, JwtPayload, find_user}
use learn_nestjs.Auth.Users.{is_banned}
use learn_nestjs.Guards.{string, admit_user, check_token}
use learn_nestjs.Adapter.{
  SocketHandshake, Admission, admitted, rejected, handshake_token, access_token_of, admit_payload,
  check_access, authenticate_socket,
}

-- A handshake that gives a token in `auth`.
abbrev pub with_auth_token : Text → SocketHandshake
with_auth_token token = record {
  auth_token = some (string token);
  authorization = none;
  token_header = none;
}

abbrev pub is_admitted : Admission → Bool
is_admitted (admitted d) = true
is_admitted (rejected e) = false

abbrev pub is_gone_or_banned : Option User → Bool
is_gone_or_banned none = true
is_gone_or_banned (some u) = is_banned u.status

module _ (S : Services) where
  abbrev pub is_listed : Text → World S → Bool
  is_listed token w = S.cache.exists (blacklist_key (S.sha256 token)) w.cache

  -- For an access token that verifies and names an account, and a handshake that gives it with no white
  -- space around: the socket is let in exactly where `AuthGuard` admits the token, or where the
  -- token is not blacklisted and the account is gone or banned.
  pub authenticate_socket-check_token :
      (token : Text) (payload : JwtPayload) (w : World S)
      → S.verify_access token w.now ≡ some payload
      → is_empty token ≡ false
      → trim token ≡ token
      → is_empty payload.sub ≡ false
      → is_admitted (authenticate_socket S (with_auth_token token) w) ≡ (
          is_ok (check_token S token w)
          || (not (is_listed token w) && is_gone_or_banned (find_user S payload.sub w)))
  unfolding authenticate_socket access_token_of handshake_token check_access admit_payload
      check_token admit_user
  authenticate_socket-check_token token payload w signed filled plain named = ground arith
