-- ===== src/Samples/Handshakes.antt =====
-- The theorems on the sockets of the adapter and on the end of a session applied at concrete inputs.
use learn_nestjs.Common.{◌≡◌, refl, true, false, none, some, [], ◌∷◌}
use learn_nestjs.Common.Text.{Text, codes}
use learn_nestjs.Common.Results.{is_ok}
use learn_nestjs.Redis.Driver.{Client}
use learn_nestjs.Database.{User}
use learn_nestjs.Auth.World.{JwtPayload}
use learn_nestjs.Auth.Tokens.{logout}
use learn_nestjs.Guards.{auth_guard}
use learn_nestjs.Samples.Models.{runs}
use learn_nestjs.Samples.World.{ann, ann_id, servers, world, from_tenant}
use learn_nestjs.Samples.Servers.{small_client}
use learn_nestjs.Sockets.{is_online, PresenceEvent, add_socket, remove_socket, connect}
use learn_nestjs.Adapter.{
  SocketHandshake, revoked, rejected, without_bearer, handshake_token, access_token_of,
  admit_payload, check_access, authenticate_socket, AdapterState, handle_socket_connected,
}
use learn_nestjs.Sockets.Agreement.{
  IsConsistent, unconnected, unconnected-IsConsistent, connect-IsConsistent,
}
use learn_nestjs.Adapter.Entrance.{with_auth_token, is_admitted, authenticate_socket-check_token}
use learn_nestjs.Adapter.Revocation.{logout-authenticate_socket}
use learn_nestjs.Adapter.Offline.{was_told_offline}
use learn_nestjs.Adapter.Drained.{close_all, goes_offline}
use learn_nestjs.Endpoints.{Incoming, bearer_token, guarded, post_logout}
use learn_nestjs.Endpoints.Exit.{post_logout_admits}

-- What the handshakes compute with.
unfoldable handshakes : Unit {0}
unfolding runs without_bearer handshake_token access_token_of admit_payload check_access
    authenticate_socket
handshakes = tt

abbrev events : Client PresenceEvent
events = small_client

abbrev ann_payload : JwtPayload
ann_payload = record {
  sub = ann_id;
  tenant_id = some (codes "t1");
  user_role = codes "USER";
  roles = [];
  permissions = [];
  exp = none;
}

authenticate_socket-check_token_example :
    is_admitted (authenticate_socket servers (with_auth_token (codes "au1")) world) ≡ true
unfolding handshakes
authenticate_socket-check_token_example =
    authenticate_socket-check_token servers (codes "au1") ann_payload world refl refl refl refl

-- A handshake by the header.
abbrev by_header : SocketHandshake
by_header = record {
  auth_token = none;
  authorization = some (codes "Bearer au1 ");
  token_header = none;
}

logout-authenticate_socket_example :
    authenticate_socket servers by_header
      (logout servers ann_id (record from_tenant { access_token = some (codes "au1") }) world).1
    ≡ rejected revoked
unfolding handshakes
logout-authenticate_socket_example =
    logout-authenticate_socket servers ann_id (codes "au1") by_header ann_payload
      (record from_tenant { access_token = some (codes "au1") }) world refl refl refl refl

-- One socket of the account, after none.
abbrev before : AdapterState events servers.users
before = record {
  sockets = record {
    connections = unconnected;
    users = world.users;
    redis = record { connected = true; memory = []; remote = [] };
    now = 1000000;
  };
  told = [];
}

abbrev k1 : Text
k1 = codes "k1"

abbrev one_socket : AdapterState events servers.users
one_socket = handle_socket_connected events servers.users (some ann_id) k1 before

unfoldable losses : Unit {0}
unfolding runs add_socket remove_socket handle_socket_connected is_online connect
losses = tt

one_socket-IsConsistent : IsConsistent one_socket.sockets.connections
unfolding losses
one_socket-IsConsistent = connect-IsConsistent ann_id k1 unconnected unconnected-IsConsistent refl

goes_offline_example :
    (is_online ann_id (close_all events servers.users (k1 ∷ []) one_socket).sockets.connections
      ≡ false)
    × ((r : User) × (servers.users.find_unique ann_id
            (close_all events servers.users (k1 ∷ []) one_socket).sockets.users
          ≡ some r)
        × (r.is_online ≡ false))
    × (was_told_offline ann_id (close_all events servers.users (k1 ∷ []) one_socket).told ≡ true)
unfolding losses
goes_offline_example =
    goes_offline events servers.users ann_id (k1 ∷ []) (record ann { is_online = true }) one_socket
      one_socket-IsConsistent refl refl refl (λ i h. h)

-- A request that gives the token of the account in a cookie.
abbrev by_cookie : Incoming
by_cookie = record {
  authorization = none;
  access_cookie = some (codes "au1");
  tenant_header = none;
  domain_header = none;
  user_agent = none;
  ip = none;
}

post_logout_admits_example :
    is_ok
      (auth_guard servers false none (some (codes "au1")) (post_logout servers by_cookie world).1)
    ≡ true
unfolding runs bearer_token guarded post_logout
post_logout_admits_example =
    post_logout_admits servers by_cookie
      (record { id = ann_id; role = some (codes "USER"); roles = []; permissions = [] }) world refl
      refl
