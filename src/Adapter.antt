-- ===== src/Adapter.antt =====
-- `SocketIoAdapter` of src/socket/socket.adapter.ts: which sockets are let in, and what follows their
-- connection and disconnection.
--
-- A request of a socket comes as its handshake. The options of the server, the namespaces and the
-- log are left out: every namespace is set up alike.
pub mod Entrance
pub mod Revocation
pub mod Offline
pub mod Drained
use learn_nestjs.Common.{
  ℕ, ◌-◌, ◌/◌, Bool, true, false, not, ◌&&◌, Option, none, some, or_else, or_option, List, [], ◌∷◌,
  if◌then◌else◌,
}
use learn_nestjs.Common.Text.{Text, codes, is_empty, trim, starts_with, drop}
use learn_nestjs.Common.Results.{Result, ok, err}
use learn_nestjs.Redis.Driver.{strings, Client}
use learn_nestjs.Database.{User, Table}
use learn_nestjs.Auth.Keys.{blacklist_key}
use learn_nestjs.Auth.World.{Services, World, JwtPayload}
use learn_nestjs.Auth.Users.{truthy}
use learn_nestjs.Auth.Otp.{verified}
use learn_nestjs.Guards.{Field, string, other}
use learn_nestjs.Chat.Messages.Sending.{told}
use learn_nestjs.Sockets.{
  PresenceEvent, SocketState, user_online, user_offline, add_socket, remove_socket,
}

-- What a client sends with its connection. The values of `auth` and of headers other than
-- `authorization` need not be strings.
pub record SocketHandshake : Type 0 where
  pub auth_token : Option Field
  pub authorization : Option Text
  pub token_header : Option Field

pub record SocketData : Type 0 where
  pub user_id : Text
  pub tenant_id : Option Text
  pub roles : List Text
  pub permissions : List Text

-- The errors that `next` is called with.
pub data HandshakeError : Type 0 where
  token_missing revoked invalid_payload not_authorized : HandshakeError

pub data Admission : Type 0 where
  admitted : SocketData → Admission
  rejected : HandshakeError → Admission

-- `s.replace('Bearer ', '')`: the first occurrence goes.
unfoldable pub without_bearer : Text → Text
unfolding starts_with drop
without_bearer [] = []
without_bearer (x ∷ s) =
    let rest = without_bearer s in
    if starts_with (x ∷ s) (codes "Bearer ") then drop 7 (x ∷ s) else x ∷ rest

abbrev pub header_field : Option Text → Option Field
header_field none = none
header_field (some header) = some (string (without_bearer header))

unfoldable pub handshake_token : SocketHandshake → Option Field
unfolding without_bearer
handshake_token h = or_option h.auth_token (or_option (header_field h.authorization) h.token_header)

-- The text of a token that is a string with more than white space.
unfoldable pub access_token_of : Option Field → Option Text
unfolding trim
access_token_of none = none
access_token_of (some other) = none
access_token_of (some (string s)) = if is_empty (trim s) then none else some (trim s)

module _ (S : Services) where
  -- `authenticateSocket` from where the token verified.
  unfoldable pub admit_payload : Text → JwtPayload → World S → Admission
  admit_payload token payload w =
      if S.cache.exists (blacklist_key (S.sha256 token)) w.cache
      then rejected revoked
      else if is_empty payload.sub
      then rejected invalid_payload
      else admitted (record {
        user_id = payload.sub;
        tenant_id = payload.tenant_id;
        roles = payload.roles;
        permissions = payload.permissions;
      })

  unfoldable pub check_access : Text → World S → Admission
  unfolding admit_payload
  check_access token w = elim (S.verify_access token w.now) [
    | none ↦ rejected not_authorized
    | some payload ↦ admit_payload token payload w
  ]

  unfoldable pub authenticate_socket : SocketHandshake → World S → Admission
  unfolding check_access access_token_of handshake_token
  authenticate_socket h w = elim (access_token_of (handshake_token h)) [
    | none ↦ rejected token_missing
    | some token ↦ check_access token w
  ]

module _ (c : Client PresenceEvent) (table : Table (λ (u : User). u.id)) where
  -- The sockets, and what the namespace `/presence` was told.
  pub record AdapterState : Type 0 where
    pub sockets : SocketState c table
    pub told : List PresenceEvent

  abbrev pub tell : Bool → (ℕ → PresenceEvent) → AdapterState → AdapterState
  tell true event s = record s { told = event s.sockets.now ∷ s.told }
  tell false event s = s

  -- What a connection ends with: an exception is logged.
  abbrev pub told_online : Text → Text → Result Bool → AdapterState → AdapterState
  told_online user_id socket_id (ok became_online) s =
      tell became_online (user_online user_id socket_id) s
  told_online user_id socket_id (err e) s = s

  unfoldable pub handle_socket_connected : Option Text → Text → AdapterState → AdapterState
  unfolding add_socket
  handle_socket_connected user_id socket_id s =
      if not (truthy user_id)
      then s
      else (let (r, sockets) = add_socket c table (or_else user_id []) socket_id s.sockets in
          told_online (or_else user_id []) socket_id r (record s { sockets = sockets }))

  abbrev pub told_offline : Text → Result (Option Text × Bool) → AdapterState → AdapterState
  told_offline socket_id (ok (user_id, became_offline)) s =
      tell (truthy user_id && became_offline) (user_offline (or_else user_id []) socket_id) s
  told_offline socket_id (err e) s = s

  unfoldable pub handle_socket_disconnected : Text → AdapterState → AdapterState
  unfolding remove_socket
  handle_socket_disconnected socket_id s =
      let (r, sockets) = remove_socket c table socket_id s.sockets in
      told_offline socket_id r (record s { sockets = sockets })
