-- ===== src/Sockets/Presence.antt =====
-- What a run of connections and disconnections comes to, and what it reports of presence.
use learn_nestjs.Common.{
  ◌≡◌, ◌↔◌, inl, inr, sym, subst, Bool, true, false, not, Option, none, some, or_else, [],
  if◌then◌else◌, arith, Bool-cases, Option-cases,
}
use learn_nestjs.Common.Text.{Text, is_empty}
use learn_nestjs.Common.Results.{ok}
use learn_nestjs.Redis.Driver.{Client}
use learn_nestjs.Database.{User, Table}
use learn_nestjs.Auth.Users.{truthy}
use learn_nestjs.Common.Maps.{lookup}
use learn_nestjs.Sockets.{
  is_online, PresenceEvent, SocketState, add_socket, remove_socket, connect, disconnect, go_offline,
  get_user_id,
}
use learn_nestjs.Sockets.Agreement.{
  IsConsistent, unconnected, unconnected-IsConsistent, connect-IsConsistent,
  disconnect-IsConsistent, disconnect_online, is_online_lem,
}

module _ (c : Client PresenceEvent) (table : Table (λ (u : User). u.id)) where
  add_socket_connections :
      (u j : Text) (s : SocketState c table)
      → (add_socket c table u j s).1.connections ≡ connect u j s.connections
  unfolding add_socket
  add_socket_connections u j s = ground arith

  pub remove_socket_connections :
      (j : Text) (s : SocketState c table)
      → (remove_socket c table j s).1.connections ≡ (
          let owner = lookup j s.connections.socket_user in
          if truthy owner then disconnect (or_else owner []) j s.connections else s.connections)
  unfolding remove_socket go_offline
  remove_socket_connections j s = ground arith

  -- The states that a run comes to: from no connection, a socket with an identifier that is not in
  -- use connects for a user, or a socket disconnects. Either may fail half-way, in the database.
  pub data Reachable : SocketState c table → Type 0 where
    started : (s : SocketState c table) → s.connections ≡ unconnected → Reachable s
    connected :
        (u j : Text) (s : SocketState c table)
        → Reachable s
        → get_user_id j s.connections ≡ none
        → Reachable (add_socket c table u j s).1
    disconnected :
        (j : Text) (s : SocketState c table) → Reachable s → Reachable (remove_socket c table j s).1

  pub remove_socket-IsConsistent :
      (j : Text) (s : SocketState c table)
      → IsConsistent s.connections
      → IsConsistent (remove_socket c table j s).1.connections
  remove_socket-IsConsistent j s good = elim (Option-cases (lookup j s.connections.socket_user)) [
    | inl missing ↦ subst IsConsistent (ground (arith, remove_socket_connections j s)) good
    | inr (u, found) ↦ elim (Bool-cases (truthy (some u))) [
      | inl named ↦
          subst IsConsistent (ground (arith, remove_socket_connections j s))
            (disconnect-IsConsistent u j s.connections good found)
      | inr unnamed ↦ subst IsConsistent (ground (arith, remove_socket_connections j s)) good
    ]
  ]

  -- In every state that a run comes to the two maps agree: a socket stands in the set of a user
  -- exactly when it is the socket of that user, and no set is empty.
  pub Reachable-IsConsistent : (s : SocketState c table) → Reachable s → IsConsistent s.connections
  unfolding get_user_id
  Reachable-IsConsistent s (started r start) =
      subst IsConsistent (sym start) unconnected-IsConsistent
  Reachable-IsConsistent s (connected u j r run fresh) =
      subst IsConsistent (sym (add_socket_connections u j r))
        (connect-IsConsistent u j r.connections (Reachable-IsConsistent r run) fresh)
  Reachable-IsConsistent s (disconnected j r run) =
      remove_socket-IsConsistent j r (Reachable-IsConsistent r run)

  -- In every state that a run comes to `isOnline` holds of a user exactly when `getUserId` answers
  -- the user for some socket.
  pub is_online_iff :
      (u : Text) (s : SocketState c table)
      → Reachable s
      → (is_online u s.connections ≡ true) ↔ ((j : Text) × (get_user_id j s.connections ≡ some u))
  is_online_iff u s run = is_online_lem u s.connections (Reachable-IsConsistent s run)

  -- `removeSocket`, where it returns, answers the user of the socket, and `becameOffline` exactly
  -- when that user is offline afterwards.
  pub remove_socket_reports :
      (u j : Text) (s t : SocketState c table) (answer : Option Text × Bool)
      → Reachable s
      → get_user_id j s.connections ≡ some u
      → is_empty u ≡ false
      → remove_socket c table j s ≡ (ok answer, t)
      → (answer.0 ≡ some u) × (answer.1 ≡ not (is_online u t.connections))
  unfolding remove_socket go_offline
  remove_socket_reports u j s t answer run owned named h = ground (
    arith,
    disconnect_online u j s.connections (Reachable-IsConsistent s run) owned,
    remove_socket_connections j s,
  )
