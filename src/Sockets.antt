-- ===== src/Sockets.antt =====
-- The connections of src/socket/socket-state.service.ts: which sockets a user has and which user a
-- socket has, with what a change of presence writes to the database and to Redis.
--
-- A set of socket identifiers is a list in insertion order.
pub mod Agreement
pub mod Presence
pub mod Interleaving
pub mod Settling
pub mod Overtaking
use learn_nestjs.Redis
use learn_nestjs.Common.{
  ℕ, ◌-◌, Bool, true, false, not, Option, none, some, or_else, List, [], ◌∷◌, map, if◌then◌else◌,
  ◌==◌,
}
use learn_nestjs.Common.Text.{Text, codes, text_eq}
use learn_nestjs.Common.Lists.{filter, add}
use learn_nestjs.Common.Results.{Exec, ok, err, database, return, gets, when, modify, ◌>>=◌, ◌>>◌}
use learn_nestjs.Redis.Driver.{text, Client}
use learn_nestjs.Database.{User, user, Table}
use learn_nestjs.Auth.Keys.{presence_key}
use learn_nestjs.Auth.Users.{truthy}
use learn_nestjs.Auth.OtpGuards.Limits.{after}
use learn_nestjs.Common.Maps.{Map, lookup, insert, remove}
use learn_nestjs.Redis.{Service}

pub record Connections : Type 0 where
  pub user_sockets : Map (List Text)
  pub socket_user : Map Text

-- The events on the channel `presence.events`.
pub data PresenceEvent : Type 0 where
  user_online user_offline : (user_id : Text) → (socket_id : Text) → (at : ℕ) → PresenceEvent

abbrev pub sockets_of : Text → Connections → List Text
sockets_of user_id s = or_else (lookup user_id s.user_sockets) []

-- `sockets.size === 0`
abbrev pub is_nil : List Text → Bool
is_nil [] = true
is_nil (x ∷ xs) = false

unfoldable pub is_online : Text → Connections → Bool
is_online user_id s = not (is_nil (sockets_of user_id s))

unfoldable pub get_user_id : Text → Connections → Option Text
get_user_id socket_id s = lookup socket_id s.socket_user

unfoldable pub filter_online_users : List Text → Connections → List Text
unfolding is_online
filter_online_users user_ids s = filter (λ id. is_online id s) user_ids

-- The maps after a connection.
unfoldable pub connect : Text → Text → Connections → Connections
connect user_id socket_id s = record {
  user_sockets = insert user_id (add socket_id (sockets_of user_id s)) s.user_sockets;
  socket_user = insert socket_id user_id s.socket_user;
}

-- The sockets of the user that are left after a disconnection, if the user has an entry.
unfoldable pub left_after : Text → Text → Connections → Option (List Text)
left_after user_id socket_id s = elim (lookup user_id s.user_sockets) [
  | none ↦ none
  | some ids ↦ some (filter (λ id. not (text_eq id socket_id)) ids)
]

-- The map of the users after a disconnection: an entry that gets empty is deleted.
unfoldable pub store_left : Text → Option (List Text) → Map (List Text) → Map (List Text)
store_left user_id none m = m
store_left user_id (some []) m = remove user_id m
store_left user_id (some (id ∷ ids)) m = insert user_id (id ∷ ids) m

abbrev pub became_empty : Option (List Text) → Bool
became_empty none = false
became_empty (some ids) = is_nil ids

unfoldable pub disconnect : Text → Text → Connections → Connections
unfolding left_after store_left
disconnect user_id socket_id s = record {
  user_sockets = store_left user_id (left_after user_id socket_id s) s.user_sockets;
  socket_user = remove socket_id s.socket_user;
}

module _ (c : Client PresenceEvent) (table : Table (λ (u : User). u.id)) where
  pub record SocketState : Type 0 where
    pub connections : Connections
    pub users : table.State
    pub redis : Service c
    pub now : ℕ

  -- `prisma.user.update`: P2025 where there is no such row.
  abbrev pub update_presence : Text → (User → User) → Exec SocketState Unit
  update_presence id f s = elim (table.find_unique id s.users) [
    | none ↦ (err (database "P2025"), s)
    | some u ↦ (ok tt, record s { users = table.update id f s.users })
  ]

  abbrev pub publish_event : (ℕ → PresenceEvent) → Exec SocketState Unit
  publish_event event s = (
    ok tt,
    record s { redis = Redis.publish_json c (codes "presence.events") (event s.now) s.redis },
  )

  -- The answer is `becameOnline`.
  unfoldable pub add_socket : Text → Text → Exec SocketState Bool
  add_socket user_id socket_id = do
    became_online ← gets (λ s. is_nil (sockets_of user_id s.connections))
    modify (λ s. record s { connections = connect user_id socket_id s.connections })
    when became_online
        (update_presence user_id (λ u. record u { is_online = true; last_seen_at = none }))
    modify (λ s. record s {
      redis = Redis.set c (presence_key user_id) (text (codes "true")) 120 s.redis;
    })
    when became_online (publish_event (user_online user_id socket_id))
    return became_online

  -- What follows the loss of the last socket.
  unfoldable pub go_offline : Text → Text → Exec SocketState Unit
  go_offline user_id socket_id = do
    now ← gets (λ (s : SocketState). s.now)
    update_presence user_id (λ u. record u { is_online = false; last_seen_at = some now })
    modify (λ s. record s { redis = Redis.del c (presence_key user_id) s.redis })
    publish_event (user_offline user_id socket_id)

  -- The answer is the user and `becameOffline`.
  unfoldable pub remove_socket : Text → Exec SocketState (Option Text × Bool)
  unfolding get_user_id left_after
  remove_socket socket_id s =
      let owner = get_user_id socket_id s.connections in
      if not (truthy owner)
      then (ok (none, false), s)
      else (do
        let user_id = or_else owner []
        let became_offline = became_empty (left_after user_id socket_id s.connections)
        modify (λ t. record t { connections = disconnect user_id socket_id t.connections })
        when became_offline (go_offline user_id socket_id)
        return (owner, became_offline))
          s
