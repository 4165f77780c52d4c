-- ===== src/PresenceGateway.antt =====
-- `PresenceGateway` of src/modules/presence/presence.gateway.ts, on the messages of the channel
-- `presence.events` and on the sockets of the namespace `/presence`.
pub mod Heartbeats
use learn_nestjs.Redis
use learn_nestjs.Common.{ℕ, ◌-◌, Option, none, some, or_else, List, [], ◌∷◌, if◌then◌else◌}
use learn_nestjs.Common.Text.{Text, is_empty}
use learn_nestjs.Common.Results.{Exec, ok, err}
use learn_nestjs.Redis.Driver.{Client}
use learn_nestjs.Auth.Keys.{presence_key}
use learn_nestjs.Guards.{ws_auth_guard}
use learn_nestjs.Sockets.{PresenceEvent}
use learn_nestjs.Http.{object}
use learn_nestjs.Redis.{Service}

-- A message of the channel: the events of the sockets, another object, or no JSON.
pub data ChannelMessage : Type 0 where
  presence : PresenceEvent → ChannelMessage
  another invalid : ChannelMessage

-- What a client of the namespace hears; an update goes to the room of a user only.
pub data Heard : Type 0 where
  to_all : PresenceEvent → Heard
  update_to_all : Heard
  update_to_room : (user_id : Text) → (at : ℕ) → Heard

module _ (c : Client PresenceEvent) where
  -- `rooms` has the sockets with the user in whose room they are.
  pub record PresenceState : Type 0 where
    pub redis : Service c
    pub rooms : List (Text × Text)
    pub heard : List Heard
    pub now : ℕ

  -- The handler of the channel.
  unfoldable pub on_channel_message : ChannelMessage → PresenceState → PresenceState
  on_channel_message (presence e) s = record s { heard = to_all e ∷ s.heard }
  on_channel_message another s = record s { heard = update_to_all ∷ s.heard }
  on_channel_message invalid s = s

  unfoldable pub handle_connection : Option Text → Text → PresenceState → PresenceState
  handle_connection none socket_id s = s
  handle_connection (some user_id) socket_id s =
      if is_empty user_id then s else record s { rooms = (socket_id, user_id) ∷ s.rooms }

  -- An exception of Redis is swallowed.
  abbrev pub beat : Text → PresenceState → PresenceState
  beat user_id s = record s {
    redis = Redis.expire c (presence_key user_id) 120 s.redis;
    heard = update_to_room user_id s.now ∷ s.heard;
  }

  -- `handleHeartbeat`, behind `WsAuthGuard`.
  unfoldable pub handle_heartbeat : Option Text → Exec PresenceState Unit
  unfolding ws_auth_guard
  handle_heartbeat user_id s = elim (ws_auth_guard user_id) [
    | err e ↦ (err e, s)
    | ok admitted_one ↦ (ok tt, beat (or_else user_id []) s)
  ]
