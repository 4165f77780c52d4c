-- ===== src/Chat/Gateway.antt =====
-- `ChatGateway` of src/modules/chat/chat.gateway.ts: the sockets of the namespace `/chat`, the rooms
-- that they joined and what they are told.
--
-- A room of Socket.IO has the identifier of a conversation. `joined` pairs a socket with a room; the
-- handlers that only write to the log are left out.
pub mod Stale
use learn_nestjs.Common.{
  ◌-◌, Bool, true, false, not, ◌&&◌, Option, none, some, List, [], ◌∷◌, if◌then◌else◌,
}
use learn_nestjs.Common.Text.{Text, text_eq}
use learn_nestjs.Common.Lists.{any, filter}
use learn_nestjs.Common.Results.{Failure, Result, Exec, ok, err}
use learn_nestjs.Chat.World.{Message, Emitted, ChatServices, ChatState}
use learn_nestjs.Chat.Rooms.{is_member}
use learn_nestjs.Chat.Messages.{SendMessageDto, send_message}

pub record Typing : Type 0 where
  pub room_id : Text
  pub user_id : Text
  pub user_name : Option Text
  pub is_typing : Bool
  -- The socket that `client.to` leaves out.
  pub except : Text

pub data Answer : Type 0 where
  room_joined room_left : Text → Answer
  sent : Message → Answer
  not_in_room : Answer
  failed : Failure → Answer

pub record GatewayState (S : ChatServices) : Type 0 where
  pub chat : ChatState S
  pub joined : List (Text × Text)
  pub typing : List Typing

abbrev pub is_pair : Text → Text → Text × Text → Bool
is_pair socket_id room_id (s, r) = text_eq s socket_id && text_eq r room_id

abbrev pub is_except : Option Text → Text → Bool
is_except none socket_id = false
is_except (some s) socket_id = text_eq s socket_id

module _ (S : ChatServices) where
  -- An operation of one of the services, called by the gateway.
  abbrev pub on_chat : {A : Type 0} → Exec (ChatState S) A → Exec (GatewayState S) A
  on_chat m g = let (r, chat) = m g.chat in (r, record g { chat = chat })

  -- Whether an event reaches a socket: `to(roomId).except(socketId)`.
  unfoldable pub reaches : Emitted → Text → GatewayState S → Bool
  unfolding any
  reaches e socket_id g =
      any (is_pair socket_id e.room_id) g.joined && not (is_except e.except socket_id)

  unfoldable pub handle_join_room : Text → Text → Text → GatewayState S → Answer × GatewayState S
  unfolding is_member
  handle_join_room socket_id user_id room_id g =
      if is_member S room_id user_id g.chat
      then (room_joined room_id, record g { joined = (socket_id, room_id) ∷ g.joined })
      else (not_in_room, g)

  unfoldable pub handle_leave_room : Text → Text → GatewayState S → Answer × GatewayState S
  unfolding filter
  handle_leave_room socket_id room_id g = (
    room_left room_id,
    record g { joined = filter (λ p. not (is_pair socket_id room_id p)) g.joined },
  )

  abbrev pub answer_of : Result Message → Answer
  answer_of (ok m) = sent m
  answer_of (err e) = failed e

  unfoldable pub handle_send_message :
      Text → Text → SendMessageDto → GatewayState S → Answer × GatewayState S
  unfolding send_message
  handle_send_message socket_id user_id dto g =
      let (r, h) = on_chat (send_message S user_id dto [] (some socket_id)) g in (answer_of r, h)

  -- `client.to(roomId).emit(SOCKET_EVENTS.TYPING_INDICATOR, ...)`
  abbrev pub tell_typing : Text → Text → Text → Option Text → Bool → GatewayState S → GatewayState S
  tell_typing socket_id user_id room_id user_name is_typing g = record g {
    typing =
        record {
          room_id = room_id;
          user_id = user_id;
          user_name = user_name;
          is_typing = is_typing;
          except = socket_id;
        }
        ∷ g.typing;
  }

  -- Nothing is told of a user that is not found.
  unfoldable pub handle_typing_start : Text → Text → Text → GatewayState S → GatewayState S
  handle_typing_start socket_id user_id room_id g =
      elim (S.users.find_first (λ u. text_eq u.id user_id) g.chat.users) [
        | none ↦ g
        | some u ↦ tell_typing socket_id user_id room_id (some u.full_name) true g
      ]

  unfoldable pub handle_typing_stop : Text → Text → Text → GatewayState S → GatewayState S
  handle_typing_stop socket_id user_id room_id g =
      tell_typing socket_id user_id room_id none false g
