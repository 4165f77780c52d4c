-- ===== src/Chat/Gateway/Stale.antt =====
-- The sockets of members who were removed.
use learn_nestjs.Common.{◌≡◌, inl, inr, refl, ap, subst, sym, true, false, some, [], ◌∷◌, arith}
use learn_nestjs.Common.Text.{Text, text_eq, text_eq_refl}
use learn_nestjs.Common.Lists.{any}
use learn_nestjs.Common.Results.{ok, Result-cases}
use learn_nestjs.Chat.World.{Message, Emitted, ChatServices, member_of}
use learn_nestjs.Chat.Rooms.{is_member, remove_member}
use learn_nestjs.Chat.Rooms.Membership.{as_member}
use learn_nestjs.Chat.Rooms.Refinement.{remove_member-depart}
use learn_nestjs.Chat.Messages.{SendMessageDto, send_message}
use learn_nestjs.Chat.Messages.Sending.{send_message_sound}
use learn_nestjs.Chat.Gateway.{
  GatewayState, room_joined, sent, is_pair, on_chat, reaches, handle_join_room, handle_send_message,
}

module _ (S : ChatServices) where
  -- What a removal leaves of the gateway: the user is no member any more, and a socket that was in the
  -- room still is.
  removed_stays :
      (socket_id room_id requester_id user_id : Text) (g g' : GatewayState S)
      → any (is_pair socket_id room_id) g.joined ≡ true
      → on_chat S (remove_member S room_id requester_id user_id) g ≡ (ok tt, g')
      → (is_member S room_id user_id g'.chat ≡ false)
        × (any (is_pair socket_id room_id) g'.joined ≡ true)
  unfolding is_member
  removed_stays socket_id room_id requester_id user_id g g' inside h =
      let removed : remove_member S room_id requester_id user_id g.chat ≡ (ok tt, g'.chat) =
        ap (λ q. (q.0, q.1.chat)) h in
      let (by_admin, departed) =
        remove_member-depart S room_id requester_id user_id g.chat g'.chat removed in
      let same : g.joined ≡ g'.joined = ap (λ q. q.1.joined) h in
      (
        ground (
          arith,
          S.members.is_some-find_first (member_of room_id user_id) g'.chat.members,
          ap (λ v. v as_member room_id user_id) departed,
          text_eq_refl room_id,
          text_eq_refl user_id,
        ),
        rw (← same) inside,
      )

  -- A message that was sent by a socket was stored and told as by `sendMessage`.
  sent_by_socket :
      (socket_id user_id : Text) (dto : SendMessageDto) (m : Message) (g g' : GatewayState S)
      → handle_send_message S socket_id user_id dto g ≡ (sent m, g')
      → (send_message S user_id dto [] (some socket_id) g.chat ≡ (ok m, g'.chat))
        × (g.joined ≡ g'.joined)
  unfolding handle_send_message
  sent_by_socket socket_id user_id dto m g g' h =
      let r = send_message S user_id dto [] (some socket_id) g.chat in
      elim (Result-cases r.0) [
        | inl (made, e) ↦ ground (arith, e)
        | inr (failure, e) ↦ absurd (ground (arith, e))
      ]

  -- A user joins a conversation with a socket, then is removed from it, and then another user sends a
  -- message to it from another socket, where the server of the sockets is up. The one who joined was a
  -- member at the time, and is none after the removal; yet the event of the message, the one that is
  -- sent last, reaches the socket.
  pub remove_member-handle_send_message :
      (socket_id user_id room_id requester_id other_socket other_id : Text) (dto : SendMessageDto)
      (m : Message) (g g1 g2 g3 : GatewayState S)
      → handle_join_room S socket_id user_id room_id g ≡ (room_joined room_id, g1)
      → on_chat S (remove_member S room_id requester_id user_id) g1 ≡ (ok tt, g2)
      → handle_send_message S other_socket other_id dto g2 ≡ (sent m, g3)
      → dto.room_id ≡ room_id
      → text_eq other_socket socket_id ≡ false
      → g2.chat.listening ≡ true
      → (is_member S room_id user_id g.chat ≡ true)
        × (is_member S room_id user_id g2.chat ≡ false)
        × (e : Emitted) × (g3.chat.events ≡ e ∷ g2.chat.events)
        × (e.message_id ≡ m.id)
        × (reaches S e socket_id g3 ≡ true)
  unfolding handle_join_room reaches
  remove_member-handle_send_message socket_id user_id room_id requester_id other_socket other_id dto
        m g g1 g2 g3 joins removes sends to_room apart up =
      let was : is_member S room_id user_id g.chat ≡ true = ground arith in
      let joined : g1.joined ≡ (socket_id, room_id) ∷ g.joined = ground arith in
      let inside : any (is_pair socket_id room_id) g1.joined ≡ true =
        subst (λ ps. any (is_pair socket_id room_id) ps ≡ true) (sym joined)
          (ground (arith, text_eq_refl socket_id, text_eq_refl room_id)) in
      let (out, stays) =
        removed_stays socket_id room_id requester_id user_id g1 g2 inside removes in
      let (delivered, same) = sent_by_socket other_socket other_id dto m g2 g3 sends in
      let (by_member, to_its_room, by_sender, stored, events) =
        send_message_sound S other_id dto [] (some other_socket) m g2.chat g3.chat delivered in
      let e : Emitted = record {
        room_id = dto.room_id;
        event = "message:new";
        message_id = m.id;
        except = some other_socket;
      } in
      let there : any (is_pair socket_id dto.room_id) g3.joined ≡ true =
        rw (to_room, ← same) stays in
      (was, out, e, ground (arith, events, up), refl, ground (arith, there, apart))
