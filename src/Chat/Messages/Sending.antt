-- ===== src/Chat/Messages/Sending.antt =====
-- What `sendMessage` stores and tells.
use learn_nestjs.Common.{
  ◌≡◌, inl, inr, Bool, true, false, not, ◌||◌, Option, none, is_some, List, [], ◌∷◌, if◌then◌else◌,
  arith, Bool-cases, Option-cases,
}
use learn_nestjs.Common.Text.{Text}
use learn_nestjs.Common.Results.{ok, Result-cases}
use learn_nestjs.Auth.OtpGuards.Limits.{after}
use learn_nestjs.Database.Store.{has}
use learn_nestjs.Storage.{MulterFile, upload_files}
use learn_nestjs.Chat.World.{Message, Emitted, ChatServices, ChatState, member_of}
use learn_nestjs.Chat.Messages.{
  SendMessageDto, Attachment, build_attachments, resolve_message_type, content_of, no_attachments,
  on_files, emit_to_room, create_attachments, create_message, store_message, send_attached,
  send_message,
}

module _ (S : ChatServices) where
  -- What `message.create` with its attachments stores.
  create_message_sound :
      (sender_id : Text) (dto : SendMessageDto) (content : Option Text)
      (attachments : List Attachment) (m : Message) (w w' : ChatState S)
      → create_message S sender_id dto content attachments w ≡ (ok m, w')
      → ((p : Message → Bool) → has S.messages p w'.messages ≡ (p m || has S.messages p w.messages))
        × (m.room_id ≡ dto.room_id)
        × (m.sender_id ≡ sender_id)
        × (w'.events ≡ w.events)
        × (w'.listening ≡ w.listening)
  unfolding create_message
  create_message_sound sender_id dto content attachments m w w' h =
      let make : Text → Message = λ id. record {
        id = id;
        content = content;
        type = resolve_message_type dto.type attachments;
        room_id = dto.room_id;
        sender_id = sender_id;
        reply_to_id = dto.reply_to_id;
        is_deleted = false;
        deleted_at = none;
        created_at = w.now;
      } in
      elim (Option-cases (S.messages.create make w.messages)) [
        | inl refused ↦ absurd (ground arith)
        | inr ((message, messages), made) ↦
            elim (Option-cases (create_attachments S message.id attachments w.attachments)) [
              | inl refused ↦ absurd (ground arith)
              | inr (rows, stored) ↦
                  let same : message ≡ m = ground arith in
                  let (id, shape) = S.messages.create_made make message w.messages messages made in
                  (
                    λ p.
                        ground
                          (arith, S.messages.any-create make message w.messages messages p made),
                    ground (arith, shape),
                    ground (arith, shape),
                    ground arith,
                    ground arith,
                  )
            ]
      ]

  -- What is sent to the room of a message, where there is a server.
  abbrev pub told : Text → Text → Option Text → ChatState S → List Emitted
  told room_id message_id except w =
      if w.listening
      then record {
        room_id = room_id;
        event = "message:new";
        message_id = message_id;
        except = except;
      }
        ∷ w.events
      else w.events

  -- Where the message is stored, the room is told of it.
  store_message_sound :
      (sender_id : Text) (dto : SendMessageDto) (content : Option Text)
      (attachments : List Attachment) (except : Option Text) (m : Message) (w w' : ChatState S)
      → store_message S sender_id dto content attachments except w ≡ (ok m, w')
      → ((p : Message → Bool) → has S.messages p w'.messages ≡ (p m || has S.messages p w.messages))
        × (m.room_id ≡ dto.room_id)
        × (m.sender_id ≡ sender_id)
        × (w'.events ≡ told dto.room_id m.id except w)
  unfolding store_message emit_to_room
  store_message_sound sender_id dto content attachments except m w w' h =
      let (r, made) = create_message S sender_id dto content attachments w in
      elim (Result-cases r) [
        | inr (e, fails) ↦ absurd (ground arith)
        | inl (message, at) ↦
            let same : message ≡ m = ground arith in
            let (stored, room, sender, events, listening) =
              create_message_sound sender_id dto content attachments message w made
                (ground (arith, at)) in
            (
              λ p. ground (arith, stored p),
              ground (arith, room),
              ground (arith, sender),
              ground (arith, events, listening),
            )
      ]

  -- A message that is returned was stored.
  send_attached_stores :
      (sender_id : Text) (dto : SendMessageDto) (attachments : List Attachment)
      (except : Option Text) (m : Message) (w w' : ChatState S)
      → send_attached S sender_id dto attachments except w ≡ (ok m, w')
      → store_message S sender_id dto (content_of dto.content) attachments except w ≡ (ok m, w')
  unfolding send_attached
  send_attached_stores sender_id dto attachments except m w w' h =
      let content = content_of dto.content in
      elim (Bool-cases (is_some content || not (no_attachments attachments))) [
        | inr empty ↦ absurd (ground arith)
        | inl given ↦
            let (r, after) = store_message S sender_id dto content attachments except w in
            elim (Result-cases r) [
              | inr (e, fails) ↦ absurd (ground arith)
              | inl (message, stored) ↦ ground arith
            ]
      ]

  -- Where `sendMessage` returns a message, the sender is a member of the room that the message is for;
  -- the messages are the stored ones and this one, which has that room and sender; and if there is a
  -- server, one `message:new` with its identifier went to that room, otherwise nothing was sent.
  pub send_message_sound :
      (sender_id : Text) (dto : SendMessageDto) (files : List MulterFile) (except : Option Text)
      (m : Message) (w w' : ChatState S)
      → send_message S sender_id dto files except w ≡ (ok m, w')
      → (has S.members (member_of dto.room_id sender_id) w.members ≡ true)
        × (m.room_id ≡ dto.room_id)
        × (m.sender_id ≡ sender_id)
        × ((p : Message → Bool)
            → has S.messages p w'.messages ≡ (p m || has S.messages p w.messages))
        × (w'.events ≡ told dto.room_id m.id except w)
  unfolding send_message send_attached
  send_message_sound sender_id dto files except m w w' h =
      elim (Bool-cases
        (is_some (S.members.find_first (member_of dto.room_id sender_id) w.members))) [
          | inr outside ↦ absurd (ground arith)
          | inl inside ↦
              let (uploads, after) = on_files S (upload_files S.storage files []) w in
              elim (Result-cases uploads) [
                | inr (e, fails) ↦ absurd (ground arith)
                | inl (uploaded_files, uploaded) ↦
                    let attachments = build_attachments dto.attachments uploaded_files in
                    let (stored, room, sender, events) =
                      store_message_sound sender_id dto (content_of dto.content) attachments except
                        m after w'
                        (send_attached_stores sender_id dto attachments except m after w'
                          (ground arith)) in
                    (
                      ground (
                        arith,
                        S.members.is_some-find_first (member_of dto.room_id sender_id) w.members,
                      ),
                      room,
                      sender,
                      stored,
                      events,
                    )
              ]
        ]
