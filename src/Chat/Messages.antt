-- ===== src/Chat/Messages.antt =====
-- `MessageService` of src/modules/message/message.service.ts, with `SocketEmitterService`.
--
-- An answer leaves out what the query includes of the sender, the replies and the reactions.
pub mod Reading
pub mod Receipts
pub mod Deletion
pub mod Sending
use learn_nestjs.Common.{
  ℕ, ◌+◌, ◌-◌, ◌/◌, Bool, true, false, not, ◌&&◌, ◌||◌, Option, none, some, is_some, or_else, List,
  [], ◌∷◌, ◌++◌, map, String, if◌then◌else◌,
}
use learn_nestjs.Common.Text.{Text, codes, text_eq, is_empty, trim, starts_with}
use learn_nestjs.Common.Lists.{any}
use learn_nestjs.Common.Results.{
  Failure, Result, Exec, ok, err, bad_request, forbidden, not_found, database, return, throw, gets,
  unless, modify, ◌>>=◌, ◌>>◌,
}
use learn_nestjs.Database.{user}
use mathlib.Core.List.{reverse}
use learn_nestjs.Common.Maps.{keys}
use learn_nestjs.Database.Store.{has}
use learn_nestjs.Storage.{
  MulterFile, UploadedFile, StorageState, resolve_upload_key, upload_files, delete_files,
}
use learn_nestjs.Chat.World.{
  text, MessageType, image, video, audio, file, system, Message, ReadReceipt, ChatServices,
  ChatState, same_receipt, member_of, not_a_member,
}
use learn_nestjs.Chat.Rooms.Membership.{found}

pub record AttachmentDto : Type 0 where
  pub key : Option Text
  pub url : Text
  pub name : Text
  pub mime_type : Text
  pub size : ℕ
  pub width : Option ℕ
  pub height : Option ℕ
  pub duration : Option ℕ

pub record SendMessageDto : Type 0 where
  pub room_id : Text
  pub content : Option Text
  pub type : Option MessageType
  pub reply_to_id : Option Text
  pub attachments : List AttachmentDto

-- An attachment with the key of its file.
pub record Attachment : Type 0 where
  pub key : Text
  pub url : Text
  pub name : Text
  pub mime_type : Text
  pub size : ℕ
  pub width : Option ℕ
  pub height : Option ℕ
  pub duration : Option ℕ

abbrev pub content_required : Failure
content_required = bad_request "Message content or attachments are required"

abbrev pub message_not_found : Failure
message_not_found = not_found "Message not found"

abbrev pub not_the_sender : Failure
not_the_sender = forbidden "Cannot delete others message"

abbrev pub of_dto : AttachmentDto → Attachment
of_dto a = record {
  key = resolve_upload_key (or_else a.key a.url);
  url = a.url;
  name = a.name;
  mime_type = a.mime_type;
  size = a.size;
  width = a.width;
  height = a.height;
  duration = a.duration;
}

abbrev pub of_upload : UploadedFile → Attachment
of_upload f = record {
  key = f.key;
  url = f.url;
  name = f.name;
  mime_type = f.mime_type;
  size = f.size;
  width = none;
  height = none;
  duration = none;
}

unfoldable pub build_attachments : List AttachmentDto → List UploadedFile → List Attachment
build_attachments dto_attachments uploaded_files =
    map of_dto dto_attachments ++ map of_upload uploaded_files

unfoldable pub resolve_media_type : Text → MessageType
unfolding starts_with
resolve_media_type mime_type =
    if starts_with mime_type (codes "image/")
    then image
    else if starts_with mime_type (codes "video/")
    then video
    else if starts_with mime_type (codes "audio/")
    then audio
    else file

abbrev pub same_type : MessageType → MessageType → Bool
same_type text text = true
same_type image image = true
same_type video video = true
same_type audio audio = true
same_type file file = true
same_type system system = true
same_type _ _ = false

-- `new Set(types)`
unfoldable pub unique_types : List MessageType → List MessageType → List MessageType
unfolding any
unique_types acc [] = acc
unique_types acc (t ∷ ts) = unique_types (if any (same_type t) acc then acc else acc ++ t ∷ []) ts

abbrev pub only_type : List MessageType → MessageType
only_type (t ∷ []) = t
only_type _ = file

unfoldable pub resolve_message_type : Option MessageType → List Attachment → MessageType
unfolding unique_types resolve_media_type
resolve_message_type requested [] = or_else requested text
resolve_message_type requested (a ∷ rest) =
    only_type (unique_types [] (map (λ x. resolve_media_type x.mime_type) (a ∷ rest)))

-- `content?.trim() || null`
abbrev pub content_of : Option Text → Option Text
content_of none = none
content_of (some content) = if is_empty (trim content) then none else some (trim content)

abbrev pub no_attachments : List Attachment → Bool
no_attachments [] = true
no_attachments (a ∷ rest) = false

-- The row of the cursor, where one is given.
abbrev pub cursor_row : Option Text → Option (Message → Bool)
cursor_row none = none
cursor_row (some id) = if is_empty id then none else some (λ m. text_eq m.id id)

abbrev pub deleted_message : ℕ → Message → Message
deleted_message now m = record m { is_deleted = true; deleted_at = some now; content = none }

module _ (S : ChatServices) where
  -- A call of `StorageService`.
  abbrev pub on_files : {A : Type 0} → Exec (StorageState S.storage) A → Exec (ChatState S) A
  on_files m w = let (r, files) = m w.files in (r, record w { files = files })

  unfoldable pub cleanup : List Text → ChatState S → ChatState S
  unfolding delete_files
  cleanup keys w = record w { files = delete_files S.storage (map resolve_upload_key keys) w.files }

  -- `emitToRoom` of src/socket/socket-emitter.service.ts
  unfoldable pub emit_to_room : Text → String → Text → Option Text → ChatState S → ChatState S
  emit_to_room room_id event message_id except w =
      if w.listening
      then record w {
        events =
            record { room_id = room_id; event = event; message_id = message_id; except = except }
            ∷ w.events;
      }
      else w

  -- The rows of the attachments that a message is made with.
  unfoldable pub create_attachments :
      Text → List Attachment → S.attachments.State → Option S.attachments.State
  create_attachments message_id [] s = some s
  create_attachments message_id (a ∷ rest) s =
      elim (S.attachments.create
        (λ id. record {
          id = id;
          message_id = message_id;
          url = a.url;
          name = a.name;
          mime_type = a.mime_type;
          size = a.size;
          width = a.width;
          height = a.height;
          duration = a.duration;
        })
        s) [ none ↦ none | some (row, t) ↦ create_attachments message_id rest t ]

  -- `message.create` with its attachments: a refusal undoes all of it.
  unfoldable pub create_message :
      Text → SendMessageDto → Option Text → List Attachment → Exec (ChatState S) Message
  unfolding create_attachments resolve_message_type
  create_message sender_id dto content attachments w =
      elim (S.messages.create
        (λ id. record {
          id = id;
          content = content;
          type = resolve_message_type dto.type attachments;
          room_id = dto.room_id;
          sender_id = sender_id;
          reply_to_id = dto.reply_to_id;
          is_deleted = false;
          deleted_at = none;
          created_at = w.now;
        })
        w.messages) [
          | none ↦ (err (database "P2003"), w)
          | some (message, messages) ↦
              elim (create_attachments message.id attachments w.attachments) [
                | none ↦ (err (database "P2003"), w)
                | some rows ↦ (ok message, record w { messages = messages; attachments = rows })
              ]
        ]

  -- `room.update`: P2025 where there is no such room.
  abbrev pub touch_room : Text → Exec (ChatState S) Unit
  touch_room room_id w =
      if has S.rooms (λ r. text_eq r.id room_id) w.rooms
      then (
        ok tt,
        record w {
          rooms =
              S.rooms.update_many (λ r. text_eq r.id room_id) (λ r. record r { updated_at = w.now })
                w.rooms;
        },
      )
      else (err (database "P2025"), w)

  unfoldable pub store_message :
      Text
      → SendMessageDto
      → Option Text
      → List Attachment
      → Option Text
      → Exec (ChatState S) Message
  unfolding create_message emit_to_room
  store_message sender_id dto content attachments except = do
    message ← create_message sender_id dto content attachments
    touch_room dto.room_id
    modify (emit_to_room dto.room_id "message:new" message.id except)
    return message

  -- `catch (error) { await this.cleanupAttachments(attachments); throw error; }`
  abbrev pub cleaning_up :
      List Attachment → Result Message × ChatState S → Result Message × ChatState S
  cleaning_up attachments (ok message, w) = (ok message, w)
  cleaning_up attachments (err e, w) = (err e, cleanup (map (λ a. a.key) attachments) w)

  unfoldable pub send_attached :
      Text → SendMessageDto → List Attachment → Option Text → Exec (ChatState S) Message
  unfolding store_message cleanup trim
  send_attached sender_id dto attachments except = do
    let content = content_of dto.content
    unless (is_some content || not (no_attachments attachments)) content_required
    λ w. cleaning_up attachments (store_message sender_id dto content attachments except w)

  unfoldable pub send_message :
      Text → SendMessageDto → List MulterFile → Option Text → Exec (ChatState S) Message
  unfolding build_attachments upload_files send_attached
  send_message sender_id dto files except = do
    member ← gets (λ w. S.members.find_first (member_of dto.room_id sender_id) w.members)
    unless (is_some member) not_a_member
    uploaded_files ← on_files (upload_files S.storage files [])
    send_attached sender_id dto (build_attachments dto.attachments uploaded_files) except

  unfoldable pub list_messages :
      Text → Text → Option ℕ → Option Text → Exec (ChatState S) (List Message)
  list_messages room_id user_id limit cursor = do
    member ← gets (λ w. S.members.find_first (member_of room_id user_id) w.members)
    unless (is_some member) not_a_member
    gets (λ w. reverse (
        S.messages.find_page (λ m. text_eq m.room_id room_id && not m.is_deleted)
          (λ m. m.created_at) (some (or_else limit 50)) (cursor_row cursor) w.messages))

  -- `readReceipt.upsert`
  unfoldable pub upsert_receipt : Text → Text → Exec (ChatState S) ReadReceipt
  upsert_receipt message_id user_id w =
      let row : ReadReceipt = record {
        message_id = message_id;
        user_id = user_id;
        read_at = w.now;
      } in
      if has S.receipts (same_receipt row) w.receipts
      then (
        ok row,
        record w {
          receipts =
              S.receipts.update_many (same_receipt row) (λ r. record r { read_at = w.now })
                w.receipts;
        },
      )
      else elim (S.receipts.create (λ id. row) w.receipts) [
        | none ↦ (err (database "P2003"), w)
        | some (made, receipts) ↦ (ok made, record w { receipts = receipts })
      ]

  -- `roomMember.update`: P2025 where the user is no member.
  unfoldable pub touch_member : Option Message → Text → Exec (ChatState S) Unit
  touch_member none user_id w = (ok tt, w)
  touch_member (some message) user_id w =
      if has S.members (member_of message.room_id user_id) w.members
      then (
        ok tt,
        record w {
          members =
              S.members.update_many (member_of message.room_id user_id)
                (λ m. record m { last_read_at = some w.now }) w.members;
        },
      )
      else (err (database "P2025"), w)

  unfoldable pub mark_read : Text → Text → Exec (ChatState S) ReadReceipt
  unfolding upsert_receipt touch_member
  mark_read user_id message_id = do
    receipt ← upsert_receipt message_id user_id
    message ← gets (λ w. S.messages.find_first (λ m. text_eq m.id message_id) w.messages)
    touch_member message user_id
    return receipt

  -- The transaction of `deleteMessage`, and the removal of the files.
  unfoldable pub erase : Text → Exec (ChatState S) Unit
  unfolding cleanup
  erase message_id = do
    attachments ←
        gets (λ w. S.attachments.find_many (λ a. text_eq a.message_id message_id) w.attachments)
    modify (λ w. record w {
      attachments = S.attachments.delete_many (λ a. text_eq a.message_id message_id) w.attachments;
      messages =
          S.messages.update_many (λ m. text_eq m.id message_id) (deleted_message w.now) w.messages;
    })
    modify (cleanup (map (λ a. a.url) attachments))

  unfoldable pub delete_message : Text → Text → Exec (ChatState S) Unit
  unfolding erase
  delete_message user_id message_id w =
      elim (S.messages.find_first (λ m. text_eq m.id message_id) w.messages) [
        | none ↦ (err message_not_found, w)
        | some message ↦
            if text_eq message.sender_id user_id
            then erase message_id w
            else (err not_the_sender, w)
      ]
