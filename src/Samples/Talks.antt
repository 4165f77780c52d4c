-- ===== src/Samples/Talks.antt =====
-- The theorems on rooms, messages and uploads applied at concrete inputs.
use learn_nestjs.Common.{
  ◌≤◌, ◌≡◌, refl, Bool, true, false, not, ◌&&◌, ◌||◌, none, some, [], ◌∷◌, if◌then◌else◌,
}
use learn_nestjs.Common.Text.{Text, codes, text_eq}
use learn_nestjs.Common.Lists.{length, every, contains}
use learn_nestjs.Common.Results.{ok, err, database}
use learn_nestjs.Redis.Driver.{text}
use learn_nestjs.Database.Store.{has, descending}
use learn_nestjs.Storage.{
  UploadedFile, get_category, resolve_upload_key, normalize_key, upload_to_local, validate_file,
  upload_file, upload_files, delete_file, delete_files, strip_host, strip_slashes, strip_uploads,
  drop_host,
}
use learn_nestjs.Chat.World.{Room, Message, same_receipt, member_of, text}
use learn_nestjs.Chat.Rooms.{
  create_each, create_room, found_room, find_direct, open_direct, create_conversation,
  get_conversation, assert_group_admin, insert_members, add_members, remove_member,
  leave_conversation,
}
use learn_nestjs.Chat.Rooms.Membership.{as_admin, join, depart, found, rolls}
use learn_nestjs.Chat.Messages.{
  build_attachments, resolve_media_type, unique_types, resolve_message_type, cleanup, emit_to_room,
  create_attachments, create_message, store_message, send_attached, send_message, list_messages,
  upsert_receipt, mark_read, deleted_message, erase, delete_message,
}
use learn_nestjs.Samples.Tables.{page, make_row, add_each}
use learn_nestjs.Samples.Stores.{put_in, sort, front, taken, behind, after_cursor}
use learn_nestjs.Samples.Halls.{
  hall, chat, small_storage, hello, letter, png, group_of, direct_with,
}
use learn_nestjs.Chat.Rooms.Refinement.{add_members-join, remove_member-depart}
use learn_nestjs.Chat.Rooms.Founding.{create_conversation-found, create_conversation_reuses}
use learn_nestjs.Chat.Messages.Reading.{list_messages_sound, ascending}
use learn_nestjs.Chat.Messages.Deletion.{delete_message_lem, names_file}
use learn_nestjs.Chat.Messages.Sending.{send_message_sound, told}
use learn_nestjs.Storage.Uploads.{delete_file-upload_file}
use learn_nestjs.Samples.Models.{runs}
use learn_nestjs.Chat.Messages.Receipts.{mark_read_outsider, receipt_of}
use learn_nestjs.Common.{◌⊎◌}
use learn_nestjs.Common.Results.{Failure, err}
use learn_nestjs.Chat.Rooms.Founding.{is_open_to}
use learn_nestjs.Chat.World.{Emitted}
use learn_nestjs.Chat.Rooms.{is_member}
use learn_nestjs.Chat.Gateway.{
  GatewayState, on_chat, reaches, handle_join_room, handle_send_message,
}
use learn_nestjs.Chat.Gateway.Stale.{remove_member-handle_send_message}

-- What these runs compute with.
unfoldable halls : Unit {0}
unfolding is_member handle_join_room handle_send_message reaches runs found_room create_room
    create_each open_direct find_direct create_conversation assert_group_admin insert_members
    add_members get_conversation remove_member leave_conversation list_messages descending page
    make_row add_each put_in sort front taken behind after_cursor drop_host strip_host strip_slashes
    strip_uploads resolve_upload_key normalize_key get_category validate_file upload_to_local
    upload_file upload_files delete_file delete_files resolve_media_type unique_types
    resolve_message_type build_attachments cleanup emit_to_room create_attachments create_message
    store_message send_attached send_message erase delete_message
halls = tt

add_members-join_example :
    (rolls chat hall as_admin (codes "g") (codes "a") ≡ true)
    × (rolls chat (add_members chat (codes "g") (codes "a") (codes "c" ∷ []) hall).1
        ≡ join (codes "g") (codes "c" ∷ []) (rolls chat hall))
unfolding halls
add_members-join_example =
    add_members-join chat (codes "g") (codes "a") (codes "c" ∷ []) _ hall
      (add_members chat (codes "g") (codes "a") (codes "c" ∷ []) hall).1 refl

remove_member-depart_example :
    (rolls chat hall as_admin (codes "g") (codes "a") ≡ true)
    × (rolls chat (remove_member chat (codes "g") (codes "a") (codes "b") hall).1
        ≡ depart (codes "g") (codes "b") (rolls chat hall))
unfolding halls
remove_member-depart_example =
    remove_member-depart chat (codes "g") (codes "a") (codes "b") hall
      (remove_member chat (codes "g") (codes "a") (codes "b") hall).1 refl

create_conversation-found_example :
    rolls chat (create_conversation chat (codes "a") (group_of (codes "c" ∷ [])) hall).1
    ≡ found (codes "c") (codes "a") (codes "a" ∷ codes "c" ∷ []) (rolls chat hall)
unfolding halls
create_conversation-found_example =
    create_conversation-found chat (codes "a") (group_of (codes "c" ∷ [])) _ hall
      (create_conversation chat (codes "a") (group_of (codes "c" ∷ [])) hall).1 refl refl

create_conversation_reuses_example :
    (r : Room) × (create_conversation chat (codes "a") (direct_with (codes "c")) hall
      ≡ (ok r, hall))
    × (chat.rooms.find_first (is_open_to chat (codes "a") (codes "c") hall) hall.rooms ≡ some r)
    × (has chat.rooms
          (λ q. text_eq q.id r.id && is_open_to chat (codes "a") (codes "c") hall q)
          hall.rooms
        ≡ true)
unfolding halls
create_conversation_reuses_example =
    create_conversation_reuses chat (codes "a") (codes "c") (direct_with (codes "c")) hall refl refl
      refl

list_messages_sound_example :
    (has chat.members (member_of (codes "g") (codes "b")) hall.members ≡ true)
    × (every (λ m. text_eq m.room_id (codes "g") && not m.is_deleted) (hello ∷ []) ≡ true)
    × (ascending (λ m. m.created_at) (hello ∷ []) ≡ true)
    × (length (hello ∷ []) ≤ 50)
unfolding halls
list_messages_sound_example =
    list_messages_sound chat (codes "g") (codes "b") none none (hello ∷ []) hall hall refl

delete_message_lem_example :
    ((e : Failure) × ((delete_message chat (codes "a") (codes "m") hall).0 ≡ err e)
      × ((delete_message chat (codes "a") (codes "m") hall).1 ≡ hall))
    ⊎ (((delete_message chat (codes "a") (codes "m") hall).0 ≡ ok tt)
        × (has chat.messages
              (λ m. text_eq m.id (codes "m") && text_eq m.sender_id (codes "a"))
              hall.messages
            ≡ true)
        × ((p : Message → Bool)
            → has chat.messages p (delete_message chat (codes "a") (codes "m") hall).1.messages
              ≡ has chat.messages
                  (λ m. p (if text_eq m.id (codes "m") then deleted_message 9 m else m))
                  hall.messages)
        × (has chat.attachments
              (λ a. text_eq a.message_id (codes "m"))
              (delete_message chat (codes "a") (codes "m") hall).1.attachments
            ≡ false)
        × ((p : Text)
            → contains (delete_message chat (codes "a") (codes "m") hall).1.files.disk p ≡ (
                contains hall.files.disk p
                && not (
                    has chat.attachments
                      (λ a.
                        text_eq a.message_id (codes "m")
                        && names_file small_storage p (resolve_upload_key a.url))
                      hall.attachments))))
unfolding halls
delete_message_lem_example =
    delete_message_lem chat (codes "a") (codes "m") (ok tt) hall
      (delete_message chat (codes "a") (codes "m") hall).1 refl

abbrev sent : Message
sent = record {
  id = codes "b";
  content = some (codes "hi");
  type = text;
  room_id = codes "g";
  sender_id = codes "b";
  reply_to_id = none;
  is_deleted = false;
  deleted_at = none;
  created_at = 9;
}

send_message_sound_example :
    (has chat.members (member_of (codes "g") (codes "b")) hall.members ≡ true)
    × (sent.room_id ≡ codes "g")
    × (sent.sender_id ≡ codes "b")
    × ((p : Message → Bool)
        → has chat.messages p (send_message chat (codes "b") letter [] none hall).1.messages
          ≡ (p sent || has chat.messages p hall.messages))
    × ((send_message chat (codes "b") letter [] none hall).1.events
        ≡ told chat (codes "g") sent.id none hall)
unfolding halls
send_message_sound_example =
    send_message_sound chat (codes "b") letter [] none sent hall
      (send_message chat (codes "b") letter [] none hall).1 refl

abbrev kept_png : UploadedFile
kept_png = record {
  url = codes "/uploads/images/0.png";
  name = codes "x.png";
  mime_type = codes "image/png";
  size = 5;
  key = codes "images/0.png";
}

delete_file-upload_file_example :
    (contains (upload_file small_storage png [] hall.files).1.disk (codes "images/0.png") ≡ true)
    × (contains
          (delete_file small_storage kept_png.url
            (upload_file small_storage png [] hall.files).1).disk
          (codes "images/0.png")
        ≡ false)
unfolding halls
delete_file-upload_file_example =
    delete_file-upload_file small_storage png kept_png (codes "images/0.png") hall.files
      (upload_file small_storage png [] hall.files).1 refl refl refl refl refl

-- `c` is no member of the room of the message.
mark_read_outsider_example :
    ((mark_read chat (codes "c") (codes "m") hall).0 ≡ err (database "P2025"))
    × (has chat.receipts
          (same_receipt (receipt_of (codes "m") (codes "c") 9))
          (mark_read chat (codes "c") (codes "m") hall).1.receipts
        ≡ true)
unfolding halls upsert_receipt
mark_read_outsider_example =
    mark_read_outsider chat (codes "c") (codes "m") hello (receipt_of (codes "m") (codes "c") 9)
      hall (upsert_receipt chat (codes "m") (codes "c") hall).1 refl refl refl

-- The gateway of the hall, with no socket in a room.
abbrev gateway : GatewayState chat
gateway = record { chat = hall; joined = []; typing = [] }

abbrev by_admin : Message
by_admin = record sent { sender_id = codes "a" }

-- `b` joins with the socket `s`; then `a` removes `b` and writes from the socket `t`.
abbrev joined_state : GatewayState chat
joined_state = (handle_join_room chat (codes "s") (codes "b") (codes "g") gateway).1

abbrev removed_state : GatewayState chat
removed_state =
    (on_chat chat (remove_member chat (codes "g") (codes "a") (codes "b")) joined_state).1

abbrev written_state : GatewayState chat
written_state = (handle_send_message chat (codes "t") (codes "a") letter removed_state).1

remove_member-handle_send_message_example :
    (is_member chat (codes "g") (codes "b") gateway.chat ≡ true)
    × (is_member chat (codes "g") (codes "b") removed_state.chat ≡ false)
    × (e : Emitted) × (written_state.chat.events ≡ e ∷ removed_state.chat.events)
    × (e.message_id ≡ by_admin.id)
    × (reaches chat e (codes "s") written_state ≡ true)
unfolding halls
remove_member-handle_send_message_example =
    remove_member-handle_send_message chat (codes "s") (codes "b") (codes "g") (codes "a")
      (codes "t") (codes "a") letter by_admin gateway joined_state removed_state written_state refl
      refl refl refl refl refl
