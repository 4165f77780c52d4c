-- ===== src/Samples/Halls.antt =====
-- Rooms, messages and uploads kept in lists, and a small chat in them.
use learn_nestjs.Common.{
  ◌+◌, ◌≡◌, Bool, true, false, not, ◌&&◌, ◌||◌, none, some, List, [], ◌∷◌, arith,
}
use learn_nestjs.Common.Text.{Text, codes, text_eq, text_eq_refl}
use learn_nestjs.Common.Lists.{filter, contains}
use learn_nestjs.Database.{User}
use learn_nestjs.Redis.Implements.{contains-filter}
use learn_nestjs.Storage.{MulterFile, Disk, Storage}
use learn_nestjs.Chat.World.{
  text, RoomType, direct, group, Room, RoomMember, Message, MessageAttachment, ReadReceipt,
  ChatServices, ChatState, same_member, same_room, same_message, same_receipt, same_attachment,
  same_user,
}
use learn_nestjs.Chat.Rooms.{CreateConversationDto}
use learn_nestjs.Chat.Messages.{SendMessageDto}
use learn_nestjs.Samples.Tables.{list_store}
use learn_nestjs.Samples.World.{ann}

pub same_member_refl : (r : RoomMember) → same_member r r ≡ true
same_member_refl r = ground (arith, text_eq_refl r.room_id, text_eq_refl r.user_id)

pub same_receipt_refl : (r : ReadReceipt) → same_receipt r r ≡ true
same_receipt_refl r = ground (arith, text_eq_refl r.message_id, text_eq_refl r.user_id)

pub written :
    (p q : Text) (s t : List Text)
    → some (p ∷ s) ≡ some t
    → contains t q ≡ (text_eq p q || contains s q)
unfolding contains
written p q s t h = ground arith

pub unlinked :
    (p q : Text) (s : List Text)
    → contains (filter (λ q. not (text_eq p q)) s) q ≡ (not (text_eq p q) && contains s q)
unlinked p q s = contains-filter (λ q. not (text_eq p q)) s q

-- A disk is the list of the paths on it.
abbrev pub list_disk : Disk
list_disk = record {
  State = List Text;
  write = λ p f s. some (p ∷ s);
  unlink = λ p s. filter (λ q. not (text_eq p q)) s;
  exists = λ p s. contains s p;
  exists-write = λ p q f s t h. written p q s t h;
  exists-unlink = λ p q s. unlinked p q s;
}

abbrev pub small_storage : Storage
small_storage = record {
  upload_dir = codes "d";
  max_file_size = 100;
  disk = list_disk;
  join = λ a b. b;
  extname = λ t. codes ".PNG";
  normalize = λ t. t;
  uuid = λ n. (b'0' + n) ∷ [];
}

abbrev pub chat : ChatServices
chat = record {
  rooms = list_store same_room (λ r. text_eq_refl r.id);
  members = list_store same_member same_member_refl;
  messages = list_store same_message (λ r. text_eq_refl r.id);
  attachments = list_store same_attachment (λ r. text_eq_refl r.id);
  receipts = list_store same_receipt same_receipt_refl;
  users = list_store same_user (λ r. text_eq_refl r.id);
  storage = small_storage;
}

abbrev person : Text → User
person id = record ann { id = id }

abbrev member_row : Text → Bool → RoomMember
member_row user_id is_admin = record {
  room_id = codes "g";
  user_id = user_id;
  is_chat_admin = is_admin;
  last_read_at = none;
}

abbrev room_row : Text → RoomType → Room
room_row id type = record {
  id = id;
  name = none;
  description = none;
  type = type;
  is_private = false;
  created_by_id = codes "a";
  updated_at = 1;
}

abbrev pub hello : Message
hello = record {
  id = codes "m";
  content = some (codes "hello");
  type = text;
  room_id = codes "g";
  sender_id = codes "a";
  reply_to_id = none;
  is_deleted = false;
  deleted_at = none;
  created_at = 3;
}

abbrev picture : MessageAttachment
picture = record {
  id = codes "p";
  message_id = codes "m";
  url = codes "/uploads/images/x";
  name = codes "x";
  mime_type = codes "image/png";
  size = 5;
  width = none;
  height = none;
  duration = none;
}

-- The group `g` of `a`, who administrates it, and `b`; a direct room that both have left; a message
-- of `a` with a picture.
abbrev pub hall : ChatState chat
hall = record {
  rooms = room_row (codes "g") group ∷ room_row (codes "d") direct ∷ [];
  members = member_row (codes "a") true ∷ member_row (codes "b") false ∷ [];
  messages = hello ∷ [];
  attachments = picture ∷ [];
  receipts = [];
  users = person (codes "a") ∷ person (codes "b") ∷ person (codes "c") ∷ [];
  files = record { disk = codes "images/x" ∷ codes "images/y" ∷ []; draws = 0 };
  listening = true;
  events = [];
  now = 9;
}

abbrev pub letter : SendMessageDto
letter = record {
  room_id = codes "g";
  content = some (codes " hi ");
  type = none;
  reply_to_id = none;
  attachments = [];
}

abbrev pub png : MulterFile
png = record { originalname = codes "x.png"; mimetype = codes "image/png"; size = 5 }

abbrev pub group_of : List Text → CreateConversationDto
group_of ids = record {
  participant_ids = ids;
  name = some (codes "team");
  type = some group;
  is_private = none;
  description = none;
}

abbrev pub direct_with : Text → CreateConversationDto
direct_with id = record (group_of (id ∷ [])) { type = some direct }
