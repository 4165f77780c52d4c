-- ===== src/Chat/World.antt =====
-- What `ConversationService` and `MessageService` work with: the tables of rooms and messages, the
-- storage of uploads and the sockets that are told of a message.
--
-- Columns that neither service reads or sets are left out. A room is answered without its members
-- and its last message.
use learn_nestjs.Common.{ℕ, Bool, ◌&&◌, Option, List, String}
use learn_nestjs.Common.Text.{Text, text_eq}
use learn_nestjs.Common.Results.{Failure, forbidden}
use learn_nestjs.Database.{User}
use learn_nestjs.Database.Store.{Store}
use learn_nestjs.Storage.{Storage, StorageState}

pub data RoomType : Type 0 where
  direct group : RoomType

pub data MessageType : Type 0 where
  text image video audio file system : MessageType

pub record Room : Type 0 where
  pub id : Text
  pub name : Option Text
  pub description : Option Text
  pub type : RoomType
  pub is_private : Bool
  pub created_by_id : Text
  pub updated_at : ℕ

pub record RoomMember : Type 0 where
  pub room_id : Text
  pub user_id : Text
  pub is_chat_admin : Bool
  pub last_read_at : Option ℕ

pub record Message : Type 0 where
  pub id : Text
  pub content : Option Text
  pub type : MessageType
  pub room_id : Text
  pub sender_id : Text
  pub reply_to_id : Option Text
  pub is_deleted : Bool
  pub deleted_at : Option ℕ
  pub created_at : ℕ

pub record MessageAttachment : Type 0 where
  pub id : Text
  pub message_id : Text
  pub url : Text
  pub name : Text
  pub mime_type : Text
  pub size : ℕ
  pub width : Option ℕ
  pub height : Option ℕ
  pub duration : Option ℕ

pub record ReadReceipt : Type 0 where
  pub message_id : Text
  pub user_id : Text
  pub read_at : ℕ

-- An event that `SocketEmitterService` sends to a room, with the message by its identifier.
pub record Emitted : Type 0 where
  pub room_id : Text
  pub event : String
  pub message_id : Text
  pub except : Option Text

-- The unique columns of the tables.
abbrev pub same_room : Room → Room → Bool
same_room a b = text_eq a.id b.id

abbrev pub same_member : RoomMember → RoomMember → Bool
same_member a b = text_eq a.room_id b.room_id && text_eq a.user_id b.user_id

abbrev pub same_message : Message → Message → Bool
same_message a b = text_eq a.id b.id

abbrev pub same_attachment : MessageAttachment → MessageAttachment → Bool
same_attachment a b = text_eq a.id b.id

abbrev pub same_receipt : ReadReceipt → ReadReceipt → Bool
same_receipt a b = text_eq a.message_id b.message_id && text_eq a.user_id b.user_id

abbrev pub same_user : User → User → Bool
same_user a b = text_eq a.id b.id

pub record ChatServices : Type 1 where
  pub rooms : Store same_room
  pub members : Store same_member
  pub messages : Store same_message
  pub attachments : Store same_attachment
  pub receipts : Store same_receipt
  pub users : Store same_user
  pub storage : Storage

pub record ChatState (S : ChatServices) : Type 0 where
  pub rooms : S.rooms.State
  pub members : S.members.State
  pub messages : S.messages.State
  pub attachments : S.attachments.State
  pub receipts : S.receipts.State
  pub users : S.users.State
  pub files : StorageState S.storage
  -- Whether `setServer` was called.
  pub listening : Bool
  pub events : List Emitted
  pub now : ℕ

-- The row of a member.
abbrev pub member_of : Text → Text → RoomMember → Bool
member_of room_id user_id m = text_eq m.room_id room_id && text_eq m.user_id user_id

abbrev pub not_a_member : Failure
not_a_member = forbidden "You are not a member of this conversation"
