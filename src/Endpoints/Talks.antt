-- ===== src/Endpoints/Talks.antt =====
-- The routes of `ConversationController` and `MessageController` in src/modules/conversation and
-- src/modules/message, behind `AuthGuard`: the user is the one whom the guard found.
--
-- The route that lists messages is left out: it passes `+limit` on, which may be NaN, a fraction or
-- negative, and what the client of the database does with such a number is not modelled.
use learn_nestjs.Common.{Option, none, List}
use learn_nestjs.Common.Text.{Text}
use learn_nestjs.Common.Results.{Exec}
use learn_nestjs.Storage.{MulterFile}
use learn_nestjs.Chat.World.{Room, Message, ReadReceipt, ChatServices, ChatState}
use learn_nestjs.Chat.Rooms.{
  CreateConversationDto, create_conversation, list_conversations, get_conversation, add_members,
  remove_member, leave_conversation,
}
use learn_nestjs.Chat.Messages.{SendMessageDto, send_message, mark_read, delete_message}

module _ (S : ChatServices) where
  unfoldable pub post_conversation : Text → CreateConversationDto → Exec (ChatState S) Room
  unfolding create_conversation
  post_conversation user_id dto = create_conversation S user_id dto

  unfoldable pub get_conversations : Text → Option Text → ChatState S → List Room
  unfolding list_conversations
  get_conversations user_id search w = list_conversations S user_id search w

  unfoldable pub get_conversation_of : Text → Text → Exec (ChatState S) Room
  unfolding get_conversation
  get_conversation_of user_id room_id = get_conversation S room_id user_id

  unfoldable pub post_members : Text → Text → List Text → Exec (ChatState S) Room
  unfolding add_members
  post_members user_id room_id member_ids = add_members S room_id user_id member_ids

  unfoldable pub delete_members : Text → Text → Text → Exec (ChatState S) Unit
  unfolding remove_member
  delete_members user_id room_id member_id = remove_member S room_id user_id member_id

  unfoldable pub delete_leave : Text → Text → Exec (ChatState S) Unit
  unfolding leave_conversation
  delete_leave user_id room_id = leave_conversation S room_id user_id

  unfoldable pub post_message : Text → SendMessageDto → List MulterFile → Exec (ChatState S) Message
  unfolding send_message
  post_message user_id dto files = send_message S user_id dto files none

  unfoldable pub post_read : Text → Text → Exec (ChatState S) ReadReceipt
  unfolding mark_read
  post_read user_id message_id = mark_read S user_id message_id

  unfoldable pub delete_message_of : Text → Text → Exec (ChatState S) Unit
  unfolding delete_message
  delete_message_of user_id message_id = delete_message S user_id message_id
