-- ===== src/Chat/Rooms.antt =====
-- `ConversationService` of src/modules/conversation/conversation.service.ts.
pub mod Membership
pub mod Refinement
pub mod Founding
use learn_nestjs.Common.{
  ◌-◌, Bool, true, false, not, ◌&&◌, ◌||◌, Option, none, some, is_some, or_else, List, [], ◌∷◌, map,
  if◌then◌else◌, ◌==◌,
}
use learn_nestjs.Common.Text.{Text, text_eq, is_empty, to_lower, starts_with}
use learn_nestjs.Common.Lists.{length, any, filter, contains, add_all}
use learn_nestjs.Common.Results.{
  Failure, Exec, ok, err, bad_request, forbidden, not_found, database, gets, unless, modify, ◌>>=◌,
  ◌>>◌,
}
use learn_nestjs.Auth.OtpGuards.Limits.{after}
use learn_nestjs.Guards.{other}
use learn_nestjs.Database.Store.{has}
use learn_nestjs.Chat.World.{
  RoomType, direct, group, Room, RoomMember, ChatServices, ChatState, member_of, not_a_member,
}

pub record CreateConversationDto : Type 0 where
  pub participant_ids : List Text
  pub name : Option Text
  pub type : Option RoomType
  pub is_private : Option Bool
  pub description : Option Text

abbrev pub conversation_not_found : Failure
conversation_not_found = not_found "Conversation not found"

abbrev pub one_participant : Failure
one_participant = bad_request "Direct chats must have exactly 1 other participant"

abbrev pub participants_not_found : Failure
participants_not_found = not_found "One or more participants not found"

abbrev pub only_groups : Failure
only_groups = bad_request "Only group chats support this action"

abbrev pub only_admins : Failure
only_admins = forbidden "Only group admins can perform this action"

abbrev pub already_members : Failure
already_members = bad_request "All specified users are already members"

abbrev pub leaves_nothing : Failure
leaves_nothing = not_found "You are not a member of this conversation"

abbrev pub room_type : Option RoomType → RoomType
room_type (some group) = group
room_type _ = direct

abbrev pub is_group : RoomType → Bool
is_group group = true
is_group direct = false

-- `contains` of a `where` clause, in any case.
unfoldable pub contains_text : Text → Text → Bool
unfolding starts_with
contains_text [] t = is_empty t
contains_text (x ∷ s) t = starts_with (x ∷ s) t || contains_text s t

abbrev pub contains_insensitive : Option Text → Text → Bool
contains_insensitive none search = false
contains_insensitive (some s) search = contains_text (to_lower s) (to_lower search)

-- The filter of the search, absent where the search is.
unfoldable pub matches_search : Option Text → Room → Bool
unfolding contains_text to_lower
matches_search none r = true
matches_search (some search) r =
    is_empty search
    || contains_insensitive r.name search
    || contains_insensitive r.description search

module _ (S : ChatServices) where
  -- The rows of the members that a room is made with, one after the other.
  unfoldable pub create_each : List RoomMember → S.members.State → Option S.members.State
  create_each [] s = some s
  create_each (m ∷ ms) s = elim (S.members.create (λ id. m) s) [
    | none ↦ none
    | some (made, t) ↦ create_each ms t
  ]

  -- `room.create` with its members: a refusal undoes all of it.
  unfoldable pub create_room :
      RoomType → Text → List Text → CreateConversationDto → Exec (ChatState S) Room
  unfolding create_each
  create_room type creator_id member_ids dto w =
      elim (S.rooms.create
        (λ id. record {
          id = id;
          name = dto.name;
          description = dto.description;
          type = type;
          is_private = or_else dto.is_private false;
          created_by_id = creator_id;
          updated_at = w.now;
        })
        w.rooms) [
          | none ↦ (err (database "P2002"), w)
          | some (room, rooms) ↦
              elim (create_each
                (map
                  (λ user_id. record {
                    room_id = room.id;
                    user_id = user_id;
                    is_chat_admin = text_eq user_id creator_id;
                    last_read_at = none;
                  })
                  member_ids)
                w.members) [
                  | none ↦ (err (database "P2003"), w)
                  | some members ↦ (ok room, record w { rooms = rooms; members = members })
                ]
        ]

  unfoldable pub found_room : RoomType → Text → CreateConversationDto → Exec (ChatState S) Room
  unfolding create_room add_all
  found_room type creator_id dto = do
    let all_member_ids = add_all [] (creator_id ∷ dto.participant_ids)
    users ← gets (λ w. S.users.find_many (λ u. contains all_member_ids u.id) w.users)
    unless (length users == length all_member_ids) participants_not_found
    create_room type creator_id all_member_ids dto

  -- The room that `createConversation` takes for the direct conversation of two users.
  unfoldable pub find_direct : Text → Text → ChatState S → Option Room
  find_direct creator_id other_id w =
      S.rooms.find_first
        (λ r.
          not (is_group r.type)
          && not (
              has S.members
                (λ m.
                  text_eq m.room_id r.id && not (contains (creator_id ∷ other_id ∷ []) m.user_id))
                w.members))
        w.rooms

  unfoldable pub open_direct : List Text → Text → CreateConversationDto → Exec (ChatState S) Room
  unfolding find_direct found_room
  open_direct (other_id ∷ []) creator_id dto w = elim (find_direct creator_id other_id w) [
    | none ↦ found_room direct creator_id dto w
    | some existing ↦ (ok existing, w)
  ]
  open_direct _ creator_id dto w = (err one_participant, w)

  unfoldable pub create_conversation : Text → CreateConversationDto → Exec (ChatState S) Room
  unfolding open_direct found_room
  create_conversation creator_id dto =
      if is_group (room_type dto.type)
      then found_room group creator_id dto
      else open_direct dto.participant_ids creator_id dto

  unfoldable pub list_conversations : Text → Option Text → ChatState S → List Room
  unfolding matches_search
  list_conversations user_id search w =
      S.rooms.find_page
        (λ r. has S.members (member_of r.id user_id) w.members && matches_search search r)
        (λ r. r.updated_at) none none w.rooms

  abbrev pub find_room : Text → ChatState S → Option Room
  find_room room_id w = S.rooms.find_first (λ r. text_eq r.id room_id) w.rooms

  unfoldable pub get_conversation : Text → Text → Exec (ChatState S) Room
  get_conversation room_id requester_id w = elim (find_room room_id w) [
    | none ↦ (err conversation_not_found, w)
    | some room ↦
        if has S.members (member_of room.id requester_id) w.members
        then (ok room, w)
        else (err not_a_member, w)
  ]

  unfoldable pub is_member : Text → Text → ChatState S → Bool
  is_member room_id user_id w = is_some (S.members.find_first (member_of room_id user_id) w.members)

  unfoldable pub assert_group_admin : Text → Text → Exec (ChatState S) Room
  assert_group_admin room_id requester_id w = elim (find_room room_id w) [
    | none ↦ (err conversation_not_found, w)
    | some room ↦
        if not (is_group room.type)
        then (err only_groups, w)
        else elim (S.members.find_first (member_of room.id requester_id) w.members) [
          | none ↦ (err not_a_member, w)
          | some m ↦ if m.is_chat_admin then (ok room, w) else (err only_admins, w)
        ]
  ]

  -- `createMany` with `skipDuplicates`
  unfoldable pub insert_members : Text → List Text → Exec (ChatState S) Unit
  insert_members room_id new_ids w =
      elim (S.members.create_many
        (map
          (λ user_id. record {
            room_id = room_id;
            user_id = user_id;
            is_chat_admin = false;
            last_read_at = none;
          })
          new_ids)
        w.members) [
          | none ↦ (err (database "P2003"), w)
          | some members ↦ (ok tt, record w { members = members })
        ]

  unfoldable pub add_members : Text → Text → List Text → Exec (ChatState S) Room
  unfolding assert_group_admin insert_members get_conversation filter
  add_members room_id requester_id member_ids = do
    room ← assert_group_admin room_id requester_id
    new_ids ←
        gets (λ w. filter (λ id. not (has S.members (member_of room.id id) w.members)) member_ids)
    unless (not (length new_ids == 0)) already_members
    insert_members room_id new_ids
    get_conversation room_id requester_id

  abbrev pub delete_member : Text → Text → Exec (ChatState S) Unit
  delete_member room_id user_id =
      modify
        (λ w. record w { members = S.members.delete_many (member_of room_id user_id) w.members })

  unfoldable pub remove_member : Text → Text → Text → Exec (ChatState S) Unit
  unfolding assert_group_admin
  remove_member room_id requester_id target_user_id = do
    room ← assert_group_admin room_id requester_id
    delete_member room_id target_user_id

  unfoldable pub leave_conversation : Text → Text → Exec (ChatState S) Unit
  leave_conversation room_id user_id w =
      if is_some (S.members.find_first (member_of room_id user_id) w.members)
      then delete_member room_id user_id w
      else (err leaves_nothing, w)
