-- ===== src/Chat/Rooms/Founding.antt =====
-- What `createConversation` makes, and which room it takes for a direct conversation.
use learn_nestjs.Common.{
  ◌≡◌, inl, inr, ap, subst, fun_ext, ◌∙◌, Bool, true, false, not, ◌&&◌, ◌||◌, none, some, is_some,
  or_else, List, [], ◌∷◌, map, ◌==◌, arith, Option-cases,
}
use learn_nestjs.Common.Text.{Text, text_eq, text_eq_refl}
use learn_nestjs.Common.Lists.{length, contains, add_all, contains-add_all}
use learn_nestjs.Common.Results.{ok, unless, unless_pure, bind-eq-ok}
use learn_nestjs.Database.Store.{has, any_mono}
use learn_nestjs.Chat.World.{RoomType, group, Room, RoomMember, ChatServices, ChatState, member_of}
use learn_nestjs.Chat.Rooms.{
  CreateConversationDto, is_group, room_type, create_each, create_room, found_room, find_direct,
  open_direct, create_conversation, participants_not_found,
}
use learn_nestjs.Chat.Rooms.Membership.{holds, found, rolls, create_each-founded, any-founded}

module _ (S : ChatServices) where
  create_room-found :
      (type : RoomType) (creator_id : Text) (ids : List Text) (dto : CreateConversationDto)
      (r : Room) (w w' : ChatState S)
      → create_room S type creator_id ids dto w ≡ (ok r, w')
      → rolls S w' ≡ found r.id creator_id ids (rolls S w)
  unfolding create_room
  create_room-found type creator_id ids dto r w w' h =
      let make : Text → Room = λ id. record {
        id = id;
        name = dto.name;
        description = dto.description;
        type = type;
        is_private = or_else dto.is_private false;
        created_by_id = creator_id;
        updated_at = w.now;
      } in
      elim (Option-cases (S.rooms.create make w.rooms)) [
        | inl refused ↦ absurd (ground arith)
        | inr ((room, rooms), made) ↦
            let rows : List RoomMember =
              map
                (λ user_id. record {
                  room_id = room.id;
                  user_id = user_id;
                  is_chat_admin = text_eq user_id creator_id;
                  last_read_at = none;
                })
                ids in
            elim (Option-cases (create_each S rows w.members)) [
              | inl refused ↦ absurd (ground arith)
              | inr (members, e) ↦
                  let same : members ≡ w'.members = ground arith in
                  let same_room : room ≡ r = ground arith in
                  fun_ext λ st. fun_ext λ a. fun_ext λ b.
                    subst
                      (λ x.
                        has S.members (λ m. holds st m && member_of a b m) w'.members
                        ≡ found x.id creator_id ids (rolls S w) st a b)
                      same_room
                      (subst
                        (λ t.
                          has S.members (λ m. holds st m && member_of a b m) t
                          ≡ found room.id creator_id ids (rolls S w) st a b)
                        same
                        (create_each-founded S rows w.members members
                            (λ m. holds st m && member_of a b m) e
                          ∙ ap
                              (λ q.
                                has S.members (λ m. holds st m && member_of a b m) w.members || q)
                              (any-founded st room.id creator_id a b ids)))
            ]
      ]

  -- `createConversation` for a group, where it returns, founds the room of its answer: the creator
  -- and the participants become its members, the creator alone its administrator, and nobody's
  -- standing in any room is otherwise changed.
  pub create_conversation-found :
      (creator_id : Text) (dto : CreateConversationDto) (r : Room) (w w' : ChatState S)
      → dto.type ≡ some group
      → create_conversation S creator_id dto w ≡ (ok r, w')
      → rolls S w' ≡ found r.id creator_id (creator_id ∷ dto.participant_ids) (rolls S w)
  unfolding create_conversation found_room contains
  create_conversation-found creator_id dto r w w' grouped h =
      let ids = add_all [] (creator_id ∷ dto.participant_ids) in
      let known =
        unless {S = ChatState S}
          (length (S.users.find_many (λ u. contains ids u.id) w.users) == length ids)
          participants_not_found in
      let founded : found_room S group creator_id dto w ≡ (ok r, w') = ground (arith, grouped) in
      let (_, passed, h1) = bind-eq-ok known _ w founded in
      let made : create_room S group creator_id ids dto w ≡ (ok r, w') =
        subst (λ v. create_room S group creator_id ids dto v ≡ (ok r, w'))
          (unless_pure (length (S.users.find_many (λ u. contains ids u.id) w.users) == length ids)
            participants_not_found w)
          h1 in
      create_room-found group creator_id ids dto r w w' made
      ∙ fun_ext (λ st. fun_ext (λ a.
        fun_ext (λ b. ground (arith, contains-add_all [] (creator_id ∷ dto.participant_ids) b))))

  -- No group, and nobody but the two users is a member of it.
  abbrev pub is_open_to : Text → Text → ChatState S → Room → Bool
  is_open_to creator_id other_id w r =
      not (is_group r.type)
      && not (
          has S.members
            (λ m. text_eq m.room_id r.id && not (contains (creator_id ∷ other_id ∷ []) m.user_id))
            w.members)

  -- Where some direct room has no members, as when both have left it, `createConversation` between
  -- any two users makes no room and changes nothing: it answers the first room of the table that is
  -- no group and has no member but the two, so one that was there.
  pub create_conversation_reuses :
      (creator_id other_id : Text) (dto : CreateConversationDto) (w : ChatState S)
      → is_group (room_type dto.type) ≡ false
      → dto.participant_ids ≡ other_id ∷ []
      → has S.rooms
          (λ r.
            not (is_group r.type) && not (has S.members (λ m. text_eq m.room_id r.id) w.members))
          w.rooms
        ≡ true
      → (r : Room) × (create_conversation S creator_id dto w ≡ (ok r, w))
        × (S.rooms.find_first (is_open_to creator_id other_id w) w.rooms ≡ some r)
        × (has S.rooms (λ q. text_eq q.id r.id && is_open_to creator_id other_id w q) w.rooms
            ≡ true)
  unfolding create_conversation open_direct find_direct
  create_conversation_reuses creator_id other_id dto w direct_type one left =
      let within = is_open_to creator_id other_id w in
      let there : is_some (S.rooms.find_first within w.rooms) ≡ true =
        S.rooms.is_some-find_first within w.rooms
        ∙ any_mono
            (λ r.
              not (is_group r.type) && not (has S.members (λ m. text_eq m.room_id r.id) w.members))
            within (S.rooms.find_many (λ r. true) w.rooms)
            (λ r e. ground (
              arith,
              any_mono
                  (λ m.
                    text_eq m.room_id r.id && not (contains (creator_id ∷ other_id ∷ []) m.user_id))
                  (λ m. text_eq m.room_id r.id) (S.members.find_many (λ m. true) w.members)
                  (λ m both. ground arith),
            ))
            left in
      elim (Option-cases (S.rooms.find_first within w.rooms)) [
        | inl missing ↦ absurd (ground (arith, there))
        | inr (r, at) ↦
            let (fits, holding) = S.rooms.find_first_sound within r w.rooms at in
            (
              r,
              ground (arith, one, direct_type, at),
              at,
              holding (λ q. text_eq q.id r.id && within q)
                  (ground (arith, text_eq_refl r.id, fits)),
            )
      ]
