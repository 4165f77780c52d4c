-- ===== src/Chat/Rooms/Refinement.antt =====
-- The operations of `ConversationService` against the rolls of the rooms.
use learn_nestjs.Common.{
  ◌≡◌, inl, inr, refl, sym, ap, subst, fun_ext, ◌∙◌, true, false, not, ◌&&◌, none, is_some, List,
  map, ◌==◌, arith, Bool-cases, Option-cases,
}
use learn_nestjs.Common.Text.{Text, text_eq, text_eq_sound}
use learn_nestjs.Common.Lists.{length, filter}
use learn_nestjs.Common.Results.{ok, unless, unless_pure, bind-eq-ok}
use learn_nestjs.Redis.Implements.{contains-filter}
use learn_nestjs.Database.Store.{has}
use learn_nestjs.Chat.World.{Room, RoomMember, ChatServices, ChatState, member_of}
use learn_nestjs.Chat.Rooms.{
  get_conversation, assert_group_admin, insert_members, add_members, delete_member, remove_member,
  leave_conversation, already_members,
}
use learn_nestjs.Chat.Rooms.Membership.{
  Standing, as_member, as_admin, holds, join, depart, rolls, create_many-joined,
  delete_member-rolls, assert_group_admin_lem,
}

module _ (S : ChatServices) where
  insert_members-rolls :
      (room_id : Text) (ids : List Text) (w w' : ChatState S)
      → insert_members S room_id ids w ≡ (ok tt, w')
      → rolls S w' ≡ join room_id ids (rolls S w)
  unfolding insert_members
  insert_members-rolls room_id ids w w' h =
      let rows : List RoomMember =
        map
          (λ user_id. record {
            room_id = room_id;
            user_id = user_id;
            is_chat_admin = false;
            last_read_at = none;
          })
          ids in
      elim (Option-cases (S.members.create_many rows w.members)) [
        | inl refused ↦ absurd (ground arith)
        | inr (members, e) ↦
            let same : members ≡ w'.members = ground arith in
            fun_ext λ st. fun_ext λ a. fun_ext λ b.
              subst
                (λ t.
                  has S.members (λ m. holds st m && member_of a b m) t
                  ≡ join room_id ids (rolls S w) st a b)
                same (create_many-joined S room_id ids w.members members st a b e)
      ]

  get_conversation-pure :
      (room_id requester_id : Text) (w : ChatState S)
      → (get_conversation S room_id requester_id w).1 ≡ w
  unfolding get_conversation
  get_conversation-pure room_id requester_id w = ground arith

  -- Only those who are not members yet are inserted, which makes no difference to the rolls.
  join-filter_at :
      (room_id b : Text) (ids : List Text) (w : ChatState S)
      → join room_id
          (filter (λ id. not (has S.members (member_of room_id id) w.members)) ids)
          (rolls S w)
          as_member
          room_id
          b
        ≡ join room_id ids (rolls S w) as_member room_id b
  join-filter_at room_id b ids w =
      ground
        (arith, contains-filter (λ id. not (has S.members (member_of room_id id) w.members)) ids b)

  join-filter :
      (room_id : Text) (ids : List Text) (w : ChatState S) (st : Standing) (a b : Text)
      → join room_id
          (filter (λ id. not (has S.members (member_of room_id id) w.members)) ids)
          (rolls S w)
          st
          a
          b
        ≡ join room_id ids (rolls S w) st a b
  join-filter room_id ids w as_admin a b = refl
  join-filter room_id ids w as_member a b = elim (Bool-cases (text_eq room_id a)) [
    | inl same ↦
        subst
          (λ x.
            join room_id (filter (λ id. not (has S.members (member_of room_id id) w.members)) ids)
              (rolls S w) as_member x b
            ≡ join room_id ids (rolls S w) as_member x b)
          (text_eq_sound room_id a same) (join-filter_at room_id b ids w)
    | inr different ↦ ground arith
  ]

  -- `addMembers` returns only for an administrator of the room, and then the rolls are those before
  -- with the given users joined to the room as ordinary members.
  pub add_members-join :
      (room_id requester_id : Text) (ids : List Text) (r : Room) (w w' : ChatState S)
      → add_members S room_id requester_id ids w ≡ (ok r, w')
      → (rolls S w as_admin room_id requester_id ≡ true)
        × (rolls S w' ≡ join room_id ids (rolls S w))
  unfolding add_members
  add_members-join room_id requester_id ids r w w' h =
      let (room, asserted, h1) = bind-eq-ok (assert_group_admin S room_id requester_id) _ w h in
      let w1 = (assert_group_admin S room_id requester_id w).1 in
      let (same, named, may) =
        assert_group_admin_lem S room_id requester_id room w w1 (ground arith) in
      let new = filter (λ id. not (has S.members (member_of room.id id) w1.members)) ids in
      let some_new = unless {S = ChatState S} (not (length new == 0)) already_members in
      let (_, passed, h2) = bind-eq-ok some_new _ w1 h1 in
      let w2 = (some_new w1).1 in
      let (_, inserted, h3) = bind-eq-ok (insert_members S room_id new) _ w2 h2 in
      let w3 = (insert_members S room_id new w2).1 in
      let last : w3 ≡ w' = sym (get_conversation-pure room_id requester_id w3) ∙ ap (λ q. q.1) h3 in
      let joined : rolls S w3 ≡ join room_id new (rolls S w2) =
        insert_members-rolls room_id new w2 w3 (ground arith) in
      let at_start : rolls S w3
          ≡ join room_id (filter (λ id. not (has S.members (member_of room_id id) w.members)) ids)
              (rolls S w) =
        subst
          (λ x.
            rolls S w3
            ≡ join room_id (filter (λ id. not (has S.members (member_of x id) w.members)) ids)
                (rolls S w))
          named
          (subst
            (λ v.
              rolls S w3
              ≡ join room_id
                  (filter (λ id. not (has S.members (member_of room.id id) v.members)) ids)
                  (rolls S v))
            same
            (subst (λ v. rolls S w3 ≡ join room_id new (rolls S v))
              (unless_pure (not (length new == 0)) already_members w1) joined)) in
      (
        may,
        subst (λ v. rolls S v ≡ join room_id ids (rolls S w)) last
            (at_start
              ∙ fun_ext (λ st. fun_ext (λ a. fun_ext (λ b. join-filter room_id ids w st a b)))),
      )

  -- `removeMember` returns only for an administrator of the room, and then the rolls are those before
  -- with the target departed from the room.
  pub remove_member-depart :
      (room_id requester_id target : Text) (w w' : ChatState S)
      → remove_member S room_id requester_id target w ≡ (ok tt, w')
      → (rolls S w as_admin room_id requester_id ≡ true)
        × (rolls S w' ≡ depart room_id target (rolls S w))
  unfolding remove_member
  remove_member-depart room_id requester_id target w w' h =
      let (room, asserted, h1) = bind-eq-ok (assert_group_admin S room_id requester_id) _ w h in
      let w1 = (assert_group_admin S room_id requester_id w).1 in
      let (same, named, may) =
        assert_group_admin_lem S room_id requester_id room w w1 (ground arith) in
      (
        may,
        subst (λ v. rolls S v ≡ depart room_id target (rolls S w)) (ap (λ q. q.1) h1)
            (subst
              (λ v.
                rolls S (delete_member S room_id target v).1 ≡ depart room_id target (rolls S w))
              (sym same) (delete_member-rolls S room_id target w)),
      )

  -- `leaveConversation` returns only for a member of the room, and then the rolls are those before
  -- with the user departed from the room.
  pub leave_conversation-depart :
      (room_id user_id : Text) (w w' : ChatState S)
      → leave_conversation S room_id user_id w ≡ (ok tt, w')
      → (rolls S w as_member room_id user_id ≡ true)
        × (rolls S w' ≡ depart room_id user_id (rolls S w))
  unfolding leave_conversation
  leave_conversation-depart room_id user_id w w' h =
      elim (Bool-cases (is_some (S.members.find_first (member_of room_id user_id) w.members))) [
        | inl inside ↦
            let same : (delete_member S room_id user_id w).1 ≡ w' = ground arith in
            (
              ground (arith, S.members.is_some-find_first (member_of room_id user_id) w.members),
              subst (λ v. rolls S v ≡ depart room_id user_id (rolls S w)) same
                  (delete_member-rolls S room_id user_id w),
            )
        | inr outside ↦ absurd (ground arith)
      ]
