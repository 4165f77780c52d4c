-- ===== src/Chat/Rooms/Membership.antt =====
-- Who is a member and who is an administrator of which room, as the operations change it.
use learn_nestjs.Common.{
  ◌≡◌, inl, inr, fun_ext, ◌∙◌, Bool, true, false, not, ◌&&◌, ◌||◌, none, some, List, [], ◌∷◌, map,
  arith, Option-cases,
}
use learn_nestjs.Common.Text.{Text, text_eq, text_eq_iff}
use learn_nestjs.Common.Lists.{any, contains}
use learn_nestjs.Common.Results.{ok}
use learn_nestjs.Database.Store.{has, any_mono, any_witness}
use learn_nestjs.Chat.World.{Room, RoomMember, ChatServices, ChatState, same_member, member_of}
use learn_nestjs.Chat.Rooms.{create_each, find_room, assert_group_admin, delete_member}

pub data Standing : Type 0 where
  as_member as_admin : Standing

abbrev pub holds : Standing → RoomMember → Bool
holds as_member m = true
holds as_admin m = m.is_chat_admin

abbrev pub ordinary : Standing → Bool
ordinary as_member = true
ordinary as_admin = false

-- The abstract state: in which standing a user is in a room, by room and user.
abbrev pub Rolls : Type 0
Rolls = Standing → Text → Text → Bool

-- Some users join a room as ordinary members.
abbrev pub join : Text → List Text → Rolls → Rolls
join room_id ids v st a b = v st a b || (ordinary st && (text_eq room_id a && contains ids b))

-- A user departs from a room.
abbrev pub depart : Text → Text → Rolls → Rolls
depart room_id user_id v st a b = v st a b && not (text_eq room_id a && text_eq user_id b)

-- A room is founded with some members, its creator as the administrator.
abbrev pub found : Text → Text → List Text → Rolls → Rolls
found room_id creator_id ids v st a b =
    v st a b || (text_eq room_id a && contains ids b && (ordinary st || text_eq b creator_id))

abbrev row : Text → Text → Bool → RoomMember
row room_id user_id is_admin = record {
  room_id = room_id;
  user_id = user_id;
  is_chat_admin = is_admin;
  last_read_at = none;
}

any-joined :
    (st : Standing) (room_id a b : Text) (ids : List Text)
    → any (λ m. holds st m && member_of a b m) (map (λ u. row room_id u false) ids)
      ≡ (ordinary st && (text_eq room_id a && contains ids b))
unfolding any contains
any-joined as_member room_id a b [] = ground arith
any-joined as_admin room_id a b [] = ground arith
any-joined as_member room_id a b (u ∷ us) = ground (arith, any-joined as_member room_id a b us)
any-joined as_admin room_id a b (u ∷ us) = ground (arith, any-joined as_admin room_id a b us)

pub any-founded :
    (st : Standing) (room_id creator_id a b : Text) (ids : List Text)
    → any (λ m. holds st m && member_of a b m) (map (λ u. row room_id u (text_eq u creator_id)) ids)
      ≡ (text_eq room_id a && contains ids b && (ordinary st || text_eq b creator_id))
unfolding any contains
any-founded as_member room_id creator_id a b [] = ground arith
any-founded as_admin room_id creator_id a b [] = ground arith
any-founded as_member room_id creator_id a b (u ∷ us) =
    ground (arith, any-founded as_member room_id creator_id a b us)
any-founded as_admin room_id creator_id a b (u ∷ us) =
    ground (arith, any-founded as_admin room_id creator_id a b us, text_eq_iff u b)

any-departed :
    (st : Standing) (room_id user_id a b : Text) (ms : List RoomMember)
    → any (λ r. not (member_of room_id user_id r) && (holds st r && member_of a b r)) ms ≡ (
        any (λ m. holds st m && member_of a b m) ms && not (text_eq room_id a && text_eq user_id b))
unfolding any
any-departed st room_id user_id a b [] = ground arith
any-departed st room_id user_id a b (m ∷ ms) = ground (
  arith,
  any-departed st room_id user_id a b ms,
  text_eq_iff m.room_id room_id,
  text_eq_iff m.user_id user_id,
  text_eq_iff m.room_id a,
  text_eq_iff m.user_id b,
  text_eq_iff room_id a,
  text_eq_iff user_id b,
)

module _ (S : ChatServices) where
  -- What the table says.
  abbrev pub rolls : ChatState S → Rolls
  rolls w st a b = has S.members (λ m. holds st m && member_of a b m) w.members

  -- One of the given rows stands for a row with its unique columns.
  any-same_member :
      (a b : Text) (rs : List RoomMember) (t : S.members.State)
      → has S.members (λ x. any (λ r. member_of a b r && same_member r x) rs) t ≡ true
      → has S.members (member_of a b) t ≡ true
  any-same_member a b rs t h =
      any_mono (λ x. any (λ r. member_of a b r && same_member r x) rs) (member_of a b)
        (S.members.find_many (λ m. true) t)
        (λ x e.
          let (r, both) = any_witness (λ r. member_of a b r && same_member r x) rs e in
          ground (arith, text_eq_iff r.room_id x.room_id, text_eq_iff r.user_id x.user_id))
        h

  pub create_many-joined :
      (room_id : Text) (ids : List Text) (s t : S.members.State) (st : Standing) (a b : Text)
      → S.members.create_many (map (λ u. row room_id u false) ids) s ≡ some t
      → has S.members (λ m. holds st m && member_of a b m) t ≡ (
          has S.members (λ m. holds st m && member_of a b m) s
          || (ordinary st && (text_eq room_id a && contains ids b)))
  create_many-joined room_id ids s t as_member a b h =
      let rs = map (λ u. row room_id u false) ids in
      ground (
        arith,
        S.members.create_many_keeps rs s t (member_of a b) h,
        S.members.create_many_sound rs s t (member_of a b) h,
        S.members.create_many_complete rs s t (member_of a b) h,
        any-same_member a b rs t,
        any-joined as_member room_id a b ids,
      )
  create_many-joined room_id ids s t as_admin a b h =
      let rs = map (λ u. row room_id u false) ids in
      let p : RoomMember → Bool = λ m. holds as_admin m && member_of a b m in
      ground (
        arith,
        S.members.create_many_keeps rs s t p h,
        S.members.create_many_sound rs s t p h,
        any-joined as_admin room_id a b ids,
      )

  pub create_each-founded :
      (rs : List RoomMember) (s t : S.members.State) (p : RoomMember → Bool)
      → create_each S rs s ≡ some t
      → has S.members p t ≡ (has S.members p s || any p rs)
  unfolding create_each any
  create_each-founded [] s t p h = ground arith
  create_each-founded (r ∷ rs) s t p h = elim (Option-cases (S.members.create (λ id. r) s)) [
    | inl refused ↦ absurd (ground arith)
    | inr ((made, next), e) ↦
        let (id, same) = S.members.create_made (λ id. r) made s next e in
        ground
          (arith, S.members.any-create (λ id. r) made s next p e, create_each-founded rs next t p)
  ]

  -- Deletion of a member.
  pub delete_member-rolls :
      (room_id user_id : Text) (w : ChatState S)
      → rolls (delete_member S room_id user_id w).1 ≡ depart room_id user_id (rolls w)
  delete_member-rolls room_id user_id w = fun_ext λ st. fun_ext λ a. fun_ext λ b.
      S.members.any-delete_many (member_of room_id user_id) w.members
        (λ m. holds st m && member_of a b m)
      ∙ any-departed st room_id user_id a b (S.members.find_many (λ m. true) w.members)

  pub assert_group_admin_lem :
      (room_id requester_id : Text) (r : Room) (w w' : ChatState S)
      → assert_group_admin S room_id requester_id w ≡ (ok r, w')
      → (w' ≡ w) × (r.id ≡ room_id) × (rolls w as_admin room_id requester_id ≡ true)
  unfolding assert_group_admin
  assert_group_admin_lem room_id requester_id r w w' h =
      elim (Option-cases (find_room S room_id w)) [
        | inl missing ↦ absurd (ground arith)
        | inr (room, at) ↦
            elim (Option-cases (S.members.find_first (member_of room.id requester_id) w.members)) [
              | inl outside ↦ absurd (ground arith)
              | inr (m, inside) ↦
                  let (named, _) =
                    S.rooms.find_first_sound (λ x. text_eq x.id room_id) room w.rooms at in
                  let (row_of, holding) =
                    S.members.find_first_sound (member_of room.id requester_id) m w.members
                      inside in
                  let same : room.id ≡ room_id = ground (arith, text_eq_iff room.id room_id) in
                  (
                    ground arith,
                    ground (arith, same),
                    holding (λ x. holds as_admin x && member_of room_id requester_id x)
                        (ground (arith, same)),
                  )
            ]
      ]
