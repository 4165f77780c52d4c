-- ===== src/Users/Service.antt =====
-- The operations of `UserService`.
use learn_nestjs.Common.{
  ℕ, Bool, true, false, not, ◌&&◌, ◌||◌, Option, none, some, is_some, or_else, List, [], ◌∷◌, map,
  if◌then◌else◌,
}
use learn_nestjs.Common.Text.{Text, text_eq}
use learn_nestjs.Common.Lists.{filter, contains}
use learn_nestjs.Common.Results.{Exec, ok, err, database}
use learn_nestjs.Database.{User}
use learn_nestjs.Auth.Users.{truthy}
use learn_nestjs.Database.Store.{has}
use learn_nestjs.Users.{
  UpdateUserDto, Parsed, Presence, UserServices, UserState, user_missing, no_update_data,
  username_taken, only_friends, is_accepted, matches_user, is_admin_role, parse_limit, map_presence,
  is_no_update, updated_user, befriends, friend_of, same_tenant, is_given,
}
use learn_nestjs.Sockets.{is_online}

module _ (S : UserServices) where
  unfoldable pub list_users : Option Text → UserState S → List User
  unfolding matches_user
  list_users search w = S.users.find_page (matches_user search) S.created_rank none none w.users

  unfoldable pub get_user_by_id : Text → Exec (UserState S) User
  get_user_by_id user_id w = elim (S.users.find_first (λ u. text_eq u.id user_id) w.users) [
    | none ↦ (err user_missing, w)
    | some u ↦ (ok u, w)
  ]

  -- Another user has the name.
  abbrev pub is_name_of_other : Text → Text → User → Bool
  is_name_of_other user_id name u = text_eq u.username name && not (text_eq u.id user_id)

  -- `user.update`: P2002 where the name is another's, P2025 where there is no such user.
  unfoldable pub store_update : Text → UpdateUserDto → User → Exec (UserState S) User
  store_update user_id dto u w =
      if is_given dto.username
        && has S.users (is_name_of_other user_id (or_else dto.username [])) w.users
      then (err (database "P2002"), w)
      else (
        ok (updated_user dto u),
        record w {
          users = S.users.update_many (λ u. text_eq u.id user_id) (updated_user dto) w.users;
        },
      )

  unfoldable pub update_me : Text → UpdateUserDto → Exec (UserState S) User
  unfolding store_update
  update_me user_id dto w =
      if is_no_update dto
      then (err no_update_data, w)
      else if truthy dto.username
          && is_some
              (S.users.find_first (is_name_of_other user_id (or_else dto.username [])) w.users)
      then (err username_taken, w)
      else elim (S.users.find_first (λ u. text_eq u.id user_id) w.users) [
        | none ↦ (err (database "P2025"), w)
        | some u ↦ store_update user_id dto u w
      ]

  abbrev pub with_presence : ℕ → Bool → User → User
  with_presence now true u = record u { is_online = true }
  with_presence now false u = record u { is_online = false; last_seen_at = some now }

  unfoldable pub set_presence : Text → Bool → Exec (UserState S) Unit
  set_presence user_id is_online w =
      if has S.users (λ u. text_eq u.id user_id) w.users
      then (
        ok tt,
        record w {
          users =
              S.users.update_many (λ u. text_eq u.id user_id) (with_presence w.now is_online)
                w.users;
        },
      )
      else (err (database "P2025"), w)

  unfoldable pub get_accepted_friend_ids : Text → UserState S → List Text
  get_accepted_friend_ids user_id w = map (friend_of user_id) (
      S.friendships.find_many
        (λ f.
          is_accepted f.status
          && (text_eq f.requester_id user_id || text_eq f.addressee_id user_id))
        w.friendships)

  -- Friends whom the search finds.
  abbrev pub is_listed_friend : List Text → Option Text → User → Bool
  is_listed_friend friend_ids search u = contains friend_ids u.id && matches_user search u

  -- `listFriendsPresence` from where the friends are known.
  unfoldable pub friends_presence : List Text → Option Text → Parsed → UserState S → List Presence
  unfolding matches_user parse_limit map_presence contains
  friends_presence [] search limit w = []
  friends_presence (id ∷ ids) search limit w = map (map_presence w.now w.sockets) (
      S.users.find_page (is_listed_friend (id ∷ ids) search) S.name_rank (some (parse_limit limit))
        none w.users)

  unfoldable pub list_friends_presence : Text → Option Text → Parsed → UserState S → List Presence
  unfolding get_accepted_friend_ids friends_presence
  list_friends_presence user_id search limit w =
      friends_presence (get_accepted_friend_ids user_id w) search limit w

  abbrev pub is_listed_active : Option Text → Option Text → Option Text → User → Bool
  is_listed_active role tenant_id search u =
      u.is_online && same_tenant role tenant_id u && matches_user search u

  unfoldable pub list_active_users :
      Text → Option Text → Option Text → Option Text → Parsed → UserState S → List Presence
  list_active_users requester_id role tenant_id search limit w =
      if not (is_admin_role role)
      then filter (λ p. p.is_online) (list_friends_presence requester_id search limit w)
      else map (map_presence w.now w.sockets) (
          S.users.find_page (is_listed_active role tenant_id search) S.name_rank
            (some (parse_limit limit)) none w.users)

  unfoldable pub can_view_presence : Text → Text → Option Text → UserState S → Bool
  can_view_presence requester_id target_id role w =
      text_eq requester_id target_id
      || is_admin_role role
      || is_some (S.friendships.find_first (befriends requester_id target_id) w.friendships)

  unfoldable pub get_presence_by_user_id : Text → Text → Option Text → Exec (UserState S) Presence
  unfolding can_view_presence map_presence
  get_presence_by_user_id target_id requester_id role w =
      elim (S.users.find_first (λ u. text_eq u.id target_id) w.users) [
        | none ↦ (err user_missing, w)
        | some u ↦
            if can_view_presence requester_id target_id role w
            then (ok (map_presence w.now w.sockets u), w)
            else (err only_friends, w)
      ]
