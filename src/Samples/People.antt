-- ===== src/Samples/People.antt =====
-- Users and friendships kept in lists, and the theorem on presence applied to them.
use learn_nestjs.Common.{◌≤◌, ◌≡◌, refl, true, ◌&&◌, none, [], ◌∷◌, map, arith}
use learn_nestjs.Common.Text.{codes, text_eq_refl}
use learn_nestjs.Common.Lists.{length, every}
use learn_nestjs.Chat.World.{same_user}
use learn_nestjs.Chat.Rooms.{contains_text}
use learn_nestjs.Samples.Tables.{list_store, page, make_row, add_each}
use learn_nestjs.Samples.Stores.{put_in, sort, front, taken, behind, after_cursor}
use learn_nestjs.Samples.Models.{runs}
use learn_nestjs.Samples.World.{ann}
use learn_nestjs.Users.{
  accepted, Friendship, not_finite, same_friendship, UserServices, UserState, matches_user,
  is_admin_role, parse_limit, format_last_seen, map_presence,
}
use learn_nestjs.Sockets.{is_online}
use learn_nestjs.Users.Service.{
  get_accepted_friend_ids, friends_presence, list_friends_presence, list_active_users,
  can_view_presence,
}
use learn_nestjs.Users.Visibility.{is_answered, list_active_users_sound}

unfoldable people : Unit {0}
unfolding runs page make_row add_each put_in sort front taken behind after_cursor is_online
    contains_text matches_user is_admin_role parse_limit format_last_seen map_presence
    get_accepted_friend_ids friends_presence list_friends_presence list_active_users
    can_view_presence
people = tt

same_friendship_refl : (f : Friendship) → same_friendship f f ≡ true
same_friendship_refl f = ground (arith, text_eq_refl f.requester_id, text_eq_refl f.addressee_id)

abbrev directory : UserServices
directory = record {
  users = list_store same_user (λ u. text_eq_refl u.id);
  friendships = list_store same_friendship same_friendship_refl;
  created_rank = λ u. 0;
  name_rank = λ u. length u.full_name;
}

-- `a`, whose socket is open, and `b` are friends; `c` is nobody's friend.
abbrev crowd : UserState directory
crowd = record {
  users =
      record ann { id = codes "a" }
      ∷ record ann { id = codes "b"; is_online = true }
      ∷ record ann { id = codes "c"; is_online = true }
      ∷ [];
  friendships =
      record { requester_id = codes "b"; addressee_id = codes "a"; status = accepted } ∷ [];
  sockets = record { user_sockets = []; socket_user = [] };
  now = 5;
}

-- `b` alone is shown to `a`.
shown_to_a :
    map (λ p. p.user_id) (list_active_users directory (codes "a") none none none not_finite crowd)
    ≡ codes "b" ∷ []
unfolding people
shown_to_a = refl

list_active_users_sound_example :
    (every
        (λ p. is_answered directory (codes "a") none crowd p.user_id && p.is_online)
        (list_active_users directory (codes "a") none none none not_finite crowd)
      ≡ true)
    × (length (list_active_users directory (codes "a") none none none not_finite crowd) ≤ 200)
unfolding people
list_active_users_sound_example =
    list_active_users_sound directory (codes "a") none none none not_finite crowd
