-- ===== src/Users.antt =====
-- `UserService` of src/modules/user/user.service.ts: profiles and who sees whose presence.
--
-- The order of `createdAt` and the order that the database gives to full names are parameters: a row
-- with a higher rank comes first. A limit of a request comes as what `Number` makes of it. Answers
-- leave out the columns that no caller of the model reads.
pub mod Service
pub mod Visibility
use learn_nestjs.Common.{
  ℕ, ◌-◌, ◌/◌, Bool, true, false, not, ◌&&◌, ◌||◌, Option, none, some, or_else, [], if◌then◌else◌,
  ◌==◌, ltb, leb,
}
use learn_nestjs.Common.Text.{Text, codes, text_eq, is_empty, to_lower}
use learn_nestjs.Common.Results.{Failure, bad_request, forbidden, not_found}
use learn_nestjs.Redis.Driver.{number}
use learn_nestjs.Database.{User, super_admin, admin}
use learn_nestjs.Auth.Users.{option_eq, truthy}
use learn_nestjs.Database.Store.{Store}
use learn_nestjs.Chat.World.{same_user}
use learn_nestjs.Chat.Rooms.{contains_text, contains_insensitive}
use learn_nestjs.Chat.Rooms.Membership.{found}
use learn_nestjs.Sockets.{Connections, is_online}

pub data FriendshipStatus : Type 0 where
  pending accepted blocked : FriendshipStatus

pub record Friendship : Type 0 where
  pub requester_id : Text
  pub addressee_id : Text
  pub status : FriendshipStatus

pub record UpdateUserDto : Type 0 where
  pub display_name : Option Text
  pub username : Option Text
  pub avatar : Option Text
  pub bio : Option Text

-- A number of JavaScript, as far as a limit depends on it: `positive` comes with its floor.
pub data Parsed : Type 0 where
  not_finite not_positive : Parsed
  positive : ℕ → Parsed

pub data LastSeen : Type 0 where
  online just_now : LastSeen
  minutes_ago hours_ago days_ago on_date : ℕ → LastSeen

pub record Presence : Type 0 where
  pub user_id : Text
  pub full_name : Text
  pub username : Text
  pub email : Option Text
  pub avatar : Option Text
  pub is_online : Bool
  pub last_seen_at : Option ℕ
  pub last_seen_text : LastSeen

abbrev pub same_friendship : Friendship → Friendship → Bool
same_friendship a b = text_eq a.requester_id b.requester_id && text_eq a.addressee_id b.addressee_id

pub record UserServices : Type 1 where
  pub users : Store same_user
  pub friendships : Store same_friendship
  pub created_rank : User → ℕ
  pub name_rank : User → ℕ

pub record UserState (S : UserServices) : Type 0 where
  pub users : S.users.State
  pub friendships : S.friendships.State
  pub sockets : Connections
  pub now : ℕ

abbrev pub user_missing : Failure
user_missing = not_found "User not found"

abbrev pub no_update_data : Failure
no_update_data = bad_request "No update data provided"

abbrev pub username_taken : Failure
username_taken = bad_request "Username already taken"

abbrev pub only_friends : Failure
only_friends = forbidden "You can only view your friends presence"

abbrev pub is_accepted : FriendshipStatus → Bool
is_accepted accepted = true
is_accepted _ = false

-- The `OR` clause of a search, absent where the search is.
unfoldable pub matches_user : Option Text → User → Bool
unfolding contains_text
matches_user none u = true
matches_user (some search) u =
    is_empty search
    || contains_insensitive (some u.username) search
    || contains_insensitive (some u.full_name) search
    || contains_insensitive u.email search

-- `role?.toUpperCase()`, compared without regard to case.
unfoldable pub is_admin_role : Option Text → Bool
unfolding to_lower text_eq
is_admin_role role =
    let normalized = to_lower (or_else role []) in
    text_eq normalized (codes "admin") || text_eq normalized (codes "super_admin")

abbrev pub is_super_admin : Option Text → Bool
is_super_admin role = text_eq (to_lower (or_else role [])) (codes "super_admin")

unfoldable pub parse_limit : Parsed → ℕ
parse_limit not_finite = 100
parse_limit not_positive = 100
parse_limit (positive n) = if leb n 200 then n else 200

-- `formatLastSeen`, by the milliseconds since.
unfoldable pub format_last_seen : ℕ → Option ℕ → LastSeen
format_last_seen now none = online
format_last_seen now (some at) =
    let diff_minutes = (now - at) / 60000 in
    let diff_hours = diff_minutes / 60 in
    let diff_days = diff_hours / 24 in
    if diff_minutes == 0
    then just_now
    else if ltb diff_minutes 60
    then minutes_ago diff_minutes
    else if ltb diff_hours 24
    then hours_ago diff_hours
    else if ltb diff_days 7
    then days_ago diff_days
    else on_date at

unfoldable pub map_presence : ℕ → Connections → User → Presence
unfolding is_online format_last_seen
map_presence now sockets u =
    let online = is_online u.id sockets || u.is_online in
    let last_seen_at = if online then none else u.last_seen_at in
    record {
      user_id = u.id;
      full_name = u.full_name;
      username = u.username;
      email = u.email;
      avatar = u.avatar;
      is_online = online;
      last_seen_at = last_seen_at;
      last_seen_text = format_last_seen now last_seen_at;
    }

abbrev pub is_given : Option Text → Bool
is_given none = false
is_given (some t) = true

-- `!Object.keys(dto).length`
abbrev pub is_no_update : UpdateUserDto → Bool
is_no_update dto =
    not (
      is_given dto.display_name || is_given dto.username || is_given dto.avatar || is_given dto.bio)

abbrev pub first_given : Option Text → Option Text → Option Text
first_given none b = b
first_given (some a) b = some a

abbrev pub updated_user : UpdateUserDto → User → User
updated_user dto u = record u {
  full_name = or_else dto.display_name u.full_name;
  username = or_else dto.username u.username;
  avatar = first_given dto.avatar u.avatar;
  bio = first_given dto.bio u.bio;
}

-- The two are friends, whoever asked.
abbrev pub befriends : Text → Text → Friendship → Bool
befriends a b f =
    is_accepted f.status
    && ((text_eq f.requester_id a && text_eq f.addressee_id b)
        || (text_eq f.requester_id b && text_eq f.addressee_id a))

abbrev pub friend_of : Text → Friendship → Text
friend_of user_id f = if text_eq f.requester_id user_id then f.addressee_id else f.requester_id

abbrev pub same_tenant : Option Text → Option Text → User → Bool
same_tenant role tenant_id u =
    is_super_admin role || not (truthy tenant_id) || option_eq u.tenant_id tenant_id
