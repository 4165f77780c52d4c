-- ===== src/Endpoints/Profiles.antt =====
-- The routes of `UserController` in src/modules/user/user.controller.ts, behind `AuthGuard`.
use learn_nestjs.Common.{Option, none, List, if◌then◌else◌}
use learn_nestjs.Common.Text.{Text}
use learn_nestjs.Common.Results.{Failure, Exec, err, forbidden}
use learn_nestjs.Database.{User}
use learn_nestjs.Users.{UpdateUserDto, Parsed, Presence, UserServices, UserState}
use learn_nestjs.Users.Service.{
  list_users, get_user_by_id, update_me, list_friends_presence, list_active_users,
  can_view_presence, get_presence_by_user_id,
}

-- What `@CurrentUser` reads of the user whom the guard found.
pub record Requester : Type 0 where
  pub id : Text
  pub role : Option Text
  pub tenant_id : Option Text

abbrev pub only_friends_presence : Failure
only_friends_presence = forbidden "You can only view your friends presence"

module _ (S : UserServices) where
  unfoldable pub get_users_me : Requester → Exec (UserState S) User
  unfolding get_user_by_id
  get_users_me r = get_user_by_id S r.id

  unfoldable pub patch_users_me : Requester → UpdateUserDto → Exec (UserState S) User
  unfolding update_me
  patch_users_me r dto = update_me S r.id dto

  unfoldable pub get_users : Option Text → UserState S → List User
  unfolding list_users
  get_users search w = list_users S search w

  unfoldable pub get_presence_me : Requester → Exec (UserState S) Presence
  unfolding get_presence_by_user_id
  get_presence_me r = get_presence_by_user_id S r.id r.id none

  unfoldable pub get_presence_friends :
      Requester → Option Text → Parsed → UserState S → List Presence
  unfolding list_friends_presence
  get_presence_friends r search limit w = list_friends_presence S r.id search limit w

  unfoldable pub get_presence_active :
      Requester → Option Text → Parsed → UserState S → List Presence
  unfolding list_active_users
  get_presence_active r search limit w = list_active_users S r.id r.role r.tenant_id search limit w

  unfoldable pub get_presence_of : Requester → Text → Exec (UserState S) Presence
  unfolding can_view_presence get_presence_by_user_id
  get_presence_of r target_id w =
      if can_view_presence S r.id target_id r.role w
      then get_presence_by_user_id S target_id r.id r.role w
      else (err only_friends_presence, w)

  unfoldable pub get_user : Text → Exec (UserState S) User
  unfolding get_user_by_id
  get_user user_id = get_user_by_id S user_id
