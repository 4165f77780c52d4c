-- ===== src/Samples/Accounts.antt =====
-- The theorems on logins, sessions, passwords and guards applied at concrete inputs.
use learn_nestjs.Session.{revoke_all}
use learn_nestjs.Session.Agreement.{revoke_all-revoke_user_sessions}
use learn_nestjs.Common.{◌≡◌, ◌⊎◌, refl, subst, true, false, Option, none, some, [], ◌∷◌, arith}
use learn_nestjs.Common.Text.{Text, codes}
use learn_nestjs.Common.Results.{Result, ok, err, is_ok}
use learn_nestjs.Database.{User}
use learn_nestjs.Auth.Keys.{phone, login, refresh_session_key}
use learn_nestjs.Auth.World.{World, no_context, OtpPayload, JwtPayload, cache_get, find_user}
use learn_nestjs.Auth.Users.{find_user_by_identifier}
use learn_nestjs.Auth.Tokens.{
  TokenPair, issue_tokens, refresh_tokens, revoke_user_sessions, logout, invalid_refresh_token,
  refresh_token_revoked,
}
use learn_nestjs.Auth.Otp.{finish_otp}
use learn_nestjs.Auth.Passwords.{reset_password_by_token, has_reset_token}
use learn_nestjs.Auth.Tokens.Revocation.{IsPlain, revoke_user_sessions_exact, refresh_tokens_once}
use learn_nestjs.Auth.Login.{LoggedIn, by_provider, login_user}
use learn_nestjs.Common.Maps.{Map}
use learn_nestjs.Guards.{AuthenticatedUser, Field, string, token_revoked, check_token}
use learn_nestjs.Samples.Models.{runs}
use learn_nestjs.Auth.Login.Admission.{login_user_sound, finish_otp_banned, MayLogIn, AnswersFor}
use learn_nestjs.Auth.Passwords.Reset.{reset_password_sound, with_password}
use learn_nestjs.Guards.Laws.{auth_guard_sound, IsAdmitted}
use learn_nestjs.Guards.Logout.{logout_revokes}
use learn_nestjs.Samples.World.{
  servers, world, world_with, ann, banned_ann, ann_id, ann_phone, from_tenant, password_login,
}

abbrev value : {A : Type 0} → A → Result A → A
value d (ok a) = a
value d (err e) = d

abbrev pair : TokenPair
pair = record { access_token = codes "au1"; refresh_token = codes "ru1"; user_role = codes "USER" }

ann_id-IsPlain : IsPlain ann_id
unfolding runs
ann_id-IsPlain = record { colon_free = refl; pattern_free = refl }

-- The account is the only one.
only_ann : (u : User) → find_user servers u.id world ≡ some u → ann ≡ u
unfolding runs
only_ann u h = ground arith

-- A session of the account.
abbrev session_world : World servers
session_world = (issue_tokens servers ann_id (some (codes "t1")) from_tenant world).1

revoke_user_sessions_exact_example :
    cache_get servers
      (refresh_session_key ann_id (codes "ru1"))
      (revoke_user_sessions servers ann_id session_world).1
    ≡ none
unfolding runs
revoke_user_sessions_exact_example =
    revoke_user_sessions_exact servers ann_id ann_id (codes "ru1") session_world ann_id-IsPlain
      ann_id-IsPlain

abbrev ann_claims : JwtPayload
ann_claims = record {
  sub = ann_id;
  tenant_id = some (codes "t1");
  user_role = codes "USER";
  roles = [];
  permissions = [];
  exp = none;
}

abbrev exchanged : World servers
exchanged = (refresh_tokens servers (codes "ru1") from_tenant session_world).1

refresh_tokens_once_example :
    ((refresh_tokens servers (codes "ru1") no_context (record exchanged { now = 2000000 })).0
      ≡ err refresh_token_revoked)
    ⊎ ((refresh_tokens servers (codes "ru1") no_context (record exchanged { now = 2000000 })).0
        ≡ err invalid_refresh_token)
unfolding runs
refresh_tokens_once_example =
    refresh_tokens_once servers (codes "ru1") from_tenant no_context pair session_world exchanged
      2000000 (λ n p q a b. ground arith) refl

abbrev entered : LoggedIn
entered = value (by_provider ann pair) (login_user servers password_login from_tenant world).0

login_user_sound_example :
    (t : Option Text) × (u : User) × (find_user_by_identifier servers (codes "ann") t world
      ≡ some u)
    × (true ≡ true)
    × MayLogIn servers (codes "secret") u
    × AnswersFor servers u t entered world (login_user servers password_login from_tenant world).1
unfolding runs
login_user_sound_example =
    login_user_sound servers password_login from_tenant entered world
      (login_user servers password_login from_tenant world).1 refl refl refl

abbrev login_code : OtpPayload
login_code = record {
  identifier = ann_phone;
  channel = phone;
  code = codes "123456";
  purpose = login;
  tenant_id = some (codes "t1");
  token = codes "a";
  user_id = some ann_id;
  created_at = 1000000;
}

finish_otp_banned_example :
    is_ok
      (finish_otp servers login login_code banned_ann ann_phone
        (some (codes "t1"))
        from_tenant
        (world_with banned_ann)).0
    ≡ true
unfolding runs
finish_otp_banned_example =
    finish_otp_banned servers login_code banned_ann ann_phone (some (codes "t1")) from_tenant
      (world_with banned_ann) refl refl

reset_password_sound_example :
    (u : User) × (find_user servers u.id world ≡ some u)
    × (has_reset_token (codes "reset") 1000000 u ≡ true)
    × (find_user servers u.id
          (reset_password_by_token servers (codes "reset") (codes "new") world).1
        ≡ some (with_password (codes "new") u))
    × ((h : Text)
        → cache_get servers
            (refresh_session_key u.id h)
            (reset_password_by_token servers (codes "reset") (codes "new") world).1
          ≡ none)
unfolding runs
reset_password_sound_example =
    reset_password_sound servers (codes "reset") (codes "new") world
      (reset_password_by_token servers (codes "reset") (codes "new") world).1
      (λ u h. subst (λ v. IsPlain v.id) (only_ann u h) ann_id-IsPlain) refl

abbrev ann_request : AuthenticatedUser
ann_request = record { id = ann_id; role = some (codes "USER"); roles = []; permissions = [] }

auth_guard_sound_example : IsAdmitted servers (some (codes "Bearer au1")) none world ann_request
unfolding runs
auth_guard_sound_example =
    auth_guard_sound servers false (some (codes "Bearer au1")) none world ann_request refl

logout_revokes_example :
    check_token servers
      (codes "au1")
      (logout servers ann_id (record from_tenant { access_token = some (codes "au1") }) world).1
    ≡ err token_revoked
unfolding runs
logout_revokes_example =
    logout_revokes servers ann_id (codes "au1") ann_claims
      (record from_tenant { access_token = some (codes "au1") }) world refl refl refl

abbrev of_ann : Map Field
of_ann = (codes "userId", string ann_id) ∷ []

revoke_all-revoke_user_sessions_example :
    cache_get servers
      (refresh_session_key ann_id (codes "ru1"))
      (revoke_all servers ann_id session_world).1
    ≡ cache_get servers
        (refresh_session_key ann_id (codes "ru1"))
        (revoke_user_sessions servers ann_id session_world).1
unfolding runs
revoke_all-revoke_user_sessions_example =
    revoke_all-revoke_user_sessions servers ann_id (refresh_session_key ann_id (codes "ru1"))
      session_world refl
