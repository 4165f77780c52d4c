-- ===== src/Samples/Models.antt =====
-- The definitions that the runs on the small servers compute with, under one name.
use learn_nestjs.Common.Text.{text_eq, to_lower, trim, includes, starts_with, drop, trim_start}
use learn_nestjs.Common.Lists.{any, every, filter, find, contains, add, add_all}
use learn_nestjs.Redis.Driver.{glob_free}
use learn_nestjs.Auth.Keys.{
  otp_key, otp_token_key, otp_resend_key, otp_invalid_attempt_key, otp_block_key, login_rate_key,
  refresh_session_key, refresh_session_prefix, refresh_token_key, presence_key, blacklist_key,
  scope,
}
use learn_nestjs.Auth.World.{audit}
use learn_nestjs.Auth.Users.{
  matches_identifier, resolve_tenant_id, find_user_by_identifier, assert_user_can_authenticate,
}
use learn_nestjs.Auth.Tokens.{
  build_authorization_claims, issue_tokens, refresh_tokens, revoke_user_sessions,
  blacklist_access_token, touch_presence, logout, del_each, print_number, generate_token_pair,
  claims_of, collect_role_permissions, collect_permissions, collect_roles,
}
use learn_nestjs.Auth.OtpGuards.{
  assert_otp_not_blocked, bump_otp_resend_counter, bump_otp_invalid_attempts, clear_otp_guard_keys,
  enforce_login_rate_limit,
}
use learn_nestjs.Auth.Otp.{
  mail_otp, issue_otp, find_stored_otp, delete_otp_payload, get_safe_user_by_id, otp_user,
  finish_verification, finish_reset, finish_login, finish_otp, accept_otp, judge_otp, verify_otp,
}
use learn_nestjs.Auth.Passwords.{
  hash_password, set_password, reset_password_by_token, has_reset_token,
}
use learn_nestjs.Auth.Login.{
  sanitize_user, enter_by_password, login_with_password, dispatch_login, login_user,
}
use learn_nestjs.Common.Maps.{lookup, insert, remove}
use learn_nestjs.Guards.{
  extract_token, admit_user, check_token, auth_guard, assigned_roles, roles_guard, get_string_value,
  owner_of, permissions_guard,
}
use learn_nestjs.Samples.Servers.{update_rows, scan}
use learn_nestjs.Redis

-- What the runs compute with.
unfoldable pub runs : Unit {0}
unfolding glob_free extract_token admit_user check_token auth_guard roles_guard permissions_guard
    assigned_roles owner_of get_string_value logout blacklist_access_token text_eq starts_with drop
    includes to_lower trim_start trim any every filter find contains add add_all lookup insert
    remove scope otp_key otp_token_key otp_resend_key otp_invalid_attempt_key otp_block_key
    login_rate_key refresh_session_key refresh_session_prefix refresh_token_key presence_key
    blacklist_key audit matches_identifier resolve_tenant_id find_user_by_identifier
    assert_user_can_authenticate print_number collect_roles collect_permissions
    collect_role_permissions claims_of generate_token_pair build_authorization_claims issue_tokens
    refresh_tokens del_each revoke_user_sessions touch_presence mail_otp issue_otp find_stored_otp
    delete_otp_payload get_safe_user_by_id otp_user finish_verification finish_reset finish_login
    finish_otp accept_otp judge_otp verify_otp sanitize_user enter_by_password login_with_password
    dispatch_login login_user has_reset_token hash_password set_password reset_password_by_token
    enforce_login_rate_limit assert_otp_not_blocked bump_otp_resend_counter
    bump_otp_invalid_attempts clear_otp_guard_keys Redis.get Redis.set Redis.del Redis.exists
    Redis.expire Redis.keys Redis.incr Redis.incrby update_rows scan
runs = tt
