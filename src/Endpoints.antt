-- ===== src/Endpoints.antt =====
-- The routes of `AuthController` in src/modules/auth/auth.controller.ts, with the guard that stands
-- before them.
--
-- The bodies come as the checked objects that the services take.
pub mod Exit
pub mod Profiles
pub mod Talks
pub mod Providers
use learn_nestjs.Common.{
  ◌-◌, false, not, Option, none, some, or_else, or_option, [], if◌then◌else◌, ◌==◌,
}
use learn_nestjs.Common.Text.{Text, codes, starts_with, drop}
use learn_nestjs.Common.Results.{Failure, Result, Exec, ok, err, bad_request}
use learn_nestjs.Auth.World.{Services, World, AuthContext, no_context}
use learn_nestjs.Auth.Users.{option_eq, truthy}
use learn_nestjs.Auth.Tokens.{TokenPair, refresh_tokens, logout}
use learn_nestjs.Auth.Otp.{
  OtpSendDto, OtpVerifyDto, OtpSent, SafeUser, OtpVerified, send_otp, get_safe_user_by_id,
  verify_otp,
}
use learn_nestjs.Auth.Passwords.{
  reset_password_by_token, change_password, forgot_password, verify_email_token, ForgotPasswordDto,
  ForgotAnswer,
}
use learn_nestjs.Auth.Login.{LoginDto, LoggedIn, login_user}
use learn_nestjs.Guards.{AuthenticatedUser, auth_guard}
use learn_nestjs.Auth.Register.{RegisterDto, Registered, register}

-- What the routes read of a request beside its body.
pub record Incoming : Type 0 where
  pub authorization : Option Text
  pub access_cookie : Option Text
  pub tenant_header : Option Text
  pub domain_header : Option Text
  pub user_agent : Option Text
  pub ip : Option Text

pub data VerifyPlatform : Type 0 where
  web app : VerifyPlatform

pub data VerifyResult : Type 0 where
  success failure : VerifyResult

-- The URLs of the configuration.
pub record RedirectUrls : Type 0 where
  pub app_success : Text
  pub app_failure : Text
  pub web_success : Text
  pub web_failure : Text

-- The URL of a redirect, with its search parameters; `message` is the one of the error.
pub record Redirect : Type 0 where
  pub url : Text
  pub status : VerifyResult
  pub platform : VerifyPlatform
  pub message : Option Failure

abbrev pub verification_token_required : Failure
verification_token_required = bad_request "token is required"

abbrev from_request : Incoming → AuthContext
from_request r = record {
  tenant_id = r.tenant_header;
  tenant_domain = r.domain_header;
  user_agent = r.user_agent;
  ip_address = r.ip;
  access_token = none;
}

-- `platform === 'app' ? 'app' : 'web'`
abbrev pub resolved_platform : Option Text → VerifyPlatform
resolved_platform platform = if option_eq platform (some (codes "app")) then app else web

unfoldable pub get_verify_email_redirect_url : RedirectUrls → VerifyPlatform → VerifyResult → Text
get_verify_email_redirect_url urls app success = urls.app_success
get_verify_email_redirect_url urls app failure = urls.app_failure
get_verify_email_redirect_url urls web success = urls.web_success
get_verify_email_redirect_url urls web failure = urls.web_failure

-- The access token that `logout` reads: of the header only.
unfoldable pub bearer_token : Option Text → Option Text
unfolding starts_with drop
bearer_token none = none
bearer_token (some header) =
    if starts_with header (codes "Bearer ") then some (drop 7 header) else none

abbrev pub logout_context : Incoming → AuthContext
logout_context r = record no_context {
  access_token = bearer_token r.authorization;
  user_agent = r.user_agent;
  ip_address = r.ip;
}

-- `@CurrentUser('id')`; a request that passes `AuthGuard` on these routes has a user.
abbrev pub current_user_id : Option AuthenticatedUser → Text
current_user_id none = []
current_user_id (some u) = u.id

module _ (S : Services) where
  abbrev when_admitted :
      {A : Type 0}
      → Result (Option AuthenticatedUser)
      → (Text → Exec (World S) A)
      → Exec (World S) A
  when_admitted (err e) handler w = (err e, w)
  when_admitted (ok u) handler w = handler (current_user_id u) w

  -- `@UseGuards(AuthGuard)` before a handler.
  unfoldable pub guarded : {A : Type 0} → Incoming → (Text → Exec (World S) A) → Exec (World S) A
  unfolding auth_guard
  guarded r handler w =
      when_admitted (auth_guard S false r.authorization r.access_cookie w) handler w

  unfoldable pub post_register : RegisterDto → Incoming → Exec (World S) Registered
  unfolding register
  post_register dto r = register S dto (from_request r)

  unfoldable pub post_login : LoginDto → Incoming → Exec (World S) LoggedIn
  unfolding login_user
  post_login dto r = login_user S dto (from_request r)

  unfoldable pub post_otp_send : OtpSendDto → Incoming → Exec (World S) OtpSent
  unfolding send_otp
  post_otp_send dto r = send_otp S dto (record no_context {
    tenant_id = or_option dto.tenant_id r.tenant_header;
    tenant_domain = r.domain_header;
  })

  unfoldable pub post_otp_verify : OtpVerifyDto → Incoming → Exec (World S) OtpVerified
  unfolding verify_otp
  post_otp_verify dto r = verify_otp S dto (record (from_request r) { tenant_id = dto.tenant_id })

  unfoldable pub post_refresh_token : Text → Incoming → Exec (World S) TokenPair
  unfolding refresh_tokens
  post_refresh_token refresh_token r =
      refresh_tokens S refresh_token (record (from_request r) { tenant_domain = none })

  abbrev redirect_verification_reply : RedirectUrls → VerifyPlatform → Result (Unit {0}) → Redirect
  redirect_verification_reply urls platform (ok done) = record {
    url = get_verify_email_redirect_url urls platform success;
    status = success;
    platform = platform;
    message = none;
  }
  redirect_verification_reply urls platform (err e) = record {
    url = get_verify_email_redirect_url urls platform failure;
    status = failure;
    platform = platform;
    message = some e;
  }

  unfoldable pub get_verify_email :
      RedirectUrls → Option Text → Option Text → Exec (World S) Redirect
  unfolding verify_email_token get_verify_email_redirect_url
  get_verify_email urls token platform w =
      if not (truthy token)
      then (err verification_token_required, w)
      else (let (r, verified) = verify_email_token S (or_else token []) w in
          (ok (redirect_verification_reply urls (resolved_platform platform) r), verified))

  unfoldable pub post_verify_email : Text → Exec (World S) Unit
  unfolding verify_email_token
  post_verify_email token = verify_email_token S token

  unfoldable pub post_forgot_password : ForgotPasswordDto → Exec (World S) ForgotAnswer
  unfolding forgot_password
  post_forgot_password dto = forgot_password S dto

  unfoldable pub post_reset_password : Text → Text → Exec (World S) Unit
  unfolding reset_password_by_token
  post_reset_password token new_password = reset_password_by_token S token new_password

  -- `getMe`
  unfoldable pub get_me : Incoming → Exec (World S) SafeUser
  unfolding guarded get_safe_user_by_id
  get_me r = guarded r (get_safe_user_by_id S)

  unfoldable pub post_logout : Incoming → Exec (World S) Unit
  unfolding guarded logout bearer_token
  post_logout r = guarded r (λ id. logout S id (logout_context r))

  unfoldable pub post_change_password : Text → Text → Incoming → Exec (World S) Unit
  unfolding guarded change_password
  post_change_password old new r = guarded r (λ id. change_password S id old new)
