-- ===== src/Auth/Login.antt =====
-- `login` of src/modules/auth/auth.service.ts with its three methods.
pub mod Admission
use learn_nestjs.Common.{
  ◌-◌, Bool, true, false, not, ◌&&◌, Option, none, some, or_else, [], ◌∷◌, if◌then◌else◌,
}
use learn_nestjs.Common.Text.{Text, codes, text_eq}
use learn_nestjs.Common.Results.{
  Failure, Exec, bad_request, unauthorized, return, throw, gets, unless, ◌>>=◌, ◌>>◌,
}
use learn_nestjs.Database.{User, banned, user}
use learn_nestjs.Auth.Keys.{login}
use learn_nestjs.Auth.World.{Services, World, AuthContext, find_user, audit}
use learn_nestjs.Auth.Users.{
  option_eq, truthy, is_banned, resolve_tenant_id, find_user_by_identifier,
  assert_user_can_authenticate,
}
use learn_nestjs.Auth.Tokens.{TokenPair, issue_tokens}
use learn_nestjs.Auth.OtpGuards.{enforce_login_rate_limit}
use learn_nestjs.Auth.Otp.{SafeUser, OtpVerified, finish_login, verify_otp}

pub record LoginDto : Type 0 where
  pub identifier : Text
  pub password : Option Text
  pub code : Option Text
  pub provider : Option Text

-- The answers of `login`, by the method.
pub data LoggedIn : Type 0 where
  by_password : SafeUser → TokenPair → LoggedIn
  by_otp : OtpVerified → LoggedIn
  by_provider : User → TokenPair → LoggedIn

-- `delete safe.password` and the like: the secrets are left out of the answer.
unfoldable pub sanitize_user : User → User
sanitize_user u = record u {
  password = none;
  refresh_token = none;
  email_verify_token = none;
  password_reset_token = none;
  password_reset_expires = none;
}

abbrev pub password_required : Failure
password_required = bad_request "Password is required for this login method"

abbrev pub password_not_enabled : Failure
password_not_enabled = unauthorized "Password login is not enabled for this account"

abbrev pub invalid_credentials : Failure
invalid_credentials = unauthorized "Invalid credentials"

abbrev pub account_banned : Failure
account_banned = unauthorized "This account is banned"

abbrev pub oauth_not_connected : Failure
oauth_not_connected = unauthorized "OAuth account is not connected"

abbrev pub password_of : Option User → Option Text
password_of none = none
password_of (some u) = u.password

module _ (S : Services) where
  unfoldable pub login_with_otp : LoginDto → AuthContext → Exec (World S) OtpVerified
  login_with_otp dto ctx =
      verify_otp S
        (record {
          identifier = dto.identifier;
          code = or_else dto.code [];
          tenant_id = ctx.tenant_id;
          purpose = some login;
          token = none;
        })
        ctx

  -- `prisma.oAuthAccount.findFirst({ where: { provider, providerAccountId }, include: { user } })`
  unfoldable pub find_account_user : Option Text → Text → World S → Option User
  find_account_user provider identifier w =
      elim (S.accounts.find_first
        (λ a. option_eq (some a.provider) provider && text_eq a.provider_account_id identifier)
        w.accounts) [ none ↦ none | some account ↦ find_user S account.user_id w ]

  unfoldable pub enter_by_provider :
      Option User → LoginDto → Option Text → AuthContext → Exec (World S) (User × TokenPair)
  enter_by_provider none dto tenant_id ctx = throw oauth_not_connected
  enter_by_provider (some u) dto tenant_id ctx = do
    assert_user_can_authenticate S u
    tokens ← issue_tokens S u.id tenant_id ctx
    audit S "auth.user.login" (some u.id) tenant_id
        (("method", codes "oauth") ∷ ("provider", or_else dto.provider []) ∷ []) ctx
    return (sanitize_user u, tokens)

  unfoldable pub login_with_oauth_provider :
      LoginDto → AuthContext → Exec (World S) (User × TokenPair)
  login_with_oauth_provider dto ctx = do
    tenant_id ← resolve_tenant_id S ctx.tenant_id ctx.tenant_domain
    found ← gets (find_account_user dto.provider dto.identifier)
    enter_by_provider found dto tenant_id ctx

  -- `login` from where the account was found.
  unfoldable pub enter_by_password :
      Option User → Text → LoginDto → Option Text → AuthContext → Exec (World S) LoggedIn
  enter_by_password none password dto tenant_id ctx = throw password_not_enabled
  enter_by_password (some u) password dto tenant_id ctx = do
    unless (truthy u.password) password_not_enabled
    unless (S.bcrypt_compare password (or_else u.password [])) invalid_credentials
    unless (not (is_banned u.status)) account_banned
    assert_user_can_authenticate S u
    done ← finish_login S u tenant_id "password" dto.identifier ctx
    return (by_password done.0 done.1)

  unfoldable pub login_with_password : LoginDto → AuthContext → Exec (World S) LoggedIn
  login_with_password dto ctx = do
    unless (truthy dto.password) password_required
    tenant_id ← resolve_tenant_id S ctx.tenant_id ctx.tenant_domain
    found ← gets (find_user_by_identifier S dto.identifier tenant_id)
    enter_by_password found (or_else dto.password []) dto tenant_id ctx

  unfoldable pub dispatch_login : Bool → Bool → LoginDto → AuthContext → Exec (World S) LoggedIn
  dispatch_login true by_code dto ctx = do
    done ← login_with_oauth_provider dto ctx
    return (by_provider done.0 done.1)
  dispatch_login false true dto ctx = do done ← login_with_otp dto ctx; return (by_otp done)
  dispatch_login false false dto ctx = login_with_password dto ctx

  unfoldable pub login_user : LoginDto → AuthContext → Exec (World S) LoggedIn
  login_user dto ctx = do
    enforce_login_rate_limit S dto.identifier ctx.tenant_id
    dispatch_login (truthy dto.provider) (truthy dto.code) dto ctx
