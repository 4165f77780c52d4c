-- ===== src/Auth/Otp.antt =====
-- `sendOtp` and `verifyOtp` of src/modules/auth/auth.service.ts, with `findStoredOtp`,
-- `deleteOtpPayload` and `getSafeUserById`. The wording of the answers is not modelled.
pub mod Delivery
pub mod Lockout
pub mod Frames
pub mod SingleUse
pub mod Wrong
use learn_nestjs.Common.{
  ℕ, ◌+◌, ◌-◌, ◌*◌, ◌/◌, Bool, true, false, not, ◌&&◌, Option, none, some, is_some, or_else,
  or_option, List, [], ◌∷◌, String, if◌then◌else◌, ◌==◌,
}
use learn_nestjs.Common.Text.{Text, codes, text_eq, is_empty, to_lower, trim}
use learn_nestjs.Common.Lists.{every}
use learn_nestjs.Common.Results.{
  Failure, Result, Exec, ok, err, bad_request, unauthorized, not_found, return, throw, gets, unless,
  when, ◌>>=◌, ◌>>◌,
}
use learn_nestjs.Redis.Driver.{Stored, json}
use learn_nestjs.Database.{User, UserStatus, active, Role}
use learn_nestjs.Auth.Keys.{
  OtpChannel, OtpPurpose, email, phone, login, account_verification, password_reset, otp_key,
  otp_token_key, channel_text,
}
use learn_nestjs.Auth.World.{
  Services, World, AuthContext, OtpPayload, Payload, otp, otp_code, otp_phone_copy, cache_get,
  cache_set, cache_del, find_user, update_user, send_mail, generate_secure_token, audit,
}
use learn_nestjs.Auth.Users.{
  truthy, resolve_otp_channel, resolve_otp_purpose, resolve_tenant_id, find_user_by_identifier,
  find_user_by_identifier_across_tenants, assert_user_can_authenticate,
}
use learn_nestjs.Auth.Tokens.{
  TokenPair, generate_otp_code, build_authorization_claims, issue_tokens, touch_presence,
}
use learn_nestjs.Auth.OtpGuards.{
  assert_otp_not_blocked, bump_otp_resend_counter, bump_otp_invalid_attempts, clear_otp_guard_keys,
  otp_ttl_seconds, password_reset_otp_ttl_seconds,
}

pub record OtpSendDto : Type 0 where
  pub identifier : Text
  pub channel : Option OtpChannel
  pub tenant_id : Option Text
  pub purpose : Option OtpPurpose

pub record OtpVerifyDto : Type 0 where
  pub identifier : Text
  pub code : Text
  pub tenant_id : Option Text
  pub purpose : Option OtpPurpose
  pub token : Option Text

-- The `data` of the answer of `sendOtp`.
pub record OtpSent : Type 0 where
  pub channel : OtpChannel
  pub purpose : OtpPurpose
  pub expires_in : ℕ
  pub verification_token : Option Text
  pub code : Option Text

pub record SafeUser : Type 0 where
  pub id : Text
  pub full_name : Text
  pub username : Text
  pub email : Option Text
  pub phone : Option Text
  pub avatar : Option Text
  pub role : Role
  pub status : UserStatus
  pub tenant_id : Option Text
  pub is_email_verified : Bool
  pub is_phone_verified : Bool
  pub roles : List Text
  pub permissions : List Text

-- The three answers of `verifyOtp`.
pub data OtpVerified : Type 0 where
  verified : OtpChannel → OtpVerified
  reset_allowed : (reset_token : Text) → (expires_in : ℕ) → OtpVerified
  logged_in : SafeUser → TokenPair → OtpVerified

-- 10 * 60 * 1000
abbrev pub password_reset_token_ttl_ms : ℕ
password_reset_token_ttl_ms = 10 * 60 * 1000

abbrev pub invalid_or_expired_otp : Failure
invalid_or_expired_otp = unauthorized "Invalid or expired OTP"

abbrev pub otp_user_not_found : Failure
otp_user_not_found = not_found "User not found for OTP identifier"

abbrev pub user_not_found : Failure
user_not_found = not_found "User not found"

abbrev pub is_account_verification : OtpPurpose → Bool
is_account_verification account_verification = true
is_account_verification _ = false

abbrev pub is_password_reset : OtpPurpose → Bool
is_password_reset password_reset = true
is_password_reset _ = false

abbrev pub otp_ttl : OtpPurpose → ℕ
otp_ttl password_reset = password_reset_otp_ttl_seconds
otp_ttl _ = otp_ttl_seconds

abbrev pub shown_code : OtpChannel → Text → Option Text
shown_code email code = none
shown_code phone code = some code

abbrev pub id_of : Option User → Option Text
id_of none = none
id_of (some u) = some u.id

abbrev pub tenant_of : Option User → Option Text
tenant_of none = none
tenant_of (some u) = u.tenant_id

abbrev pub otp_of : Option (Stored Payload) → Option OtpPayload
otp_of (some (json (otp payload))) = some payload
otp_of _ = none

-- What `verifyOtp` writes for a verified account.
abbrev pub mark_verified : OtpChannel → User → User
mark_verified email u = record u {
  is_email_verified = true;
  email_verify_token = none;
  status = active;
}
mark_verified phone u = record u { is_phone_verified = true; status = active }

abbrev pub by_token : Text → Option OtpPayload → Option OtpPayload
by_token identifier none = none
by_token identifier (some payload) =
    if text_eq (to_lower payload.identifier) (to_lower identifier) then some payload else none

-- `stored && stored.code === dto.otp`
abbrev pub code_matches : Option OtpPayload → Text → Option OtpPayload
code_matches none code = none
code_matches (some stored) code = if text_eq stored.code code then some stored else none

module _ (S : Services) where
  unfoldable pub lift : {A : Type 0} → Result A → Exec (World S) A
  lift r w = (r, w)

  -- The checks of `sendOtp` for the verification of an account.
  unfoldable pub check_unverified : OtpChannel → Option User → Exec (World S) Unit
  check_unverified channel none = throw otp_user_not_found
  check_unverified email (some u) =
      unless (not u.is_email_verified) (bad_request "Email is already verified")
  check_unverified phone (some u) =
      unless (not u.is_phone_verified) (bad_request "Phone is already verified")

  -- The mails of `sendOtp`: the code, or a copy of it to the mail address of the account.
  unfoldable pub mail_otp :
      OtpChannel → OtpPurpose → Text → Text → ℕ → Option User → Exec (World S) Unit
  mail_otp email purpose identifier code ttl found =
      send_mail S (record { to_address = identifier; content = otp_code purpose code ttl })
  mail_otp phone purpose identifier code ttl none = return tt
  mail_otp phone purpose identifier code ttl (some u) = elim u.email [
    | none ↦ return tt
    | some address ↦
        when (not (is_empty address))
          (send_mail S (record { to_address = address; content = otp_phone_copy purpose code ttl }))
  ]

  -- `sendOtp` from where a code is issued.
  unfoldable pub issue_otp :
      OtpChannel → OtpPurpose → Text → Option Text → Text → Option User → Exec (World S) OtpSent
  issue_otp channel purpose identifier tenant_id code found = do
    verification_token ← generate_secure_token S
    now ← gets (λ w. w.now)
    let payload : OtpPayload = record {
      identifier = identifier;
      channel = channel;
      code = code;
      purpose = purpose;
      tenant_id = tenant_id;
      token = verification_token;
      user_id = id_of found;
      created_at = now;
    }
    let ttl = otp_ttl purpose
    bump_otp_resend_counter S purpose identifier tenant_id ttl
    cache_set S (otp_key purpose channel identifier tenant_id) (json (otp payload)) ttl
    cache_set S (otp_token_key verification_token) (json (otp payload)) ttl
    mail_otp channel purpose identifier code ttl found
    return (record {
      channel = channel;
      purpose = purpose;
      expires_in = ttl;
      verification_token = some verification_token;
      code = shown_code channel code;
    })

  unfoldable pub send_otp : OtpSendDto → AuthContext → Exec (World S) OtpSent
  send_otp dto ctx = do
    let identifier = trim dto.identifier
    any_tenant ← gets (find_user_by_identifier_across_tenants S identifier)
    let purpose = resolve_otp_purpose dto.purpose any_tenant
    tenant_id ←
        resolve_tenant_id S
          (or_option dto.tenant_id (or_option ctx.tenant_id (tenant_of any_tenant)))
          ctx.tenant_domain
    found ← gets (find_user_by_identifier S identifier tenant_id)
    channel ← lift (resolve_otp_channel dto.channel identifier found)
    assert_otp_not_blocked S purpose identifier tenant_id
    code ← generate_otp_code S 6
    when (is_account_verification purpose) (check_unverified channel found)
    if is_password_reset purpose && not (is_some found)
        then return (record {
          channel = channel;
          purpose = purpose;
          expires_in = password_reset_otp_ttl_seconds;
          verification_token = none;
          code = none;
        })
        else issue_otp channel purpose identifier tenant_id code found

  unfoldable pub find_stored_otp :
      Text → Option Text → OtpPurpose → Option Text → World S → Option OtpPayload
  find_stored_otp identifier tenant_id purpose token w =
      let given : Option OtpPayload = elim token [
        | none ↦ none
        | some t ↦
            if is_empty t
            then none
            else by_token identifier (otp_of (cache_get S (otp_token_key t) w))
      ] in
      or_option given (
        or_option (otp_of (cache_get S (otp_key purpose email identifier tenant_id) w))
          (otp_of (cache_get S (otp_key purpose phone identifier tenant_id) w)))

  unfoldable pub delete_otp_payload : OtpPayload → Exec (World S) Unit
  delete_otp_payload payload = do
    cache_del S (otp_key payload.purpose payload.channel payload.identifier payload.tenant_id)
    cache_del S (otp_token_key payload.token)

  unfoldable pub get_safe_user_by_id : Text → Exec (World S) SafeUser
  get_safe_user_by_id user_id w = elim (find_user S user_id w) [
    | none ↦ (err user_not_found, w)
    | some u ↦
        let claims = build_authorization_claims S u.id w in
        (
          ok (record {
            id = u.id;
            full_name = u.full_name;
            username = u.username;
            email = u.email;
            phone = u.phone;
            avatar = u.avatar;
            role = u.role;
            status = u.status;
            tenant_id = u.tenant_id;
            is_email_verified = u.is_email_verified;
            is_phone_verified = u.is_phone_verified;
            roles = claims.roles;
            permissions = claims.permissions;
          }),
          w,
        )
  ]

  -- The account of a stored code.
  unfoldable pub otp_user : OtpPayload → Text → Option Text → World S → Option User
  otp_user stored identifier tenant_id w =
      if truthy stored.user_id
      then find_user S (or_else stored.user_id []) w
      else find_user_by_identifier S identifier tenant_id w

  unfoldable pub finish_verification :
      OtpPayload → User → Option Text → AuthContext → Exec (World S) OtpVerified
  finish_verification stored u tenant_id ctx = do
    update_user S u.id (mark_verified stored.channel)
    audit S "auth.user.verified" (some u.id) tenant_id
        (("channel", channel_text stored.channel) ∷ ("method", codes "otp") ∷ []) ctx
    return (verified stored.channel)

  unfoldable pub finish_reset :
      OtpPayload → User → Option Text → AuthContext → Exec (World S) OtpVerified
  finish_reset stored u tenant_id ctx = do
    reset_token ← generate_secure_token S
    now ← gets (λ w. w.now)
    update_user S u.id (λ r. record r {
      password_reset_token = some reset_token;
      password_reset_expires = some (now + password_reset_token_ttl_ms);
    })
    audit S "auth.password.reset.otp_verified" (some u.id) tenant_id
        (("channel", channel_text stored.channel) ∷ []) ctx
    return (reset_allowed reset_token (password_reset_token_ttl_ms / 1000))

  -- The end of every login: presence, tokens, the audit entry and the answer.
  unfoldable pub finish_login :
      User → Option Text → String → Text → AuthContext → Exec (World S) (SafeUser × TokenPair)
  finish_login u tenant_id method identifier ctx = do
    touch_presence S u.id true
    tokens ← issue_tokens S u.id tenant_id ctx
    audit S "auth.user.login" (some u.id) tenant_id
        (("method", codes method) ∷ ("identifier", identifier) ∷ []) ctx
    safe ← get_safe_user_by_id u.id
    return (safe, tokens)

  -- The three endings of `verifyOtp`, by the purpose of the stored code.
  unfoldable pub finish_otp :
      OtpPurpose → OtpPayload → User → Text → Option Text → AuthContext → Exec (World S) OtpVerified
  finish_otp account_verification stored u identifier tenant_id ctx =
      finish_verification stored u tenant_id ctx
  finish_otp password_reset stored u identifier tenant_id ctx = finish_reset stored u tenant_id ctx
  finish_otp login stored u identifier tenant_id ctx = do
    assert_user_can_authenticate S u
    done ← finish_login u tenant_id "otp" identifier ctx
    return (logged_in done.0 done.1)

  -- `verifyOtp` after the code was found right.
  unfoldable pub accept_otp :
      OtpPayload → OtpPurpose → Text → Option Text → AuthContext → Exec (World S) OtpVerified
  accept_otp stored purpose identifier tenant_id ctx = do
    clear_otp_guard_keys S purpose identifier tenant_id
    found ← gets (otp_user stored identifier tenant_id)
    elim found [
      | none ↦ throw otp_user_not_found
      | some u ↦ (do
        delete_otp_payload stored
        finish_otp stored.purpose stored u identifier tenant_id ctx)
    ]

  -- The stored code of the request, if there is one and it is right, or the failure.
  unfoldable pub judge_otp :
      Option OtpPayload → OtpPurpose → Text → Option Text → AuthContext → Exec (World S) OtpVerified
  judge_otp none purpose identifier tenant_id ctx = do
    bump_otp_invalid_attempts S purpose identifier tenant_id
    throw invalid_or_expired_otp
  judge_otp (some stored) purpose identifier tenant_id ctx =
      accept_otp stored purpose identifier tenant_id ctx

  unfoldable pub verify_otp : OtpVerifyDto → AuthContext → Exec (World S) OtpVerified
  verify_otp dto ctx = do
    let purpose = or_else dto.purpose login
    tenant_id ← resolve_tenant_id S (or_option dto.tenant_id ctx.tenant_id) ctx.tenant_domain
    let identifier = trim dto.identifier
    assert_otp_not_blocked S purpose identifier tenant_id
    stored ← gets (find_stored_otp identifier tenant_id purpose dto.token)
    judge_otp (code_matches stored dto.code) purpose identifier tenant_id ctx
