-- ===== src/Auth/Keys.antt =====
-- The keys under which `AuthService` keeps its data in Redis: the template strings of
-- src/modules/auth/auth.service.ts.
pub mod Distinct
use learn_nestjs.Common.{
  ℕ, ◌≡◌, refl, Bool, true, false, Option, none, some, or_else, ◌∷◌, ◌++◌, arith,
}
use learn_nestjs.Common.Text.{Text, codes, text_eq, to_lower, starts_with}

pub data OtpChannel : Type 0 where
  email phone : OtpChannel

pub data OtpPurpose : Type 0 where
  login account_verification password_reset : OtpPurpose

abbrev pub channel_text : OtpChannel → Text
channel_text email = codes "email"
channel_text phone = codes "phone"

abbrev pub purpose_text : OtpPurpose → Text
purpose_text login = codes "login"
purpose_text account_verification = codes "account_verification"
purpose_text password_reset = codes "password_reset"

-- `${a}:${b}`
abbrev pub colon : Text → Text → Text
colon a b = a ++ b':' ∷ b

-- `${tenantId ?? 'global'}:${identifier.toLowerCase()}`
unfoldable pub scope : Option Text → Text → Text
scope tenant_id identifier = colon (or_else tenant_id (codes "global")) (to_lower identifier)

unfoldable pub otp_key : OtpPurpose → OtpChannel → Text → Option Text → Text
otp_key purpose channel identifier tenant_id =
    colon (codes "otp")
      (colon (purpose_text purpose) (colon (channel_text channel) (scope tenant_id identifier)))

unfoldable pub otp_token_key : Text → Text
otp_token_key token = colon (codes "otp") (colon (codes "token") token)

unfoldable pub otp_resend_key : OtpPurpose → Text → Option Text → Text
otp_resend_key purpose identifier tenant_id =
    colon (codes "otp")
      (colon (purpose_text purpose) (colon (codes "resend") (scope tenant_id identifier)))

unfoldable pub otp_invalid_attempt_key : OtpPurpose → Text → Option Text → Text
otp_invalid_attempt_key purpose identifier tenant_id =
    colon (codes "otp")
      (colon (purpose_text purpose) (colon (codes "invalid") (scope tenant_id identifier)))

unfoldable pub otp_block_key : OtpPurpose → Text → Option Text → Text
otp_block_key purpose identifier tenant_id =
    colon (codes "otp")
      (colon (purpose_text purpose) (colon (codes "blocked") (scope tenant_id identifier)))

unfoldable pub login_rate_key : Text → Option Text → Text
login_rate_key identifier tenant_id =
    colon (codes "auth") (colon (codes "rate") (scope tenant_id identifier))

unfoldable pub refresh_session_key : Text → Text → Text
refresh_session_key user_id refresh_hash =
    colon (codes "session") (colon (codes "refresh") (colon user_id refresh_hash))

-- `session:refresh:${userId}:`, the pattern of the sessions of a user without its star
unfoldable pub refresh_session_prefix : Text → Text
refresh_session_prefix user_id =
    colon (codes "session") (colon (codes "refresh") (user_id ++ codes ":"))

unfoldable pub refresh_token_key : Text → Text
refresh_token_key user_id = colon (codes "refresh_token") user_id

unfoldable pub presence_key : Text → Text
presence_key user_id = colon (codes "user") (colon user_id (codes "online"))

unfoldable pub blacklist_key : Text → Text
blacklist_key hash = colon (codes "blacklist") (colon (codes "access") hash)
