-- ===== src/Auth/OtpGuards.antt =====
-- The counters and blocks that limit attempts: `enforceLoginRateLimit`, `assertOtpNotBlocked`,
-- `bumpOtpResendCounter`, `bumpOtpInvalidAttempts` and `clearOtpGuardKeys`.
pub mod Limits
use learn_nestjs.Common.{
  ℕ, ◌+◌, ◌-◌, ◌*◌, ◌/◌, ◌<◌, ◌≡◌, Bool, true, false, not, ◌&&◌, Option, none, some, is_some, List,
  [], ◌∷◌, ◌++◌, String, if◌then◌else◌, ◌==◌, ltb, leb,
}
use learn_nestjs.Common.Text.{Text, codes}
use learn_nestjs.Common.Results.{
  Failure, Exec, ok, err, too_many_requests, return, throw, unless, when, ◌>>=◌, ◌>>◌, gets,
}
use learn_nestjs.Redis.Driver.{text}
use learn_nestjs.Auth.Keys.{
  OtpPurpose, otp_block_key, otp_resend_key, otp_invalid_attempt_key, login_rate_key,
}
use learn_nestjs.Auth.World.{Services, World, cache_set, cache_del, cache_expire, cache_incr}

abbrev pub otp_ttl_seconds : ℕ
otp_ttl_seconds = 5 * 60

abbrev pub password_reset_otp_ttl_seconds : ℕ
password_reset_otp_ttl_seconds = 10 * 60

abbrev pub otp_max_resend_attempts : ℕ
otp_max_resend_attempts = 3

abbrev pub otp_max_invalid_attempts : ℕ
otp_max_invalid_attempts = 3

abbrev pub otp_block_seconds : ℕ
otp_block_seconds = 6 * 60 * 60

abbrev pub login_limit_window_seconds : ℕ
login_limit_window_seconds = 60

abbrev pub login_limit_max_attempts : ℕ
login_limit_max_attempts = 10

-- Comparisons of the answer of INCR; all fail on `NaN`.
abbrev pub is_count : Option ℕ → ℕ → Bool
is_count none k = false
is_count (some n) k = n == k

abbrev pub above : Option ℕ → ℕ → Bool
above none k = false
above (some n) k = ltb k n

abbrev pub at_least : Option ℕ → ℕ → Bool
at_least none k = false
at_least (some n) k = leb k n

abbrev pub login_limit_exceeded : Failure
login_limit_exceeded = too_many_requests "Too many login attempts. Try again later."

abbrev pub otp_blocked : Failure
otp_blocked = too_many_requests "Too many OTP attempts. OTP is blocked for 6 hours."

abbrev pub resend_limit_exceeded : Failure
resend_limit_exceeded = too_many_requests "OTP resend limit exceeded. OTP is blocked for 6 hours."

module _ (S : Services) where
  unfoldable pub enforce_login_rate_limit : Text → Option Text → Exec (World S) Unit
  enforce_login_rate_limit identifier tenant_id = do
    let key = login_rate_key identifier tenant_id
    attempts ← cache_incr S key
    when (is_count attempts 1) (cache_expire S key login_limit_window_seconds)
    unless (not (above attempts login_limit_max_attempts)) login_limit_exceeded

  unfoldable pub assert_otp_not_blocked : OtpPurpose → Text → Option Text → Exec (World S) Unit
  assert_otp_not_blocked purpose identifier tenant_id w =
      if not S.production
      then (ok tt, w)
      else if S.cache.exists (otp_block_key purpose identifier tenant_id) w.cache
      then (err otp_blocked, w)
      else (ok tt, w)

  unfoldable pub bump_otp_resend_counter : OtpPurpose → Text → Option Text → ℕ → Exec (World S) Unit
  bump_otp_resend_counter purpose identifier tenant_id ttl = when S.production do
    let key = otp_resend_key purpose identifier tenant_id
    attempts ← cache_incr S key
    when (is_count attempts 1) (cache_expire S key ttl)
    when (above attempts otp_max_resend_attempts) do
      cache_set S (otp_block_key purpose identifier tenant_id) (text (codes "resend_limit"))
          otp_block_seconds
      cache_del S key
      throw resend_limit_exceeded

  unfoldable pub bump_otp_invalid_attempts : OtpPurpose → Text → Option Text → Exec (World S) Unit
  bump_otp_invalid_attempts purpose identifier tenant_id = when S.production do
    let key = otp_invalid_attempt_key purpose identifier tenant_id
    attempts ← cache_incr S key
    when (is_count attempts 1) (cache_expire S key otp_ttl_seconds)
    when (at_least attempts otp_max_invalid_attempts) do
      cache_set S (otp_block_key purpose identifier tenant_id)
          (text (codes "invalid_attempt_limit")) otp_block_seconds
      cache_del S key

  unfoldable pub clear_otp_guard_keys : OtpPurpose → Text → Option Text → Exec (World S) Unit
  clear_otp_guard_keys purpose identifier tenant_id = do
    cache_del S (otp_resend_key purpose identifier tenant_id)
    cache_del S (otp_invalid_attempt_key purpose identifier tenant_id)
