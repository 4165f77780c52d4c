-- ===== src/Auth/Otp/Wrong.antt =====
-- What each of several wrong codes given to `verifyOtp` is answered.
use learn_nestjs.Common.{
  ℕ, zero, suc, ◌+◌, ◌<◌, ◌≡◌, refl, ◌∙◌, inl, inr, true, Option, none, some, is_some,
  if◌then◌else◌, ltb, arith, Bool-cases,
}
use learn_nestjs.Common.Results.{err}
use learn_nestjs.Redis.Driver.{count_of}
use learn_nestjs.Common.Text.{Text}
use learn_nestjs.Auth.Keys.{otp_invalid_attempt_key, otp_block_key}
use learn_nestjs.Auth.World.{Services, World, AuthContext, OtpPayload, cache_get}
use learn_nestjs.Auth.Users.{truthy}
use learn_nestjs.Auth.OtpGuards.{bump_otp_invalid_attempts, otp_blocked}
use learn_nestjs.Auth.Otp.{OtpVerifyDto, invalid_or_expired_otp, find_stored_otp, verify_otp}
use learn_nestjs.Auth.OtpGuards.Limits.{after, invalid_step}
use learn_nestjs.Auth.Otp.Lockout.{
  purpose_of, identifier_of, scope_of, IsWrong, verify_otp_blocked, verify_otp_wrong,
  bump_otp_invalid_attempts-IsWrong, find_stored_otp-bump_otp_invalid_attempts,
}

module _ (S : Services) (dto : OtpVerifyDto) (ctx : AuthContext) where
  -- Requests of a blocked scope change nothing.
  after-verify_otp_blocked :
      (k : ℕ) (w : World S)
      → S.production ≡ true
      → truthy (scope_of S dto ctx) ≡ true
      → is_some (
          cache_get S
            (otp_block_key (purpose_of S dto ctx) (identifier_of S dto ctx) (scope_of S dto ctx))
            w)
        ≡ true
      → after k (verify_otp S dto ctx) w ≡ w
  unfolding after
  after-verify_otp_blocked zero w production tenant blocked = refl
  after-verify_otp_blocked (suc k) w production tenant blocked =
      rw (verify_otp_blocked S dto ctx w production tenant blocked)
        (after-verify_otp_blocked k w production tenant blocked)

  -- The stored code that a request with some verification token reads.
  abbrev pub stored_for : Option Text → World S → Option OtpPayload
  stored_for token w =
      find_stored_otp S (identifier_of S dto ctx) (scope_of S dto ctx) (purpose_of S dto ctx) token
        w

  wrong_limit_from :
      (k n : ℕ) (token : Option Text) (w : World S)
      → S.production ≡ true
      → truthy (scope_of S dto ctx) ≡ true
      → n < 3
      → count_of (
          cache_get S
            (otp_invalid_attempt_key
              (purpose_of S dto ctx)
              (identifier_of S dto ctx)
              (scope_of S dto ctx))
            w)
        ≡ some n
      → cache_get S
          (otp_block_key (purpose_of S dto ctx) (identifier_of S dto ctx) (scope_of S dto ctx))
          w
        ≡ none
      → IsWrong S dto ctx w
      → ((verify_otp S dto ctx (after k (verify_otp S dto ctx) w)).0
          ≡ err (if ltb (n + k) 3 then invalid_or_expired_otp else otp_blocked))
        × (stored_for token (after k (verify_otp S dto ctx) w) ≡ stored_for token w)
  unfolding after
  wrong_limit_from zero n token w production tenant small counted unblocked wrong = (
    rw (verify_otp_wrong S dto ctx w production tenant (ground arith) wrong) (ground arith),
    refl,
  )
  wrong_limit_from (suc k) n token w production tenant small counted unblocked wrong =
      let p = purpose_of S dto ctx in
      let i = identifier_of S dto ctx in
      let t = scope_of S dto ctx in
      let bumped = (bump_otp_invalid_attempts S p i t w).1 in
      let step = invalid_step S production p i t n w counted in
      let kept = find_stored_otp-bump_otp_invalid_attempts S production p i t n w token counted in
      rw (verify_otp_wrong S dto ctx w production tenant (ground arith) wrong)
        (elim (Bool-cases (ltb n 2)) [
          | inl few ↦
              let (answer, same) =
                wrong_limit_from k (n + 1) token bumped production tenant (ground arith)
                  (ground (arith, step)) (ground (arith, step))
                  (bump_otp_invalid_attempts-IsWrong S dto ctx n w production counted wrong) in
              (ground (arith, answer), same ∙ kept)
          | inr many ↦
              let blocked : is_some (cache_get S (otp_block_key p i t) bumped) ≡ true =
                ground (arith, step) in
              rw (after-verify_otp_blocked k bumped production tenant blocked) (
                ground (arith, verify_otp_blocked S dto ctx bumped production tenant blocked),
                kept,
              )
        ])

-- In production, for a request that names a tenant, with no wrong code counted and no block set for its
-- purpose, identifier and tenant, and with a code that is not the stored one: where the request is made
-- again and again, with no other between, the first three throw "Invalid or expired OTP" and every
-- later one "OTP is blocked". None of them uses up the stored code: any verification token, or none,
-- leads to the code that it led to before.
pub verify_otp_wrong_limit :
    (S : Services) (dto : OtpVerifyDto) (ctx : AuthContext) (k : ℕ) (token : Option Text)
    (w : World S)
    → S.production ≡ true
    → truthy (scope_of S dto ctx) ≡ true
    → cache_get S
        (otp_invalid_attempt_key
          (purpose_of S dto ctx)
          (identifier_of S dto ctx)
          (scope_of S dto ctx))
        w
      ≡ none
    → cache_get S
        (otp_block_key (purpose_of S dto ctx) (identifier_of S dto ctx) (scope_of S dto ctx))
        w
      ≡ none
    → IsWrong S dto ctx w
    → ((verify_otp S dto ctx (after k (verify_otp S dto ctx) w)).0
        ≡ err (if ltb k 3 then invalid_or_expired_otp else otp_blocked))
      × (stored_for S dto ctx token (after k (verify_otp S dto ctx) w)
          ≡ stored_for S dto ctx token w)
verify_otp_wrong_limit S dto ctx k token w production tenant fresh unblocked wrong =
    let (answer, same) =
      wrong_limit_from S dto ctx k 0 token w production tenant (omega arith) (ground arith)
        unblocked wrong in
    (ground (arith, answer), same)
