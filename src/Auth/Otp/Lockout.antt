-- ===== src/Auth/Otp/Lockout.antt =====
-- Wrong codes given to `verifyOtp`.
use learn_nestjs.Common.{
  ℕ, zero, suc, ◌+◌, ◌<◌, ◌≡◌, inl, inr, true, false, Option, none, some, is_some, or_else,
  or_option, ltb, leb, arith, Bool-cases,
}
use learn_nestjs.Common.Text.{Text, trim}
use learn_nestjs.Common.Results.{err}
use learn_nestjs.Redis.Driver.{count_of}
use learn_nestjs.Auth.Keys.{
  OtpPurpose, email, phone, login, otp_key, otp_token_key, otp_invalid_attempt_key, otp_block_key,
}
use learn_nestjs.Auth.World.{Services, World, AuthContext, cache_get}
use learn_nestjs.Auth.Users.{truthy, resolve_tenant_id}
use learn_nestjs.Auth.OtpGuards.{bump_otp_invalid_attempts, otp_blocked}
use learn_nestjs.Auth.Otp.{
  OtpVerifyDto, invalid_or_expired_otp, find_stored_otp, judge_otp, code_matches, verify_otp,
}
use learn_nestjs.Auth.Keys.Distinct.{
  otp_invalid_attempt_key-ne-otp_key, otp_invalid_attempt_key-ne-otp_token_key,
  otp_block_key-ne-otp_key, otp_block_key-ne-otp_token_key,
}
use learn_nestjs.Auth.OtpGuards.Limits.{
  after, assert_otp_not_blocked_refuses, assert_otp_not_blocked_passes,
  bump_otp_invalid_attempts_result, bump_untouched, invalid_step,
}

pub find_stored_otp-bump_otp_invalid_attempts :
    (S : Services)
    → S.production ≡ true
    → (p : OtpPurpose) (i : Text) (t : Option Text) (n : ℕ) (w : World S) (token : Option Text)
    → count_of (cache_get S (otp_invalid_attempt_key p i t) w) ≡ some n
    → find_stored_otp S i t p token (bump_otp_invalid_attempts S p i t w).1
      ≡ find_stored_otp S i t p token w
unfolding find_stored_otp
find_stored_otp-bump_otp_invalid_attempts S production p i t n w none counted = cc (
  bump_untouched S production p i t (otp_key p email i t) n w counted
      (otp_invalid_attempt_key-ne-otp_key p i t p email i t)
      (otp_block_key-ne-otp_key p i t p email i t),
  bump_untouched S production p i t (otp_key p phone i t) n w counted
      (otp_invalid_attempt_key-ne-otp_key p i t p phone i t)
      (otp_block_key-ne-otp_key p i t p phone i t),
)
find_stored_otp-bump_otp_invalid_attempts S production p i t n w (some k) counted = cc (
  bump_untouched S production p i t (otp_token_key k) n w counted
      (otp_invalid_attempt_key-ne-otp_token_key p i t k) (otp_block_key-ne-otp_token_key p i t k),
  bump_untouched S production p i t (otp_key p email i t) n w counted
      (otp_invalid_attempt_key-ne-otp_key p i t p email i t)
      (otp_block_key-ne-otp_key p i t p email i t),
  bump_untouched S production p i t (otp_key p phone i t) n w counted
      (otp_invalid_attempt_key-ne-otp_key p i t p phone i t)
      (otp_block_key-ne-otp_key p i t p phone i t),
)

module _ (S : Services) (dto : OtpVerifyDto) (ctx : AuthContext) where
  abbrev pub purpose_of : OtpPurpose
  purpose_of = or_else dto.purpose login

  abbrev pub identifier_of : Text
  identifier_of = trim dto.identifier

  abbrev pub scope_of : Option Text
  scope_of = or_option dto.tenant_id ctx.tenant_id

  -- No code that matches the request is stored.
  abbrev pub IsWrong : World S → Type 0
  IsWrong w =
      code_matches (find_stored_otp S identifier_of scope_of purpose_of dto.token w) dto.code ≡ none

  pub verify_otp_blocked :
      (w : World S)
      → S.production ≡ true
      → truthy scope_of ≡ true
      → is_some (cache_get S (otp_block_key purpose_of identifier_of scope_of) w) ≡ true
      → verify_otp S dto ctx w ≡ (err otp_blocked, w)
  unfolding verify_otp resolve_tenant_id
  verify_otp_blocked w production tenant blocked = ground (
    arith,
    tenant,
    assert_otp_not_blocked_refuses S production purpose_of identifier_of scope_of w blocked,
  )

  -- A block stays.
  verify_otp_stays_blocked :
      (k : ℕ) (w : World S)
      → S.production ≡ true
      → truthy scope_of ≡ true
      → is_some (cache_get S (otp_block_key purpose_of identifier_of scope_of) w) ≡ true
      → is_some (
          cache_get S
            (otp_block_key purpose_of identifier_of scope_of)
            (after k (verify_otp S dto ctx) w))
        ≡ true
  unfolding after
  verify_otp_stays_blocked zero w production tenant blocked = blocked
  verify_otp_stays_blocked (suc k) w production tenant blocked =
      rw (verify_otp_blocked w production tenant blocked)
        (verify_otp_stays_blocked k w production tenant blocked)

  pub verify_otp_wrong :
      (w : World S)
      → S.production ≡ true
      → truthy scope_of ≡ true
      → is_some (cache_get S (otp_block_key purpose_of identifier_of scope_of) w) ≡ false
      → IsWrong w
      → verify_otp S dto ctx w ≡ (
        err invalid_or_expired_otp,
        (bump_otp_invalid_attempts S purpose_of identifier_of scope_of w).1,
      )
  unfolding verify_otp resolve_tenant_id judge_otp
  verify_otp_wrong w production tenant unblocked wrong = ground (
    arith,
    tenant,
    assert_otp_not_blocked_passes S production purpose_of identifier_of scope_of w unblocked,
    wrong,
    bump_otp_invalid_attempts_result S production purpose_of identifier_of scope_of w,
  )

  pub bump_otp_invalid_attempts-IsWrong :
      (n : ℕ) (w : World S)
      → S.production ≡ true
      → count_of (cache_get S (otp_invalid_attempt_key purpose_of identifier_of scope_of) w)
        ≡ some n
      → IsWrong w
      → IsWrong (bump_otp_invalid_attempts S purpose_of identifier_of scope_of w).1
  bump_otp_invalid_attempts-IsWrong n w production counted wrong = ground (
    arith,
    wrong,
    find_stored_otp-bump_otp_invalid_attempts S production purpose_of identifier_of scope_of n w
        dto.token counted,
  )

  -- The block of the scope after `k` wrong codes, from `n` counted ones.
  verify_otp_blocks :
      (k n : ℕ) (w : World S)
      → S.production ≡ true
      → truthy scope_of ≡ true
      → n < 3
      → count_of (cache_get S (otp_invalid_attempt_key purpose_of identifier_of scope_of) w)
        ≡ some n
      → cache_get S (otp_block_key purpose_of identifier_of scope_of) w ≡ none
      → IsWrong w
      → is_some (
          cache_get S
            (otp_block_key purpose_of identifier_of scope_of)
            (after k (verify_otp S dto ctx) w))
        ≡ leb 3 (n + k)
  unfolding after
  verify_otp_blocks zero n w production tenant small counted unblocked wrong = ground arith
  verify_otp_blocks (suc k) n w production tenant small counted unblocked wrong =
      let bumped = (bump_otp_invalid_attempts S purpose_of identifier_of scope_of w).1 in
      let step = invalid_step S production purpose_of identifier_of scope_of n w counted in
      rw (verify_otp_wrong w production tenant (ground arith) wrong) (elim (Bool-cases (ltb n 2)) [
        | inl few ↦ ground (
          arith,
          step,
          verify_otp_blocks k (n + 1) bumped production tenant (ground arith) (ground (arith, step))
              (ground (arith, step))
              (bump_otp_invalid_attempts-IsWrong n w production counted wrong),
        )
        | inr many ↦ ground (
          arith,
          step,
          verify_otp_stays_blocked k bumped production tenant (ground (arith, step)),
        )
      ])

-- In production, for requests that name a tenant, with no wrong code counted and no block set: after `k` requests, `k` at least 3,
-- with a code that is not the stored one, every request for the same purpose, identifier and tenant,
-- even with the right code, throws "OTP is blocked" and changes nothing.
pub verify_otp_locks :
    (S : Services) (dto dto' : OtpVerifyDto) (ctx ctx' : AuthContext) (k : ℕ) (w : World S)
    → S.production ≡ true
    → truthy (scope_of S dto ctx) ≡ true
    → cache_get S
        (otp_invalid_attempt_key
          (purpose_of S dto ctx)
          (identifier_of S dto ctx)
          (scope_of S dto ctx))
        w
      ≡ none
    → cache_get S
        (otp_block_key (purpose_of S dto ctx) (identifier_of S dto ctx) (scope_of S dto ctx))
        w
      ≡ none
    → IsWrong S dto ctx w
    → purpose_of S dto' ctx' ≡ purpose_of S dto ctx
    → identifier_of S dto' ctx' ≡ identifier_of S dto ctx
    → scope_of S dto' ctx' ≡ scope_of S dto ctx
    → leb 3 k ≡ true
    → verify_otp S dto' ctx' (after k (verify_otp S dto ctx) w)
      ≡ (err otp_blocked, after k (verify_otp S dto ctx) w)
verify_otp_locks S dto dto' ctx ctx' k w production tenant fresh unblocked wrong same_p same_i
      same_t enough =
    let blocked =
      verify_otp_blocks S dto ctx k 0 w production tenant (omega arith) (ground arith) unblocked
        wrong in
    verify_otp_blocked S dto' ctx' (after k (verify_otp S dto ctx) w) production (rw same_t tenant)
      (rw (same_p, same_i, same_t) (ground (arith, blocked)))
