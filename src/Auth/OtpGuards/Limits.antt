-- ===== src/Auth/OtpGuards/Limits.antt =====
-- What the counters of `OtpGuards` allow.
use learn_nestjs.Common.{
  ℕ, zero, suc, ◌+◌, ◌<◌, ◌≡◌, true, false, Option, none, some, is_some, if◌then◌else◌, ltb, arith,
}
use learn_nestjs.Common.Text.{Text, codes, text_eq, text_eq_refl}
use learn_nestjs.Common.Results.{Exec, ok, err, ◌>>◌}
use learn_nestjs.Redis.Driver.{Stored, text, count_of}
use learn_nestjs.Auth.Keys.{
  OtpPurpose, otp_resend_key, otp_invalid_attempt_key, otp_block_key, login_rate_key,
}
use learn_nestjs.Auth.World.{Services, World, Payload, cache_get}
use learn_nestjs.Auth.OtpGuards.{
  assert_otp_not_blocked, bump_otp_resend_counter, bump_otp_invalid_attempts, otp_ttl_seconds,
  enforce_login_rate_limit, otp_blocked, resend_limit_exceeded, login_limit_exceeded,
  otp_block_seconds, login_limit_window_seconds,
}
use learn_nestjs.Auth.Keys.Distinct.{
  otp_resend_key-ne-otp_block_key, otp_invalid_attempt_key-ne-otp_block_key,
}

-- The state after `k` calls.
unfoldable pub after {ℓ} : {S A : Type ℓ} → ℕ → Exec S A → S → S
after zero m w = w
after (suc k) m w = after k m (m w).1

module _ (S : Services) where
  pub assert_otp_not_blocked_pure :
      (p : OtpPurpose) (i : Text) (t : Option Text) (w : World S)
      → (assert_otp_not_blocked S p i t w).1 ≡ w
  unfolding assert_otp_not_blocked
  assert_otp_not_blocked_pure p i t w = ground arith

  login_step :
      (i : Text) (t : Option Text) (n : ℕ) (w : World S)
      → count_of (cache_get S (login_rate_key i t) w) ≡ some n
      → ((enforce_login_rate_limit S i t w).0
          ≡ (if ltb n 10 then ok tt else err login_limit_exceeded))
        × (count_of (cache_get S (login_rate_key i t) (enforce_login_rate_limit S i t w).1)
            ≡ some (n + 1))
  unfolding enforce_login_rate_limit
  login_step i t n w h =
      let key = login_rate_key i t in
      ground (
        arith,
        S.cache.incr_counts key n w.cache h,
        S.cache.get-incr key key n w.cache h,
        text_eq_refl key,
        S.cache.get-expire key key login_limit_window_seconds (S.cache.incr key w.cache).1
            (omega arith),
      )

  login_limit_from :
      (i : Text) (t : Option Text) (k n : ℕ) (w : World S)
      → count_of (cache_get S (login_rate_key i t) w) ≡ some n
      → (enforce_login_rate_limit S i t (after k (enforce_login_rate_limit S i t) w)).0
        ≡ (if ltb (n + k) 10 then ok tt else err login_limit_exceeded)
  unfolding after
  login_limit_from i t zero n w h = ground (arith, (login_step i t n w h).0)
  login_limit_from i t (suc k) n w h = ground (
    arith,
    login_limit_from i t k (n + 1) (enforce_login_rate_limit S i t w).1 (login_step i t n w h).1,
  )

  -- From a window with no attempt yet, the call that follows `k` calls for the same identifier and
  -- tenant passes exactly when `k < 10`, and throws "Too many login attempts" otherwise.
  pub login_limit :
      (i : Text) (t : Option Text) (k : ℕ) (w : World S)
      → cache_get S (login_rate_key i t) w ≡ none
      → (enforce_login_rate_limit S i t (after k (enforce_login_rate_limit S i t) w)).0
        ≡ (if ltb k 10 then ok tt else err login_limit_exceeded)
  login_limit i t k w h = ground (arith, login_limit_from i t k 0 w (ground arith))

  -- The guards of a request in `sendOtp`.
  abbrev pub guarded_resend : OtpPurpose → Text → Option Text → ℕ → Exec (World S) Unit
  guarded_resend p i t ttl = do assert_otp_not_blocked S p i t; bump_otp_resend_counter S p i t ttl

  module _ (production : S.production ≡ true) (p : OtpPurpose) (i : Text) (t : Option Text) where
    -- One wrong code, by the number of wrong codes before.
    pub invalid_step :
        (n : ℕ) (w : World S)
        → count_of (cache_get S (otp_invalid_attempt_key p i t) w) ≡ some n
        → (cache_get S (otp_block_key p i t) (bump_otp_invalid_attempts S p i t w).1 ≡ (
            if ltb n 2
            then cache_get S (otp_block_key p i t) w
            else some (text (codes "invalid_attempt_limit"))))
          × (count_of (
                cache_get S (otp_invalid_attempt_key p i t) (bump_otp_invalid_attempts S p i t w).1)
              ≡ (if ltb n 2 then some (n + 1) else some 0))
    unfolding bump_otp_invalid_attempts
    invalid_step n w h =
        let key = otp_invalid_attempt_key p i t in
        let block = otp_block_key p i t in
        let counted = (S.cache.incr key w.cache).1 in
        let reason : Stored Payload = text (codes "invalid_attempt_limit") in
        let blocked = S.cache.set block reason otp_block_seconds counted in
        ground (
          arith,
          S.cache.incr_counts key n w.cache h,
          S.cache.get-incr key key n w.cache h,
          S.cache.get-incr key block n w.cache h,
          text_eq_refl key,
          text_eq_refl block,
          otp_invalid_attempt_key-ne-otp_block_key p i t p i t,
          S.cache.get-expire key key otp_ttl_seconds counted (omega arith),
          S.cache.get-expire key block otp_ttl_seconds counted (omega arith),
          S.cache.get-set block block reason otp_block_seconds counted,
          S.cache.get-del key key blocked,
          S.cache.get-del key block blocked,
        )

    resend_step :
        (ttl n : ℕ) (w : World S)
        → 0 < ttl
        → count_of (cache_get S (otp_resend_key p i t) w) ≡ some n
        → ((bump_otp_resend_counter S p i t ttl w).0
            ≡ (if ltb n 3 then ok tt else err resend_limit_exceeded))
          × (cache_get S (otp_block_key p i t) (bump_otp_resend_counter S p i t ttl w).1 ≡ (
              if ltb n 3
              then cache_get S (otp_block_key p i t) w
              else some (text (codes "resend_limit"))))
          × (count_of (cache_get S (otp_resend_key p i t) (bump_otp_resend_counter S p i t ttl w).1)
              ≡ (if ltb n 3 then some (n + 1) else some 0))
    unfolding bump_otp_resend_counter
    resend_step ttl n w h0 h =
        let key = otp_resend_key p i t in
        let block = otp_block_key p i t in
        let counted = (S.cache.incr key w.cache).1 in
        let reason : Stored Payload = text (codes "resend_limit") in
        let blocked = S.cache.set block reason otp_block_seconds counted in
        ground (
          arith,
          S.cache.incr_counts key n w.cache h,
          S.cache.get-incr key key n w.cache h,
          S.cache.get-incr key block n w.cache h,
          text_eq_refl key,
          text_eq_refl block,
          otp_resend_key-ne-otp_block_key p i t p i t,
          S.cache.get-expire key key ttl counted h0,
          S.cache.get-expire key block ttl counted h0,
          S.cache.get-set block block reason otp_block_seconds counted,
          S.cache.get-del key key blocked,
          S.cache.get-del key block blocked,
        )

    pub assert_otp_not_blocked_refuses :
        (w : World S)
        → is_some (cache_get S (otp_block_key p i t) w) ≡ true
        → assert_otp_not_blocked S p i t w ≡ (err otp_blocked, w)
    unfolding assert_otp_not_blocked
    assert_otp_not_blocked_refuses w h =
        ground (arith, S.cache.exists-get (otp_block_key p i t) w.cache)

    pub assert_otp_not_blocked_passes :
        (w : World S)
        → is_some (cache_get S (otp_block_key p i t) w) ≡ false
        → assert_otp_not_blocked S p i t w ≡ (ok tt, w)
    unfolding assert_otp_not_blocked
    assert_otp_not_blocked_passes w h =
        ground (arith, S.cache.exists-get (otp_block_key p i t) w.cache)

    -- A block stays: each further request is refused and writes nothing.
    resend_attempt_blocked :
        (ttl k : ℕ) (w : World S)
        → is_some (cache_get S (otp_block_key p i t) w) ≡ true
        → (guarded_resend p i t ttl (after k (guarded_resend p i t ttl) w)).0 ≡ err otp_blocked
    unfolding after
    resend_attempt_blocked ttl zero w h = rw (assert_otp_not_blocked_refuses w h)
    resend_attempt_blocked ttl (suc k) w h =
        rw (assert_otp_not_blocked_refuses w h) (resend_attempt_blocked ttl k w h)

    pub bump_otp_invalid_attempts_result :
        (w : World S) → (bump_otp_invalid_attempts S p i t w).0 ≡ ok tt
    unfolding bump_otp_invalid_attempts
    bump_otp_invalid_attempts_result w = ground arith

    resend_limit_from :
        (ttl k n : ℕ) (w : World S)
        → 0 < ttl
        → n < 4
        → count_of (cache_get S (otp_resend_key p i t) w) ≡ some n
        → is_some (cache_get S (otp_block_key p i t) w) ≡ false
        → (guarded_resend p i t ttl (after k (guarded_resend p i t ttl) w)).0 ≡ (
            if ltb (n + k) 3
            then ok tt
            else if ltb (n + k) 4
            then err resend_limit_exceeded
            else err otp_blocked)
    unfolding after
    resend_limit_from ttl zero n w l b h f =
        rw (assert_otp_not_blocked_passes w f) (ground (arith, resend_step ttl n w l h))
    resend_limit_from ttl (suc k) n w l b h f = rw (assert_otp_not_blocked_passes w f) (
        ground (
          arith,
          resend_step ttl n w l h,
          resend_attempt_blocked ttl k (bump_otp_resend_counter S p i t ttl w).1,
          resend_limit_from ttl k (n + 1) (bump_otp_resend_counter S p i t ttl w).1,
        ))

    pub bump_untouched :
        (key : Text) (n : ℕ) (w : World S)
        → count_of (cache_get S (otp_invalid_attempt_key p i t) w) ≡ some n
        → text_eq (otp_invalid_attempt_key p i t) key ≡ false
        → text_eq (otp_block_key p i t) key ≡ false
        → cache_get S key (bump_otp_invalid_attempts S p i t w).1 ≡ cache_get S key w
    unfolding bump_otp_invalid_attempts
    bump_untouched key n w h ne ne' =
        let counter = otp_invalid_attempt_key p i t in
        let block = otp_block_key p i t in
        let counted = (S.cache.incr counter w.cache).1 in
        let reason : Stored Payload = text (codes "invalid_attempt_limit") in
        ground (
          arith,
          S.cache.incr_counts counter n w.cache h,
          S.cache.get-incr counter key n w.cache h,
          S.cache.get-expire counter key otp_ttl_seconds counted (omega arith),
          S.cache.get-set block key reason otp_block_seconds counted,
          S.cache.get-del counter key (S.cache.set block reason otp_block_seconds counted),
        )

-- In production, with no request counted and no block set for a purpose, an identifier and a
-- tenant: of the requests to `sendOtp` within the window the first three pass the guards, the
-- fourth throws "OTP resend limit exceeded" and every later one throws "OTP is blocked".
pub resend_attempt_limit :
    (S : Services) (p : OtpPurpose) (i : Text) (t : Option Text) (ttl k : ℕ) (w : World S)
    → S.production ≡ true
    → 0 < ttl
    → cache_get S (otp_resend_key p i t) w ≡ none
    → cache_get S (otp_block_key p i t) w ≡ none
    → (guarded_resend S p i t ttl (after k (guarded_resend S p i t ttl) w)).0
      ≡ (if ltb k 3 then ok tt else if ltb k 4 then err resend_limit_exceeded else err otp_blocked)
resend_attempt_limit S p i t ttl k w production positive fresh open_scope = ground (
  arith,
  resend_limit_from S production p i t ttl k 0 w positive (omega arith) (ground arith)
      (ground arith),
)
