-- ===== src/Auth/Otp/Delivery.antt =====
-- The way of a code from `sendOtp` to `verifyOtp`.
use learn_nestjs.Common.{
  ℕ, ◌+◌, ◌≡◌, refl, sym, ap, ◌∙◌, false, Option, none, some, or_else, or_option, arith,
}
use learn_nestjs.Common.Text.{Text, text_eq_refl, is_empty, to_lower, trim}
use learn_nestjs.Common.Results.{ok}
use learn_nestjs.Redis.Driver.{json}
use learn_nestjs.Database.{User}
use learn_nestjs.Auth.Keys.{
  OtpChannel, OtpPurpose, email, phone, login, password_reset, otp_key, otp_token_key,
}
use learn_nestjs.Auth.World.{
  Services, World, AuthContext, OtpPayload, otp, find_user, secure_token, audit,
}
use learn_nestjs.Auth.Users.{resolve_tenant_id, resolve_tenant_id_pure}
use learn_nestjs.Auth.OtpGuards.{
  assert_otp_not_blocked, bump_otp_resend_counter, clear_otp_guard_keys,
}
use learn_nestjs.Auth.Otp.{
  OtpVerifyDto, OtpSent, reset_allowed, password_reset_token_ttl_ms, otp_ttl, shown_code, id_of,
  mail_otp, issue_otp, find_stored_otp, delete_otp_payload, otp_user, finish_reset, finish_otp,
  accept_otp, judge_otp, verify_otp,
}
use learn_nestjs.Auth.OtpGuards.Limits.{assert_otp_not_blocked_pure}

module _ (S : Services) where
  -- Sending the code changes nothing in Redis.
  mail_otp_cache :
      (c : OtpChannel) (p : OtpPurpose) (i code : Text) (ttl : ℕ) (found : Option User)
      (w : World S)
      → (mail_otp S c p i code ttl found w).1.cache ≡ w.cache
  unfolding mail_otp
  mail_otp_cache email p i code ttl found w = ground arith
  mail_otp_cache phone p i code ttl none w = refl
  mail_otp_cache phone p i code ttl (some u) w = ground arith

  -- A code that was sent is found again, by the token of the answer whatever tenant and purpose the
  -- request names, with the account that it was sent for; over the phone channel the answer shows it.
  pub issue_otp_stored :
      (c : OtpChannel) (p q : OtpPurpose) (i : Text) (t s : Option Text) (code : Text)
      (found : Option User) (sent : OtpSent) (w w' : World S)
      → is_empty (secure_token S w.draws) ≡ false
      → issue_otp S c p i t code found w ≡ (ok sent, w')
      → (stored : OtpPayload) × (find_stored_otp S i s q sent.verification_token w' ≡ some stored)
        × (stored.code ≡ code)
        × (stored.purpose ≡ p)
        × (stored.user_id ≡ id_of found)
        × (sent.code ≡ shown_code c code)
  unfolding issue_otp find_stored_otp
  issue_otp_stored c p q i t s code found sent w w' given h =
      let token = secure_token S w.draws in
      let key = otp_token_key token in
      let ttl = otp_ttl p in
      let payload : OtpPayload = record {
        identifier = i;
        channel = c;
        code = code;
        purpose = p;
        tenant_id = t;
        token = token;
        user_id = id_of found;
        created_at = w.now;
      } in
      let drawn : World S = record w { draws = w.draws + 1 } in
      let bumped = (bump_otp_resend_counter S p i t ttl drawn).1 in
      let first = S.cache.set (otp_key p c i t) (json (otp payload)) ttl bumped.cache in
      let second : World S = record bumped {
        cache = S.cache.set key (json (otp payload)) ttl first;
      } in
      (
        payload,
        ground (
          arith,
          mail_otp_cache c p i code ttl found second,
          text_eq_refl key,
          text_eq_refl (to_lower i),
          S.cache.get-set key key (json (otp payload)) ttl first,
        ),
        refl,
        refl,
        refl,
        ground arith,
      )

-- The account once a password reset was allowed.
abbrev pub with_reset_token : Text → ℕ → User → User
with_reset_token token now u = record u {
  password_reset_token = some token;
  password_reset_expires = some (now + password_reset_token_ttl_ms);
}

module _ (S : Services) where
  finish_reset_lem :
      (stored : OtpPayload) (u : User) (t : Option Text) (ctx : AuthContext) (w : World S)
      → find_user S u.id w ≡ some u
      → ((finish_reset S stored u t ctx w).0 ≡ ok (reset_allowed (secure_token S w.draws) 600))
        × (find_user S u.id (finish_reset S stored u t ctx w).1
            ≡ some (with_reset_token (secure_token S w.draws) w.now u))
  unfolding finish_reset audit
  finish_reset_lem stored u t ctx w found = ground (
    arith,
    found,
    S.users.find_unique-update u.id (with_reset_token (secure_token S w.draws) w.now) u w.users
        found refl,
  )

  accept_otp_reset :
      (stored : OtpPayload) (q : OtpPurpose) (i : Text) (t : Option Text) (u : User)
      (ctx : AuthContext) (w : World S)
      → stored.purpose ≡ password_reset
      → stored.user_id ≡ some u.id
      → is_empty u.id ≡ false
      → find_user S u.id w ≡ some u
      → ((accept_otp S stored q i t ctx w).0 ≡ ok (reset_allowed (secure_token S w.draws) 600))
        × (find_user S u.id (accept_otp S stored q i t ctx w).1
            ≡ some (with_reset_token (secure_token S w.draws) w.now u))
  unfolding accept_otp clear_otp_guard_keys delete_otp_payload otp_user finish_otp
  accept_otp_reset stored q i t u ctx w purpose owner named found =
      let deleted = (delete_otp_payload S stored (clear_otp_guard_keys S q i t w).1).1 in
      ground (arith, finish_reset_lem stored u t ctx deleted)

  -- A request that is not blocked and whose code is the stored one is accepted.
  pub verify_otp_accepts :
      (dto : OtpVerifyDto) (t : Option Text) (stored : OtpPayload) (ctx : AuthContext) (w : World S)
      → (resolve_tenant_id S (or_option dto.tenant_id ctx.tenant_id) ctx.tenant_domain w).0 ≡ ok t
      → (assert_otp_not_blocked S (or_else dto.purpose login) (trim dto.identifier) t w).0 ≡ ok tt
      → find_stored_otp S (trim dto.identifier) t (or_else dto.purpose login) dto.token w
        ≡ some stored
      → stored.code ≡ dto.code
      → verify_otp S dto ctx w
        ≡ accept_otp S stored (or_else dto.purpose login) (trim dto.identifier) t ctx w
  unfolding verify_otp judge_otp
  verify_otp_accepts dto t stored ctx w resolved unblocked found right =
      let p = or_else dto.purpose login in
      let i = trim dto.identifier in
      ground (
        arith,
        resolve_tenant_id_pure S (or_option dto.tenant_id ctx.tenant_id) ctx.tenant_domain w,
        assert_otp_not_blocked_pure S p i t w,
        text_eq_refl dto.code,
      )

  mail_otp_users :
      (c : OtpChannel) (p : OtpPurpose) (i code : Text) (ttl : ℕ) (found : Option User)
      (w : World S)
      → (mail_otp S c p i code ttl found w).1.users ≡ w.users
  unfolding mail_otp
  mail_otp_users email p i code ttl found w = ground arith
  mail_otp_users phone p i code ttl none w = refl
  mail_otp_users phone p i code ttl (some u) w = ground arith

  bump_otp_resend_counter_users :
      (p : OtpPurpose) (i : Text) (t : Option Text) (ttl : ℕ) (w : World S)
      → (bump_otp_resend_counter S p i t ttl w).1.users ≡ w.users
  unfolding bump_otp_resend_counter
  bump_otp_resend_counter_users p i t ttl w = ground arith

  issue_otp_users :
      (c : OtpChannel) (p : OtpPurpose) (i : Text) (t : Option Text) (code : Text)
      (found : Option User) (w : World S)
      → (issue_otp S c p i t code found w).1.users ≡ w.users
  unfolding issue_otp
  issue_otp_users c p i t code found w =
      let token = secure_token S w.draws in
      let ttl = otp_ttl p in
      let payload : OtpPayload = record {
        identifier = i;
        channel = c;
        code = code;
        purpose = p;
        tenant_id = t;
        token = token;
        user_id = id_of found;
        created_at = w.now;
      } in
      let drawn : World S = record w { draws = w.draws + 1 } in
      let bumped = (bump_otp_resend_counter S p i t ttl drawn).1 in
      let first = S.cache.set (otp_key p c i t) (json (otp payload)) ttl bumped.cache in
      let second : World S = record bumped {
        cache = S.cache.set (otp_token_key token) (json (otp payload)) ttl first;
      } in
      ground (
        arith,
        mail_otp_users c p i code ttl found second,
        bump_otp_resend_counter_users p i t ttl drawn,
      )

  -- Over the phone channel the answer to a request for a password reset is enough to reset the
  -- password: whoever holds it verifies the code, at an instant when the scope of the request is
  -- not blocked, and is handed the reset token of the account.
  pub phone_answer_resets :
      (i code : Text) (t t' : Option Text) (u : User) (sent : OtpSent) (dto : OtpVerifyDto)
      (ctx : AuthContext) (w w' : World S)
      → is_empty (secure_token S w.draws) ≡ false
      → is_empty u.id ≡ false
      → find_user S u.id w ≡ some u
      → issue_otp S phone password_reset i t code (some u) w ≡ (ok sent, w')
      → trim dto.identifier ≡ i
      → dto.token ≡ sent.verification_token
      → some dto.code ≡ sent.code
      → (resolve_tenant_id S (or_option dto.tenant_id ctx.tenant_id) ctx.tenant_domain w').0 ≡ ok t'
      → (assert_otp_not_blocked S (or_else dto.purpose login) i t' w').0 ≡ ok tt
      → ((verify_otp S dto ctx w').0 ≡ ok (reset_allowed (secure_token S w'.draws) 600))
        × (find_user S u.id (verify_otp S dto ctx w').1
            ≡ some (with_reset_token (secure_token S w'.draws) w'.now u))
  phone_answer_resets i code t t' u sent dto ctx w w' drawn named found issued same_i same_token
        shown resolved unblocked =
      let q = or_else dto.purpose login in
      let (stored, at, right, purpose, owner, visible) =
        issue_otp_stored S phone password_reset q i t t' code (some u) sent w w' drawn issued in
      let users : w'.users ≡ w.users =
        sym (ap (λ r. r.1.users) issued)
        ∙ issue_otp_users phone password_reset i t code (some u) w in
      let accepted : verify_otp S dto ctx w'
          ≡ accept_otp S stored q (trim dto.identifier) t' ctx w' =
        verify_otp_accepts dto t' stored ctx w' resolved (rw same_i unblocked)
          (rw (same_i, same_token) at) (ground arith) in
      rw accepted (
        accept_otp_reset stored q (trim dto.identifier) t' u ctx w' purpose owner named
          (rw users found))
