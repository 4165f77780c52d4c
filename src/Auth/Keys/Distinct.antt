-- ===== src/Auth/Keys/Distinct.antt =====
-- Keys of different kinds compared.
use learn_nestjs.Common.{◌≡◌, refl, false, Option, arith}
use learn_nestjs.Common.Text.{Text, text_eq}
use learn_nestjs.Auth.Keys.{
  OtpChannel, OtpPurpose, otp_key, otp_token_key, otp_resend_key, otp_invalid_attempt_key,
  otp_block_key, refresh_session_key, refresh_token_key, presence_key,
}

pub otp_key-ne-otp_token_key :
    (p : OtpPurpose) (c : OtpChannel) (i : Text) (t : Option Text) (k' : Text)
    → text_eq (otp_key p c i t) (otp_token_key k') ≡ false
unfolding otp_key otp_token_key text_eq
otp_key-ne-otp_token_key p c i t k' = ground arith

pub otp_key-ne-otp_resend_key :
    (p : OtpPurpose) (c : OtpChannel) (i : Text) (t : Option Text) (p' : OtpPurpose) (i' : Text)
    (t' : Option Text)
    → text_eq (otp_key p c i t) (otp_resend_key p' i' t') ≡ false
unfolding otp_key otp_resend_key text_eq
otp_key-ne-otp_resend_key p c i t p' i' t' = ground arith

pub otp_key-ne-otp_invalid_attempt_key :
    (p : OtpPurpose) (c : OtpChannel) (i : Text) (t : Option Text) (p' : OtpPurpose) (i' : Text)
    (t' : Option Text)
    → text_eq (otp_key p c i t) (otp_invalid_attempt_key p' i' t') ≡ false
unfolding otp_key otp_invalid_attempt_key text_eq
otp_key-ne-otp_invalid_attempt_key p c i t p' i' t' = ground arith

pub otp_key-ne-otp_block_key :
    (p : OtpPurpose) (c : OtpChannel) (i : Text) (t : Option Text) (p' : OtpPurpose) (i' : Text)
    (t' : Option Text)
    → text_eq (otp_key p c i t) (otp_block_key p' i' t') ≡ false
unfolding otp_key otp_block_key text_eq
otp_key-ne-otp_block_key p c i t p' i' t' = ground arith

pub otp_token_key-ne-otp_key :
    (k : Text) (p' : OtpPurpose) (c' : OtpChannel) (i' : Text) (t' : Option Text)
    → text_eq (otp_token_key k) (otp_key p' c' i' t') ≡ false
unfolding otp_token_key otp_key text_eq
otp_token_key-ne-otp_key k p' c' i' t' = ground arith

pub otp_token_key-ne-otp_resend_key :
    (k : Text) (p' : OtpPurpose) (i' : Text) (t' : Option Text)
    → text_eq (otp_token_key k) (otp_resend_key p' i' t') ≡ false
unfolding otp_token_key otp_resend_key text_eq
otp_token_key-ne-otp_resend_key k p' i' t' = ground arith

pub otp_token_key-ne-otp_invalid_attempt_key :
    (k : Text) (p' : OtpPurpose) (i' : Text) (t' : Option Text)
    → text_eq (otp_token_key k) (otp_invalid_attempt_key p' i' t') ≡ false
unfolding otp_token_key otp_invalid_attempt_key text_eq
otp_token_key-ne-otp_invalid_attempt_key k p' i' t' = ground arith

pub otp_token_key-ne-otp_block_key :
    (k : Text) (p' : OtpPurpose) (i' : Text) (t' : Option Text)
    → text_eq (otp_token_key k) (otp_block_key p' i' t') ≡ false
unfolding otp_token_key otp_block_key text_eq
otp_token_key-ne-otp_block_key k p' i' t' = ground arith

pub otp_resend_key-ne-otp_key :
    (p : OtpPurpose) (i : Text) (t : Option Text) (p' : OtpPurpose) (c' : OtpChannel) (i' : Text)
    (t' : Option Text)
    → text_eq (otp_resend_key p i t) (otp_key p' c' i' t') ≡ false
unfolding otp_resend_key otp_key text_eq
otp_resend_key-ne-otp_key p i t p' c' i' t' = ground arith

pub otp_resend_key-ne-otp_token_key :
    (p : OtpPurpose) (i : Text) (t : Option Text) (k' : Text)
    → text_eq (otp_resend_key p i t) (otp_token_key k') ≡ false
unfolding otp_resend_key otp_token_key text_eq
otp_resend_key-ne-otp_token_key p i t k' = ground arith

pub otp_resend_key-ne-otp_invalid_attempt_key :
    (p : OtpPurpose) (i : Text) (t : Option Text) (p' : OtpPurpose) (i' : Text) (t' : Option Text)
    → text_eq (otp_resend_key p i t) (otp_invalid_attempt_key p' i' t') ≡ false
unfolding otp_resend_key otp_invalid_attempt_key text_eq
otp_resend_key-ne-otp_invalid_attempt_key p i t p' i' t' = ground arith

pub otp_resend_key-ne-otp_block_key :
    (p : OtpPurpose) (i : Text) (t : Option Text) (p' : OtpPurpose) (i' : Text) (t' : Option Text)
    → text_eq (otp_resend_key p i t) (otp_block_key p' i' t') ≡ false
unfolding otp_resend_key otp_block_key text_eq
otp_resend_key-ne-otp_block_key p i t p' i' t' = ground arith

pub otp_invalid_attempt_key-ne-otp_key :
    (p : OtpPurpose) (i : Text) (t : Option Text) (p' : OtpPurpose) (c' : OtpChannel) (i' : Text)
    (t' : Option Text)
    → text_eq (otp_invalid_attempt_key p i t) (otp_key p' c' i' t') ≡ false
unfolding otp_invalid_attempt_key otp_key text_eq
otp_invalid_attempt_key-ne-otp_key p i t p' c' i' t' = ground arith

pub otp_invalid_attempt_key-ne-otp_token_key :
    (p : OtpPurpose) (i : Text) (t : Option Text) (k' : Text)
    → text_eq (otp_invalid_attempt_key p i t) (otp_token_key k') ≡ false
unfolding otp_invalid_attempt_key otp_token_key text_eq
otp_invalid_attempt_key-ne-otp_token_key p i t k' = ground arith

pub otp_invalid_attempt_key-ne-otp_resend_key :
    (p : OtpPurpose) (i : Text) (t : Option Text) (p' : OtpPurpose) (i' : Text) (t' : Option Text)
    → text_eq (otp_invalid_attempt_key p i t) (otp_resend_key p' i' t') ≡ false
unfolding otp_invalid_attempt_key otp_resend_key text_eq
otp_invalid_attempt_key-ne-otp_resend_key p i t p' i' t' = ground arith

pub otp_invalid_attempt_key-ne-otp_block_key :
    (p : OtpPurpose) (i : Text) (t : Option Text) (p' : OtpPurpose) (i' : Text) (t' : Option Text)
    → text_eq (otp_invalid_attempt_key p i t) (otp_block_key p' i' t') ≡ false
unfolding otp_invalid_attempt_key otp_block_key text_eq
otp_invalid_attempt_key-ne-otp_block_key p i t p' i' t' = ground arith

pub otp_block_key-ne-otp_key :
    (p : OtpPurpose) (i : Text) (t : Option Text) (p' : OtpPurpose) (c' : OtpChannel) (i' : Text)
    (t' : Option Text)
    → text_eq (otp_block_key p i t) (otp_key p' c' i' t') ≡ false
unfolding otp_block_key otp_key text_eq
otp_block_key-ne-otp_key p i t p' c' i' t' = ground arith

pub otp_block_key-ne-otp_token_key :
    (p : OtpPurpose) (i : Text) (t : Option Text) (k' : Text)
    → text_eq (otp_block_key p i t) (otp_token_key k') ≡ false
unfolding otp_block_key otp_token_key text_eq
otp_block_key-ne-otp_token_key p i t k' = ground arith

pub otp_block_key-ne-otp_resend_key :
    (p : OtpPurpose) (i : Text) (t : Option Text) (p' : OtpPurpose) (i' : Text) (t' : Option Text)
    → text_eq (otp_block_key p i t) (otp_resend_key p' i' t') ≡ false
unfolding otp_block_key otp_resend_key text_eq
otp_block_key-ne-otp_resend_key p i t p' i' t' = ground arith

pub otp_block_key-ne-otp_invalid_attempt_key :
    (p : OtpPurpose) (i : Text) (t : Option Text) (p' : OtpPurpose) (i' : Text) (t' : Option Text)
    → text_eq (otp_block_key p i t) (otp_invalid_attempt_key p' i' t') ≡ false
unfolding otp_block_key otp_invalid_attempt_key text_eq
otp_block_key-ne-otp_invalid_attempt_key p i t p' i' t' = ground arith

pub ruleset otp_keys = (
  otp_key-ne-otp_token_key, otp_key-ne-otp_resend_key, otp_key-ne-otp_invalid_attempt_key,
  otp_key-ne-otp_block_key, otp_token_key-ne-otp_key, otp_token_key-ne-otp_resend_key,
  otp_token_key-ne-otp_invalid_attempt_key, otp_token_key-ne-otp_block_key,
  otp_resend_key-ne-otp_key, otp_resend_key-ne-otp_token_key,
  otp_resend_key-ne-otp_invalid_attempt_key, otp_resend_key-ne-otp_block_key,
  otp_invalid_attempt_key-ne-otp_key, otp_invalid_attempt_key-ne-otp_token_key,
  otp_invalid_attempt_key-ne-otp_resend_key, otp_invalid_attempt_key-ne-otp_block_key,
  otp_block_key-ne-otp_key, otp_block_key-ne-otp_token_key, otp_block_key-ne-otp_resend_key,
  otp_block_key-ne-otp_invalid_attempt_key,
)

pub presence_key-ne-otp_key :
    (u : Text) (p : OtpPurpose) (c : OtpChannel) (i : Text) (t : Option Text)
    → text_eq (presence_key u) (otp_key p c i t) ≡ false
unfolding presence_key otp_key text_eq
presence_key-ne-otp_key u p c i t = refl

pub presence_key-ne-otp_token_key :
    (u : Text) (k : Text) → text_eq (presence_key u) (otp_token_key k) ≡ false
unfolding presence_key otp_token_key text_eq
presence_key-ne-otp_token_key u k = refl

pub refresh_session_key-ne-otp_key :
    (u h : Text) (p : OtpPurpose) (c : OtpChannel) (i : Text) (t : Option Text)
    → text_eq (refresh_session_key u h) (otp_key p c i t) ≡ false
unfolding refresh_session_key otp_key text_eq
refresh_session_key-ne-otp_key u h p c i t = refl

pub refresh_session_key-ne-otp_token_key :
    (u h : Text) (k : Text) → text_eq (refresh_session_key u h) (otp_token_key k) ≡ false
unfolding refresh_session_key otp_token_key text_eq
refresh_session_key-ne-otp_token_key u h k = refl

pub refresh_token_key-ne-otp_key :
    (u : Text) (p : OtpPurpose) (c : OtpChannel) (i : Text) (t : Option Text)
    → text_eq (refresh_token_key u) (otp_key p c i t) ≡ false
unfolding refresh_token_key otp_key text_eq
refresh_token_key-ne-otp_key u p c i t = refl

pub refresh_token_key-ne-otp_token_key :
    (u : Text) (k : Text) → text_eq (refresh_token_key u) (otp_token_key k) ≡ false
unfolding refresh_token_key otp_token_key text_eq
refresh_token_key-ne-otp_token_key u k = refl
