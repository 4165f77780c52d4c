-- ===== src/Samples/Runs.antt =====
-- The theorems on the accounts applied at concrete inputs.
use learn_nestjs.Auth.Users.{resolve_tenant_id}
use learn_nestjs.Common.{◌≡◌, refl, Option, none, some}
use learn_nestjs.Common.Text.{Text, codes}
use learn_nestjs.Common.Results.{ok, err}
use learn_nestjs.Auth.Keys.{phone, login, password_reset}
use learn_nestjs.Auth.World.{World, OtpPayload, find_user}
use learn_nestjs.Auth.OtpGuards.{otp_blocked}
use learn_nestjs.Auth.Otp.{
  invalid_or_expired_otp, OtpVerifyDto, OtpSent, reset_allowed, issue_otp, find_stored_otp,
  verify_otp,
}
use learn_nestjs.Auth.OtpGuards.Limits.{after}
use learn_nestjs.Auth.Otp.Wrong.{stored_for, verify_otp_wrong_limit}
use learn_nestjs.Auth.Otp.Delivery.{phone_answer_resets, with_reset_token, issue_otp_stored}
use learn_nestjs.Auth.Otp.SingleUse.{verify_otp-Spent, Spent}
use learn_nestjs.Auth.Otp.Lockout.{verify_otp_locks}
use learn_nestjs.Samples.World.{ann, ann_id, servers, world, ann_phone, from_tenant, verify_request}
use learn_nestjs.Samples.Models.{runs}

abbrev wrong : OtpVerifyDto
wrong = verify_request (codes "000000") none

verify_otp_locks_example :
    verify_otp servers
      (verify_request (codes "123456") none)
      from_tenant
      (after 3 (verify_otp servers wrong from_tenant) world)
    ≡ (err otp_blocked, after 3 (verify_otp servers wrong from_tenant) world)
unfolding runs
verify_otp_locks_example =
    verify_otp_locks servers wrong (verify_request (codes "123456") none) from_tenant from_tenant 3
      world refl refl refl refl refl refl refl refl refl

verify_otp_wrong_limit_example :
    ((verify_otp servers wrong from_tenant (after 2 (verify_otp servers wrong from_tenant) world)).0
      ≡ err invalid_or_expired_otp)
    × (stored_for servers wrong from_tenant none
          (after 2 (verify_otp servers wrong from_tenant) world)
        ≡ stored_for servers wrong from_tenant none world)
unfolding runs
verify_otp_wrong_limit_example =
    verify_otp_wrong_limit servers wrong from_tenant 2 none world refl refl refl refl refl

-- The state after a code for a password reset was sent to the phone of the account.
abbrev sent_world : World servers
sent_world =
    (issue_otp servers phone password_reset ann_phone (some (codes "t1")) (codes "123456")
      (some ann) world).1

abbrev answer : OtpSent
answer = record {
  channel = phone;
  purpose = password_reset;
  expires_in = 600;
  verification_token = some (codes "a");
  code = some (codes "123456");
}

abbrev right : OtpVerifyDto
right = verify_request (codes "123456") (some (codes "a"))

issue_otp_stored_example :
    (stored : OtpPayload) × (find_stored_otp servers ann_phone none login
        (some (codes "a"))
        sent_world
      ≡ some stored)
    × (stored.code ≡ codes "123456")
    × (stored.purpose ≡ password_reset)
    × (stored.user_id ≡ some ann_id)
    × (some (codes "123456") ≡ some (codes "123456"))
unfolding runs
issue_otp_stored_example =
    issue_otp_stored servers phone password_reset login ann_phone (some (codes "t1")) none
      (codes "123456") (some ann) answer world sent_world refl refl

verify_otp-Spent_example :
    (tenant_id : Option Text) × (stored : OtpPayload) × ((resolve_tenant_id servers
        (some (codes "t1"))
        none
        sent_world).0
      ≡ ok tenant_id)
    × (find_stored_otp servers ann_phone tenant_id login (some (codes "a")) sent_world
        ≡ some stored)
    × (stored.code ≡ codes "123456")
    × Spent servers stored (verify_otp servers right from_tenant sent_world).1
unfolding runs
verify_otp-Spent_example =
    verify_otp-Spent servers right from_tenant (reset_allowed (codes "b") 600) sent_world
      (verify_otp servers right from_tenant sent_world).1 refl

phone_answer_resets_example :
    ((verify_otp servers right from_tenant sent_world).0 ≡ ok (reset_allowed (codes "b") 600))
    × (find_user servers ann_id (verify_otp servers right from_tenant sent_world).1
        ≡ some (with_reset_token (codes "b") 1000000 ann))
unfolding runs
phone_answer_resets_example =
    phone_answer_resets servers ann_phone (codes "123456") (some (codes "t1")) (some (codes "t1"))
      ann answer right from_tenant world sent_world refl refl refl refl refl refl refl refl refl
