-- ===== src/Auth/Passwords.antt =====
-- The verification of a mail address and the three ways to a new password in
-- src/modules/auth/auth.service.ts.
pub mod Reset
use learn_nestjs.Common.{
  ℕ, ◌+◌, ◌-◌, Bool, true, false, not, ◌&&◌, Option, none, some, or_else, [], if◌then◌else◌, ltb,
}
use learn_nestjs.Common.Text.{Text, to_lower}
use learn_nestjs.Common.Results.{
  Failure, Exec, ok, err, bad_request, unauthorized, return, gets, unless, ◌>>=◌, ◌>>◌,
}
use learn_nestjs.Database.{User, active}
use learn_nestjs.Auth.Keys.{email, password_reset}
use learn_nestjs.Auth.World.{
  Services, World, no_context, reset_password, find_user, update_user, send_mail,
  generate_secure_token,
}
use learn_nestjs.Auth.Users.{option_eq, truthy}
use learn_nestjs.Auth.Tokens.{revoke_user_sessions}
use learn_nestjs.Auth.Otp.{password_reset_token_ttl_ms, user_not_found, send_otp}

pub record ForgotPasswordDto : Type 0 where
  pub email : Text
  pub otp_verification : Bool

-- The answers of `forgotPassword`.
pub data ForgotAnswer : Type 0 where
  no_account otp_sent link_sent : ForgotAnswer

abbrev pub invalid_verification_token : Failure
invalid_verification_token = bad_request "Invalid verification token"

abbrev pub invalid_reset_token : Failure
invalid_reset_token = bad_request "Invalid or expired reset token"

abbrev pub password_not_set : Failure
password_not_set = bad_request "Password is not set for this account"

abbrev pub current_password_incorrect : Failure
current_password_incorrect = unauthorized "Current password is incorrect"

-- `passwordResetExpires: { gt: new Date() }`
abbrev pub expires_after : Option ℕ → ℕ → Bool
expires_after none now = false
expires_after (some t) now = ltb now t

-- The `where` clause of `resetPassword`.
unfoldable pub has_reset_token : Text → ℕ → User → Bool
has_reset_token token now u =
    option_eq u.password_reset_token (some token) && expires_after u.password_reset_expires now

abbrev pub activate : User → User
activate u = record u { is_email_verified = true; email_verify_token = none; status = active }

module _ (S : Services) where
  unfoldable pub verify_email_token : Text → Exec (World S) Unit
  verify_email_token token w =
      elim (S.users.find_first (λ u. option_eq u.email_verify_token (some token)) w.users) [
        | none ↦ (err invalid_verification_token, w)
        | some u ↦ update_user S u.id activate w
      ]

  unfoldable pub hash_password : Text → Exec (World S) Text
  hash_password password w = (ok (S.bcrypt_hash password w.draws), record w { draws = w.draws + 1 })

  unfoldable pub answer_forgot : Option User → ForgotPasswordDto → Exec (World S) ForgotAnswer
  answer_forgot none dto = return no_account
  answer_forgot (some u) dto =
      if dto.otp_verification
      then (do
        send_otp S
            (record {
              identifier = dto.email;
              channel = some email;
              tenant_id = u.tenant_id;
              purpose = some password_reset;
            })
            no_context
        return otp_sent)
      else (do
        reset_token ← generate_secure_token S
        now ← gets (λ w. w.now)
        update_user S u.id (λ r. record r {
          password_reset_token = some reset_token;
          password_reset_expires = some (now + password_reset_token_ttl_ms);
        })
        send_mail S
            (record { to_address = or_else u.email []; content = reset_password reset_token })
        return link_sent)

  unfoldable pub forgot_password : ForgotPasswordDto → Exec (World S) ForgotAnswer
  forgot_password dto = do
    found ←
        gets (λ w. S.users.find_first (λ u. option_eq u.email (some (to_lower dto.email))) w.users)
    answer_forgot found dto

  unfoldable pub set_password : User → Text → Exec (World S) Unit
  set_password u new_password = do
    hashed ← hash_password new_password
    update_user S u.id (λ r. record r {
      password = some hashed;
      password_reset_token = none;
      password_reset_expires = none;
    })
    revoke_user_sessions S u.id

  unfoldable pub reset_password_by_token : Text → Text → Exec (World S) Unit
  reset_password_by_token token new_password w =
      elim (S.users.find_first (has_reset_token token w.now) w.users) [
        | none ↦ (err invalid_reset_token, w)
        | some u ↦ set_password u new_password w
      ]

  unfoldable pub replace_password : Text → Text → Text → User → Exec (World S) Unit
  replace_password user_id current_password new_password u = do
    unless (truthy u.password) password_not_set
    unless (S.bcrypt_compare current_password (or_else u.password [])) current_password_incorrect
    hashed ← hash_password new_password
    update_user S user_id (λ r. record r { password = some hashed })
    revoke_user_sessions S user_id

  unfoldable pub change_password : Text → Text → Text → Exec (World S) Unit
  change_password user_id current_password new_password w = elim (find_user S user_id w) [
    | none ↦ (err user_not_found, w)
    | some u ↦ replace_password user_id current_password new_password u w
  ]
