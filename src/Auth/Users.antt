-- ===== src/Auth/Users.antt =====
-- Finding accounts and resolving what a request leaves out: the tenant, the channel and the
-- purpose of an OTP.
use learn_nestjs.Common.{
  ℕ, ◌≡◌, Bool, true, false, not, ◌&&◌, ◌||◌, Option, none, some, [], ◌∷◌, if◌then◌else◌, ◌==◌, leb,
  arith,
}
use learn_nestjs.Common.Text.{Text, text_eq, is_empty, to_lower, trim, includes}
use learn_nestjs.Common.Lists.{length, every}
use learn_nestjs.Common.Results.{
  Failure, Result, Exec, ok, err, bad_request, unauthorized, not_found, unless,
}
use learn_nestjs.Database.{User, UserStatus, banned, pending_verification}
use learn_nestjs.Auth.Keys.{OtpChannel, OtpPurpose, email, phone, login, account_verification}
use learn_nestjs.Auth.World.{Services, World}

-- `a === b` for values that may be `null`; a `where` clause on a nullable column.
abbrev pub option_eq : Option Text → Option Text → Bool
option_eq none none = true
option_eq (some a) (some b) = text_eq a b
option_eq _ _ = false

-- Truthiness of an optional string.
abbrev pub truthy : Option Text → Bool
truthy none = false
truthy (some a) = not (is_empty a)

abbrev pub is_pending : UserStatus → Bool
is_pending pending_verification = true
is_pending _ = false

abbrev pub is_banned : UserStatus → Bool
is_banned banned = true
is_banned _ = false

-- The account has not been verified by any channel.
abbrev pub is_unverified : User → Bool
is_unverified u = is_pending u.status && not u.is_email_verified && not u.is_phone_verified

-- The `OR` clause of both lookups.
unfoldable pub matches_identifier : Text → User → Bool
matches_identifier identifier u =
    let normalized = trim identifier in
    option_eq u.email (some (to_lower normalized))
    || text_eq u.username (to_lower normalized)
    || option_eq u.phone (some normalized)

abbrev is_digit : ℕ → Bool
is_digit c = leb b'0' c && leb c b'9'

abbrev digits_6_20 : Text → Bool
digits_6_20 s = every is_digit s && leb 6 (length s) && leb (length s) 20

-- /^\+?\d{6,20}$/
unfoldable pub is_phone_number : Text → Bool
is_phone_number [] = false
is_phone_number (c ∷ s) = if c == b'+' then digits_6_20 s else digits_6_20 (c ∷ s)

abbrev pub email_of : Option User → Option Text
email_of none = none
email_of (some u) = u.email

abbrev pub phone_of : Option User → Option Text
phone_of none = none
phone_of (some u) = u.phone

-- `o?.toLowerCase()`
abbrev pub lower_option : Option Text → Option Text
lower_option none = none
lower_option (some e) = some (to_lower e)

abbrev pub auto_detect_failed : Failure
auto_detect_failed =
    bad_request "Unable to auto-detect OTP channel. Provide channel=email or channel=phone."

unfoldable pub resolve_otp_channel : Option OtpChannel → Text → Option User → Result OtpChannel
resolve_otp_channel (some preferred) identifier found = ok preferred
resolve_otp_channel none identifier found =
    let normalized = trim identifier in
    if includes b'@' normalized
    then ok email
    else if is_phone_number normalized
    then ok phone
    else if option_eq (lower_option (email_of found)) (some (to_lower normalized))
    then ok email
    else if option_eq (phone_of found) (some normalized)
    then ok phone
    else if truthy (email_of found)
    then ok email
    else if truthy (phone_of found)
    then ok phone
    else err auto_detect_failed

unfoldable pub resolve_otp_purpose : Option OtpPurpose → Option User → OtpPurpose
resolve_otp_purpose (some requested) found = requested
resolve_otp_purpose none none = login
resolve_otp_purpose none (some u) = if is_unverified u then account_verification else login

unfoldable pub resolve_verification_channel :
    Option OtpChannel → Option Text → Option Text → Bool → Result (Option OtpChannel)
resolve_verification_channel (some email) mail tel true =
    if truthy mail
    then ok (some email)
    else err (bad_request "verificationChannel=email requires an email")
resolve_verification_channel (some phone) mail tel true =
    if truthy tel
    then ok (some phone)
    else err (bad_request "verificationChannel=phone requires a phone number")
resolve_verification_channel none mail tel true =
    if truthy mail
    then ok (some email)
    else if truthy tel
    then ok (some phone)
    else err (bad_request "A valid email or phone is required for OTP verification")
resolve_verification_channel preferred mail tel false =
    if truthy mail then ok (some email) else if truthy tel then ok (some phone) else ok none

abbrev pub not_verified_yet : Failure
not_verified_yet = unauthorized "Account is not verified yet. Please complete verification first."

module _ (S : Services) where
  unfoldable pub resolve_tenant_id : Option Text → Option Text → Exec (World S) (Option Text)
  resolve_tenant_id tenant_id tenant_domain w =
      if truthy tenant_id
      then (ok tenant_id, w)
      else if not (truthy tenant_domain)
      then (ok none, w)
      else elim (S.tenants.find_first (λ t. option_eq t.domain tenant_domain) w.tenants) [
        | none ↦ (err (not_found "Tenant could not be resolved"), w)
        | some tenant ↦ (ok (some tenant.id), w)
      ]

  unfoldable pub find_user_by_identifier : Text → Option Text → World S → Option User
  unfolding matches_identifier
  find_user_by_identifier identifier tenant_id w =
      S.users.find_first (λ u. option_eq u.tenant_id tenant_id && matches_identifier identifier u)
        w.users

  unfoldable pub find_user_by_identifier_across_tenants : Text → World S → Option User
  unfolding matches_identifier
  find_user_by_identifier_across_tenants identifier w =
      S.users.find_first (matches_identifier identifier) w.users

  unfoldable pub assert_user_can_authenticate : User → Exec (World S) Unit
  assert_user_can_authenticate u = unless (not (is_unverified u)) not_verified_yet

  -- A lookup of the tenant changes nothing.
  pub resolve_tenant_id_pure : (t d : Option Text) (w : World S) → (resolve_tenant_id t d w).1 ≡ w
  unfolding resolve_tenant_id
  resolve_tenant_id_pure t d w = ground arith
