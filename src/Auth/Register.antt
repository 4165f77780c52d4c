-- ===== src/Auth/Register.antt =====
-- `register` of src/modules/auth/auth.service.ts with `resolveUsername`, `slugify`,
-- `ensureNoDuplicateIdentity` and `ensureDefaultRole`.
pub mod Fresh
use learn_nestjs.Common.{
  ℕ, zero, suc, ◌+◌, Bool, true, false, not, ◌&&◌, ◌||◌, Option, none, some, or_else, [], ◌∷◌, ◌++◌,
  if◌then◌else◌, ◌==◌, leb,
}
use learn_nestjs.Common.Text.{Text, codes, text_eq, is_empty, to_lower, trim}
use learn_nestjs.Common.Results.{
  Failure, Exec, ok, err, bad_request, conflict, database, return, unless, when, ◌>>=◌, ◌>>◌,
}
use learn_nestjs.Database.{User, pending_verification, Role, user, AppRole}
use learn_nestjs.Auth.Keys.{OtpChannel, email, phone, account_verification}
use learn_nestjs.Auth.World.{
  Services, World, AuthContext, verify_email, send_mail, generate_secure_token, random, audit,
}
use learn_nestjs.Auth.Users.{
  option_eq, truthy, resolve_verification_channel, resolve_tenant_id, lower_option,
}
use learn_nestjs.Auth.Tokens.{print_number}
use learn_nestjs.Auth.Otp.{OtpSent, lift, send_otp}
use mathlib.Core.List.{reverse}
use learn_nestjs.Auth.Passwords.{hash_password}

-- Its `tenantId` is not read: the tenant comes with the context.
pub record RegisterDto : Type 0 where
  pub full_name : Text
  pub email : Option Text
  pub phone : Option Text
  pub username : Option Text
  pub otp_verification : Bool
  pub verification_channel : Option OtpChannel
  pub password : Option Text

-- The `data` of the answer of `register`.
pub record Registered : Type 0 where
  pub by_otp : Bool
  pub channel : Option OtpChannel
  pub identifier : Option Text
  pub expires_in : Option ℕ
  pub verification_token : Option Text
  pub code : Option Text

abbrev pub identity_missing : Failure
identity_missing = bad_request "Either email or phone must be provided"

abbrev pub identity_exists : Failure
identity_exists = conflict "User identity already exists"

abbrev pub no_unique_username : Failure
no_unique_username = conflict "Unable to generate a unique username"

-- `slugify`: runs of other characters become one `_`, and none is left at either end.

abbrev pub is_slug_char : ℕ → Bool
is_slug_char c = (leb b'a' c && leb c b'z') || (leb b'0' c && leb c b'9')

-- `replace(/[^a-z0-9]+/g, '_')`; the flag says that a run has begun.
unfoldable pub squeeze : Bool → Text → Text
squeeze run [] = []
squeeze run (c ∷ s) =
    let rest = squeeze (not (is_slug_char c)) s in
    if is_slug_char c then c ∷ rest else if run then rest else b'_' ∷ rest

unfoldable pub strip_start : Text → Text
strip_start [] = []
strip_start (c ∷ s) = let rest = strip_start s in if c == b'_' then rest else c ∷ s

unfoldable pub slug_of : Text → Text
unfolding squeeze strip_start
slug_of value =
    reverse (strip_start (reverse (strip_start (squeeze false (trim (to_lower value))))))

-- The `OR` clause of `ensureNoDuplicateIdentity`, one condition for each value that is given.
unfoldable pub is_duplicate : Option Text → Option Text → Option Text → User → Bool
is_duplicate mail tel username u =
    (truthy mail && option_eq u.email (some (to_lower (or_else mail []))))
    || (truthy tel && option_eq u.phone tel)
    || (truthy username && text_eq u.username (to_lower (or_else username [])))

abbrev pub or_text : Text → Text → Text
or_text a b = if is_empty a then b else a

abbrev pub is_user_role : Role → Bool
is_user_role user = true
is_user_role _ = false

module _ (S : Services) where
  unfoldable pub slugify : Text → Exec (World S) Text
  slugify value =
      if is_empty (slug_of value)
      then (do drawn ← random S 9000; return (codes "user" ++ print_number (1000 + drawn)))
      else return (slug_of value)

  -- The loop of `resolveUsername`, by the tries left.
  unfoldable pub try_username : ℕ → Text → Text → Exec (World S) Text
  try_username zero base candidate w = (err no_unique_username, w)
  try_username (suc tries) base candidate w =
      elim (S.users.find_first (λ u. text_eq u.username candidate) w.users) [
        | none ↦ (ok candidate, w)
        | some taken ↦
            try_username tries base (base ++ print_number (1000 + S.random_below 9000 w.draws))
              (record w { draws = w.draws + 1 })
      ]

  unfoldable pub resolve_username : Option Text → Text → Exec (World S) Text
  resolve_username provided full_name = do
    let given = trim (or_else provided [])
    chosen ← (if is_empty given then slugify full_name else return given)
    try_username 10 (to_lower chosen) (to_lower chosen)

  unfoldable pub ensure_no_duplicate_identity :
      Option Text → Option Text → Option Text → Exec (World S) Unit
  ensure_no_duplicate_identity mail tel username w =
      if not (truthy mail || truthy tel || truthy username)
      then (ok tt, w)
      else elim (S.users.find_first (is_duplicate mail tel username) w.users) [
        | none ↦ (ok tt, w)
        | some u ↦ (err identity_exists, w)
      ]

  -- `appRole.findFirst` or `appRole.create`; `none` is an exception.
  unfoldable pub default_role : Option Text → World S → Option (AppRole × World S)
  default_role tenant_id w =
      elim (S.app_roles.find_first (λ r. is_user_role r.name && option_eq r.tenant_id tenant_id)
        w.app_roles) [
          | some found ↦ some (found, w)
          | none ↦
              elim (S.app_roles.create
                (λ id. record { id = id; name = user; tenant_id = tenant_id }) w.app_roles) [
                  | none ↦ none
                  | some (created, roles) ↦ some (created, record w { app_roles = roles })
                ]
        ]

  -- An exception is logged and swallowed.
  unfoldable pub ensure_default_role : Text → Option Text → Exec (World S) Unit
  ensure_default_role user_id tenant_id w = elim (default_role tenant_id w) [
    | none ↦ (ok tt, w)
    | some (role, w1) ↦
        elim (S.user_roles.create (λ id. record { id = id; user_id = user_id; role_id = role.id })
          w1.user_roles) [
            | none ↦ (ok tt, w1)
            | some (row, rows) ↦ (ok tt, record w1 { user_roles = rows })
          ]
  ]

  -- `prisma.user.create`: P2002 where a unique column is taken.
  unfoldable pub create_user :
      RegisterDto → Text → Option Text → Option Text → Option Text → Exec (World S) User
  create_user dto username tenant_id password email_verify_token w =
      elim (S.users.create
        (λ id. record {
          id = id;
          full_name = dto.full_name;
          username = username;
          email = lower_option dto.email;
          phone = dto.phone;
          password = password;
          avatar = none;
          bio = none;
          role = user;
          status = pending_verification;
          tenant_id = tenant_id;
          is_email_verified = false;
          is_phone_verified = false;
          is_online = false;
          last_seen_at = none;
          email_verify_token = email_verify_token;
          password_reset_token = none;
          password_reset_expires = none;
          refresh_token = none;
        })
        w.users) [
          | none ↦ (err (database "P2002"), w)
          | some (u, rows) ↦ (ok u, record w { users = rows })
        ]

  -- The identifier of the channel in the answer.
  abbrev pub channel_identifier : Option OtpChannel → User → Option Text
  channel_identifier (some phone) u = u.phone
  channel_identifier _ u = u.email

  unfoldable pub send_verification_otp :
      OtpChannel → RegisterDto → Option Text → AuthContext → Exec (World S) OtpSent
  send_verification_otp email dto tenant_id ctx =
      send_otp S
        (record {
          identifier = or_else dto.email [];
          channel = some email;
          tenant_id = tenant_id;
          purpose = some account_verification;
        })
        ctx
  send_verification_otp phone dto tenant_id ctx =
      send_otp S
        (record {
          identifier = or_else dto.phone [];
          channel = some phone;
          tenant_id = tenant_id;
          purpose = some account_verification;
        })
        ctx

  abbrev pub registered_with : Bool → Option OtpChannel → User → Option OtpSent → Registered
  registered_with by_otp channel u none = record {
    by_otp = by_otp;
    channel = channel;
    identifier = channel_identifier channel u;
    expires_in = none;
    verification_token = none;
    code = none;
  }
  registered_with by_otp channel u (some sent) = record {
    by_otp = by_otp;
    channel = channel;
    identifier = channel_identifier channel u;
    expires_in = some sent.expires_in;
    verification_token = sent.verification_token;
    code = sent.code;
  }

  -- The mail or the code that lets the new account be verified.
  unfoldable pub start_verification :
      Bool
      → Option OtpChannel
      → RegisterDto
      → Option Text
      → Option Text
      → AuthContext
      → Exec (World S) (Option OtpSent)
  start_verification false channel dto tenant_id token ctx = do
    when (truthy dto.email && truthy token) (
        send_mail S
          (record { to_address = or_else dto.email []; content = verify_email (or_else token []) }))
    return none
  start_verification true none dto tenant_id token ctx = return none
  start_verification true (some channel) dto tenant_id token ctx = do
    sent ← send_verification_otp channel dto tenant_id ctx
    return (some sent)

  abbrev pub maybe : {A : Type 0} → Bool → Exec (World S) A → Exec (World S) (Option A)
  maybe true m = do a ← m; return (some a)
  maybe false m = return none

  unfoldable pub register : RegisterDto → AuthContext → Exec (World S) Registered
  register dto ctx = do
    unless (truthy dto.email || truthy dto.phone) identity_missing
    tenant_id ← resolve_tenant_id S ctx.tenant_id ctx.tenant_domain
    username ← resolve_username dto.username dto.full_name
    ensure_no_duplicate_identity dto.email dto.phone (some username)
    password ← maybe (truthy dto.password) (hash_password S (or_else dto.password []))
    token ← maybe (truthy dto.email) (generate_secure_token S)
    let by_otp = dto.otp_verification || not (truthy dto.email)
    channel ←
        lift S (resolve_verification_channel dto.verification_channel dto.email dto.phone by_otp)
    u ← create_user dto username tenant_id password (if by_otp then none else token)
    ensure_default_role u.id tenant_id
    sent ← start_verification by_otp channel dto tenant_id token ctx
    audit S "auth.user.created" (some u.id) tenant_id
        (("username", u.username) ∷ ("email", or_else u.email []) ∷ []) ctx
    return (registered_with by_otp channel u sent)
