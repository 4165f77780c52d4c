-- ===== src/Auth/World.antt =====
-- What `AuthService` works with: the services that it is constructed with and their state.
--
-- Redis is a `Cache`, each table a `Table`. The functions of bcryptjs, crypto, uuid and the JWT
-- library, the mail transport and `Math.random` are parameters. The state counts the random draws,
-- so that each call of a generator has a draw of its own. A handler runs at one instant, `now` in
-- milliseconds.
use learn_nestjs.Common.{
  ℕ, ◌+◌, Bool, not, Option, none, some, List, ◌∷◌, String, if◌then◌else◌, ◌==◌,
}
use learn_nestjs.Common.Text.{Text}
use learn_nestjs.Common.Lists.{filter}
use learn_nestjs.Common.Results.{Exec, ok, err, internal_server_error, database}
use learn_nestjs.Redis.Cache.{Cache}
use learn_nestjs.Redis.Driver.{Stored}
use learn_nestjs.Database.{User, Tenant, OAuthAccount, AppRole, UserRole, Role, Permission, Table}
use learn_nestjs.Auth.Keys.{OtpChannel, OtpPurpose}

pub record AuthContext : Type 0 where
  pub tenant_id : Option Text
  pub tenant_domain : Option Text
  pub user_agent : Option Text
  pub ip_address : Option Text
  pub access_token : Option Text

abbrev pub no_context : AuthContext
no_context = record {
  tenant_id = none;
  tenant_domain = none;
  user_agent = none;
  ip_address = none;
  access_token = none;
}

pub record OtpPayload : Type 0 where
  pub identifier : Text
  pub channel : OtpChannel
  pub code : Text
  pub purpose : OtpPurpose
  pub tenant_id : Option Text
  pub token : Text
  pub user_id : Option Text
  pub created_at : ℕ

-- The object stored for each refresh token.
pub record RefreshSession : Type 0 where
  pub user_id : Text
  pub tenant_id : Option Text
  pub refresh_token_hash : Text
  pub user_agent : Option Text
  pub ip_address : Option Text

-- The objects that the program keeps in Redis as JSON.
pub data Payload : Type 0 where
  otp : OtpPayload → Payload
  session : RefreshSession → Payload

-- JwtPayload of src/shared/jwt.service.ts
pub record JwtPayload : Type 0 where
  pub sub : Text
  pub tenant_id : Option Text
  pub user_role : Text
  pub roles : List Text
  pub permissions : List Text
  pub exp : Option ℕ

-- A mail by its template; the wording is not modelled.
pub data Content : Type 0 where
  otp_code : OtpPurpose → Text → ℕ → Content
  otp_phone_copy : OtpPurpose → Text → ℕ → Content
  verify_email : Text → Content
  reset_password : Text → Content

pub record Mail : Type 0 where
  pub to_address : Text
  pub content : Content

pub record AuditLog : Type 0 where
  pub action : String
  pub user_id : Option Text
  pub tenant_id : Option Text
  pub details : List (String × Text)
  pub ip_address : Option Text
  pub user_agent : Option Text

-- The roles of a user with their permissions, and the permissions granted directly.
pub record Grants : Type 0 where
  pub roles : List (Role × List Permission)
  pub permissions : List Permission

pub record Services : Type 1 where
  -- `process.env.NODE_ENV === 'production'`
  pub production : Bool
  pub cache : Cache Payload
  pub users : Table (λ (u : User). u.id)
  pub tenants : Table (λ (t : Tenant). t.id)
  pub accounts : Table (λ (a : OAuthAccount). a.id)
  pub app_roles : Table (λ (r : AppRole). r.id)
  pub user_roles : Table (λ (r : UserRole). r.id)
  -- The relations that `buildAuthorizationClaims` includes in its query.
  pub grants : Text → app_roles.State → user_roles.State → Grants
  pub Audits : Type 0
  pub create_audit : AuditLog → Audits → Option Audits
  pub delivers : Mail → List Mail → Bool
  -- `Math.floor(Math.random() * k)` and `uuidv4()`
  pub random_below : ℕ → ℕ → ℕ
  pub uuid : ℕ → Text
  pub sha256 : Text → Text
  pub bcrypt_hash : Text → ℕ → Text
  pub bcrypt_compare : Text → Text → Bool
  pub sign_access : JwtPayload → ℕ → Text
  pub sign_refresh : JwtPayload → ℕ → Text
  pub verify_access : Text → ℕ → Option JwtPayload
  pub verify_refresh : Text → ℕ → Option JwtPayload

pub record World (S : Services) : Type 0 where
  pub cache : S.cache.State
  pub users : S.users.State
  pub tenants : S.tenants.State
  pub accounts : S.accounts.State
  pub app_roles : S.app_roles.State
  pub user_roles : S.user_roles.State
  pub audits : S.Audits
  pub mails : List Mail
  pub draws : ℕ
  pub now : ℕ

module _ (S : Services) where
  abbrev pub cache_get : Text → World S → Option (Stored Payload)
  cache_get key w = S.cache.get key w.cache

  abbrev pub cache_set : Text → Stored Payload → ℕ → Exec (World S) Unit
  cache_set key value ttl w = (ok tt, record w { cache = S.cache.set key value ttl w.cache })

  abbrev pub cache_del : Text → Exec (World S) Unit
  cache_del key w = (ok tt, record w { cache = S.cache.del key w.cache })

  abbrev pub cache_expire : Text → ℕ → Exec (World S) Unit
  cache_expire key seconds w = (ok tt, record w { cache = S.cache.expire key seconds w.cache })

  abbrev pub cache_incr : Text → Exec (World S) (Option ℕ)
  cache_incr key w =
      let (count, cache) = S.cache.incr key w.cache in (ok count, record w { cache = cache })

  abbrev pub find_user : Text → World S → Option User
  find_user id w = S.users.find_unique id w.users

  -- `prisma.user.update`: P2025 where there is no such row.
  abbrev pub update_user : Text → (User → User) → Exec (World S) Unit
  update_user id f w = elim (S.users.find_unique id w.users) [
    | none ↦ (err (database "P2025"), w)
    | some _ ↦ (ok tt, record w { users = S.users.update id f w.users })
  ]

  -- `sendMail`: an error of the transport is thrown again.
  abbrev pub send_mail : Mail → Exec (World S) Unit
  send_mail mail w =
      if S.delivers mail w.mails
      then (ok tt, record w { mails = mail ∷ w.mails })
      else (err (internal_server_error "mail"), w)

  -- `uuidv4().replace(/-/g, '')`
  abbrev pub secure_token : ℕ → Text
  secure_token n = filter (λ x. not (x == b'-')) (S.uuid n)

  -- `generateSecureToken`
  abbrev pub generate_secure_token : Exec (World S) Text
  generate_secure_token w = (ok (secure_token w.draws), record w { draws = w.draws + 1 })

  abbrev pub random : ℕ → Exec (World S) ℕ
  random k w = (ok (S.random_below k w.draws), record w { draws = w.draws + 1 })

  -- `audit`: a failure is swallowed.
  unfoldable pub audit :
      String → Option Text → Option Text → List (String × Text) → AuthContext → Exec (World S) Unit
  audit action user_id tenant_id details ctx w =
      let entry : AuditLog = record {
        action = action;
        user_id = user_id;
        tenant_id = tenant_id;
        details = details;
        ip_address = ctx.ip_address;
        user_agent = ctx.user_agent;
      } in
      elim (S.create_audit entry w.audits) [
        | none ↦ (ok tt, w)
        | some audits ↦ (ok tt, record w { audits = audits })
      ]
