-- ===== src/Oauth.antt =====
-- `OauthService` of src/modules/oauth/oauth.service.ts: accounts of Google and other providers.
--
-- Google is a parameter: what its servers answer to a token or a code at an instant. The record of
-- a provider account leaves out `expiresAt`, which nothing sets.
pub mod Service
pub mod Usernames
pub mod Linking
pub mod Naming
use learn_nestjs.Common.{
  ℕ, zero, suc, ◌+◌, ◌-◌, ◌*◌, ◌/◌, ◌^◌, ◌<◌, Bool, false, not, ◌&&◌, ◌||◌, Option, none, some, [],
  ◌∷◌, ◌++◌, map, if◌then◌else◌, ◌==◌, leb,
}
use learn_nestjs.Common.Text.{Text, codes, text_eq, to_lower, take}
use learn_nestjs.Common.Lists.{length}
use learn_nestjs.Common.Results.{
  Failure, Exec, ok, err, bad_request, unauthorized, not_found, conflict, database, when, ◌>>=◌,
  ◌>>◌,
}
use learn_nestjs.Redis.Driver.{number}
use learn_nestjs.Database.{user, Tenant, AppRole}
use learn_nestjs.Auth.World.{Services, World}
use learn_nestjs.Auth.Users.{option_eq, truthy}
use learn_nestjs.Auth.Tokens.{print_number}
use mathlib.Core.List.{reverse}
use learn_nestjs.Database.Store.{has}
use learn_nestjs.Auth.Register.{strip_start, or_text, is_user_role, no_unique_username}

-- What `fetch` gives: an exception, an answer that is not `ok`, or the object of the answer.
pub data Fetched (A : Type 0) : Type 0 where
  unreachable refused : Fetched A
  answered : A → Fetched A

-- `exp` is its number, absent where `exp` is absent or no number. `sub` is empty where it is missing.
pub record GoogleTokenInfo : Type 0 where
  pub sub : Text
  pub email : Option Text
  pub email_verified : Bool
  pub name : Option Text
  pub picture : Option Text
  pub aud : Option Text
  pub exp : Option ℕ

pub record GoogleTokens : Type 0 where
  pub access_token : Text
  pub refresh_token : Option Text
  pub id_token : Option Text
  pub expires_in : ℕ

-- The servers of Google, with the configured client.
pub record Google : Type 0 where
  pub client_id : Option Text
  pub client_secret : Option Text
  pub tokeninfo : Text → ℕ → Fetched GoogleTokenInfo
  -- By the code, the client, its secret and the redirection.
  pub exchange : Text → Text → Text → Text → ℕ → Fetched GoogleTokens

pub record GoogleLogin : Type 0 where
  pub id_token : Text
  pub tenant_id : Option Text
  pub tenant_domain : Option Text
  pub access_token : Option Text
  pub refresh_token : Option Text

pub record ProviderData : Type 0 where
  pub provider : Text
  pub provider_account_id : Option Text
  pub id_token : Option Text
  pub access_token : Option Text
  pub refresh_token : Option Text

abbrev pub google_unreachable : Failure
google_unreachable = unauthorized "Unable to verify Google token"

abbrev pub invalid_id_token : Failure
invalid_id_token = unauthorized "Invalid Google ID token"

abbrev pub missing_subject : Failure
missing_subject = unauthorized "Google token is missing subject"

abbrev pub google_token_expired : Failure
google_token_expired = unauthorized "Google token has expired"

abbrev pub audience_mismatch : Failure
audience_mismatch = unauthorized "Google token audience mismatch"

abbrev pub id_token_required : Failure
id_token_required = bad_request "idToken is required"

abbrev pub account_id_required : Failure
account_id_required = bad_request "providerAccountId is required when idToken is not provided"

abbrev pub linked_to_another : Failure
linked_to_another = conflict "This provider account is already linked to another user"

abbrev pub account_not_linked : Failure
account_not_linked = unauthorized "OAuth account not linked"

abbrev pub exchange_failed : Failure
exchange_failed = unauthorized "Google token exchange failed"

abbrev pub exchange_unreachable : Failure
exchange_unreachable = unauthorized "Failed to exchange Google authorization code"

abbrev pub code_required : Failure
code_required = bad_request "Authorization code is required"

abbrev pub google_not_configured : Failure
google_not_configured = bad_request "Google OAuth credentials not configured on backend"

-- `Number(exp) * 1000 <= Date.now()`
abbrev pub expired_at : ℕ → Option ℕ → Bool
expired_at now none = false
expired_at now (some exp) = leb (exp * 1000) now

-- The seed of a user name.

abbrev pub is_name_char : ℕ → Bool
is_name_char c = (leb b'a' c && leb c b'z') || (leb b'0' c && leb c b'9') || c == b'_'

-- `.replace(/[^a-z0-9_]/g, '_')`
abbrev pub name_char : ℕ → ℕ
name_char c = if is_name_char c then c else b'_'

-- `.replace(/_+/g, '_')`; the flag says that a run has begun.
unfoldable pub collapse : Bool → Text → Text
collapse run [] = []
collapse run (c ∷ s) =
    let rest = collapse (c == b'_') s in if run && (c == b'_') then rest else c ∷ rest

-- `.replace(/^_+|_+$/g, '')`
unfoldable pub normalize_seed : Text → Text
unfolding collapse strip_start to_lower
normalize_seed seed =
    reverse (strip_start (reverse (strip_start (collapse false (map name_char (to_lower seed))))))

unfoldable pub base_of : Text → Text
unfolding normalize_seed take
base_of seed =
    let base_raw = or_text (normalize_seed seed) (codes "user") in
    take 24 (if leb 3 (length base_raw) then base_raw else codes "user_" ++ base_raw)

module _ (S : Services) where
  -- The loop of `generateUniqueUsername`, by the tries left.
  unfoldable pub try_candidate : ℕ → Text → Text → Exec (World S) Text
  try_candidate zero base candidate w = (err no_unique_username, w)
  try_candidate (suc tries) base candidate w =
      elim (S.users.find_first (λ u. text_eq u.username candidate) w.users) [
        | none ↦ (ok candidate, w)
        | some existing ↦
            try_candidate tries base
              (base ++ b'_' ∷ print_number (1000 + S.random_below 9000 w.draws))
              (record w { draws = w.draws + 1 })
      ]

  unfoldable pub generate_unique_username : Text → Exec (World S) Text
  unfolding base_of try_candidate
  generate_unique_username seed = try_candidate 20 (base_of seed) (base_of seed)

  unfoldable pub resolve_tenant_id : Option Text → Option Text → Exec (World S) (Option Text)
  resolve_tenant_id tenant_id tenant_domain w =
      if truthy tenant_id
      then (ok tenant_id, w)
      else if not (truthy tenant_domain)
      then (ok none, w)
      else elim (S.tenants.find_first (λ t. option_eq t.domain tenant_domain) w.tenants) [
        | none ↦ (err (not_found "Tenant could not be resolved"), w)
        | some tenant ↦ (ok (some tenant.id), w)
      ]

  -- `appRole.findFirst`, or `appRole.create`.
  unfoldable pub user_role_of : Option Text → Exec (World S) AppRole
  user_role_of tenant_id w =
      elim (S.app_roles.find_first (λ r. is_user_role r.name && option_eq r.tenant_id tenant_id)
        w.app_roles) [
          | some role ↦ (ok role, w)
          | none ↦
              elim (S.app_roles.create
                (λ id. record { id = id; name = user; tenant_id = tenant_id }) w.app_roles) [
                  | none ↦ (err (database "P2002"), w)
                  | some (role, rows) ↦ (ok role, record w { app_roles = rows })
                ]
        ]

  unfoldable pub ensure_default_role : Text → Option Text → Exec (World S) Unit
  unfolding user_role_of
  ensure_default_role user_id tenant_id = do
    role ← user_role_of tenant_id
    λ w.
        elim (S.user_roles.find_first (λ r. text_eq r.user_id user_id && text_eq r.role_id role.id)
          w.user_roles) [
            | some existing ↦ (ok tt, w)
            | none ↦
                elim (S.user_roles.create
                  (λ id. record { id = id; user_id = user_id; role_id = role.id }) w.user_roles) [
                    | none ↦ (err (database "P2002"), w)
                    | some (row, rows) ↦ (ok tt, record w { user_roles = rows })
                  ]
          ]
