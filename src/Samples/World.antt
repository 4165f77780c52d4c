-- ===== src/Samples/World.antt =====
-- A deployment on the small servers, with one account: the state at which theorems are applied.
use learn_nestjs.Common.{
  ℕ, ◌+◌, ◌≡◌, true, false, Option, none, some, List, [], ◌∷◌, if◌then◌else◌, ◌==◌, arith,
}
use learn_nestjs.Common.Text.{Text, codes, text_eq, text_eq_iff}
use learn_nestjs.Common.Lists.{contains}
use learn_nestjs.Database.{User, active, banned, user, Tenant, OAuthAccount, AppRole, UserRole}
use learn_nestjs.Auth.World.{Services, World, AuthContext, no_context, JwtPayload, AuditLog}
use learn_nestjs.Auth.Otp.{OtpVerifyDto}
use learn_nestjs.Auth.Login.{LoginDto}
use learn_nestjs.Redis.Implements.{service_cache}
use learn_nestjs.Samples.Servers.{small_client, small_table, Rows}

-- A table with the one row `r`.
module _ {Row : Type 0} (key : Row → Text) where
  abbrev only : Row → Text → Option Row
  only r k = if text_eq (key r) k then some r else none

  pub only_keyed : (r : Row) (k : Text) (q : Row) → only r k ≡ some q → key q ≡ k
  only_keyed r k q h = ground (arith, text_eq_iff (key r) k)

  pub only_listed :
      (r : Row) (k : Text) (q : Row) → only r k ≡ some q → contains (key r ∷ []) k ≡ true
  unfolding contains
  only_listed r k q h = ground arith

  abbrev pub one_row : Row → Rows key
  one_row r = record { ids = key r ∷ []; at = only r; listed = only_listed r; keyed = only_keyed r }

  abbrev pub nothing : Option Row
  nothing = none

  pub no_row : {P : Type 0} {r : Row} → nothing ≡ some r → P
  no_row h = absurd (ground arith)

  abbrev pub no_rows : Rows key
  no_rows = record {
    ids = [];
    at = λ k. none;
    listed = λ k r h. no_row h;
    keyed = λ k r h. no_row h;
  }

abbrev pub ann_id : Text
ann_id = codes "u1"

abbrev pub ann_phone : Text
ann_phone = codes "+4915112345"

abbrev pub ann : User
ann = record {
  id = ann_id;
  full_name = codes "Ann";
  username = codes "ann";
  email = some (codes "ann@x.org");
  phone = some ann_phone;
  password = some (codes "secret");
  avatar = none;
  bio = none;
  role = user;
  status = active;
  tenant_id = some (codes "t1");
  is_email_verified = true;
  is_phone_verified = true;
  is_online = false;
  last_seen_at = none;
  email_verify_token = none;
  password_reset_token = some (codes "reset");
  password_reset_expires = some 2000000;
  refresh_token = none;
}

abbrev pub banned_ann : User
banned_ann = record ann { status = banned }

-- Tokens name their subject only; a refresh token begins with `r`, an access token with `a`.
abbrev claims : Text → JwtPayload
claims sub = record {
  sub = sub;
  tenant_id = some (codes "t1");
  user_role = codes "USER";
  roles = [];
  permissions = [];
  exp = none;
}

abbrev verified_with : ℕ → Text → Option JwtPayload
verified_with c [] = none
verified_with c (x ∷ xs) = if x == c then some (claims xs) else none

abbrev pub servers : Services
servers = record {
  production = true;
  cache = service_cache small_client;
  users = small_table (λ (u : User). u.id);
  tenants = small_table (λ (t : Tenant). t.id);
  accounts = small_table (λ (a : OAuthAccount). a.id);
  app_roles = small_table (λ (r : AppRole). r.id);
  user_roles = small_table (λ (r : UserRole). r.id);
  grants = λ id roles links. record { roles = []; permissions = [] };
  Audits = List AuditLog;
  create_audit = λ entry logs. some (entry ∷ logs);
  delivers = λ mail sent. true;
  random_below = λ k n. 0;
  uuid = λ n. (b'a' + n) ∷ [];
  sha256 = λ t. t;
  bcrypt_hash = λ t n. t;
  bcrypt_compare = text_eq;
  sign_access = λ p n. b'a' ∷ p.sub;
  sign_refresh = λ p n. b'r' ∷ p.sub;
  verify_access = λ t n. verified_with b'a' t;
  verify_refresh = λ t n. verified_with b'r' t;
}

abbrev pub world_with : User → World servers
world_with u = record {
  cache = record { connected = true; memory = []; remote = [] };
  users = one_row (λ (u : User). u.id) u;
  tenants = no_rows (λ (t : Tenant). t.id);
  accounts = no_rows (λ (a : OAuthAccount). a.id);
  app_roles = no_rows (λ (r : AppRole). r.id);
  user_roles = no_rows (λ (r : UserRole). r.id);
  audits = [];
  mails = [];
  draws = 0;
  now = 1000000;
}

abbrev pub world : World servers
world = world_with ann

abbrev pub from_tenant : AuthContext
from_tenant = record no_context { tenant_id = some (codes "t1") }

abbrev pub verify_request : Text → Option Text → OtpVerifyDto
verify_request code token = record {
  identifier = ann_phone;
  code = code;
  tenant_id = none;
  purpose = none;
  token = token;
}

abbrev pub password_login : LoginDto
password_login = record {
  identifier = codes "ann";
  password = some (codes "secret");
  code = none;
  provider = none;
}
