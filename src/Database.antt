-- ===== src/Database.antt =====
-- The tables of prisma/schema.prisma that the services read and write, and what the sources use of
-- a model of the Prisma client, with its documented behaviour. Columns that no modelled service
-- reads (`createdAt`, `updatedAt` and the like) are left out.
pub mod Store
use learn_nestjs.Common.{ℕ, ◌≡◌, ◌≢◌, Bool, true, Option, none, some, if◌then◌else◌, false}
use learn_nestjs.Common.Text.{Text, text_eq}

pub data Role : Type 0 where
  super_admin admin manager user : Role

pub data UserStatus : Type 0 where
  active inactive banned pending_verification : UserStatus

pub record User : Type 0 where
  pub id : Text
  pub full_name : Text
  pub username : Text
  pub email : Option Text
  pub phone : Option Text
  pub password : Option Text
  pub avatar : Option Text
  pub bio : Option Text
  pub role : Role
  pub status : UserStatus
  pub tenant_id : Option Text
  pub is_email_verified : Bool
  pub is_phone_verified : Bool
  pub is_online : Bool
  pub last_seen_at : Option ℕ
  pub email_verify_token : Option Text
  pub password_reset_token : Option Text
  pub password_reset_expires : Option ℕ
  pub refresh_token : Option Text

pub record Tenant : Type 0 where
  pub id : Text
  pub name : Text
  pub domain : Option Text

pub record OAuthAccount : Type 0 where
  pub id : Text
  pub user_id : Text
  pub provider : Text
  pub provider_account_id : Text
  pub access_token : Option Text
  pub refresh_token : Option Text

pub record AppRole : Type 0 where
  pub id : Text
  pub name : Role
  pub tenant_id : Option Text

pub record UserRole : Type 0 where
  pub id : Text
  pub user_id : Text
  pub role_id : Text

pub record Permission : Type 0 where
  pub action : Text
  pub subject : Text

-- A model of the client, over rows with the primary key `key`. `find_first` answers some row that
-- passes the `where` clause; `create` answers `none` where a constraint refuses the row.
pub record Table {Row : Type 0} (key : Row → Text) : Type 1 where
  pub State : Type 0
  pub find_unique : Text → State → Option Row
  pub find_first : (Row → Bool) → State → Option Row
  pub update : Text → (Row → Row) → State → State
  pub create : (Text → Row) → State → Option (Row × State)
  pub find_unique_key : (k : Text) (r : Row) (s : State) → find_unique k s ≡ some r → key r ≡ k
  pub find_first_sound :
      (p : Row → Bool) (r : Row) (s : State)
      → find_first p s ≡ some r
      → (p r ≡ true) × (find_unique (key r) s ≡ some r)
  pub find_first_complete :
      (p : Row → Bool) (k : Text) (r : Row) (s : State)
      → find_unique k s ≡ some r
      → p r ≡ true
      → find_first p s ≢ none
  pub find_unique-update :
      (k : Text) (f : Row → Row) (r : Row) (s : State)
      → find_unique k s ≡ some r
      → key (f r) ≡ key r
      → find_unique k (update k f s) ≡ some (f r)
  pub find_unique-update_ne :
      (k j : Text) (f : Row → Row) (s : State)
      → text_eq k j ≡ false
      → find_unique j (update k f s) ≡ find_unique j s
  pub find_unique-create :
      (make : Text → Row) (r : Row) (s t : State) (j : Text)
      → create make s ≡ some (r, t)
      → find_unique j t ≡ (if text_eq (key r) j then some r else find_unique j s)
  pub find_unique-create_key :
      (make : Text → Row) (r : Row) (s t : State)
      → create make s ≡ some (r, t)
      → find_unique (key r) s ≡ none
  pub create_made :
      (make : Text → Row) (r : Row) (s t : State)
      → create make s ≡ some (r, t)
      → (id : Text) × (r ≡ make id)
