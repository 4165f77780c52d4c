-- ===== src/Seed.antt =====
-- `AdminSeedService` of src/bootstrap/admin-seed.service.ts: what a start outside production does to
-- the users.
--
-- `hash` is `bcrypt.hash` with the rounds and salt of the start, `now` the time of the start in
-- milliseconds.
pub mod Idempotence
use learn_nestjs.Common.{
  ℕ, zero, suc, ◌+◌, ◌-◌, Bool, true, false, not, ◌&&◌, ◌||◌, Option, none, some, or_else, [], ◌++◌,
  if◌then◌else◌,
}
use learn_nestjs.Common.Text.{Text, codes, text_eq, is_empty, to_lower, trim, drop}
use learn_nestjs.Common.Lists.{length}
use learn_nestjs.Common.Results.{Exec, ok, err, database}
use learn_nestjs.Database.{User, active, super_admin}
use learn_nestjs.Auth.Users.{option_eq, truthy}
use learn_nestjs.Auth.Tokens.{print_number}
use learn_nestjs.Auth.OtpGuards.Limits.{after}
use learn_nestjs.Database.Store.{Store}
use learn_nestjs.Chat.World.{same_user}
use learn_nestjs.Auth.Register.{or_text, slug_of}
use learn_nestjs.Sockets.{is_online}

pub record SeedConfig : Type 0 where
  pub production : Bool
  pub admin_name : Option Text
  pub admin_email : Option Text
  pub admin_password : Option Text

-- The configured name and mail, trimmed.
abbrev pub name_of : SeedConfig → Text
name_of c = trim (or_else c.admin_name [])

abbrev pub mail_of : SeedConfig → Text
mail_of c = to_lower (trim (or_else c.admin_email []))

abbrev pub is_configured : SeedConfig → Bool
is_configured c =
    not (is_empty (name_of c)) && not (is_empty (mail_of c)) && truthy c.admin_password

unfoldable pub to_username : Text → Text
unfolding slug_of
to_username full_name = or_text (slug_of full_name) (codes "admin_user")

-- `.slice(-6)`
abbrev pub last_six : Text → Text
last_six s = drop (length s - 6) s

abbrev pub offline : User → User
offline u = record u { is_online = false }

-- The account that the configuration asks for is there.
abbrev pub is_seeded : SeedConfig → User → Bool
is_seeded c u = option_eq u.email (some (mail_of c)) || text_eq u.username (to_username (name_of c))

module _ (users : Store same_user) (hash : Text → Text) (now : ℕ) where
  -- The loop of `findAvailableUsername`, by the tries left.
  unfoldable pub try_available : ℕ → ℕ → Text → Text → users.State → Text
  try_available zero index base candidate s = base ++ last_six (print_number now)
  try_available (suc tries) index base candidate s =
      elim (users.find_first (λ u. text_eq u.username candidate) s) [
        | none ↦ candidate
        | some u ↦
            try_available tries (index + 1) base (base ++ print_number (1000 + (index + 1))) s
      ]

  unfoldable pub find_available_username : Text → users.State → Text
  unfolding try_available
  find_available_username base s = try_available 20 0 base base s

  abbrev pub admin_row : SeedConfig → Text → Text → User
  admin_row c username id = record {
    id = id;
    full_name = name_of c;
    username = username;
    email = some (mail_of c);
    phone = none;
    password = some (hash (or_else c.admin_password []));
    avatar = none;
    bio = none;
    role = super_admin;
    status = active;
    tenant_id = none;
    is_email_verified = true;
    is_phone_verified = false;
    is_online = false;
    last_seen_at = none;
    email_verify_token = none;
    password_reset_token = none;
    password_reset_expires = none;
    refresh_token = none;
  }

  -- The part of `onModuleInit` after the statuses are reset.
  unfoldable pub seed_admin : SeedConfig → Exec users.State Unit
  unfolding find_available_username
  seed_admin c s =
      if not (is_configured c) then (ok tt, s) else elim (users.find_first (is_seeded c) s) [
        | some existing ↦ (ok tt, s)
        | none ↦
            elim (users.create (admin_row c (find_available_username (to_username (name_of c)) s))
              s) [ none ↦ (err (database "P2002"), s) | some (u, t) ↦ (ok tt, t) ]
      ]

  unfoldable pub on_module_init : SeedConfig → Exec users.State Unit
  unfolding seed_admin
  on_module_init c s =
      if c.production
      then (ok tt, s)
      else seed_admin c (users.update_many (λ u. u.is_online) offline s)
