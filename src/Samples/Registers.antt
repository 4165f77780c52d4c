-- ===== src/Samples/Registers.antt =====
-- The theorem on registration applied at a concrete input.
use learn_nestjs.Common.Results.{ok}
use learn_nestjs.Auth.Otp.{lift}
use learn_nestjs.Auth.Keys.{email}
use learn_nestjs.Common.{◌≡◌, refl, false, none, some}
use learn_nestjs.Common.Text.{Text, codes}
use learn_nestjs.Auth.Keys.{email}
use learn_nestjs.Auth.Users.{resolve_verification_channel}
use learn_nestjs.Samples.Models.{runs}
use learn_nestjs.Samples.Servers.{create_row}
use learn_nestjs.Samples.World.{servers, world, ann, ann_id, from_tenant}
use learn_nestjs.Auth.Register.{
  RegisterDto, Registered, register, is_duplicate, slugify, try_username, resolve_username,
  ensure_no_duplicate_identity, default_role, ensure_default_role, create_user, start_verification,
}
use learn_nestjs.Auth.Register.Fresh.{register_fresh}

abbrev bob : RegisterDto
bob = record {
  full_name = codes "Bob";
  email = some (codes "Bob@y.org");
  phone = none;
  username = some (codes "bob");
  otp_verification = false;
  verification_channel = none;
  password = some (codes "secret");
}

abbrev answer : Registered
answer = record {
  by_otp = false;
  channel = some email;
  identifier = some (codes "bob@y.org");
  expires_in = none;
  verification_token = none;
  code = none;
}

register_fresh_example :
    (username : Text) × ((resolve_username servers (some (codes "bob")) (codes "Bob") world).0
      ≡ ok username)
    × (is_duplicate (some (codes "Bob@y.org")) none (some username) ann ≡ false)
unfolding runs lift create_row is_duplicate slugify try_username resolve_username
    ensure_no_duplicate_identity default_role ensure_default_role create_user start_verification
    register resolve_verification_channel
register_fresh_example =
    register_fresh servers bob from_tenant ann_id ann answer world
      (register servers bob from_tenant world).1 refl refl
