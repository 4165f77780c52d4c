-- ===== src/Samples/Starts.antt =====
-- The theorems on the start and the subscriber applied at concrete inputs.
use learn_nestjs.Common.{◌≡◌, refl, Bool, false, some, [], ◌∷◌}
use learn_nestjs.Common.Text.{codes, text_eq_refl}
use learn_nestjs.Common.Results.{ok}
use learn_nestjs.Database.{User}
use learn_nestjs.Database.Store.{Store, has}
use learn_nestjs.Chat.World.{same_user}
use learn_nestjs.Samples.Tables.{list_store, page, make_row, add_each}
use learn_nestjs.Samples.Stores.{put_in, sort, front, taken, behind, after_cursor}
use learn_nestjs.Samples.Models.{runs}
use learn_nestjs.Auth.Register.{strip_start, slug_of, squeeze}
use learn_nestjs.Seed.{
  SeedConfig, to_username, try_available, find_available_username, seed_admin, on_module_init,
}
use learn_nestjs.Seed.Idempotence.{on_module_init_again}
use learn_nestjs.Subscriber.{Subscriptions, subscribe}
use learn_nestjs.Subscriber.Agreement.{started, subscribed, Agrees, Reachable-Agrees}

unfoldable starts : Unit {0}
unfolding runs add_each put_in sort front taken behind after_cursor page make_row squeeze
    strip_start slug_of to_username try_available find_available_username seed_admin on_module_init
starts = tt

abbrev accounts : Store same_user
accounts = list_store same_user (λ u. text_eq_refl u.id)

abbrev config : SeedConfig
config = record {
  production = false;
  admin_name = some (codes "Root ");
  admin_email = some (codes "R@x");
  admin_password = some (codes "p");
}

on_module_init_again_example :
    ((on_module_init accounts (λ t. t) 9 config (on_module_init accounts (λ t. t) 5 config []).1).0
      ≡ ok tt)
    × ((p : User → Bool)
        → has accounts p
            (on_module_init accounts
              (λ t. t)
              9
              config
              (on_module_init accounts (λ t. t) 5 config []).1).1
          ≡ has accounts p (on_module_init accounts (λ t. t) 5 config []).1)
unfolding starts
on_module_init_again_example =
    on_module_init_again accounts (λ t. t) (λ t. t) 5 9 config []
      (on_module_init accounts (λ t. t) 5 config []).1 refl

abbrev listening_to_c : Subscriptions
listening_to_c = record {
  disabled = false;
  handlers = (codes "c", codes "h" ∷ []) ∷ [];
  channels = codes "c" ∷ [];
  patterns = [];
}

Reachable-Agrees_example : Agrees listening_to_c
unfolding starts subscribe
Reachable-Agrees_example =
    Reachable-Agrees listening_to_c (subscribed (codes "c") (codes "h") _ started)
