-- ===== src/Samples/Links.antt =====
-- The theorems on accounts of providers applied at concrete inputs.
use learn_nestjs.Common.{◌≡◌, refl, true, none, some}
use learn_nestjs.Common.Text.{codes, take}
use learn_nestjs.Common.Results.{ok}
use learn_nestjs.Database.{OAuthAccount}
use learn_nestjs.Auth.World.{World}
use learn_nestjs.Auth.Tokens.{TokenPair}
use learn_nestjs.Auth.Login.{
  sanitize_user, find_account_user, enter_by_provider, login_with_oauth_provider,
}
use learn_nestjs.Samples.Models.{runs}
use learn_nestjs.Auth.Register.{strip_start}
use learn_nestjs.Oauth.{
  unreachable, Google, ProviderData, collapse, normalize_seed, base_of, try_candidate,
  generate_unique_username,
}
use learn_nestjs.Oauth.Service.{
  google, check_token_info, verify_google_id_token, resolve_provider_account_id, create_account,
  update_account, link_account, connect_provider,
}
use learn_nestjs.Oauth.Linking.{is_own, connect_provider_sound}
use learn_nestjs.Oauth.Usernames.{Ends, generate_unique_username-Ends}
use learn_nestjs.Oauth.Naming.{naming, login_with_oauth_provider_named}
use learn_nestjs.Samples.World.{ann, ann_id, servers, world, from_tenant, one_row}
use learn_nestjs.Samples.Servers.{create_row}
use learn_nestjs.Auth.Tokens.Issued.{IssuedTo}

unfoldable links : Unit {0}
unfolding runs create_row collapse strip_start take normalize_seed base_of try_candidate
    generate_unique_username check_token_info verify_google_id_token resolve_provider_account_id
    create_account update_account link_account connect_provider find_account_user enter_by_provider
    login_with_oauth_provider
links = tt

-- Servers of Google that cannot be reached.
abbrev silent : Google
silent = record {
  client_id = none;
  client_secret = none;
  tokeninfo = λ t now. unreachable;
  exchange = λ c i s u now. unreachable;
}

abbrev linked : OAuthAccount
linked = record {
  id = codes "o";
  user_id = ann_id;
  provider = google;
  provider_account_id = codes "g1";
  access_token = none;
  refresh_token = none;
}

abbrev linked_world : World servers
linked_world = record world { accounts = one_row (λ (a : OAuthAccount). a.id) linked }

abbrev by_name : ProviderData
by_name = record {
  provider = google;
  provider_account_id = some (codes "g2");
  id_token = none;
  access_token = none;
  refresh_token = none;
}

connect_provider_sound_example :
    ((b : OAuthAccount) × (servers.accounts.find_unique
          (codes "o")
          (connect_provider servers silent ann_id by_name linked_world).1.accounts
        ≡ some b)
      × (b.user_id ≡ ann_id)
      × (b.provider ≡ google)
      × (b.provider_account_id ≡ codes "g1"))
    × (is_own servers ann_id google (connect_provider servers silent ann_id by_name linked_world).0
        ≡ true)
unfolding links
connect_provider_sound_example =
    connect_provider_sound servers silent ann_id by_name (codes "o") linked
      (connect_provider servers silent ann_id by_name linked_world).0 linked_world
      (connect_provider servers silent ann_id by_name linked_world).1 refl refl

generate_unique_username-Ends_example :
    Ends servers 20
      (codes "ann")
      (codes "ann")
      world
      (generate_unique_username servers (codes "Ann") world)
unfolding links
generate_unique_username-Ends_example = generate_unique_username-Ends servers (codes "Ann") world

login_with_oauth_provider_named_example :
    (tokens : TokenPair) × ((login_with_oauth_provider servers
        (naming google (codes "g1"))
        from_tenant
        linked_world).0
      ≡ ok (sanitize_user ann, tokens))
    × IssuedTo servers ann_id from_tenant.tenant_id tokens linked_world
        (login_with_oauth_provider servers (naming google (codes "g1")) from_tenant linked_world).1
unfolding links
login_with_oauth_provider_named_example =
    login_with_oauth_provider_named servers google (codes "g1") ann from_tenant linked_world refl
      refl refl
