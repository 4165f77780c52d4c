-- ===== src/Oauth/Service.antt =====
-- The operations of `OauthService` that Google and the tables take part in.
use learn_nestjs.Common.{
  Bool, false, not, ◌&&◌, ◌||◌, Option, none, some, or_else, [], ◌++◌, if◌then◌else◌,
}
use learn_nestjs.Common.Text.{Text, codes, text_eq, is_empty, trim}
use learn_nestjs.Common.Results.{Exec, ok, err, database, return, gets, unless, ◌>>=◌, ◌>>◌}
use learn_nestjs.Database.{User, active, user, OAuthAccount}
use learn_nestjs.Auth.World.{Services, World, no_context, find_user}
use learn_nestjs.Auth.Users.{option_eq, truthy, lower_option}
use learn_nestjs.Auth.Login.{LoggedIn, login_user}
use learn_nestjs.Chat.Rooms.Membership.{found}
use learn_nestjs.Auth.Register.{or_text}
use learn_nestjs.Oauth.{
  ensure_default_role, resolve_tenant_id, unreachable, refused, answered, GoogleTokenInfo,
  GoogleTokens, Google, GoogleLogin, ProviderData, google_unreachable, invalid_id_token,
  missing_subject, google_token_expired, audience_mismatch, id_token_required, account_id_required,
  linked_to_another, account_not_linked, exchange_failed, exchange_unreachable, code_required,
  google_not_configured, expired_at, generate_unique_username,
}

abbrev pub google : Text
google = codes "google"

-- `findUnique` by the unique pair of columns
abbrev pub is_account : Text → Text → OAuthAccount → Bool
is_account provider id a = text_eq a.provider provider && text_eq a.provider_account_id id

abbrev pub with_tokens : Option Text → Option Text → OAuthAccount → OAuthAccount
with_tokens access refresh a = record a { access_token = access; refresh_token = refresh }

abbrev pub tenant_of_user : Option User → Option Text
tenant_of_user none = none
tenant_of_user (some u) = u.tenant_id

-- `a ?? b`
abbrev pub either : Option Text → Option Text → Option Text
either none b = b
either (some a) b = some a

module _ (S : Services) where
  unfoldable pub create_account :
      Text → Text → Text → Option Text → Option Text → Exec (World S) OAuthAccount
  create_account user_id provider account_id access refresh w =
      elim (S.accounts.create
        (λ id. record {
          id = id;
          user_id = user_id;
          provider = provider;
          provider_account_id = account_id;
          access_token = access;
          refresh_token = refresh;
        })
        w.accounts) [
          | none ↦ (err (database "P2002"), w)
          | some (account, rows) ↦ (ok account, record w { accounts = rows })
        ]

  -- `oAuthAccount.update` of a row that was found.
  unfoldable pub update_account :
      OAuthAccount → Option Text → Option Text → Exec (World S) OAuthAccount
  update_account account access refresh w = (
    ok (with_tokens access refresh account),
    record w { accounts = S.accounts.update account.id (with_tokens access refresh) w.accounts },
  )

  -- `connectProvider` from where the account was looked up.
  unfoldable pub link_account :
      Text → ProviderData → Text → Option OAuthAccount → Exec (World S) OAuthAccount
  unfolding create_account update_account
  link_account user_id d account_id none =
      create_account user_id d.provider account_id d.access_token d.refresh_token
  link_account user_id d account_id (some existing) = do
    unless (text_eq existing.user_id user_id) linked_to_another
    update_account existing d.access_token d.refresh_token

  unfoldable pub get_user_by_provider : Text → Text → Exec (World S) User
  get_user_by_provider provider account_id w =
      elim (S.accounts.find_first (is_account provider account_id) w.accounts) [
        | none ↦ (err account_not_linked, w)
        | some account ↦ elim (find_user S account.user_id w) [
          | none ↦ (err account_not_linked, w)
          | some u ↦ (ok u, w)
        ]
      ]

  -- `user.create` of `loginWithGoogle`.
  unfoldable pub create_google_user : GoogleTokenInfo → Option Text → Exec (World S) User
  unfolding generate_unique_username trim
  create_google_user info tenant_id = do
    let email = lower_option info.email
    username ← generate_unique_username S (or_text (or_else email []) (codes "google_" ++ info.sub))
    λ w.
        elim (S.users.create
          (λ id. record {
            id = id;
            full_name = or_text (trim (or_else info.name [])) (codes "Google User");
            username = username;
            email = email;
            phone = none;
            password = none;
            avatar = info.picture;
            bio = none;
            role = user;
            status = active;
            tenant_id = tenant_id;
            is_email_verified = truthy email;
            is_phone_verified = false;
            is_online = false;
            last_seen_at = none;
            email_verify_token = none;
            password_reset_token = none;
            password_reset_expires = none;
            refresh_token = none;
          })
          w.users) [
            | none ↦ (err (database "P2002"), w)
            | some (u, rows) ↦ (ok u, record w { users = rows })
          ]

  -- `user.findUnique` by the mail, where there is one.
  unfoldable pub user_from_email : Option Text → World S → Option User
  user_from_email email w =
      if truthy email then S.users.find_first (λ u. option_eq u.email email) w.users else none

  abbrev pub user_or_created : Option User → GoogleTokenInfo → Option Text → Exec (World S) User
  user_or_created (some u) info tenant_id = return u
  user_or_created none info tenant_id = create_google_user info tenant_id

  -- The account of Google as it stands or is made.
  unfoldable pub google_account :
      Option OAuthAccount
      → GoogleTokenInfo
      → Option Text
      → GoogleLogin
      → Exec (World S) OAuthAccount
  unfolding user_from_email create_google_user create_account update_account ensure_default_role
  google_account (some account) info tenant_id d = do
    update_account account d.access_token d.refresh_token
    return account
  google_account none info tenant_id d = do
    from_email ← gets (user_from_email (lower_option info.email))
    u ← user_or_created from_email info tenant_id
    ensure_default_role S u.id (either u.tenant_id tenant_id)
    create_account u.id google info.sub d.access_token d.refresh_token

module _ (S : Services) (G : Google) where
  unfoldable pub check_token_info : GoogleTokenInfo → Exec (World S) GoogleTokenInfo
  check_token_info info = do
    unless (not (is_empty info.sub)) missing_subject
    now ← gets (λ w. w.now)
    unless (not (expired_at now info.exp)) google_token_expired
    unless (not (truthy G.client_id) || option_eq info.aud G.client_id) audience_mismatch
    return info

  unfoldable pub verify_google_id_token : Text → Exec (World S) GoogleTokenInfo
  unfolding check_token_info
  verify_google_id_token id_token w = elim (G.tokeninfo id_token w.now) [
    | unreachable ↦ (err google_unreachable, w)
    | refused ↦ (err invalid_id_token, w)
    | answered info ↦ check_token_info info w
  ]

  unfoldable pub resolve_provider_account_id : ProviderData → Exec (World S) Text
  unfolding verify_google_id_token trim
  resolve_provider_account_id d w =
      let id_token = trim (or_else d.id_token []) in
      let account_id = trim (or_else d.provider_account_id []) in
      if text_eq d.provider google && not (is_empty id_token)
      then (do info ← verify_google_id_token id_token; return info.sub) w
      else if is_empty account_id
      then (err account_id_required, w)
      else (ok account_id, w)

  unfoldable pub connect_provider : Text → ProviderData → Exec (World S) OAuthAccount
  unfolding resolve_provider_account_id link_account
  connect_provider user_id d = do
    account_id ← resolve_provider_account_id d
    existing ← gets (λ w. S.accounts.find_first (is_account d.provider account_id) w.accounts)
    link_account S user_id d account_id existing

  unfoldable pub login_with_google : GoogleLogin → Exec (World S) LoggedIn
  unfolding verify_google_id_token resolve_tenant_id google_account trim login_user
  login_with_google d = do
    unless (not (is_empty (trim d.id_token))) id_token_required
    info ← verify_google_id_token (trim d.id_token)
    tenant_id ← resolve_tenant_id S d.tenant_id d.tenant_domain
    found ← gets (λ w. S.accounts.find_first (is_account google info.sub) w.accounts)
    account ← google_account S found info tenant_id d
    owner ← gets (find_user S account.user_id)
    login_user S
        (record { identifier = info.sub; password = none; code = none; provider = some google })
        (record no_context {
          tenant_id = either (tenant_of_user owner) tenant_id;
          tenant_domain = d.tenant_domain;
        })

  unfoldable pub exchange_google_auth_code : Text → Text → Exec (World S) GoogleTokens
  unfolding trim
  exchange_google_auth_code code redirect_uri w =
      let client_id = or_else G.client_id [] in
      let client_secret = or_else G.client_secret [] in
      if is_empty client_id || is_empty client_secret
      then (err google_not_configured, w)
      else if is_empty (trim code)
      then (err code_required, w)
      else elim (G.exchange (trim code) client_id client_secret redirect_uri w.now) [
        | unreachable ↦ (err exchange_unreachable, w)
        | refused ↦ (err exchange_failed, w)
        | answered tokens ↦ (ok tokens, w)
      ]
