-- ===== src/Endpoints/Providers.antt =====
-- The routes of `OauthController` in src/modules/oauth/oauth.controller.ts, of which only `connect` stands
-- behind `AuthGuard`, and those of `SessionController` in src/modules/session/session.controller.ts,
-- which have no guard.
use learn_nestjs.Common.{ℕ, List}
use learn_nestjs.Common.Text.{Text}
use learn_nestjs.Common.Results.{Exec}
use learn_nestjs.Database.{OAuthAccount}
use learn_nestjs.Auth.World.{Services, World, Payload}
use learn_nestjs.Auth.Login.{LoggedIn}
use learn_nestjs.Oauth.{GoogleTokens, Google, GoogleLogin, ProviderData}
use learn_nestjs.Oauth.Service.{connect_provider, login_with_google, exchange_google_auth_code}
use learn_nestjs.Endpoints.{Incoming, guarded}
use learn_nestjs.Session.{find_by_user, revoke_all}

module _ (S : Services) (G : Google) where
  unfoldable pub post_google : GoogleLogin → Exec (World S) LoggedIn
  unfolding login_with_google
  post_google dto = login_with_google S G dto

  unfoldable pub post_connect : ProviderData → Incoming → Exec (World S) OAuthAccount
  unfolding guarded connect_provider
  post_connect dto r = guarded S r (λ id. connect_provider S G id dto)

  unfoldable pub post_google_callback : Text → Text → Exec (World S) GoogleTokens
  unfolding exchange_google_auth_code
  post_google_callback code redirect_uri = exchange_google_auth_code S G code redirect_uri

module _ (S : Services) where
  unfoldable pub get_sessions : Text → World S → List Payload
  unfolding find_by_user
  get_sessions user_id w = find_by_user S user_id w

  unfoldable pub delete_sessions : Text → Exec (World S) ℕ
  unfolding revoke_all
  delete_sessions user_id = revoke_all S user_id
