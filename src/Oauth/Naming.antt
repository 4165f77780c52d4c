-- ===== src/Oauth/Naming.antt =====
-- What the login by a provider asks for.
use learn_nestjs.Common.{◌≡◌, ap, subst, sym, false, none, some, [], ◌∷◌, if◌then◌else◌, arith}
use learn_nestjs.Common.Text.{Text, codes}
use learn_nestjs.Common.Results.{ok}
use learn_nestjs.Database.{User}
use learn_nestjs.Auth.World.{Services, World, AuthContext, audit}
use learn_nestjs.Auth.Users.{truthy, is_unverified, resolve_tenant_id, assert_user_can_authenticate}
use learn_nestjs.Auth.Tokens.{TokenPair, issue_tokens}
use learn_nestjs.Auth.Tokens.Issued.{IssuedTo, issue_tokens-audit}
use learn_nestjs.Auth.Login.{
  LoginDto, sanitize_user, find_account_user, enter_by_provider, login_with_oauth_provider,
}

-- A login that names an account of a provider and gives nothing else.
abbrev pub naming : Text → Text → LoginDto
naming provider account_id = record {
  identifier = account_id;
  password = none;
  code = none;
  provider = some provider;
}

module _ (S : Services) where
  -- `loginWithOAuthProvider` answers the user of a provider account, and tokens that are issued to
  -- that user, to whoever names the account, where the request gives no domain of a tenant and the
  -- user is not waiting for verification: no token of the provider and no password is asked for.
  pub login_with_oauth_provider_named :
      (provider account_id : Text) (u : User) (ctx : AuthContext) (w : World S)
      → truthy ctx.tenant_domain ≡ false
      → find_account_user S (some provider) account_id w ≡ some u
      → is_unverified u ≡ false
      → (tokens : TokenPair) × ((login_with_oauth_provider S (naming provider account_id) ctx w).0
          ≡ ok (sanitize_user u, tokens))
        × IssuedTo S u.id
            (if truthy ctx.tenant_id then ctx.tenant_id else none)
            tokens
            w
            (login_with_oauth_provider S (naming provider account_id) ctx w).1
  unfolding login_with_oauth_provider enter_by_provider assert_user_can_authenticate
      resolve_tenant_id audit
  login_with_oauth_provider_named provider account_id u ctx w no_domain at may =
      let t = if truthy ctx.tenant_id then ctx.tenant_id else none in
      let (tokens, e, issued) = issue_tokens-audit S u.id t (codes "oauth") provider ctx w in
      let same : (login_with_oauth_provider S (naming provider account_id) ctx w) ≡ (
        ok (sanitize_user u, tokens),
        (audit S "auth.user.login" (some u.id) t
            (("method", codes "oauth") ∷ ("provider", provider) ∷ []) ctx
            (issue_tokens S u.id t ctx w).1).1,
      ) =
        ground (arith, no_domain, at, may, e) in
      (tokens, ap (λ q. q.0) same, subst (λ v. IssuedTo S u.id t tokens w v.1) (sym same) issued)
