-- ===== src/Auth/Tokens/Issued.antt =====
-- Whose tokens a login answers with.
use learn_nestjs.Common.{
  ◌≡◌, inl, inr, refl, true, Option, none, some, List, [], ◌∷◌, String, arith, Option-cases,
}
use learn_nestjs.Common.Text.{Text, codes, text_eq_refl}
use learn_nestjs.Common.Results.{ok, bind-eq-ok}
use learn_nestjs.Redis.Driver.{text, json}
use learn_nestjs.Database.{User}
use learn_nestjs.Auth.Keys.{refresh_session_key, refresh_token_key}
use learn_nestjs.Auth.World.{
  Services, World, AuthContext, JwtPayload, session, cache_get, find_user, audit,
}
use learn_nestjs.Auth.Tokens.{
  TokenPair, refresh_ttl_seconds, build_authorization_claims, generate_token_pair, issue_tokens,
  touch_presence,
}
use learn_nestjs.Auth.Otp.{SafeUser, get_safe_user_by_id, finish_login}

-- The tokens carry the user and the tenant, were signed at the time of `w`, and the refresh token
-- is the one that `w'` has stored for the user.
pub record IssuedTo (S : Services) (user_id : Text) (tenant_id : Option Text) (tokens : TokenPair)
    (w w' : World S) : Type 0 where
  pub payload : JwtPayload
  pub subject : payload.sub ≡ user_id
  pub of_tenant : payload.tenant_id ≡ tenant_id
  pub access : tokens.access_token ≡ S.sign_access payload w.now
  pub refresh : tokens.refresh_token ≡ S.sign_refresh payload w.now
  pub stored : cache_get S (refresh_token_key user_id) w' ≡ some (text tokens.refresh_token)

module _ (S : Services) where
  pub issue_tokens-IssuedTo :
      (id : Text) (t : Option Text) (ctx : AuthContext) (tokens : TokenPair) (w w' : World S)
      → issue_tokens S id t ctx w ≡ (ok tokens, w')
      → IssuedTo S id t tokens w w'
  unfolding issue_tokens generate_token_pair
  issue_tokens-IssuedTo id t ctx tokens w w' h =
      let claims = build_authorization_claims S id w in
      let p : JwtPayload = record {
        sub = id;
        tenant_id = t;
        user_role = claims.user_role;
        roles = claims.roles;
        permissions = claims.permissions;
        exp = none;
      } in
      let first =
        (S.cache.set (refresh_session_key id (S.sha256 (S.sign_refresh p w.now)))
          (json (
            session (record {
              user_id = id;
              tenant_id = t;
              refresh_token_hash = S.sha256 (S.sign_refresh p w.now);
              user_agent = ctx.user_agent;
              ip_address = ctx.ip_address;
            })))
          refresh_ttl_seconds w.cache) in
      record {
        payload = p;
        subject = refl;
        of_tenant = refl;
        access = ground arith;
        refresh = ground arith;
        stored = ground (
          arith,
          S.cache.get-set (refresh_token_key id) (refresh_token_key id)
              (text (S.sign_refresh p w.now)) refresh_ttl_seconds first,
          text_eq_refl (refresh_token_key id),
        );
      }

  audit_cache :
      (a : String) (u t : Option Text) (d : List (String × Text)) (ctx : AuthContext) (w : World S)
      → ((audit S a u t d ctx w).1.cache ≡ w.cache) × ((audit S a u t d ctx w).0 ≡ ok tt)
  unfolding audit
  audit_cache a u t d ctx w = ground arith

  touch_presence_now : (id : Text) (w : World S) → (touch_presence S id true w).1.now ≡ w.now
  unfolding touch_presence
  touch_presence_now id w = ground arith

  get_safe_user_by_id_lem :
      (id : Text) (safe : SafeUser) (w : World S)
      → (get_safe_user_by_id S id w).0 ≡ ok safe
      → (safe.id ≡ id) × ((get_safe_user_by_id S id w).1 ≡ w)
  unfolding get_safe_user_by_id
  get_safe_user_by_id_lem id safe w h = elim (Option-cases (find_user S id w)) [
    | inl missing ↦ absurd (ground arith)
    | inr (u, at) ↦ ground (arith, S.users.find_unique_key id u w.users at)
  ]

  -- The answer of a login is about the user, and the tokens are issued to the user.
  pub finish_login-IssuedTo :
      (u : User) (t : Option Text) (m : String) (i : Text) (ctx : AuthContext) (safe : SafeUser)
      (tokens : TokenPair) (w w' : World S)
      → finish_login S u t m i ctx w ≡ (ok (safe, tokens), w')
      → (safe.id ≡ u.id) × IssuedTo S u.id t tokens w w'
  unfolding finish_login
  finish_login-IssuedTo u t m i ctx safe tokens w w' h =
      let touched = touch_presence S u.id true w in
      let (_, _, h1) = bind-eq-ok (touch_presence S u.id true) _ w h in
      let (made, e, h2) = bind-eq-ok (issue_tokens S u.id t ctx) _ touched.1 h1 in
      let issued = issue_tokens S u.id t ctx touched.1 in
      let (_, _, h3) = bind-eq-ok (audit S "auth.user.login" (some u.id) t _ ctx) _ issued.1 h2 in
      let audited =
        audit S "auth.user.login" (some u.id) t (("method", codes m) ∷ ("identifier", i) ∷ []) ctx
          issued.1 in
      let (answer, found, h4) = bind-eq-ok (get_safe_user_by_id S u.id) _ audited.1 h3 in
      let (named, same) = get_safe_user_by_id_lem u.id answer audited.1 found in
      let its = issue_tokens-IssuedTo u.id t ctx made touched.1 issued.1 (ground (arith, e)) in
      let same_tokens : made ≡ tokens = ground arith in
      (
        ground (arith, named),
        record {
          payload = its.payload;
          subject = its.subject;
          of_tenant = its.of_tenant;
          access = ground (arith, its.access, touch_presence_now u.id w);
          refresh = ground (arith, its.refresh, touch_presence_now u.id w);
          stored = ground (
            arith,
            its.stored,
            same,
            audit_cache "auth.user.login" (some u.id) t
                (("method", codes m) ∷ ("identifier", i) ∷ []) ctx issued.1,
          );
        },
      )

  -- Only the clock of the first state matters.
  pub IssuedTo-from :
      (id : Text) (t : Option Text) (tokens : TokenPair) (v w w' : World S)
      → v.now ≡ w.now
      → IssuedTo S id t tokens v w'
      → IssuedTo S id t tokens w w'
  IssuedTo-from id t tokens v w w' same its = record {
    payload = its.payload;
    subject = its.subject;
    of_tenant = its.of_tenant;
    access = ground (arith, its.access, same);
    refresh = ground (arith, its.refresh, same);
    stored = its.stored;
  }

  issue_tokens_returns :
      (id : Text) (t : Option Text) (ctx : AuthContext) (w : World S)
      → (tokens : TokenPair) × (issue_tokens S id t ctx w
          ≡ (ok tokens, (issue_tokens S id t ctx w).1))
  unfolding issue_tokens
  issue_tokens_returns id t ctx w = (_, refl)

  -- Tokens followed by an entry of the log are issued tokens.
  pub issue_tokens-audit :
      (id : Text) (t : Option Text) (m : Text) (p : Text) (ctx : AuthContext) (w : World S)
      → (tokens : TokenPair) × (issue_tokens S id t ctx w
          ≡ (ok tokens, (issue_tokens S id t ctx w).1))
        × IssuedTo S id t tokens w
            (audit S "auth.user.login"
              (some id)
              t
              (("method", m) ∷ ("provider", p) ∷ [])
              ctx
              (issue_tokens S id t ctx w).1).1
  issue_tokens-audit id t m p ctx w =
      let (tokens, e) = issue_tokens_returns id t ctx w in
      let its = issue_tokens-IssuedTo id t ctx tokens w (issue_tokens S id t ctx w).1 e in
      (
        tokens,
        e,
        record {
          payload = its.payload;
          subject = its.subject;
          of_tenant = its.of_tenant;
          access = its.access;
          refresh = its.refresh;
          stored = ground (
            arith,
            its.stored,
            audit_cache "auth.user.login" (some id) t (("method", m) ∷ ("provider", p) ∷ []) ctx
                (issue_tokens S id t ctx w).1,
          );
        },
      )
