-- ===== src/Auth/Tokens/Revocation.antt =====
-- Revocation, and the exchange of refresh tokens.
use learn_nestjs.Common.{
  ℕ, ◌≡◌, ◌⊎◌, inl, inr, refl, ap, subst, true, false, not, ◌||◌, none, some, List, [], ◌∷◌, ◌++◌,
  if◌then◌else◌, ◌==◌, arith, Option-cases,
}
use learn_nestjs.Common.Text.{Text, codes, text_eq, text_eq_refl, starts_with}
use learn_nestjs.Common.Lists.{every, contains}
use learn_nestjs.Common.Results.{ok, err}
use learn_nestjs.Redis.Driver.{glob_free}
use learn_nestjs.Auth.Keys.{refresh_session_key, refresh_session_prefix, refresh_token_key}
use learn_nestjs.Auth.World.{Services, World, AuthContext, JwtPayload, cache_get}
use learn_nestjs.Auth.Tokens.{
  TokenPair, issue_tokens, refresh_tokens, revoke_user_sessions, del_each, invalid_refresh_token,
  refresh_token_revoked,
}

module _ (S : Services) where
  pub revoke_user_sessions_now :
      (u : Text) (w : World S) → (revoke_user_sessions S u w).1.now ≡ w.now
  unfolding revoke_user_sessions
  revoke_user_sessions_now u w = refl

  pub revoke_user_sessions_result :
      (u : Text) (w : World S) → (revoke_user_sessions S u w).0 ≡ ok tt
  unfolding revoke_user_sessions
  revoke_user_sessions_result u w = refl

  -- Deleting each of some keys: what is among them is gone, the rest stays.
  get-del_each :
      (ks : List Text) (j : Text) (c : S.cache.State)
      → S.cache.get j (del_each S ks c) ≡ (if contains ks j then none else S.cache.get j c)
  unfolding del_each contains
  get-del_each [] j c = refl
  get-del_each (k ∷ ks) j c =
      ground (arith, get-del_each ks j (S.cache.del k c), S.cache.get-del k j c)

  -- Revocation, for a user whose identifier has no character of a pattern: of every key, what
  -- remains is what was stored, unless it is the key of the user's last refresh token or begins
  -- like the user's sessions.
  pub get-revoke_user_sessions :
      (u j : Text) (w : World S)
      → glob_free (refresh_session_prefix u) ≡ true
      → cache_get S j (revoke_user_sessions S u w).1 ≡ (
          if text_eq (refresh_token_key u) j || starts_with j (refresh_session_prefix u)
          then none
          else cache_get S j w)
  unfolding revoke_user_sessions
  get-revoke_user_sessions u j w h =
      let first = S.cache.del (refresh_token_key u) w.cache in
      ground (
        arith,
        S.cache.get-del (refresh_token_key u) j w.cache,
        S.cache.keys_exact (refresh_session_prefix u) j first h,
        get-del_each (S.cache.keys (refresh_session_prefix u ++ codes "*") first) j first,
      )

-- No colon in the text, as in an identifier made by `uuid()`.
abbrev pub ColonFree : Text → Type 0
ColonFree u = every (λ c. not (c == b':')) u ≡ true

starts_with_user :
    (u v h : Text)
    → ColonFree u
    → ColonFree v
    → starts_with (v ++ b':' ∷ h) (u ++ codes ":") ≡ text_eq u v
unfolding starts_with text_eq every
starts_with_user [] [] h cu cv = refl
starts_with_user [] (y ∷ v) h cu cv = ground arith
starts_with_user (x ∷ u) [] h cu cv = ground arith
starts_with_user (x ∷ u) (y ∷ v) h cu cv = ground (arith, starts_with_user u v h)

starts_with_session :
    (u v h : Text)
    → ColonFree u
    → ColonFree v
    → starts_with (refresh_session_key v h) (refresh_session_prefix u) ≡ text_eq u v
unfolding starts_with refresh_session_key refresh_session_prefix
starts_with_session u v h cu cv = starts_with_user u v h cu cv

refresh_token_key-ne-refresh_session_key :
    (u v h : Text) → text_eq (refresh_token_key u) (refresh_session_key v h) ≡ false
unfolding refresh_token_key refresh_session_key text_eq
refresh_token_key-ne-refresh_session_key u v h = refl

-- Identifiers as the database makes them: no colon, and no character of a pattern.
pub record IsPlain (u : Text) : Type 0 where
  pub colon_free : ColonFree u
  pub pattern_free : glob_free (refresh_session_prefix u) ≡ true

module _ (S : Services) where
  -- For identifiers without colons and characters of a pattern `revokeUserSessions` ends every session of the user and no session of another user.
  pub revoke_user_sessions_exact :
      (u v h : Text) (w : World S)
      → IsPlain u
      → IsPlain v
      → cache_get S (refresh_session_key v h) (revoke_user_sessions S u w).1
        ≡ (if text_eq u v then none else cache_get S (refresh_session_key v h) w)
  revoke_user_sessions_exact u v h w pu pv = ground (
    arith,
    get-revoke_user_sessions S u (refresh_session_key v h) w pu.pattern_free,
    starts_with_session u v h pu.colon_free pv.colon_free,
    refresh_token_key-ne-refresh_session_key u v h,
  )

  refresh_tokens_gone :
      (token : Text) (payload : JwtPayload) (ctx : AuthContext) (w : World S)
      → S.verify_refresh token w.now ≡ some payload
      → cache_get S (refresh_session_key payload.sub (S.sha256 token)) w ≡ none
      → refresh_tokens S token ctx w ≡ (err refresh_token_revoked, w)
  unfolding refresh_tokens
  refresh_tokens_gone token payload ctx w valid gone =
      ground (arith, S.cache.exists-get (refresh_session_key payload.sub (S.sha256 token)) w.cache)

  -- After `revokeUserSessions`, for an identifier without colons and characters of a pattern, no refresh token of the user is accepted, whatever its signature.
  pub refresh_tokens_revoked :
      (token : Text) (payload : JwtPayload) (ctx : AuthContext) (w : World S)
      → IsPlain payload.sub
      → S.verify_refresh token w.now ≡ some payload
      → (refresh_tokens S token ctx (revoke_user_sessions S payload.sub w).1).0
        ≡ err refresh_token_revoked
  refresh_tokens_revoked token payload ctx w plain valid =
      let revoked = (revoke_user_sessions S payload.sub w).1 in
      let key = refresh_session_key payload.sub (S.sha256 token) in
      let gone : cache_get S key revoked ≡ none = ground (
        arith,
        revoke_user_sessions_exact payload.sub payload.sub (S.sha256 token) w plain plain,
        text_eq_refl payload.sub,
      ) in
      ap (λ q. q.0)
        (refresh_tokens_gone token payload ctx revoked
          (rw (revoke_user_sessions_now S payload.sub w) valid) gone)

  refresh_tokens_deletes :
      (token : Text) (payload : JwtPayload) (ctx : AuthContext) (pair : TokenPair) (w w' : World S)
      → S.verify_refresh token w.now ≡ some payload
      → refresh_tokens S token ctx w ≡ (ok pair, w')
      → cache_get S (refresh_session_key payload.sub (S.sha256 token)) w' ≡ none
  unfolding refresh_tokens
  refresh_tokens_deletes token payload ctx pair w w' valid h =
      let key = refresh_session_key payload.sub (S.sha256 token) in
      ground (
        arith,
        text_eq_refl key,
        S.cache.get-del key key (issue_tokens S payload.sub payload.tenant_id ctx w).1.cache,
      )

  -- A refresh token, of the same subject whenever it verifies, is good for one exchange: at any later time, with nothing else in Redis
  -- changed, the same token is refused. It is so too where the exchange handed out that very token.
  pub refresh_tokens_once :
      (token : Text) (ctx ctx' : AuthContext) (pair : TokenPair) (w w' : World S) (later : ℕ)
      → ((n : ℕ) (p q : JwtPayload)
          → S.verify_refresh token w.now ≡ some p
          → S.verify_refresh token n ≡ some q
          → p.sub ≡ q.sub)
      → refresh_tokens S token ctx w ≡ (ok pair, w')
      → ((refresh_tokens S token ctx' (record w' { now = later })).0 ≡ err refresh_token_revoked)
        ⊎ ((refresh_tokens S token ctx' (record w' { now = later })).0 ≡ err invalid_refresh_token)
  unfolding refresh_tokens
  refresh_tokens_once token ctx ctx' pair w w' later same h =
      elim (Option-cases (S.verify_refresh token w.now)) [
        | inl refused ↦ absurd (ground arith)
        | inr (p, valid) ↦ elim (Option-cases (S.verify_refresh token later)) [
          | inl expired ↦ inr (ground arith)
          | inr (q, still) ↦
              let gone = refresh_tokens_deletes token p ctx pair w w' valid h in
              inl (
                ap (λ r. r.0)
                  (refresh_tokens_gone token q ctx' (record w' { now = later }) still
                    (subst (λ u. cache_get S (refresh_session_key u (S.sha256 token)) w' ≡ none)
                      (same later p q valid still) gone)))
        ]
      ]
