-- ===== src/Session/Agreement.antt =====
-- The two ways to end the sessions of a user: `revokeAll` and `revokeUserSessions`.
use learn_nestjs.Common.{◌≡◌, refl, true, none, List, [], ◌∷◌, if◌then◌else◌, arith}
use learn_nestjs.Common.Text.{Text}
use learn_nestjs.Common.Lists.{contains}
use learn_nestjs.Redis.Driver.{glob_free}
use learn_nestjs.Auth.Keys.{refresh_session_prefix, refresh_token_key}
use learn_nestjs.Auth.World.{Services, World, cache_get}
use learn_nestjs.Auth.Tokens.{revoke_user_sessions}
use learn_nestjs.Auth.Tokens.Revocation.{get-revoke_user_sessions}
use learn_nestjs.Session.{session_keys, del_keys, revoke_all}

module _ (S : Services) where
  get-del_keys :
      (ks : List Text) (j : Text) (c : S.cache.State)
      → S.cache.get j (del_keys S ks c) ≡ (if contains ks j then none else S.cache.get j c)
  unfolding del_keys contains
  get-del_keys [] j c = refl
  get-del_keys (k ∷ ks) j c =
      ground (arith, get-del_keys ks j (S.cache.del k c), S.cache.get-del k j c)

  -- For a user whose identifier has no character of a pattern, `revokeAll` leaves under every key
  -- what `revokeUserSessions` of `AuthService` leaves there.
  pub revoke_all-revoke_user_sessions :
      (u j : Text) (w : World S)
      → glob_free (refresh_session_prefix u) ≡ true
      → cache_get S j (revoke_all S u w).1 ≡ cache_get S j (revoke_user_sessions S u w).1
  unfolding revoke_all
  revoke_all-revoke_user_sessions u j w plain =
      let found = session_keys S u w in
      ground (
        arith,
        get-revoke_user_sessions S u j w plain,
        S.cache.keys_exact (refresh_session_prefix u) j w.cache plain,
        get-del_keys found j w.cache,
        S.cache.get-del (refresh_token_key u) j (del_keys S found w.cache),
      )
