-- ===== src/Session.antt =====
-- `SessionService` of src/modules/session/session.service.ts: the sessions of a user, and their end.
pub mod Agreement
use learn_nestjs.Common.{ℕ, ◌+◌, ◌-◌, ◌*◌, none, some, List, [], ◌∷◌, ◌++◌}
use learn_nestjs.Common.Text.{Text, codes}
use learn_nestjs.Common.Lists.{length}
use learn_nestjs.Common.Results.{Exec, return, gets, modify, ◌>>=◌, ◌>>◌}
use learn_nestjs.Auth.Keys.{refresh_session_prefix, refresh_token_key}
use learn_nestjs.Auth.World.{Services, World, Payload, session}
use learn_nestjs.Common.Maps.{keys}
use learn_nestjs.Redis.{payload_of}

module _ (S : Services) where
  abbrev pub session_keys : Text → World S → List Text
  session_keys user_id w = S.cache.keys (refresh_session_prefix user_id ++ codes "*") w.cache

  -- The stored objects among the keys; a key that is gone is passed over.
  unfoldable pub collect_sessions : List Text → World S → List Payload
  unfolding payload_of
  collect_sessions [] w = []
  collect_sessions (k ∷ ks) w =
      let rest = collect_sessions ks w in
      elim (payload_of (S.cache.get k w.cache)) [ none ↦ rest | some found ↦ found ∷ rest ]

  unfoldable pub find_by_user : Text → World S → List Payload
  find_by_user user_id w = collect_sessions (session_keys user_id w) w

  unfoldable pub del_keys : List Text → S.cache.State → S.cache.State
  del_keys [] c = c
  del_keys (k ∷ ks) c = del_keys ks (S.cache.del k c)

  -- The answer is the count of the sessions.
  unfoldable pub revoke_all : Text → Exec (World S) ℕ
  revoke_all user_id = do
    keys ← gets (session_keys user_id)
    modify (λ w. record w { cache = del_keys keys w.cache })
    modify (λ w. record w { cache = S.cache.del (refresh_token_key user_id) w.cache })
    return (length keys)
