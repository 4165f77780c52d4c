-- ===== src/Redis/Flush.antt =====
-- What `flushPrefix` removes.
use learn_nestjs.Redis
use learn_nestjs.Common.{◌≡◌, refl, true, none, List, [], ◌∷◌, ◌++◌, if◌then◌else◌, arith}
use learn_nestjs.Common.Text.{Text, starts_with}
use learn_nestjs.Common.Lists.{contains}
use learn_nestjs.Redis.Driver.{Stored, glob_free, Client}
use learn_nestjs.Common.Maps.{Map, lookup, remove, lookup-remove}
use learn_nestjs.Redis.{Service, remove_all, del_all, flush_prefix}
use learn_nestjs.Redis.Implements.{keys_exact}

module _ {J : Type 0} (c : Client J) where
  lookup-remove_all :
      (ks : List Text) (j : Text) (m : Map (Stored J))
      → lookup j (remove_all ks m) ≡ (if contains ks j then none else lookup j m)
  unfolding remove_all contains
  lookup-remove_all [] j m = refl
  lookup-remove_all (k ∷ ks) j m =
      ground (arith, lookup-remove_all ks j (remove k m), lookup-remove k j m)

  get-del_all :
      (ks : List Text) (j : Text) (r : c.State)
      → c.get j (del_all c ks r) ≡ (if contains ks j then none else c.get j r)
  unfolding del_all contains
  get-del_all [] j r = refl
  get-del_all (k ∷ ks) j r = ground (arith, get-del_all ks j (c.del k r), c.get-del k j r)

  -- In either mode, for a prefix without characters of a pattern: `flushPrefix` removes every key that
  -- begins with the prefix and leaves what is stored under any other key.
  pub flush_prefix_exact :
      (p j : Text) (s : Service c)
      → glob_free p ≡ true
      → Redis.get c j (flush_prefix c p s) ≡ (if starts_with j p then none else Redis.get c j s)
  unfolding flush_prefix Redis.get
  flush_prefix_exact p j s h =
      let found = Redis.keys c (p ++ b'*' ∷ []) s in
      ground (
        arith,
        keys_exact c p j s h,
        lookup-remove_all found j s.memory,
        get-del_all found j s.remote,
      )
