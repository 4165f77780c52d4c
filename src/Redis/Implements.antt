-- ===== src/Redis/Implements.antt =====
-- `RedisService` as a `Cache`, connected to the client or not.
use learn_nestjs.Common.{
  ℕ, zero, suc, ◌+◌, ◌<◌, ◌≡◌, refl, Bool, true, not, ◌&&◌, Option, none, some, is_some, List, ◌∷◌,
  [], ◌++◌, ◌==◌, if◌then◌else◌, arith,
}
use learn_nestjs.Common.Text.{Text, text_eq, text_eq_iff, starts_with}
use learn_nestjs.Common.Lists.{every, contains, filter}
use learn_nestjs.Common.Maps.{
  Map, lookup, insert, remove, lookup-insert, lookup-remove, contains-keys,
}
use learn_nestjs.Common.Maps
use learn_nestjs.Redis
use learn_nestjs.Redis.{Service, to_number}
use learn_nestjs.Redis.Driver.{Client, Stored, number, glob_free, count_of}
use learn_nestjs.Redis.Cache.{Cache}

-- Dropping the stars from a pattern `p*` leaves `p`, if `p` has none.
pub prefix-of-pattern :
    (p : Text) → glob_free p ≡ true → filter (λ x. not (x == b'*')) (p ++ b'*' ∷ []) ≡ p
unfolding glob_free filter every
prefix-of-pattern [] h = refl
prefix-of-pattern (x ∷ p) h = ground (arith, prefix-of-pattern p)

pub contains-filter :
    (p : Text → Bool) (xs : List Text) (a : Text)
    → contains (filter p xs) a ≡ (p a && contains xs a)
unfolding contains filter
contains-filter p [] a = ground arith
contains-filter p (x ∷ xs) a = ground (arith, contains-filter p xs a, text_eq_iff x a)

module _ {J : Type 0} (c : Client J) where
  pub get-set :
      (k j : Text) (v : Stored J) (n : ℕ) (s : Service c)
      → Redis.get c j (Redis.set c k v n s) ≡ (if text_eq k j then some v else Redis.get c j s)
  unfolding Redis.get Redis.set
  get-set k j v zero s = ground (arith, lookup-insert k j v s.memory, c.get-set k j v s.remote)
  get-set k j v (suc n) s =
      ground
        (arith, lookup-insert k j v s.memory, c.get-set_ex k j v (suc n) s.remote (omega arith))

  pub get-del :
      (k j : Text) (s : Service c)
      → Redis.get c j (Redis.del c k s) ≡ (if text_eq k j then none else Redis.get c j s)
  unfolding Redis.get Redis.del
  get-del k j s = ground (arith, lookup-remove k j s.memory, c.get-del k j s.remote)

  pub exists-get : (k : Text) (s : Service c) → Redis.exists c k s ≡ is_some (Redis.get c k s)
  unfolding Redis.get Redis.exists
  exists-get k s = ground (arith, c.exists-get k s.remote)

  pub get-expire :
      (k j : Text) (n : ℕ) (s : Service c)
      → 0 < n
      → Redis.get c j (Redis.expire c k n s) ≡ Redis.get c j s
  unfolding Redis.get Redis.expire
  get-expire k j n s h = ground (arith, c.get-expire k j n s.remote h)

  to_number-count_of : (o : Option (Stored J)) (n : ℕ) → count_of o ≡ some n → to_number o ≡ some n
  unfolding to_number
  to_number-count_of none n h = h
  to_number-count_of (some (number m)) n h = h
  to_number-count_of (some _) n h = ground arith

  pub incr_counts :
      (k : Text) (n : ℕ) (s : Service c)
      → count_of (Redis.get c k s) ≡ some n
      → (Redis.incr c k s).0 ≡ some (n + 1)
  unfolding Redis.get Redis.incr
  incr_counts k n s h =
      ground (arith, c.incr_counts k n s.remote, to_number-count_of (lookup k s.memory) n)

  pub get-incr :
      (k j : Text) (n : ℕ) (s : Service c)
      → count_of (Redis.get c k s) ≡ some n
      → Redis.get c j (Redis.incr c k s).1
        ≡ (if text_eq k j then some (number (n + 1)) else Redis.get c j s)
  unfolding Redis.get Redis.incr
  get-incr k j n s h = ground (
    arith,
    c.get-incr k j n s.remote,
    to_number-count_of (lookup k s.memory) n,
    lookup-insert {V = Stored J} k j (number (n + 1)) s.memory,
  )

  -- In either mode, connected or falling back to memory: `keys` with a prefix and a star, the prefix
  -- without characters of a pattern, answers exactly the stored keys that begin with the prefix.
  pub keys_exact :
      (p j : Text) (s : Service c)
      → glob_free p ≡ true
      → contains (Redis.keys c (p ++ b'*' ∷ []) s) j
        ≡ (starts_with j p && is_some (Redis.get c j s))
  unfolding Redis.get Redis.keys
  keys_exact p j s h = ground (
    arith,
    c.keys_exact p j s.remote h,
    prefix-of-pattern p h,
    contains-filter (λ key. starts_with key p) (Maps.keys s.memory) j,
    contains-keys j s.memory,
  )

  abbrev pub service_cache : Cache J
  service_cache = record {
    State = Service c;
    get = Redis.get c;
    set = Redis.set c;
    del = Redis.del c;
    exists = Redis.exists c;
    expire = Redis.expire c;
    keys = Redis.keys c;
    incr = Redis.incr c;
    get-set = get-set;
    get-del = get-del;
    exists-get = exists-get;
    get-expire = get-expire;
    incr_counts = incr_counts;
    get-incr = get-incr;
    keys_exact = keys_exact;
  }
