-- ===== src/Redis/Driver.antt =====
-- What the sources use of the ioredis client, with the documented behaviour that they rely on.
use learn_nestjs.Common.{
  ℕ, ◌+◌, ◌<◌, ◌≡◌, Bool, true, not, ◌&&◌, ◌||◌, Option, none, some, is_some, List, ◌∷◌, [], ◌++◌,
  ◌==◌, if◌then◌else◌,
}
use learn_nestjs.Common.Text.{Text, text_eq, starts_with}
use learn_nestjs.Common.Lists.{every, contains}
use learn_nestjs.Common.Maps.{Map}

-- A stored string by what it was written from: a text as it is, `String(n)`, `JSON.stringify` of an
-- array of strings or of an object of type `J`.
pub data Stored (J : Type 0) : Type 0 where
  text : Text → Stored J
  number : ℕ → Stored J
  nan : Stored J
  strings : List Text → Stored J
  json : J → Stored J

-- The answers of TTL: -1, -2 and the seconds left.
pub data Ttl : Type 0 where
  persistent missing : Ttl
  seconds : ℕ → Ttl

-- No character of `p` has a meaning of its own in a pattern of KEYS.
unfoldable pub glob_free : Text → Bool
glob_free p =
    every (λ c. not (c == b'*' || c == b'?' || c == b'[' || c == b']' || c == b'\\' || c == b'^')) p

-- The count that INCR starts from.
abbrev pub count_of : {J : Type 0} → Option (Stored J) → Option ℕ
count_of none = some 0
count_of (some (number n)) = some n
count_of (some other) = none

pub record Client (J : Type 0) : Type 1 where
  pub State : Type 0
  pub get : Text → State → Option (Stored J)
  pub set : Text → Stored J → State → State
  pub set_ex : Text → Stored J → ℕ → State → State
  pub del : Text → State → State
  pub exists : Text → State → Bool
  pub expire : Text → ℕ → State → State
  pub ttl : Text → State → Ttl
  pub hset : Text → Text → Stored J → State → State
  pub hget : Text → Text → State → Option (Stored J)
  pub hdel : Text → Text → State → State
  pub hgetall : Text → State → Map (Stored J)
  pub sadd : Text → List Text → State → State
  pub srem : Text → List Text → State → State
  pub smembers : Text → State → List Text
  pub sismember : Text → Text → State → Bool
  pub publish : Text → Stored J → State → State
  pub keys : Text → State → List Text
  pub incr : Text → State → Option ℕ × State
  pub incrby : Text → ℕ → State → Option ℕ × State
  pub get-set :
      (k j : Text) (v : Stored J) (s : State)
      → get j (set k v s) ≡ (if text_eq k j then some v else get j s)
  pub get-set_ex :
      (k j : Text) (v : Stored J) (n : ℕ) (s : State)
      → 0 < n
      → get j (set_ex k v n s) ≡ (if text_eq k j then some v else get j s)
  pub get-del : (k j : Text) (s : State) → get j (del k s) ≡ (if text_eq k j then none else get j s)
  pub exists-get : (k : Text) (s : State) → exists k s ≡ is_some (get k s)
  pub get-expire : (k j : Text) (n : ℕ) (s : State) → 0 < n → get j (expire k n s) ≡ get j s
  pub incr_counts :
      (k : Text) (n : ℕ) (s : State) → count_of (get k s) ≡ some n → (incr k s).0 ≡ some (n + 1)
  pub get-incr :
      (k j : Text) (n : ℕ) (s : State)
      → count_of (get k s) ≡ some n
      → get j (incr k s).1 ≡ (if text_eq k j then some (number (n + 1)) else get j s)
  pub keys_exact :
      (p j : Text) (s : State)
      → glob_free p ≡ true
      → contains (keys (p ++ b'*' ∷ []) s) j ≡ (starts_with j p && is_some (get j s))
