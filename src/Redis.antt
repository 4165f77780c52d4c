-- ===== src/Redis.antt =====
-- The key-value service of src/redis/redis.service.ts, over the ioredis client, with its fallback to
-- a map in memory when the connection at start fails.
--
-- Values are kept before serialisation, a constructor for each form of string that the program
-- writes. The client is a parameter; that its calls do not throw is assumed. A handler runs at one
-- instant, so a key's time to live is passed to the client and plays no part in its laws.
pub mod Driver
pub mod Cache
pub mod Implements
pub mod Flush
use learn_nestjs.Common.{
  ℕ, zero, suc, ◌+◌, ◌-◌, ◌*◌, Bool, true, false, not, ◌&&◌, Option, none, some, is_some, or_else,
  List, [], ◌∷◌, ◌++◌, leb, ◌==◌, if◌then◌else◌, ltb,
}
use learn_nestjs.Common.Text.{Text, text_eq, starts_with, drop, is_empty}
use learn_nestjs.Common.Lists.{length, filter, contains}
use learn_nestjs.Common.Maps
use learn_nestjs.Common.Maps.{Map, lookup, insert, remove}
use learn_nestjs.Redis.Driver.{Stored, text, number, nan, strings, json, Ttl, persistent, Client}

pub record Service {J : Type 0} (c : Client J) : Type 0 where
  -- `!this.useMemoryFallback && this.client`
  pub connected : Bool
  pub memory : Map (Stored J)
  pub remote : c.State

-- `Number(digits)`, for texts of decimal digits; any other text is read as `NaN`.
decimal : ℕ → Text → Option ℕ
decimal n [] = some n
decimal n (x ∷ xs) = elim (leb b'0' x && leb x b'9') [
  | true ↦ decimal (n * 10 + (x - b'0')) xs
  | false ↦ none
]

abbrev plus : Option ℕ → ℕ → Option ℕ
plus none k = none
plus (some n) k = some (n + k)

module _ {J : Type 0} where
  to_number : Option (Stored J) → Option ℕ
  unfolding decimal
  to_number none = some 0
  to_number (some (text t)) = decimal 0 t
  to_number (some (number n)) = some n
  to_number (some other) = none

  -- `String(n)`
  abbrev from_number : Option ℕ → Stored J
  from_number none = nan
  from_number (some n) = number n

  -- `JSON.parse(value ?? '[]')` as an array of strings
  members_of : Option (Stored J) → List Text
  members_of (some (strings xs)) = xs
  members_of _ = []

  unfoldable pub payload_of : Option (Stored J) → Option J
  payload_of (some (json v)) = some v
  payload_of _ = none

-- `${key}:${field}`
abbrev pub cell : Text → Text → Text
cell key field = key ++ b':' ∷ field

module _ {J : Type 0} where
  -- The loop of `hgetall` over the entries of the map.
  fields_of : Text → Map (Stored J) → Map (Stored J) → Map (Stored J)
  fields_of key result [] = result
  fields_of key result ((k, v) ∷ m) =
      fields_of key
        (if starts_with k (key ++ b':' ∷ [])
          then insert (drop (length key + 1) k) v result
          else result)
        m

  -- `keys.forEach((key) => this.memoryStore.delete(key))`
  pub remove_all : List Text → Map (Stored J) → Map (Stored J)
  remove_all [] m = m
  remove_all (k ∷ ks) m = remove_all ks (remove k m)

module _ {J : Type 0} (c : Client J) where
  unfoldable pub get : Text → Service c → Option (Stored J)
  get key s = if s.connected then c.get key s.remote else lookup key s.memory

  -- `ttl` is 0 where the argument is left out: both are falsy.
  unfoldable pub set : Text → Stored J → ℕ → Service c → Service c
  set key value ttl s =
      if s.connected
      then record s {
        remote = if ltb 0 ttl then c.set_ex key value ttl s.remote else c.set key value s.remote;
      }
      else record s { memory = insert key value s.memory }

  unfoldable pub del : Text → Service c → Service c
  del key s =
      if s.connected
      then record s { remote = c.del key s.remote }
      else record s { memory = remove key s.memory }

  unfoldable pub exists : Text → Service c → Bool
  exists key s = if s.connected then c.exists key s.remote else is_some (lookup key s.memory)

  unfoldable pub expire : Text → ℕ → Service c → Service c
  expire key seconds s =
      if s.connected then record s { remote = c.expire key seconds s.remote } else s

  unfoldable pub ttl : Text → Service c → Ttl
  ttl key s = if s.connected then c.ttl key s.remote else persistent

  unfoldable pub get_json : Text → Service c → Option J
  unfolding get payload_of
  get_json key s = payload_of (get key s)

  unfoldable pub set_json : Text → J → ℕ → Service c → Service c
  unfolding set
  set_json key value ttl s = set key (json value) ttl s

  unfoldable pub hset : Text → Text → Stored J → Service c → Service c
  hset key field value s =
      if s.connected
      then record s { remote = c.hset key field value s.remote }
      else record s { memory = insert (cell key field) value s.memory }

  unfoldable pub hget : Text → Text → Service c → Option (Stored J)
  hget key field s =
      if s.connected then c.hget key field s.remote else lookup (cell key field) s.memory

  unfoldable pub hdel : Text → Text → Service c → Service c
  hdel key field s =
      if s.connected
      then record s { remote = c.hdel key field s.remote }
      else record s { memory = remove (cell key field) s.memory }

  unfoldable pub hgetall : Text → Service c → Map (Stored J)
  unfolding fields_of
  hgetall key s = if s.connected then c.hgetall key s.remote else fields_of key [] s.memory

  unfoldable pub sadd : Text → List Text → Service c → Service c
  sadd key members s =
      if s.connected
      then record s { remote = c.sadd key members s.remote }
      else record s { memory = insert key (strings members) s.memory }

  unfoldable pub srem : Text → List Text → Service c → Service c
  unfolding members_of
  srem key members s =
      if s.connected then record s { remote = c.srem key members s.remote } else record s {
        memory =
            insert key
              (strings (
                filter (λ member. not (contains members member))
                  (members_of (lookup key s.memory))))
              s.memory;
      }

  unfoldable pub smembers : Text → Service c → List Text
  unfolding members_of
  smembers key s = if s.connected then c.smembers key s.remote else members_of (lookup key s.memory)

  unfoldable pub sismember : Text → Text → Service c → Bool
  unfolding members_of
  sismember key member s =
      if s.connected
      then c.sismember key member s.remote
      else contains (members_of (lookup key s.memory)) member

  unfoldable pub publish : Text → Stored J → Service c → Service c
  publish channel message s =
      if s.connected then record s { remote = c.publish channel message s.remote } else s

  unfoldable pub publish_json : Text → J → Service c → Service c
  unfolding publish
  publish_json channel value s = publish channel (json value) s

  unfoldable pub keys : Text → Service c → List Text
  keys pattern s =
      if s.connected
      then c.keys pattern s.remote
      else (let prefix = filter (λ x. not (x == b'*')) pattern in
          filter (λ key. starts_with key prefix) (Maps.keys s.memory))

  -- DEL of several keys, one after the other.
  pub del_all : List Text → c.State → c.State
  del_all [] r = r
  del_all (k ∷ ks) r = del_all ks (c.del k r)

  unfoldable pub flush_prefix : Text → Service c → Service c
  unfolding keys remove_all del_all
  flush_prefix prefix s =
      let found = keys (prefix ++ b'*' ∷ []) s in
      if s.connected
      then record s { remote = del_all found s.remote }
      else record s { memory = remove_all found s.memory }

  unfoldable pub incrby : Text → ℕ → Service c → Option ℕ × Service c
  unfolding to_number
  incrby key increment s =
      if s.connected
      then (let (value, remote) = c.incrby key increment s.remote in
          (value, record s { remote = remote }))
      else (let next = plus (to_number (lookup key s.memory)) increment in
          (next, record s { memory = insert key (from_number next) s.memory }))

  unfoldable pub incr : Text → Service c → Option ℕ × Service c
  unfolding to_number
  incr key s =
      if s.connected
      then (let (value, remote) = c.incr key s.remote in (value, record s { remote = remote }))
      else (let next = plus (to_number (lookup key s.memory)) 1 in
          (next, record s { memory = insert key (from_number next) s.memory }))
