-- ===== src/Subscriber.antt =====
-- `RedisSubscriber` of src/redis/redis.subscriber.ts: the handlers of each channel and pattern, and
-- what the connection to Redis is subscribed to.
--
-- A handler is an identifier, a set of them a list in insertion order. Each command comes with
-- whether Redis accepts it; a refused one throws after the map of handlers was written. Connecting
-- and quitting are left out.
pub mod Agreement
use learn_nestjs.Common.{
  ◌-◌, Bool, not, ◌||◌, none, some, is_some, or_else, List, [], ◌∷◌, map, if◌then◌else◌,
}
use learn_nestjs.Common.Text.{Text, text_eq}
use learn_nestjs.Common.Lists.{filter, add}
use learn_nestjs.Common.Results.{Failure, Exec, ok, err, internal_server_error}
use learn_nestjs.Common.Maps.{Map, lookup, insert, remove}

pub record Subscriptions : Type 0 where
  -- `disabled || !subscriber`
  pub disabled : Bool
  pub handlers : Map (List Text)
  -- What Redis sends the messages of.
  pub channels : List Text
  pub patterns : List Text

abbrev pub command_refused : Failure
command_refused = internal_server_error "redis"

abbrev pub handlers_of : Text → Subscriptions → List Text
handlers_of channel s = or_else (lookup channel s.handlers) []

abbrev pub with_handler : Text → Text → Subscriptions → Subscriptions
with_handler channel handler s = record s {
  handlers = insert channel (add handler (handlers_of channel s)) s.handlers;
}

abbrev pub with_entry : Text → Subscriptions → Subscriptions
with_entry channel s = record s { handlers = insert channel [] s.handlers }

unfoldable pub subscribe : Bool → Text → Text → Exec Subscriptions Unit
subscribe accepted channel handler s =
    if s.disabled
    then (ok tt, s)
    else if is_some (lookup channel s.handlers)
    then (ok tt, with_handler channel handler s)
    else if accepted
    then (
      ok tt,
      with_handler channel handler
          (record (with_entry channel s) { channels = add channel s.channels }),
    )
    else (err command_refused, with_entry channel s)

unfoldable pub psubscribe : Bool → Text → Text → Exec Subscriptions Unit
psubscribe accepted pattern handler s =
    if s.disabled
    then (ok tt, s)
    else if is_some (lookup pattern s.handlers)
    then (ok tt, with_handler pattern handler s)
    else if accepted
    then (
      ok tt,
      with_handler pattern handler
          (record (with_entry pattern s) { patterns = add pattern s.patterns }),
    )
    else (err command_refused, with_entry pattern s)

abbrev pub without : Text → List Text → List Text
without x xs = filter (λ y. not (text_eq y x)) xs

-- `unsubscribe` from where the handlers that are left are known.
unfoldable pub keep_left : Bool → Text → List Text → Exec Subscriptions Unit
keep_left accepted channel (x ∷ xs) s =
    (ok tt, record s { handlers = insert channel (x ∷ xs) s.handlers })
keep_left accepted channel [] s =
    if accepted
    then (
      ok tt,
      record s { handlers = remove channel s.handlers; channels = without channel s.channels },
    )
    else (err command_refused, record s { handlers = remove channel s.handlers })

unfoldable pub unsubscribe : Bool → Text → Text → Exec Subscriptions Unit
unfolding keep_left
unsubscribe accepted channel handler s =
    if s.disabled then (ok tt, s) else elim (lookup channel s.handlers) [
      | none ↦ (ok tt, s)
      | some ids ↦ keep_left accepted channel (without handler ids) s
    ]

-- The calls of handlers that a message brings about: an exception of one is logged.
unfoldable pub on_message : Text → Text → Subscriptions → List (Text × Text × Text)
on_message channel message s = map (λ h. (h, channel, message)) (handlers_of channel s)

unfoldable pub on_pmessage : Text → Text → Text → Subscriptions → List (Text × Text × Text)
on_pmessage pattern channel message s = map (λ h. (h, channel, message)) (handlers_of pattern s)
