-- ===== src/PresenceGateway/Heartbeats.antt =====
-- What heartbeats do to the presence in Redis.
use learn_nestjs.Redis
use learn_nestjs.Common.{◌≡◌, refl, ◌∙◌, Option, or_else, List, [], ◌∷◌, arith}
use learn_nestjs.Common.Text.{Text}
use learn_nestjs.Redis.Driver.{Client}
use learn_nestjs.Auth.Keys.{presence_key}
use learn_nestjs.Guards.{ws_auth_guard}
use learn_nestjs.Redis.Implements.{get-expire}
use learn_nestjs.Sockets.{PresenceEvent}
use learn_nestjs.PresenceGateway.{PresenceState, handle_heartbeat}

module _ (c : Client PresenceEvent) where
  -- Some heartbeats, one after the other.
  unfoldable pub beats : List (Option Text) → PresenceState c → PresenceState c
  unfolding handle_heartbeat
  beats [] s = s
  beats (u ∷ us) s = beats us (handle_heartbeat c u s).1

  one_heartbeat :
      (u : Option Text) (key : Text) (s : PresenceState c)
      → Redis.get c key (handle_heartbeat c u s).1.redis ≡ Redis.get c key s.redis
  unfolding handle_heartbeat ws_auth_guard
  one_heartbeat u key s =
      ground (arith, get-expire c (presence_key (or_else u [])) key 120 s.redis (omega arith))

  -- However many heartbeats come, of whatever users: Redis holds under every key what it held before
  -- them. So a presence key that is gone, also that of a user whose socket beats, stays gone.
  pub beats_keep :
      (us : List (Option Text)) (key : Text) (s : PresenceState c)
      → Redis.get c key (beats us s).redis ≡ Redis.get c key s.redis
  unfolding beats
  beats_keep [] key s = refl
  beats_keep (u ∷ us) key s = beats_keep us key (handle_heartbeat c u s).1 ∙ one_heartbeat u key s
