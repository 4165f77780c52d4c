-- ===== src/Adapter/Offline.antt =====
-- What one disconnection changes, and what it keeps.
use learn_nestjs.Common.{
  ◌≡◌, inl, inr, refl, sym, subst, Bool, true, false, not, ◌&&◌, ◌||◌, some, List, arith,
  Bool-cases, Option-cases,
}
use learn_nestjs.Common.Text.{Text, text_eq, text_eq_refl, text_eq_iff, is_empty}
use learn_nestjs.Common.Lists.{any, filter, contains}
use learn_nestjs.Redis.Driver.{Client}
use learn_nestjs.Database.{User, Table}
use learn_nestjs.Auth.Users.{truthy}
use learn_nestjs.Common.Maps.{lookup, lookup-remove}
use learn_nestjs.Sockets.{
  Connections, is_online, PresenceEvent, user_online, user_offline, remove_socket, disconnect,
  go_offline, left_after, sockets_of, became_empty,
}
use learn_nestjs.Adapter.{AdapterState, handle_socket_disconnected}
use learn_nestjs.Sockets.Presence.{remove_socket_connections, remove_socket-IsConsistent}
use learn_nestjs.Sockets.Agreement.{store_left_lem, IsConsistent, disconnect_online}

unfoldable pub is_offline_of : Text → PresenceEvent → Bool
is_offline_of u (user_online v j now) = false
is_offline_of u (user_offline v j now) = text_eq v u

-- Some client of the namespace `/presence` could read that the user went offline.
abbrev pub was_told_offline : Text → List PresenceEvent → Bool
was_told_offline u events = any (is_offline_of u) events

module _ (c : Client PresenceEvent) (table : Table (λ (u : User). u.id)) where
  disconnected_connections :
      (j : Text) (s : AdapterState c table)
      → (handle_socket_disconnected c table j s).sockets.connections
        ≡ (remove_socket c table j s.sockets).1.connections
  unfolding handle_socket_disconnected
  disconnected_connections j s = ground arith

  pub disconnected-IsConsistent :
      (j : Text) (s : AdapterState c table)
      → IsConsistent s.sockets.connections
      → IsConsistent (handle_socket_disconnected c table j s).sockets.connections
  disconnected-IsConsistent j s good =
      subst IsConsistent (sym (disconnected_connections j s))
        (remove_socket-IsConsistent c table j s.sockets good)

  -- A socket without an owner, or of a user without a name, stands in no set of a user with one.
  unowned :
      (u j : Text) (s : Connections)
      → IsConsistent s
      → is_empty u ≡ false
      → truthy (lookup j s.socket_user) ≡ false
      → contains (sockets_of u s) j ≡ false
  unowned u j s good named h = elim (Option-cases (lookup j s.socket_user)) [
    | inl missing ↦ ground (arith, good.exact u j)
    | inr (v, stored) ↦ ground (arith, good.exact u j, text_eq_iff v u)
  ]

  -- A disconnection takes away its own socket only.
  pub disconnected_sockets :
      (u j i : Text) (s : AdapterState c table)
      → IsConsistent s.sockets.connections
      → is_empty u ≡ false
      → contains (sockets_of u (handle_socket_disconnected c table j s).sockets.connections) i
        ≡ (contains (sockets_of u s.sockets.connections) i && not (text_eq j i))
  unfolding disconnect
  disconnected_sockets u j i s good named =
      let old = s.sockets.connections in
      elim (Bool-cases (truthy (lookup j old.socket_user))) [
        | inl owned ↦ ground (
          arith,
          (disconnected-IsConsistent j s good).exact u i,
          good.exact u i,
          disconnected_connections j s,
          remove_socket_connections c table j s.sockets,
          lookup-remove j i old.socket_user,
          text_eq_iff j i,
        )
        | inr free ↦ ground (
          arith,
          unowned u j old good named free,
          disconnected_connections j s,
          remove_socket_connections c table j s.sockets,
          text_eq_iff j i,
        )
      ]

  -- The row of the user stands, and the user has a socket or has been reported offline.
  pub record Watched (u : Text) (s : AdapterState c table) : Type 0 where
    pub row : User
    pub stands : table.find_unique u s.sockets.users ≡ some row
    pub settled :
        (is_online u s.sockets.connections || (not row.is_online && was_told_offline u s.told))
        ≡ true

  -- A user whose last socket goes.
  last_socket_gone :
      (u j : Text) (s : AdapterState c table)
      → IsConsistent s.sockets.connections
      → is_empty u ≡ false
      → lookup j s.sockets.connections.socket_user ≡ some u
      → Watched u s
      → Watched u (handle_socket_disconnected c table j s)
  unfolding handle_socket_disconnected remove_socket go_offline any is_offline_of disconnect
  last_socket_gone u j s good named owned w =
      let old = s.sockets.connections in
      let reported = disconnect_online u j old good owned in
      elim (Bool-cases (became_empty (left_after u j old))) [
        | inl emptied ↦ record {
          row = record w.row { is_online = false; last_seen_at = some s.sockets.now };
          stands = ground (
            arith,
            w.stands,
            table.find_unique-update u
                (λ r. record r { is_online = false; last_seen_at = some s.sockets.now }) w.row
                s.sockets.users w.stands refl,
          );
          settled = ground (arith, w.stands, text_eq_refl u);
        }
        | inr kept ↦ record {
          row = w.row;
          stands = ground (arith, w.stands);
          settled = ground (arith, reported);
        }
      ]

  other_socket_gone :
      (u v j : Text) (s : AdapterState c table)
      → text_eq v u ≡ false
      → is_empty v ≡ false
      → lookup j s.sockets.connections.socket_user ≡ some v
      → IsConsistent s.sockets.connections
      → Watched u s
      → Watched u (handle_socket_disconnected c table j s)
  unfolding handle_socket_disconnected remove_socket go_offline any is_offline_of disconnect
      is_online left_after contains
  other_socket_gone u v j s apart named owned good w =
      let old = s.sockets.connections in
      elim (Option-cases (lookup v old.user_sockets)) [
        | inl missing ↦ absurd (ground (arith, good.exact v j, text_eq_refl v))
        | inr (ids, stored) ↦
            let rest = filter (λ id. not (text_eq id j)) ids in
            let online = store_left_lem v u rest old.user_sockets in
            let same =
              table.find_unique-update_ne v u
                (λ r. record r { is_online = false; last_seen_at = some s.sockets.now })
                s.sockets.users apart in
            record {
              row = w.row;
              stands = ground (arith, w.stands, same, stored);
              settled = ground (arith, w.settled, online, stored);
            }
      ]

  -- A disconnection keeps a user watched.
  pub disconnected-Watched :
      (u j : Text) (s : AdapterState c table)
      → is_empty u ≡ false
      → IsConsistent s.sockets.connections
      → Watched u s
      → Watched u (handle_socket_disconnected c table j s)
  unfolding handle_socket_disconnected remove_socket
  disconnected-Watched u j s named good w =
      elim (Option-cases (lookup j s.sockets.connections.socket_user)) [
        | inl free ↦ record {
          row = w.row;
          stands = ground (arith, w.stands);
          settled = ground (arith, w.settled);
        }
        | inr (v, owned) ↦ elim (Bool-cases (text_eq v u)) [
          | inl same ↦ last_socket_gone u j s good named (ground (arith, text_eq_iff v u)) w
          | inr apart ↦ elim (Bool-cases (is_empty v)) [
            | inl unnamed ↦ record {
              row = w.row;
              stands = ground (arith, w.stands);
              settled = ground (arith, w.settled);
            }
            | inr filled ↦ other_socket_gone u v j s apart filled owned good w
          ]
        ]
      ]
