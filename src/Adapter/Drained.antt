-- ===== src/Adapter/Drained.antt =====
-- Users who lose every socket.
use learn_nestjs.Common.{◌≡◌, true, false, not, ◌&&◌, some, List, [], ◌∷◌, arith}
use learn_nestjs.Common.Text.{Text, text_eq_refl, is_empty}
use learn_nestjs.Common.Lists.{contains}
use learn_nestjs.Redis.Driver.{Client}
use learn_nestjs.Database.{User, Table}
use learn_nestjs.Sockets.{is_online, PresenceEvent, sockets_of, is_nil}
use learn_nestjs.Adapter.{AdapterState, handle_socket_disconnected}
use learn_nestjs.Sockets.Agreement.{IsConsistent}
use learn_nestjs.Adapter.Offline.{
  was_told_offline, disconnected-IsConsistent, disconnected_sockets, Watched, disconnected-Watched,
}

module _ (c : Client PresenceEvent) (table : Table (λ (u : User). u.id)) where
  -- The sockets disconnect one after the other.
  unfoldable pub close_all : List Text → AdapterState c table → AdapterState c table
  unfolding handle_socket_disconnected
  close_all [] s = s
  close_all (j ∷ js) s = close_all js (handle_socket_disconnected c table j s)

  close_all-IsConsistent :
      (js : List Text) (s : AdapterState c table)
      → IsConsistent s.sockets.connections
      → IsConsistent (close_all js s).sockets.connections
  unfolding close_all
  close_all-IsConsistent [] s good = good
  close_all-IsConsistent (j ∷ js) s good =
      close_all-IsConsistent js (handle_socket_disconnected c table j s)
        (disconnected-IsConsistent c table j s good)

  close_all-Watched :
      (u : Text) (js : List Text) (s : AdapterState c table)
      → is_empty u ≡ false
      → IsConsistent s.sockets.connections
      → Watched c table u s
      → Watched c table u (close_all js s)
  unfolding close_all
  close_all-Watched u [] s named good w = w
  close_all-Watched u (j ∷ js) s named good w =
      close_all-Watched u js (handle_socket_disconnected c table j s) named
        (disconnected-IsConsistent c table j s good)
        (disconnected-Watched c table u j s named good w)

  -- The sockets that are left.
  close_all_sockets :
      (u i : Text) (js : List Text) (s : AdapterState c table)
      → IsConsistent s.sockets.connections
      → is_empty u ≡ false
      → contains (sockets_of u (close_all js s).sockets.connections) i
        ≡ (contains (sockets_of u s.sockets.connections) i && not (contains js i))
  unfolding close_all contains
  close_all_sockets u i [] s good named = ground arith
  close_all_sockets u i (j ∷ js) s good named = ground (
    arith,
    disconnected_sockets c table u j i s good named,
    close_all_sockets u i js (handle_socket_disconnected c table j s)
        (disconnected-IsConsistent c table j s good) named,
  )

  none_left : (ids : List Text) → ((i : Text) → contains ids i ≡ false) → is_nil ids ≡ true
  unfolding contains
  none_left [] h = ground arith
  none_left (i ∷ ids) h = absurd (ground (arith, h i, text_eq_refl i))

  -- Where the two maps agree and a user with a row is online, and the sockets that disconnect are all
  -- those of the user, in any order and among any others: the user gets offline, the row says so,
  -- and the namespace `/presence` was told.
  pub goes_offline :
      (u : Text) (js : List Text) (row : User) (s : AdapterState c table)
      → IsConsistent s.sockets.connections
      → is_empty u ≡ false
      → table.find_unique u s.sockets.users ≡ some row
      → is_online u s.sockets.connections ≡ true
      → ((i : Text) → contains (sockets_of u s.sockets.connections) i ≡ true → contains js i ≡ true)
      → (is_online u (close_all js s).sockets.connections ≡ false)
        × ((r : User) × (table.find_unique u (close_all js s).sockets.users ≡ some r)
            × (r.is_online ≡ false))
        × (was_told_offline u (close_all js s).told ≡ true)
  unfolding is_online
  goes_offline u js row s good named stands online all =
      let end = close_all js s in
      let w =
        close_all-Watched u js s named good
          (record { row = row; stands = stands; settled = ground arith }) in
      let gone : is_online u end.sockets.connections ≡ false = ground (
        arith,
        none_left (sockets_of u end.sockets.connections)
            (λ i. ground (arith, close_all_sockets u i js s good named, all i)),
      ) in
      (gone, (w.row, w.stands, ground (arith, w.settled)), ground (arith, w.settled))
