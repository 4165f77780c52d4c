-- ===== src/Samples/Sockets.antt =====
-- The theorems on connections applied at concrete inputs.
use learn_nestjs.Common.{◌≡◌, refl, true, false, some, [], ◌∷◌, arith}
use learn_nestjs.Common.Text.{Text, codes}
use learn_nestjs.Database.{User}
use learn_nestjs.Samples.Models.{runs}
use learn_nestjs.Samples.World.{ann, ann_id, servers, world}
use learn_nestjs.Samples.Servers.{update_rows}
use learn_nestjs.Sockets.{is_online, connect, disconnect, left_after, store_left, get_user_id}
use learn_nestjs.Sockets.Agreement.{unconnected, unconnected-IsConsistent}
use learn_nestjs.Sockets.Interleaving.{
  Write, Running, perform, begin_add, begin_remove, opened, written, Reach, start, later,
}
use learn_nestjs.Sockets.Settling.{Reach_settled}
use learn_nestjs.Sockets.Overtaking.{overtaken_update}

abbrev quiet_state : Running servers.users
quiet_state = record { connections = unconnected; users = world.users; pending = [] }

nobody_online :
    (u : Text) (r : User) → servers.users.find_unique u world.users ≡ some r → r.is_online ≡ false
nobody_online u r h = ground arith

abbrev online_write : Write
online_write = record { user_id = ann_id; online = true; issued_at = 1000000 }

abbrev opening : Running servers.users
opening = begin_add servers.users ann_id (codes "k1") 1000000 quiet_state

abbrev opened_state : Running servers.users
opened_state = record opening {
  users = perform servers.users online_write opening.users;
  pending = [];
}

unfoldable interleavings : Unit {0}
unfolding runs get_user_id is_online connect begin_add begin_remove perform update_rows disconnect
    left_after store_left
interleavings = tt

opened_state-Reach : Reach servers.users opened_state
unfolding interleavings
opened_state-Reach =
    later (later (start world.users nobody_online) (opened ann_id (codes "k1") 1000000 refl))
      (written online_write [] refl)

Reach_settled_example : true ≡ is_online ann_id opened_state.connections
unfolding interleavings
Reach_settled_example =
    Reach_settled servers.users opened_state ann_id (record ann { is_online = true })
      opened_state-Reach refl refl

overtaken_update_example :
    let end = begin_remove servers.users (codes "k1") 1000007 opening in
    let off : Write = record { user_id = ann_id; online = false; issued_at = 1000007 } in
    (end.pending ≡ online_write ∷ off ∷ [])
    × (is_online ann_id end.connections ≡ false)
    × ((q : User) × (servers.users.find_unique ann_id
            (perform servers.users online_write (perform servers.users off end.users))
          ≡ some q)
        × (q.is_online ≡ true))
unfolding interleavings
overtaken_update_example =
    overtaken_update servers.users ann_id (codes "k1") 1000000 1000007 ann quiet_state
      unconnected-IsConsistent refl refl refl refl refl
