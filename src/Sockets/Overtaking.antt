-- ===== src/Sockets/Overtaking.antt =====
-- Two updates of a row that the database does in the other order.
use learn_nestjs.Common.{ℕ, ◌≡◌, refl, true, false, none, some, List, [], ◌∷◌, arith}
use learn_nestjs.Common.Text.{Text, text_eq_refl, is_empty}
use learn_nestjs.Common.Lists.{filter, contains, add}
use learn_nestjs.Database.{User, Table}
use learn_nestjs.Common.Maps.{lookup, lookup-insert}
use learn_nestjs.Sockets.{
  Connections, is_online, connect, left_after, sockets_of, is_nil, get_user_id, became_empty,
}
use learn_nestjs.Sockets.Agreement.{IsConsistent, connect-IsConsistent, disconnect_online}
use learn_nestjs.Sockets.Interleaving.{
  Write, presence_data, Running, perform, begin_add, begin_remove, same_key, written_flag,
}

connected_owner : (u j : Text) (c : Connections) → lookup j (connect u j c).socket_user ≡ some u
unfolding connect
connected_owner u j c = ground (arith, lookup-insert j j u c.socket_user, text_eq_refl j)

no_sockets : (ids : List Text) → is_nil ids ≡ true → ids ≡ []
no_sockets [] h = refl
no_sockets (x ∷ xs) h = absurd (ground arith)

-- The first socket of a user is the last one again.
only_socket :
    (u j : Text) (c : Connections)
    → is_online u c ≡ false
    → became_empty (left_after u j (connect u j c)) ≡ true
unfolding is_online connect left_after add contains filter
only_socket u j c away =
    let bare : sockets_of u c ≡ [] = no_sockets (sockets_of u c) (ground arith) in
    ground (
      arith,
      lookup-insert u u (add j (sockets_of u c)) c.user_sockets,
      text_eq_refl u,
      text_eq_refl j,
    )

module _ (table : Table (λ (u : User). u.id)) where
  -- The rows after the update of a disconnection and then the one of a connection.
  perform_twice :
      (on off : Write) (r : User) (users : table.State)
      → on.user_id ≡ off.user_id
      → table.find_unique off.user_id users ≡ some r
      → (q : User) × (table.find_unique off.user_id (perform table on (perform table off users))
          ≡ some q)
        × (q.is_online ≡ on.online)
  unfolding perform
  perform_twice on off r users same stands =
      let first = presence_data off r in
      let after_off = table.update off.user_id (presence_data off) users in
      let there =
        table.find_unique-update off.user_id (presence_data off) r users stands (same_key off r) in
      let there_on =
        table.find_unique-update off.user_id (presence_data on) first after_off there
          (same_key on first) in
      (presence_data on first, ground (arith, same), written_flag on first)

  -- A user with a row and no socket opens one and closes it; where the database does the update of the
  -- disconnection first, the row says online and the user has no socket.
  pub overtaken_update :
      (u j : Text) (t1 t2 : ℕ) (r : User) (s : Running table)
      → IsConsistent s.connections
      → s.pending ≡ []
      → is_empty u ≡ false
      → is_online u s.connections ≡ false
      → get_user_id j s.connections ≡ none
      → table.find_unique u s.users ≡ some r
      → let end = begin_remove table j t2 (begin_add table u j t1 s) in
        let on : Write = record { user_id = u; online = true; issued_at = t1 } in
        let off : Write = record { user_id = u; online = false; issued_at = t2 } in
        (end.pending ≡ on ∷ off ∷ [])
        × (is_online u end.connections ≡ false)
        × ((q : User) × (table.find_unique u (perform table on (perform table off end.users))
              ≡ some q)
            × (q.is_online ≡ true))
  unfolding begin_add begin_remove get_user_id
  overtaken_update u j t1 t2 r s good quiet named away fresh stands =
      let c = connect u j s.connections in
      let owned : lookup j c.socket_user ≡ some u = connected_owner u j s.connections in
      let consistent = connect-IsConsistent u j s.connections good fresh in
      let emptied : became_empty (left_after u j c) ≡ true = only_socket u j s.connections away in
      let on : Write = record { user_id = u; online = true; issued_at = t1 } in
      let off : Write = record { user_id = u; online = false; issued_at = t2 } in
      let (q, held, flag) = perform_twice on off r s.users refl stands in
      (
        ground arith,
        ground (arith, disconnect_online u j c consistent owned),
        (q, ground arith, flag),
      )
