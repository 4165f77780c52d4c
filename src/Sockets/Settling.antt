-- ===== src/Sockets/Settling.antt =====
-- What the flags in the database come to under interleaved connections and disconnections.
use learn_nestjs.Common.{
  ℕ, ◌≡◌, inl, inr, subst, Bool, true, false, not, ◌||◌, none, some, List, [], ◌∷◌, if◌then◌else◌,
  arith, Bool-cases, Option-cases,
}
use learn_nestjs.Common.Text.{Text, text_eq, text_eq_iff, text_eq_sound, is_empty}
use learn_nestjs.Common.Lists.{add}
use learn_nestjs.Database.{User, Table}
use learn_nestjs.Common.Maps.{lookup, lookup-insert}
use learn_nestjs.Sockets.{
  Connections, is_online, connect, disconnect, left_after, sockets_of, get_user_id, became_empty,
}
use learn_nestjs.Sockets.Agreement.{
  IsConsistent, unconnected-IsConsistent, connect-IsConsistent, disconnect-IsConsistent,
  add-not_nil, disconnect_online, disconnect_online_ne, is_online_lem,
}
use learn_nestjs.Sockets.Interleaving.{
  Write, presence_data, flag_after, flag_after-append, Running, perform, issue, begin_add,
  begin_remove, opened, closed, written, Reach, start, later, IsSettling, same_key, written_flag,
}

-- A user is online after a connection exactly where the connection is the user's or the user was online.
connect_online :
    (u v j : Text) (c : Connections) → is_online v (connect u j c) ≡ (text_eq u v || is_online v c)
unfolding connect is_online
connect_online u v j c = ground (
  arith,
  lookup-insert u v (add j (sockets_of u c)) c.user_sockets,
  add-not_nil j (sockets_of u c),
)

module _ (table : Table (λ (u : User). u.id)) where
  begin_add-IsSettling :
      (u j : Text) (now : ℕ) (s : Running table)
      → get_user_id j s.connections ≡ none
      → IsSettling table s
      → IsSettling table (begin_add table u j now s)
  unfolding begin_add get_user_id
  begin_add-IsSettling u j now s fresh good =
      let w : Write = record { user_id = u; online = true; issued_at = now } in
      record {
        consistent = connect-IsConsistent u j s.connections good.consistent fresh;
        settles = λ v r stands. ground (
          arith,
          connect_online u v j s.connections,
          flag_after-append v s.pending w r.is_online,
          good.settles v r stands,
          text_eq_iff u v,
        );
      }

  -- The flag of a user after the loss of a socket.
  removed_flag :
      (u v j : Text) (now : ℕ) (b : Bool) (ws : List Write) (c : Connections)
      → IsConsistent c
      → lookup j c.socket_user ≡ some u
      → flag_after v ws b ≡ is_online v c
      → flag_after v
          (issue table
            (became_empty (left_after u j c))
            (record { user_id = u; online = false; issued_at = now })
            ws)
          b
        ≡ is_online v (disconnect u j c)
  unfolding get_user_id
  removed_flag u v j now b ws c good owned h =
      let w : Write = record { user_id = u; online = false; issued_at = now } in
      let empties = disconnect_online u j c good owned in
      let was_online : is_online u c ≡ true = (is_online_lem u c good).1 (j, owned) in
      elim (Bool-cases (text_eq u v)) [
        | inl same ↦
            let e : u ≡ v = text_eq_sound u v same in
            let was_online' = subst (λ x. is_online x c ≡ true) e was_online in
            let empties' =
              subst (λ x. became_empty (left_after u j c) ≡ not (is_online x (disconnect u j c))) e
                empties in
            ground (arith, flag_after-append v ws w b)
        | inr apart ↦
            ground
              (arith, disconnect_online_ne u v j c good owned apart, flag_after-append v ws w b)
      ]

  begin_remove-IsSettling :
      (j : Text) (now : ℕ) (s : Running table)
      → IsSettling table s
      → IsSettling table (begin_remove table j now s)
  unfolding begin_remove get_user_id
  begin_remove-IsSettling j now s good = elim (Option-cases (lookup j s.connections.socket_user)) [
    | inl unowned ↦ subst (IsSettling table) (ground arith) good
    | inr (u, owned) ↦ elim (Bool-cases (is_empty u)) [
      | inl unnamed ↦ subst (IsSettling table) (ground arith) good
      | inr named ↦ record {
        consistent =
            subst IsConsistent (ground arith)
              (disconnect-IsConsistent u j s.connections good.consistent owned);
        settles = λ v r stands.
            let flag =
              removed_flag u v j now r.is_online s.pending s.connections good.consistent owned
                (good.settles v r (ground arith)) in
            ground arith;
      }
    ]
  ]

  perform_row :
      (w : Write) (u : Text) (r : User) (users : table.State)
      → table.find_unique u (perform table w users) ≡ some r
      → (q : User) × (table.find_unique u users ≡ some q)
        × (r.is_online ≡ (if text_eq w.user_id u then w.online else q.is_online))
  unfolding perform
  perform_row w u r users h = elim (Option-cases (table.find_unique w.user_id users)) [
    | inl none_there ↦ (r, ground arith, ground (arith, text_eq_iff w.user_id u))
    | inr (q, there) ↦ elim (Bool-cases (text_eq w.user_id u)) [
      | inl same ↦ (
        q,
        ground (arith, text_eq_iff w.user_id u),
        ground (
          arith,
          table.find_unique-update w.user_id (presence_data w) q users there (same_key w q),
          text_eq_iff w.user_id u,
          written_flag w q,
        ),
      )
      | inr apart ↦ (
        r,
        ground (arith, table.find_unique-update_ne w.user_id u (presence_data w) users apart),
        ground arith,
      )
    ]
  ]

  written-IsSettling :
      (w : Write) (ws : List Write) (s : Running table)
      → s.pending ≡ w ∷ ws
      → IsSettling table s
      → IsSettling table (record s { users = perform table w s.users; pending = ws })
  unfolding flag_after
  written-IsSettling w ws s queued good = record {
    consistent = good.consistent;
    settles = λ u r stands.
        let (q, there, flag) = perform_row w u r s.users stands in
        ground (arith, good.settles u q there);
  }

  Reach-IsSettling : (s : Running table) → Reach table s → IsSettling table s
  unfolding flag_after is_online lookup
  Reach-IsSettling s (start users fresh) = record {
    consistent = unconnected-IsConsistent;
    settles = λ u r stands. fresh u r stands;
  }
  Reach-IsSettling t (later {s} run (opened u j now fresh)) =
      begin_add-IsSettling u j now s fresh (Reach-IsSettling s run)
  Reach-IsSettling t (later {s} run (closed j now)) =
      begin_remove-IsSettling j now s (Reach-IsSettling s run)
  Reach-IsSettling t (later {s} run (written w ws queued)) =
      written-IsSettling w ws s queued (Reach-IsSettling s run)

  -- However connections, disconnections and their updates interleave, from a start without connections
  -- and with no user marked online: where the database does the updates in the order in which they were
  -- issued and none is open, the row of every user says online exactly where the user has a socket.
  pub Reach_settled :
      (s : Running table) (u : Text) (r : User)
      → Reach table s
      → s.pending ≡ []
      → table.find_unique u s.users ≡ some r
      → r.is_online ≡ is_online u s.connections
  unfolding flag_after
  Reach_settled s u r run quiet stands = ground (arith, (Reach-IsSettling s run).settles u r stands)
