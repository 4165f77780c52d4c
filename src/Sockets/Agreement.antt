-- ===== src/Sockets/Agreement.antt =====
-- Agreement of the two maps of the connections.
use learn_nestjs.Common.{
  ◌≡◌, ◌↔◌, ◌⊎◌, inl, inr, refl, true, false, not, Option, none, some, or_else, List, [], ◌∷◌,
  if◌then◌else◌, arith, Option-cases,
}
use learn_nestjs.Common.Text.{Text, text_eq, text_eq_refl, text_eq_iff}
use learn_nestjs.Common.Lists.{filter, contains, add, contains-add}
use learn_nestjs.Auth.Users.{option_eq}
use learn_nestjs.Common.Maps.{Map, lookup, lookup-insert, lookup-remove}
use learn_nestjs.Redis.Implements.{contains-filter}
use learn_nestjs.Sockets.{
  Connections, is_online, connect, disconnect, left_after, store_left, sockets_of, is_nil,
  get_user_id, became_empty,
}

-- A socket stands in the set of a user exactly when it is the socket of that user; no set is empty.
pub record IsConsistent (s : Connections) : Type 0 where
  pub exact :
      (u j : Text) → contains (sockets_of u s) j ≡ option_eq (lookup j s.socket_user) (some u)
  pub filled :
      (u : Text) (ids : List Text) → lookup u s.user_sockets ≡ some ids → is_nil ids ≡ false

pub add-not_nil : (j : Text) (ids : List Text) → is_nil (add j ids) ≡ false
unfolding add contains
add-not_nil j [] = refl
add-not_nil j (x ∷ xs) = ground arith

pub connect-IsConsistent :
    (u j : Text) (s : Connections)
    → IsConsistent s
    → lookup j s.socket_user ≡ none
    → IsConsistent (connect u j s)
unfolding connect
connect-IsConsistent u j s good fresh =
    let ids = add j (sockets_of u s) in
    record {
      exact = λ v i. ground (
        arith,
        lookup-insert u v ids s.user_sockets,
        lookup-insert j i u s.socket_user,
        contains-add j i (sockets_of u s),
        good.exact u i,
        good.exact v i,
        text_eq_iff u v,
        text_eq_iff j i,
        text_eq_refl u,
      );
      filled = λ v is h. ground (
        arith,
        lookup-insert u v ids s.user_sockets,
        add-not_nil j (sockets_of u s),
        good.filled v is,
      );
    }

pub store_left_lem :
    (u v : Text) (rest : List Text) (m : Map (List Text))
    → or_else (lookup v (store_left u (some rest) m)) []
      ≡ (if text_eq u v then rest else or_else (lookup v m) [])
unfolding store_left
store_left_lem u v [] m = ground (arith, lookup-remove u v m)
store_left_lem u v (x ∷ xs) m = ground (arith, lookup-insert u v (x ∷ xs) m)

store_left_filled :
    (u v : Text) (rest is : List Text) (m : Map (List Text))
    → ((w : Text) (ids : List Text) → lookup w m ≡ some ids → is_nil ids ≡ false)
    → lookup v (store_left u (some rest) m) ≡ some is
    → is_nil is ≡ false
unfolding store_left
store_left_filled u v [] is m filled h = ground (arith, lookup-remove u v m, filled v is)
store_left_filled u v (x ∷ xs) is m filled h =
    ground (arith, lookup-insert u v (x ∷ xs) m, filled v is)

pub disconnect-IsConsistent :
    (u j : Text) (s : Connections)
    → IsConsistent s
    → lookup j s.socket_user ≡ some u
    → IsConsistent (disconnect u j s)
unfolding disconnect left_after contains
disconnect-IsConsistent u j s good owned = elim (Option-cases (lookup u s.user_sockets)) [
  | inl missing ↦ absurd (ground (arith, good.exact u j, text_eq_refl u))
  | inr (ids, found) ↦
      let rest = filter (λ id. not (text_eq id j)) ids in
      record {
        exact = λ v i. ground (
          arith,
          found,
          store_left_lem u v rest s.user_sockets,
          contains-filter (λ id. not (text_eq id j)) ids i,
          lookup-remove j i s.socket_user,
          good.exact u i,
          good.exact v i,
          good.exact v j,
          text_eq_iff u v,
          text_eq_iff j i,
          text_eq_iff i j,
        );
        filled = λ v is h.
            store_left_filled u v rest is s.user_sockets good.filled (ground (arith, found));
      }
]

List-cases : (xs : List Text) → (xs ≡ []) ⊎ ((x : Text) × (ys : List Text) × (xs ≡ x ∷ ys))
List-cases [] = inl refl
List-cases (x ∷ xs) = inr (x, xs, refl)

of_owner : (o : Option Text) (u : Text) → option_eq o (some u) ≡ true → o ≡ some u
of_owner none u h = ground arith
of_owner (some v) u h = ground (arith, text_eq_iff v u)

-- No socket is connected.
abbrev pub unconnected : Connections
unconnected = record { user_sockets = []; socket_user = [] }

pub unconnected-IsConsistent : IsConsistent unconnected
unfolding lookup contains
unconnected-IsConsistent = record { exact = λ u j. refl; filled = λ u ids h. absurd (ground arith) }

first_socket :
    (u : Text) (s : Connections)
    → IsConsistent s
    → not (is_nil (sockets_of u s)) ≡ true
    → (j : Text) × (lookup j s.socket_user ≡ some u)
unfolding contains
first_socket u s good h = elim (List-cases (sockets_of u s)) [
  | inl nothing ↦ absurd (ground arith)
  | inr (j, rest, e) ↦
      (j, of_owner (lookup j s.socket_user) u (ground (arith, good.exact u j, text_eq_refl j)))
]

has_socket :
    (u j : Text) (s : Connections)
    → IsConsistent s
    → lookup j s.socket_user ≡ some u
    → not (is_nil (sockets_of u s)) ≡ true
unfolding contains
has_socket u j s good h = elim (List-cases (sockets_of u s)) [
  | inl nothing ↦ absurd (ground (arith, good.exact u j, text_eq_refl u))
  | inr (i, rest, e) ↦ ground arith
]

-- Under agreement a user is online exactly when some socket is the user's.
pub is_online_lem :
    (u : Text) (s : Connections)
    → IsConsistent s
    → (is_online u s ≡ true) ↔ ((j : Text) × (get_user_id j s ≡ some u))
unfolding is_online get_user_id
is_online_lem u s good = (λ h. first_socket u s good h, λ (j, h). has_socket u j s good h)

-- The user of the socket is offline after a disconnection exactly where no socket is left.
pub disconnect_online :
    (u j : Text) (s : Connections)
    → IsConsistent s
    → lookup j s.socket_user ≡ some u
    → became_empty (left_after u j s) ≡ not (is_online u (disconnect u j s))
unfolding disconnect left_after is_online contains
disconnect_online u j s good owned = elim (Option-cases (lookup u s.user_sockets)) [
  | inl missing ↦ absurd (ground (arith, good.exact u j, text_eq_refl u))
  | inr (ids, found) ↦
      let rest = filter (λ id. not (text_eq id j)) ids in
      ground (arith, found, store_left_lem u u rest s.user_sockets, text_eq_refl u)
]

-- Other users stay as they are.
pub disconnect_online_ne :
    (u v j : Text) (c : Connections)
    → IsConsistent c
    → lookup j c.socket_user ≡ some u
    → text_eq u v ≡ false
    → is_online v (disconnect u j c) ≡ is_online v c
unfolding disconnect is_online left_after contains
disconnect_online_ne u v j c good owned apart = elim (Option-cases (lookup u c.user_sockets)) [
  | inl none_there ↦ absurd (ground (arith, good.exact u j, text_eq_refl u))
  | inr (ids, stored) ↦
      let rest = filter (λ id. not (text_eq id j)) ids in
      ground (arith, store_left_lem u v rest c.user_sockets, stored)
]
