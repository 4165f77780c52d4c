-- ===== src/Subscriber/Agreement.antt =====
-- What runs of subscriptions come to.
use learn_nestjs.Common.{
  ◌≡◌, inl, inr, refl, subst, Bool, true, false, not, ◌||◌, Option, none, some, is_some, List, [],
  ◌∷◌, arith, Bool-cases, Option-cases,
}
use learn_nestjs.Common.Text.{Text, text_eq, text_eq_iff}
use learn_nestjs.Common.Lists.{contains, add, contains-add}
use learn_nestjs.Common.Maps.{Map, lookup, insert, lookup-insert, lookup-remove}
use learn_nestjs.Redis.Implements.{contains-filter}
use learn_nestjs.Subscriber.{
  Subscriptions, handlers_of, with_handler, with_entry, subscribe, without, keep_left, unsubscribe,
}

-- The states that a run comes to in which Redis accepts every command and no pattern is asked for.
pub data Reachable : Subscriptions → Type 0 where
  started : Reachable (record { disabled = false; handlers = []; channels = []; patterns = [] })
  subscribed :
      (channel handler : Text) (s : Subscriptions)
      → Reachable s
      → Reachable (subscribe true channel handler s).1
  unsubscribed :
      (channel handler : Text) (s : Subscriptions)
      → Reachable s
      → Reachable (unsubscribe true channel handler s).1

abbrev pub is_nonempty : Option (List Text) → Bool
is_nonempty none = false
is_nonempty (some []) = false
is_nonempty (some (x ∷ xs)) = true

-- Redis sends the messages of a channel exactly where it has a handler.
abbrev pub Agrees : Subscriptions → Type 0
Agrees s =
    (k : Text)
    → (contains s.channels k ≡ is_nonempty (lookup k s.handlers))
      × (is_some (lookup k s.handlers) ≡ is_nonempty (lookup k s.handlers))

add_nonempty : (x : Text) (xs : List Text) → is_nonempty (some (add x xs)) ≡ true
unfolding add contains
add_nonempty x [] = refl
add_nonempty x (y ∷ ys) = ground arith

-- A channel that gets a handler, whose messages are sent.
registered-Agrees :
    (channel handler : Text) (ids : List Text) (m : Map (List Text)) (channels : List Text)
    (k : Text)
    → contains channels k ≡ (text_eq channel k || is_nonempty (lookup k m))
    → (text_eq channel k || is_some (lookup k m)) ≡ (text_eq channel k || is_nonempty (lookup k m))
    → (contains channels k ≡ is_nonempty (lookup k (insert channel (add handler ids) m)))
      × (is_some (lookup k (insert channel (add handler ids) m))
          ≡ is_nonempty (lookup k (insert channel (add handler ids) m)))
registered-Agrees channel handler ids m channels k sends good =
    elim (Bool-cases (text_eq channel k)) [
      | inl same ↦
          rw (lookup-insert channel k (add handler ids) m, same)
            (ground (arith, add_nonempty handler ids), ground (arith, add_nonempty handler ids))
      | inr different ↦
          rw (lookup-insert channel k (add handler ids) m, different) (ground arith, ground arith)
    ]

subscribe-Agrees :
    (channel handler : Text) (s : Subscriptions)
    → Agrees s
    → Agrees (subscribe true channel handler s).1
unfolding subscribe
subscribe-Agrees channel handler s good = elim (Bool-cases s.disabled) [
  | inl off ↦
      let same : s ≡ (subscribe true channel handler s).1 = ground arith in subst Agrees same good
  | inr on ↦ elim (Option-cases (lookup channel s.handlers)) [
    | inr (ids, at) ↦
        let same : with_handler channel handler s ≡ (subscribe true channel handler s).1 =
          ground arith in
        subst Agrees same (λ k.
          registered-Agrees channel handler (handlers_of channel s) s.handlers s.channels k
            (ground (arith, good k, good channel, text_eq_iff channel k)) (ground (arith, good k)))
    | inl missing ↦
        let entry : Subscriptions = record (with_entry channel s) {
          channels = add channel s.channels;
        } in
        let same : with_handler channel handler entry ≡ (subscribe true channel handler s).1 =
          ground arith in
        subst Agrees same (λ k.
          registered-Agrees channel handler (handlers_of channel entry) entry.handlers
            entry.channels k
            (ground (
              arith,
              good k,
              lookup-insert channel k [] s.handlers,
              contains-add channel k s.channels,
            ))
            (ground (arith, good k, lookup-insert channel k [] s.handlers)))
  ]
]

keep_left-Agrees :
    (channel : Text) (left ids : List Text) (s : Subscriptions)
    → Agrees s
    → lookup channel s.handlers ≡ some ids
    → Agrees (keep_left true channel left s).1
unfolding keep_left
keep_left-Agrees channel [] ids s good at k = rw (lookup-remove channel k s.handlers) (
  ground (
    arith,
    good k,
    contains-filter (λ y. not (text_eq y channel)) s.channels k,
    text_eq_iff channel k,
    text_eq_iff k channel,
  ),
  ground (arith, good k),
)
keep_left-Agrees channel (x ∷ xs) ids s good at k =
    rw (lookup-insert channel k (x ∷ xs) s.handlers)
      (ground (arith, good k, good channel, text_eq_iff channel k), ground (arith, good k))

unsubscribe-Agrees :
    (channel handler : Text) (s : Subscriptions)
    → Agrees s
    → Agrees (unsubscribe true channel handler s).1
unfolding unsubscribe
unsubscribe-Agrees channel handler s good = elim (Bool-cases s.disabled) [
  | inl off ↦
      let same : s ≡ (unsubscribe true channel handler s).1 = ground arith in subst Agrees same good
  | inr on ↦ elim (Option-cases (lookup channel s.handlers)) [
    | inl missing ↦
        let same : s ≡ (unsubscribe true channel handler s).1 = ground arith in
        subst Agrees same good
    | inr (ids, at) ↦
        let left = without handler ids in
        let same : (keep_left true channel left s).1 ≡ (unsubscribe true channel handler s).1 =
          ground arith in
        subst Agrees same (keep_left-Agrees channel left ids s good at)
  ]
]

-- In every state that a run comes to, with every command accepted and no pattern asked for, Redis is
-- subscribed to exactly the channels that have a handler, and no channel is kept without one.
pub Reachable-Agrees : (s : Subscriptions) → Reachable s → Agrees s
unfolding lookup contains
Reachable-Agrees s started = λ k. (refl, refl)
Reachable-Agrees s (subscribed channel handler r run) =
    subscribe-Agrees channel handler r (Reachable-Agrees r run)
Reachable-Agrees s (unsubscribed channel handler r run) =
    unsubscribe-Agrees channel handler r (Reachable-Agrees r run)
