-- ===== src/Chat/Messages/Reading.antt =====
-- What `listMessages` shows.
use learn_nestjs.Common.{
  ℕ, ◌+◌, ◌≤◌, ◌≡◌, inl, inr, refl, subst, ◌∙◌, Bool, true, not, ◌&&◌, Option, some, is_some,
  or_else, List, [], ◌∷◌, ◌++◌, leb, arith, Bool-cases,
}
use learn_nestjs.Common.Text.{Text, text_eq}
use learn_nestjs.Common.Lists.{length, every, every-append, every-reverse}
use learn_nestjs.Common.Results.{ok}
use mathlib.Core.List.{reverse, reverse-cons}
use learn_nestjs.Database.Store.{has, descending, every-find_page}
use learn_nestjs.Chat.World.{Message, ChatServices, ChatState, member_of}
use learn_nestjs.Chat.Messages.{cursor_row, list_messages}

-- The rows come in ascending order of `rank`.
unfoldable pub ascending {ℓ} : {A : Type ℓ} → (A → ℕ) → List A → Bool
unfolding every
ascending rank [] = true
ascending rank (x ∷ xs) = every (λ y. leb (rank x) (rank y)) xs && ascending rank xs

module _ {ℓ} {A : Type ℓ} (rank : A → ℕ) where
  ascending-append :
      (xs : List A) (y : A)
      → ascending rank (xs ++ y ∷ []) ≡ (ascending rank xs && every (λ x. leb (rank x) (rank y)) xs)
  unfolding ascending
  ascending-append [] y = refl
  ascending-append (x ∷ xs) y =
      ground (arith, ascending-append xs y, every-append (λ z. leb (rank x) (rank z)) xs (y ∷ []))

  ascending-reverse : (xs : List A) → ascending rank (reverse xs) ≡ descending rank xs
  unfolding ascending descending
  ascending-reverse [] = refl
  ascending-reverse (x ∷ xs) = rw (reverse-cons x xs) (
      ground (
        arith,
        ascending-append (reverse xs) x,
        every-reverse (λ y. leb (rank y) (rank x)) xs,
        ascending-reverse xs,
      ))

  length-append : (xs : List A) (y : A) → length (xs ++ y ∷ []) ≡ length xs + 1
  length-append [] y = refl
  length-append (x ∷ xs) y = omega (arith, length-append xs y)

  length-reverse : (xs : List A) → length (reverse xs) ≡ length xs
  length-reverse [] = refl
  length-reverse (x ∷ xs) =
      rw (reverse-cons x xs) (omega (arith, length-reverse xs, length-append (reverse xs) x))

module _ (S : ChatServices) where
  -- `listMessages` returns only for a member of the room. Every message that it shows is of the room
  -- and not deleted, they come in the order of their creation, and there are at most as many as
  -- asked for, 50 where nothing is.
  pub list_messages_sound :
      (room_id user_id : Text) (limit : Option ℕ) (cursor : Option Text) (ms : List Message)
      (w w' : ChatState S)
      → list_messages S room_id user_id limit cursor w ≡ (ok ms, w')
      → (has S.members (member_of room_id user_id) w.members ≡ true)
        × (every (λ m. text_eq m.room_id room_id && not m.is_deleted) ms ≡ true)
        × (ascending (λ m. m.created_at) ms ≡ true)
        × (length ms ≤ or_else limit 50)
  unfolding list_messages
  list_messages_sound room_id user_id limit cursor ms w w' h =
      let p : Message → Bool = λ m. text_eq m.room_id room_id && not m.is_deleted in
      let rank : Message → ℕ = λ m. m.created_at in
      let take = or_else limit 50 in
      let page = S.messages.find_page p rank (some take) (cursor_row cursor) w.messages in
      elim (Bool-cases (is_some (S.members.find_first (member_of room_id user_id) w.members))) [
        | inr outside ↦ absurd (ground arith)
        | inl inside ↦
            let shown : reverse page ≡ ms = ground arith in
            (
              ground (arith, S.members.is_some-find_first (member_of room_id user_id) w.members),
              subst (λ x. every p x ≡ true) shown
                  (every-reverse p page
                    ∙ every-find_page S.messages p rank (some take) (cursor_row cursor) w.messages),
              subst (λ x. ascending rank x ≡ true) shown
                  (ascending-reverse rank page
                    ∙ S.messages.descending-find_page p rank (some take) (cursor_row cursor)
                        w.messages),
              subst (λ x. length x ≤ take) shown
                  (rw (length-reverse rank page)
                    (S.messages.length-find_page p rank take (cursor_row cursor) w.messages)),
            )
      ]
