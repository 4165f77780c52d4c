-- ===== src/Chat/Messages/Receipts.antt =====
-- `markRead` by whoever is no member of the room.
use learn_nestjs.Common.{
  ℕ, ◌≡◌, inl, inr, ◌∙◌, true, false, some, if◌then◌else◌, arith, Bool-cases, Option-cases,
}
use learn_nestjs.Common.Text.{Text, text_eq, text_eq_refl}
use learn_nestjs.Common.Results.{ok, err, database}
use learn_nestjs.Database.Store.{has, any_ext}
use learn_nestjs.Chat.World.{Message, ReadReceipt, ChatServices, ChatState, same_receipt, member_of}
use learn_nestjs.Chat.Messages.{upsert_receipt, touch_member, mark_read}

-- The receipt of a message for a user.
abbrev pub receipt_of : Text → Text → ℕ → ReadReceipt
receipt_of message_id user_id now = record {
  message_id = message_id;
  user_id = user_id;
  read_at = now;
}

module _ (S : ChatServices) where
  same_stays :
      (row : ReadReceipt) (now : ℕ) (rows : S.receipts.State)
      → has S.receipts
          (same_receipt row)
          (S.receipts.update_many (same_receipt row) (λ r. record r { read_at = now }) rows)
        ≡ has S.receipts (same_receipt row) rows
  same_stays row now rows =
      S.receipts.any-update_many (same_receipt row) (λ r. record r { read_at = now }) rows
        (same_receipt row)
      ∙ any_ext
          (λ r. same_receipt row (if same_receipt row r then record r { read_at = now } else r))
          (same_receipt row) (S.receipts.find_many (λ r. true) rows) (λ r. ground arith)

  upsert_receipt_stored :
      (message_id user_id : Text) (r : ReadReceipt) (w w1 : ChatState S)
      → upsert_receipt S message_id user_id w ≡ (ok r, w1)
      → (has S.receipts (same_receipt (receipt_of message_id user_id w.now)) w1.receipts ≡ true)
        × (w1.messages ≡ w.messages)
        × (w1.members ≡ w.members)
  unfolding upsert_receipt
  upsert_receipt_stored message_id user_id r w w1 h =
      let row = receipt_of message_id user_id w.now in
      elim (Bool-cases (has S.receipts (same_receipt row) w.receipts)) [
        | inl there ↦ (ground (arith, same_stays row w.now w.receipts), ground arith, ground arith)
        | inr fresh ↦ elim (Option-cases (S.receipts.create (λ id. row) w.receipts)) [
          | inl turned_down ↦ absurd (ground arith)
          | inr ((made, rows), e) ↦
              let (id, was) = S.receipts.create_made (λ id. row) made w.receipts rows e in
              (
                ground (
                  arith,
                  S.receipts.any-create (λ id. row) made w.receipts rows (same_receipt row) e,
                  text_eq_refl message_id,
                  text_eq_refl user_id,
                ),
                ground arith,
                ground arith,
              )
        ]
      ]

  -- Where `markRead` is called by a user who is no member of the room of the message, and the database
  -- takes the receipt: the call fails, and the receipt stays.
  pub mark_read_outsider :
      (user_id message_id : Text) (m : Message) (r : ReadReceipt) (w w1 : ChatState S)
      → S.messages.find_first (λ m. text_eq m.id message_id) w.messages ≡ some m
      → has S.members (member_of m.room_id user_id) w.members ≡ false
      → upsert_receipt S message_id user_id w ≡ (ok r, w1)
      → ((mark_read S user_id message_id w).0 ≡ err (database "P2025"))
        × (has S.receipts
              (same_receipt (receipt_of message_id user_id w.now))
              (mark_read S user_id message_id w).1.receipts
            ≡ true)
  unfolding mark_read touch_member
  mark_read_outsider user_id message_id m r w w1 found_it outside stored =
      let (held, messages, members) = upsert_receipt_stored message_id user_id r w w1 stored in
      (ground arith, ground arith)
