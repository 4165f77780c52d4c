-- ===== src/Chat/Messages/Deletion.antt =====
-- What `deleteMessage` leaves.
use learn_nestjs.Common.{
  ◌≡◌, ◌⊎◌, inl, inr, refl, subst, ◌∙◌, Bool, true, false, not, ◌&&◌, List, [], ◌∷◌, map,
  if◌then◌else◌, arith, Bool-cases, Option-cases,
}
use learn_nestjs.Common.Text.{Text, text_eq, is_empty}
use learn_nestjs.Common.Lists.{any}
use learn_nestjs.Common.Results.{Failure, Result, ok, err}
use learn_nestjs.Database.Store.{has}
use learn_nestjs.Storage.{
  Storage, StorageState, resolve_upload_key, normalize_key, delete_file, delete_files,
}
use learn_nestjs.Chat.World.{Message, MessageAttachment, ChatServices, ChatState}
use learn_nestjs.Chat.Messages.{cleanup, deleted_message, erase, delete_message}

module _ (F : Storage) where
  -- The key is not empty and the file that it names is the one at `p`.
  abbrev pub names_file : Text → Text → Bool
  names_file p key =
      not (is_empty key)
      && not (is_empty (normalize_key F key))
      && text_eq (F.join F.upload_dir (normalize_key F key)) p

  exists-delete_one :
      (p k : Text) (w : StorageState F)
      → F.disk.exists p (if is_empty k then w else delete_file F k w).disk
        ≡ (F.disk.exists p w.disk && not (names_file p k))
  unfolding delete_file
  exists-delete_one p k w =
      ground (arith, F.disk.exists-unlink (F.join F.upload_dir (normalize_key F k)) p w.disk)

  -- After `deleteFiles` none of the files that the keys name is there; the others are.
  exists-delete_files :
      (p : Text) (keys : List Text) (w : StorageState F)
      → F.disk.exists p (delete_files F keys w).disk
        ≡ (F.disk.exists p w.disk && not (any (names_file p) keys))
  unfolding delete_files any
  exists-delete_files p [] w = ground arith
  exists-delete_files p (k ∷ ks) w =
      exists-delete_files p ks (if is_empty k then w else delete_file F k w)
      ∙ ground (arith, exists-delete_one p k w)

any-names :
    {A : Type 0} (f : A → Text) (g : Text → Text) (p : Text → Bool) (xs : List A)
    → any p (map g (map f xs)) ≡ any (λ x. p (g (f x))) xs
unfolding any
any-names f g p [] = refl
any-names f g p (x ∷ xs) = ground (arith, any-names f g p xs)

-- No row both fails and passes a test.
any-neither : {A : Type 0} (p : A → Bool) (xs : List A) → any (λ x. not (p x) && p x) xs ≡ false
unfolding any
any-neither p [] = refl
any-neither p (x ∷ xs) = ground (arith, any-neither p xs)

module _ (S : ChatServices) where
  delete_message_deletes :
      (user_id message_id : Text) (w w' : ChatState S)
      → delete_message S user_id message_id w ≡ (ok tt, w')
      → (has S.messages (λ m. text_eq m.id message_id && text_eq m.sender_id user_id) w.messages
          ≡ true)
        × ((p : Message → Bool)
            → has S.messages p w'.messages
              ≡ has S.messages
                  (λ m. p (if text_eq m.id message_id then deleted_message w.now m else m))
                  w.messages)
        × (has S.attachments (λ a. text_eq a.message_id message_id) w'.attachments ≡ false)
        × ((p : Text)
            → S.storage.disk.exists p w'.files.disk ≡ (
                S.storage.disk.exists p w.files.disk
                && not (
                    has S.attachments
                      (λ a.
                        text_eq a.message_id message_id
                        && names_file S.storage p (resolve_upload_key a.url))
                      w.attachments)))
  unfolding delete_message erase cleanup
  delete_message_deletes user_id message_id w w' h =
      let found = S.messages.find_first (λ m. text_eq m.id message_id) w.messages in
      let rows = S.attachments.find_many (λ a. text_eq a.message_id message_id) w.attachments in
      elim (Option-cases found) [
        | inl missing ↦ absurd (ground arith)
        | inr (message, at) ↦ elim (Bool-cases (text_eq message.sender_id user_id)) [
          | inr other_sender ↦ absurd (ground arith)
          | inl sent ↦
              let (named, holding) =
                S.messages.find_first_sound (λ m. text_eq m.id message_id) message w.messages at in
              let same : (erase S message_id w).1 ≡ w' = ground arith in
              (
                holding (λ m. text_eq m.id message_id && text_eq m.sender_id user_id)
                    (ground (arith, named, sent)),
                λ p.
                    subst
                      (λ v.
                        has S.messages p v.messages
                        ≡ has S.messages
                            (λ m.
                              p (if text_eq m.id message_id then deleted_message w.now m else m))
                            w.messages)
                      same
                      (S.messages.any-update_many (λ m. text_eq m.id message_id)
                        (deleted_message w.now) w.messages p),
                subst
                    (λ v.
                      has S.attachments (λ a. text_eq a.message_id message_id) v.attachments
                      ≡ false)
                    same
                    (S.attachments.any-delete_many (λ a. text_eq a.message_id message_id)
                        w.attachments (λ a. text_eq a.message_id message_id)
                      ∙ any-neither (λ a. text_eq a.message_id message_id)
                          (S.attachments.find_many (λ a. true) w.attachments)),
                λ p.
                    subst
                      (λ v. S.storage.disk.exists p v.files.disk ≡ (
                        S.storage.disk.exists p w.files.disk
                        && not (
                            has S.attachments
                              (λ a.
                                text_eq a.message_id message_id
                                && names_file S.storage p (resolve_upload_key a.url))
                              w.attachments)))
                      same
                      (exists-delete_files S.storage p
                          (map resolve_upload_key (map (λ a. a.url) rows)) w.files
                        ∙ ground (
                          arith,
                          any-names (λ (a : MessageAttachment). a.url) resolve_upload_key
                              (names_file S.storage p) rows,
                          S.attachments.any-find_many (λ a. text_eq a.message_id message_id)
                              (λ a. names_file S.storage p (resolve_upload_key a.url))
                              w.attachments,
                        )),
              )
        ]
      ]

  delete_message_refused :
      (user_id message_id : Text) (e : Failure) (w w' : ChatState S)
      → delete_message S user_id message_id w ≡ (err e, w')
      → w' ≡ w
  unfolding delete_message erase cleanup
  delete_message_refused user_id message_id e w w' h =
      elim (Option-cases (S.messages.find_first (λ m. text_eq m.id message_id) w.messages)) [
        | inl missing ↦ ground arith
        | inr (message, at) ↦ elim (Bool-cases (text_eq message.sender_id user_id)) [
          | inr other_sender ↦ ground arith
          | inl sent ↦ absurd (ground arith)
        ]
      ]

  -- `deleteMessage` throws and changes nothing at all, or it returns for a message that the user
  -- sent. Where it returns, each row of the messages with the identifier is marked as deleted and
  -- has lost its content, every other row is as it was, and the message has no attachment left. Of
  -- the files on the disk those are gone, and no others, that the URL of an attachment of the
  -- message names, whoever uploaded them.
  pub delete_message_lem :
      (user_id message_id : Text) (q : Result Unit) (w w' : ChatState S)
      → delete_message S user_id message_id w ≡ (q, w')
      → ((e : Failure) × (q ≡ err e) × (w' ≡ w))
        ⊎ ((q ≡ ok tt)
            × (has S.messages
                  (λ m. text_eq m.id message_id && text_eq m.sender_id user_id)
                  w.messages
                ≡ true)
            × ((p : Message → Bool)
                → has S.messages p w'.messages
                  ≡ has S.messages
                      (λ m. p (if text_eq m.id message_id then deleted_message w.now m else m))
                      w.messages)
            × (has S.attachments (λ a. text_eq a.message_id message_id) w'.attachments ≡ false)
            × ((p : Text)
                → S.storage.disk.exists p w'.files.disk ≡ (
                    S.storage.disk.exists p w.files.disk
                    && not (
                        has S.attachments
                          (λ a.
                            text_eq a.message_id message_id
                            && names_file S.storage p (resolve_upload_key a.url))
                          w.attachments))))
  delete_message_lem user_id message_id (err e) w w' h =
      inl (e, refl, delete_message_refused user_id message_id e w w' h)
  delete_message_lem user_id message_id (ok done) w w' h =
      let (sent, rows, attached, files) = delete_message_deletes user_id message_id w w' h in
      inr (refl, sent, rows, attached, files)
