-- ===== src/Oauth/Linking.antt =====
-- To whom provider accounts are linked.
use learn_nestjs.Common.{
  ◌≡◌, inl, inr, refl, sym, ap, subst, ◌∙◌, Bool, true, ◌&&◌, Option, none, some, arith, Bool-cases,
  Option-cases,
}
use learn_nestjs.Common.Text.{Text, text_eq, text_eq_iff, text_eq_sound}
use learn_nestjs.Common.Results.{Failure, Result, ok, err, database, Result-cases}
use learn_nestjs.Database.{OAuthAccount}
use learn_nestjs.Auth.World.{Services, World}
use learn_nestjs.Auth.OtpGuards.Limits.{after}
use learn_nestjs.Chat.Rooms.Membership.{found}
use learn_nestjs.Oauth.{Google, ProviderData, linked_to_another}
use learn_nestjs.Oauth.Service.{
  is_account, with_tokens, check_token_info, verify_google_id_token, resolve_provider_account_id,
  create_account, update_account, link_account, connect_provider,
}

module _ (S : Services) where
  -- Every account that was there is there, under the same provider and of the same user.
  abbrev pub LinksKept : World S → World S → Type 0
  LinksKept w w' =
      (k : Text) (a : OAuthAccount)
      → S.accounts.find_unique k w.accounts ≡ some a
      → (b : OAuthAccount) × (S.accounts.find_unique k w'.accounts ≡ some b)
        × (b.user_id ≡ a.user_id)
        × (b.provider ≡ a.provider)
        × (b.provider_account_id ≡ a.provider_account_id)

  update_account-LinksKept :
      (account : OAuthAccount) (access refresh : Option Text) (w : World S)
      → S.accounts.find_unique account.id w.accounts ≡ some account
      → LinksKept w (update_account S account access refresh w).1
  unfolding update_account
  update_account-LinksKept account access refresh w there k a at =
      elim (Bool-cases (text_eq account.id k)) [
        | inl same ↦
            let named = text_eq_sound account.id k same in
            let it : some account ≡ some a =
              sym there ∙ ap (λ x. S.accounts.find_unique x w.accounts) named ∙ at in
            (
              with_tokens access refresh account,
              subst
                  (λ x.
                    S.accounts.find_unique x
                      (S.accounts.update account.id (with_tokens access refresh) w.accounts)
                    ≡ some (with_tokens access refresh account))
                  named
                  (S.accounts.find_unique-update account.id (with_tokens access refresh) account
                    w.accounts there refl),
              ground (arith, it),
              ground (arith, it),
              ground (arith, it),
            )
        | inr different ↦ (
          a,
          S.accounts.find_unique-update_ne account.id k (with_tokens access refresh) w.accounts
                different
              ∙ at,
          refl,
          refl,
          refl,
        )
      ]

  LinksKept-refl : (w : World S) → LinksKept w w
  LinksKept-refl w k a at = (a, at, refl, refl, refl)

  -- An account that was made takes no other's place.
  create-find_unique :
      (make : Text → OAuthAccount) (row : OAuthAccount) (s t : S.accounts.State) (k : Text)
      (a : OAuthAccount)
      → S.accounts.create make s ≡ some (row, t)
      → S.accounts.find_unique k s ≡ some a
      → S.accounts.find_unique k t ≡ some a
  create-find_unique make row s t k a made at = elim (Bool-cases (text_eq row.id k)) [
    | inl same ↦
        let gone : S.accounts.find_unique k s ≡ none =
          subst (λ x. S.accounts.find_unique x s ≡ none) (text_eq_sound row.id k same)
            (S.accounts.find_unique-create_key make row s t made) in
        absurd (ground arith)
    | inr different ↦ ground (arith, S.accounts.find_unique-create make row s t k made)
  ]

  -- What `connectProvider` leaves, where it answers or throws.
  abbrev Links : Text → Text → World S → Result OAuthAccount × World S → Type 0
  Links user_id provider w (r, w') =
      LinksKept w w'
      × ((a : OAuthAccount) → r ≡ ok a → (a.user_id ≡ user_id) × (a.provider ≡ provider))

  Links-err :
      (user_id provider : Text) (e : Failure) (w : World S) → Links user_id provider w (err e, w)
  Links-err user_id provider e w = (LinksKept-refl w, λ a h. absurd (ground arith))

  create_account-Links :
      (user_id provider account_id : Text) (access refresh : Option Text) (w : World S)
      → Links user_id provider w (create_account S user_id provider account_id access refresh w)
  unfolding create_account
  create_account-Links user_id provider account_id access refresh w =
      let make : Text → OAuthAccount = λ id. record {
        id = id;
        user_id = user_id;
        provider = provider;
        provider_account_id = account_id;
        access_token = access;
        refresh_token = refresh;
      } in
      elim (Option-cases (S.accounts.create make w.accounts)) [
        | inl refusal ↦
            let refuses : create_account S user_id provider account_id access refresh w
                ≡ (err (database "P2002"), w) =
              ground arith in
            subst (Links user_id provider w) (sym refuses)
              (Links-err user_id provider (database "P2002") w)
        | inr ((row, rows), made) ↦
            let (id, shape) = S.accounts.create_made make row w.accounts rows made in
            let done : create_account S user_id provider account_id access refresh w
                ≡ (ok row, record w { accounts = rows }) =
              ground arith in
            subst (Links user_id provider w) (sym done) (
              λ k b at.
                  (b, create-find_unique make row w.accounts rows k b made at, refl, refl, refl),
              λ a h. (ground (arith, shape), ground (arith, shape)),
            )
      ]

  link_account-Links :
      (user_id : Text) (d : ProviderData) (account_id : Text) (w : World S)
      → Links user_id d.provider w (
          link_account S user_id d account_id
            (S.accounts.find_first (is_account d.provider account_id) w.accounts)
            w)
  unfolding link_account
  link_account-Links user_id d account_id w =
      let at : Option OAuthAccount → Result OAuthAccount × World S =
        λ found. link_account S user_id d account_id found w in
      elim (Option-cases (S.accounts.find_first (is_account d.provider account_id) w.accounts)) [
        | inl missing ↦
            subst (Links user_id d.provider w) (sym (ap at missing))
              (create_account-Links user_id d.provider account_id d.access_token d.refresh_token w)
        | inr (existing, found) ↦
            let (named, there) =
              S.accounts.find_first_sound (is_account d.provider account_id) existing w.accounts
                found in
            subst (Links user_id d.provider w) (sym (ap at found))
              (elim (Bool-cases (text_eq existing.user_id user_id)) [
                | inr other_user ↦
                    let refuses : at (some existing) ≡ (err linked_to_another, w) = ground arith in
                    subst (Links user_id d.provider w) (sym refuses)
                      (Links-err user_id d.provider linked_to_another w)
                | inl own ↦
                    let updates : at (some existing)
                        ≡ update_account S existing d.access_token d.refresh_token w =
                      ground arith in
                    subst (Links user_id d.provider w) (sym updates) (
                      update_account-LinksKept existing d.access_token d.refresh_token w there,
                      λ a h.
                          let user_same = text_eq_sound existing.user_id user_id own in
                          let provider_same : existing.provider ≡ d.provider =
                            text_eq_sound existing.provider d.provider (ground (arith, named)) in
                          (ground (arith, user_same), ground (arith, provider_same)),
                    )
              ])
      ]

  resolve_provider_account_id_pure :
      (G : Google) (d : ProviderData) (w : World S) → (resolve_provider_account_id S G d w).1 ≡ w
  unfolding resolve_provider_account_id verify_google_id_token check_token_info
  resolve_provider_account_id_pure G d w = ground arith

  connect_provider-Links :
      (G : Google) (user_id : Text) (d : ProviderData) (w : World S)
      → Links user_id d.provider w (connect_provider S G user_id d w)
  unfolding connect_provider
  connect_provider-Links G user_id d w =
      let (named, after) = resolve_provider_account_id S G d w in
      let same : after ≡ w = resolve_provider_account_id_pure G d w in
      elim (Result-cases named) [
        | inr (e, refusal) ↦
            let refuses : connect_provider S G user_id d w ≡ (err e, w) = ground (arith, same) in
            subst (Links user_id d.provider w) (sym refuses) (Links-err user_id d.provider e w)
        | inl (account_id, at) ↦
            let links : connect_provider S G user_id d w
                ≡ link_account S user_id d account_id
                    (S.accounts.find_first (is_account d.provider account_id) after.accounts)
                    after =
              ground arith in
            subst (Links user_id d.provider w)
              (sym (
                links
                ∙ ap
                    (λ v.
                      link_account S user_id d account_id
                        (S.accounts.find_first (is_account d.provider account_id) v.accounts) v)
                    same))
              (link_account-Links user_id d account_id w)
      ]

  -- Where an account is answered, it is of the provider and linked to the user.
  abbrev pub is_own : Text → Text → Result OAuthAccount → Bool
  is_own user_id provider (ok a) = text_eq a.user_id user_id && text_eq a.provider provider
  is_own user_id provider (err e) = true

  Links-is_own :
      (user_id provider : Text) (r : Result OAuthAccount) (w w' : World S)
      → Links user_id provider w (r, w')
      → is_own user_id provider r ≡ true
  Links-is_own user_id provider (ok a) w w' (kept, own) =
      let (at_user, at_provider) = own a refl in
      ground (arith, text_eq_iff a.user_id user_id, text_eq_iff a.provider provider)
  Links-is_own user_id provider (err e) w w' links = refl

  -- Whether `connectProvider` returns or throws, every account that was there is there under the
  -- same provider and of the same user; and what it returns is an account of the given provider that
  -- is linked to the user who asked.
  pub connect_provider_sound :
      (G : Google) (user_id : Text) (d : ProviderData) (k : Text) (a : OAuthAccount)
      (r : Result OAuthAccount) (w w' : World S)
      → connect_provider S G user_id d w ≡ (r, w')
      → S.accounts.find_unique k w.accounts ≡ some a
      → ((b : OAuthAccount) × (S.accounts.find_unique k w'.accounts ≡ some b)
          × (b.user_id ≡ a.user_id)
          × (b.provider ≡ a.provider)
          × (b.provider_account_id ≡ a.provider_account_id))
        × (is_own user_id d.provider r ≡ true)
  connect_provider_sound G user_id d k a r w w' h at =
      let links : Links user_id d.provider w (r, w') =
        subst (Links user_id d.provider w) h (connect_provider-Links G user_id d w) in
      (links.0 k a at, Links-is_own user_id d.provider r w w' links)
