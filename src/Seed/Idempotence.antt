-- ===== src/Seed/Idempotence.antt =====
-- A start after a start.
use learn_nestjs.Common.{
  ℕ, ◌≡◌, inl, inr, refl, subst, ◌∙◌, Bool, true, false, not, ◌||◌, List, [], ◌∷◌, if◌then◌else◌,
  arith, Bool-cases, Option-cases,
}
use learn_nestjs.Common.Text.{Text, text_eq_refl}
use learn_nestjs.Common.Lists.{any}
use learn_nestjs.Common.Results.{ok}
use learn_nestjs.Database.{User}
use learn_nestjs.Database.Store.{Store, has}
use learn_nestjs.Chat.World.{same_user}
use learn_nestjs.Seed.{
  SeedConfig, name_of, mail_of, is_configured, to_username, offline, is_seeded,
  find_available_username, admin_row, seed_admin, on_module_init,
}

any_never : {A : Type 0} (p : A → Bool) (xs : List A) → ((x : A) → p x ≡ false) → any p xs ≡ false
unfolding any
any_never p [] h = refl
any_never p (x ∷ xs) h = ground (arith, h x, any_never p xs h)

-- Tests that agree where a third one fails agree on a list where it always fails.
any_agree :
    {A : Type 0} (q p r : A → Bool) (xs : List A)
    → any q xs ≡ false
    → ((x : A) → q x ≡ false → p x ≡ r x)
    → any p xs ≡ any r xs
unfolding any
any_agree q p r [] h e = refl
any_agree q p r (x ∷ xs) h e = ground (arith, e x, any_agree q p r xs)

module _ (users : Store same_user) where
  abbrev none_online : users.State → Bool
  none_online s = not (has users (λ u. u.is_online) s)

  -- What a start leaves: nobody online, and the account that is asked for.
  abbrev Started : SeedConfig → users.State → Type 0
  Started c s =
      (none_online s ≡ true) × ((not (is_configured c) || has users (is_seeded c) s) ≡ true)

  none_online-update :
      (s : users.State) → none_online (users.update_many (λ u. u.is_online) offline s) ≡ true
  none_online-update s = ground (
    arith,
    users.any-update_many (λ u. u.is_online) offline s (λ u. u.is_online),
    any_never (λ u. (if u.is_online then offline u else u).is_online)
        (users.find_many (λ u. true) s) (λ u. ground arith),
  )

  -- Resetting the statuses where nobody is online changes nothing.
  update_offline :
      (s : users.State) (p : User → Bool)
      → none_online s ≡ true
      → has users p (users.update_many (λ u. u.is_online) offline s) ≡ has users p s
  update_offline s p h =
      users.any-update_many (λ u. u.is_online) offline s p
      ∙ any_agree (λ u. u.is_online) (λ u. p (if u.is_online then offline u else u)) p
          (users.find_many (λ u. true) s) (ground arith) (λ u e. ground arith)

  seed_admin-Started :
      (hash : Text → Text) (now : ℕ) (c : SeedConfig) (s t : users.State)
      → none_online s ≡ true
      → seed_admin users hash now c s ≡ (ok tt, t)
      → Started c t
  unfolding seed_admin
  seed_admin-Started hash now c s t offline_all h = elim (Bool-cases (is_configured c)) [
    | inr absent ↦
        let same : s ≡ t = ground arith in subst (Started c) same (offline_all, ground arith)
    | inl given ↦ elim (Option-cases (users.find_first (is_seeded c) s)) [
      | inr (u, at) ↦
          let same : s ≡ t = ground arith in
          subst (Started c) same
            (offline_all, ground (arith, users.is_some-find_first (is_seeded c) s))
      | inl missing ↦
          let make =
            admin_row users hash now c
              (find_available_username users hash now (to_username (name_of c)) s) in
          elim (Option-cases (users.create make s)) [
            | inl refusal ↦ absurd (ground arith)
            | inr ((u, made_state), made) ↦
                let same : made_state ≡ t = ground arith in
                let (id, shape) = users.create_made make u s made_state made in
                subst (Started c) same (
                  ground
                      (arith, shape, users.any-create make u s made_state (λ u. u.is_online) made),
                  ground (
                    arith,
                    shape,
                    text_eq_refl (mail_of c),
                    users.any-create make u s made_state (is_seeded c) made,
                  ),
                )
          ]
    ]
  ]

  -- Seeding finds the account that is there.
  seed_admin_again :
      (hash : Text → Text) (now : ℕ) (c : SeedConfig) (s : users.State)
      → (not (is_configured c) || has users (is_seeded c) s) ≡ true
      → seed_admin users hash now c s ≡ (ok tt, s)
  unfolding seed_admin
  seed_admin_again hash now c s there = elim (Option-cases (users.find_first (is_seeded c) s)) [
    | inl missing ↦ ground (arith, users.is_some-find_first (is_seeded c) s)
    | inr (u, at) ↦ ground arith
  ]

  -- A start that follows a start with the same configuration returns too and changes no user,
  -- whatever the time and the salt of either.
  pub on_module_init_again :
      (hash hash2 : Text → Text) (now later : ℕ) (c : SeedConfig) (s t : users.State)
      → on_module_init users hash now c s ≡ (ok tt, t)
      → ((on_module_init users hash2 later c t).0 ≡ ok tt)
        × ((p : User → Bool) → has users p (on_module_init users hash2 later c t).1 ≡ has users p t)
  unfolding on_module_init
  on_module_init_again hash hash2 now later c s t h = elim (Bool-cases c.production) [
    | inl production ↦ (ground arith, λ p. ground arith)
    | inr development ↦
        let reset = users.update_many (λ u. u.is_online) offline in
        let (offline_all, seeded) =
          seed_admin-Started hash now c (reset s) t (none_online-update s) (ground arith) in
        let again : seed_admin users hash2 later c (reset t) ≡ (ok tt, reset t) =
          seed_admin_again hash2 later c (reset t)
            (ground (arith, seeded, update_offline t (is_seeded c) offline_all)) in
        (ground (arith, again), λ p. ground (arith, again, update_offline t p offline_all))
  ]
