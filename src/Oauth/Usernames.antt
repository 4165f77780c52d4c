-- ===== src/Oauth/Usernames.antt =====
-- The loop of `generateUniqueUsername`.
use learn_nestjs.Common.{
  ℕ, zero, suc, ◌+◌, ◌<◌, ◌≡◌, inl, inr, refl, sym, ap, subst, Bool, true, false, is_some, List, [],
  ◌∷◌, ◌++◌, arith, Option-cases,
}
use learn_nestjs.Common.Text.{Text, text_eq, text_eq_refl}
use learn_nestjs.Common.Lists.{every, contains}
use learn_nestjs.Common.Results.{Result, ok, err}
use learn_nestjs.Auth.World.{Services, World}
use learn_nestjs.Auth.Tokens.{print_number}
use learn_nestjs.Chat.Rooms.Membership.{found}
use learn_nestjs.Auth.Register.{no_unique_username}
use learn_nestjs.Oauth.{base_of, try_candidate, generate_unique_username}

module _ (S : Services) where
  abbrev pub is_taken : World S → Text → Bool
  is_taken w name = is_some (S.users.find_first (λ u. text_eq u.username name) w.users)

  -- The names that some tries look up, the first of them given, by the draws so far.
  unfoldable pub tried : ℕ → Text → Text → ℕ → List Text
  tried zero base candidate draws = []
  tried (suc tries) base candidate draws =
      candidate
      ∷ tried tries base (base ++ b'_' ∷ print_number (1000 + S.random_below 9000 draws))
          (draws + 1)

  -- With some tries left: an answer is one of the names and free, and a failure saw all of them taken.
  abbrev pub Ends : ℕ → Text → Text → World S → Result Text × World S → Type 0
  Ends tries base candidate w (ok name, w') =
      (contains (tried tries base candidate w.draws) name ≡ true)
      × (is_taken w name ≡ false)
      × (w'.users ≡ w.users)
      × (w'.draws < w.draws + tries)
  Ends tries base candidate w (err e, w') =
      (e ≡ no_unique_username)
      × (every (is_taken w) (tried tries base candidate w.draws) ≡ true)
      × (w'.users ≡ w.users)
      × (w'.draws ≡ w.draws + tries)

  -- A further try.
  Ends-suc :
      (tries : ℕ) (base candidate : Text) (w : World S) (r : Result Text) (w' : World S)
      → is_taken w candidate ≡ true
      → Ends tries base
          (base ++ b'_' ∷ print_number (1000 + S.random_below 9000 w.draws))
          (record w { draws = w.draws + 1 })
          (r, w')
      → Ends (suc tries) base candidate w (r, w')
  unfolding tried contains every
  Ends-suc tries base candidate w (ok name) w' seen (among, free, same, few) =
      (ground (arith, among), free, same, omega arith)
  Ends-suc tries base candidate w (err e) w' seen (why, all_seen, same, all) =
      (why, ground (arith, all_seen), same, omega arith)

  try_candidate-Ends :
      (tries : ℕ) (base candidate : Text) (w : World S)
      → Ends tries base candidate w (try_candidate S tries base candidate w)
  unfolding try_candidate tried contains every
  try_candidate-Ends zero base candidate w = (refl, refl, refl, omega arith)
  try_candidate-Ends (suc tries) base candidate w =
      elim (Option-cases (S.users.find_first (λ u. text_eq u.username candidate) w.users)) [
        | inl free ↦
            let ends : try_candidate S (suc tries) base candidate w ≡ (ok candidate, w) =
              ground arith in
            subst (Ends (suc tries) base candidate w) (sym ends)
              (ground (arith, text_eq_refl candidate), ap is_some free, refl, omega arith)
        | inr (u, found) ↦
            let w1 : World S = record w { draws = w.draws + 1 } in
            let next = base ++ b'_' ∷ print_number (1000 + S.random_below 9000 w.draws) in
            let goes_on : try_candidate S (suc tries) base candidate w
                ≡ try_candidate S tries base next w1 =
              ground arith in
            subst (Ends (suc tries) base candidate w) (sym goes_on) (
              Ends-suc tries base candidate w _ _ (ap is_some found)
                (try_candidate-Ends tries base next w1))
      ]

  -- `generateUniqueUsername` ends within twenty tries, of the base and of names drawn with it. Either
  -- it answers one of these names that no user has and took fewer than twenty draws, or it throws the
  -- conflict after twenty draws, and then all of these names were taken. It changes no user.
  pub generate_unique_username-Ends :
      (seed : Text) (w : World S)
      → Ends 20 (base_of seed) (base_of seed) w (generate_unique_username S seed w)
  unfolding generate_unique_username
  generate_unique_username-Ends seed w = try_candidate-Ends 20 (base_of seed) (base_of seed) w
