-- ===== src/Samples/Stores.antt =====
-- A table as the list of its rows: an instance of `Store`.
use learn_nestjs.Common.{
  ℕ, zero, suc, ◌≤◌, ◌≡◌, refl, Bool, true, ◌&&◌, ◌||◌, Option, none, some, is_some, List, [], ◌∷◌,
  map, if◌then◌else◌, leb, arith,
}
use learn_nestjs.Common.Lists.{length, any, every, filter, find}
use learn_nestjs.Database.Store.{descending}

module _ {Row : Type 0} where
  pub any-filter : (p q : Row → Bool) (s : List Row) → any q (filter p s) ≡ any (λ r. p r && q r) s
  unfolding any filter
  any-filter p q [] = refl
  any-filter p q (r ∷ s) = ground (arith, any-filter p q s)

  pub filter_whole : (s : List Row) → filter (λ r. true) s ≡ s
  unfolding filter
  filter_whole [] = refl
  filter_whole (r ∷ s) = ground (arith, filter_whole s)

  pub any-map :
      (q : Row → Bool) (f : Row → Row) (s : List Row) → any q (map f s) ≡ any (λ r. q (f r)) s
  unfolding any
  any-map q f [] = refl
  any-map q f (r ∷ s) = ground (arith, any-map q f s)

  pub find-any : (p : Row → Bool) (s : List Row) → is_some (find p s) ≡ any p s
  unfolding any find
  find-any p [] = refl
  find-any p (r ∷ s) = ground (arith, find-any p s)

  pub find_sound_any :
      (p q : Row → Bool) (r : Row) (s : List Row) → find p s ≡ some r → q r ≡ true → any q s ≡ true
  unfolding any find
  find_sound_any p q r [] h e = ground arith
  find_sound_any p q r (x ∷ s) h e = ground (arith, find_sound_any p q r s)

  -- Insertion sort, in descending order.
  unfoldable pub put_in : (Row → ℕ) → Row → List Row → List Row
  put_in rank r [] = r ∷ []
  put_in rank r (x ∷ s) =
      let rest = put_in rank r s in if leb (rank x) (rank r) then r ∷ x ∷ s else x ∷ rest

  unfoldable pub sort : (Row → ℕ) → List Row → List Row
  sort rank [] = []
  sort rank (r ∷ s) = put_in rank r (sort rank s)

  any-put_in :
      (rank : Row → ℕ) (q : Row → Bool) (r : Row) (s : List Row)
      → any q (put_in rank r s) ≡ (q r || any q s)
  unfolding any put_in
  any-put_in rank q r [] = refl
  any-put_in rank q r (x ∷ s) = ground (arith, any-put_in rank q r s)

  pub any-sort : (rank : Row → ℕ) (q : Row → Bool) (s : List Row) → any q (sort rank s) ≡ any q s
  unfolding any sort
  any-sort rank q [] = refl
  any-sort rank q (r ∷ s) = ground (arith, any-sort rank q s, any-put_in rank q r (sort rank s))

  every-put_in :
      (rank : Row → ℕ) (b : ℕ) (r : Row) (s : List Row)
      → every (λ y. leb (rank y) b) (put_in rank r s)
        ≡ (leb (rank r) b && every (λ y. leb (rank y) b) s)
  unfolding every put_in
  every-put_in rank b r [] = refl
  every-put_in rank b r (x ∷ s) = ground (arith, every-put_in rank b r s)

  every_le :
      (rank : Row → ℕ) (a b : ℕ) (s : List Row)
      → a ≤ b
      → every (λ y. leb (rank y) a) s ≡ true
      → every (λ y. leb (rank y) b) s ≡ true
  unfolding every
  every_le rank a b [] le h = refl
  every_le rank a b (x ∷ s) le h = ground (arith, every_le rank a b s)

  descending-put_in :
      (rank : Row → ℕ) (r : Row) (s : List Row)
      → descending rank s ≡ true
      → descending rank (put_in rank r s) ≡ true
  unfolding descending put_in
  descending-put_in rank r [] h = refl
  descending-put_in rank r (x ∷ s) h = ground (
    arith,
    descending-put_in rank r s,
    every-put_in rank (rank x) r s,
    every_le rank (rank x) (rank r) s,
  )

  pub descending-sort : (rank : Row → ℕ) (s : List Row) → descending rank (sort rank s) ≡ true
  unfolding descending sort
  descending-sort rank [] = refl
  descending-sort rank (r ∷ s) = descending-put_in rank r (sort rank s) (descending-sort rank s)

  -- `take`, and what comes after the row of the cursor.
  unfoldable pub front : ℕ → List Row → List Row
  front zero s = []
  front (suc n) [] = []
  front (suc n) (r ∷ s) = r ∷ front n s

  unfoldable pub taken : Option ℕ → List Row → List Row
  unfolding front
  taken none s = s
  taken (some n) s = front n s

  unfoldable pub behind : (Row → Bool) → List Row → List Row
  behind c [] = []
  behind c (r ∷ s) = let rest = behind c s in if c r then s else rest

  unfoldable pub after_cursor : Option (Row → Bool) → List Row → List Row
  unfolding behind
  after_cursor none s = s
  after_cursor (some c) s = behind c s

  pub any-front :
      (n : ℕ) (q : Row → Bool) (s : List Row) → any q (front n s) ≡ true → any q s ≡ true
  unfolding any front
  any-front zero q s h = ground arith
  any-front (suc n) q [] h = h
  any-front (suc n) q (r ∷ s) h = ground (arith, any-front n q s)

  every-front :
      (n : ℕ) (q : Row → Bool) (s : List Row) → every q s ≡ true → every q (front n s) ≡ true
  unfolding every front
  every-front zero q s h = refl
  every-front (suc n) q [] h = h
  every-front (suc n) q (r ∷ s) h = ground (arith, every-front n q s)

  pub descending-front :
      (n : ℕ) (rank : Row → ℕ) (s : List Row)
      → descending rank s ≡ true
      → descending rank (front n s) ≡ true
  unfolding descending front
  descending-front zero rank s h = refl
  descending-front (suc n) rank [] h = h
  descending-front (suc n) rank (r ∷ s) h =
      ground (arith, descending-front n rank s, every-front n (λ y. leb (rank y) (rank r)) s)

  pub length-front : (n : ℕ) (s : List Row) → length (front n s) ≤ n
  unfolding front
  length-front zero s = omega arith
  length-front (suc n) [] = omega arith
  length-front (suc n) (r ∷ s) = omega (arith, length-front n s)

  pub any-behind : (c q : Row → Bool) (s : List Row) → any q (behind c s) ≡ true → any q s ≡ true
  unfolding any behind
  any-behind c q [] h = h
  any-behind c q (r ∷ s) h = ground (arith, any-behind c q s)

  pub descending-behind :
      (c : Row → Bool) (rank : Row → ℕ) (s : List Row)
      → descending rank s ≡ true
      → descending rank (behind c s) ≡ true
  unfolding descending behind
  descending-behind c rank [] h = h
  descending-behind c rank (r ∷ s) h = ground (arith, descending-behind c rank s)
