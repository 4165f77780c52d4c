-- ===== src/Database/Store.antt =====
-- A model of the Prisma client through what holds of some row of its table: the operations that read
-- and write many rows, with their documented behaviour.
use learn_nestjs.Common.{
  false, Bool-cases, inl, inr, ℕ, ◌≤◌, ◌≡◌, refl, Bool, true, not, ◌&&◌, ◌||◌, Option, none, some,
  is_some, List, [], ◌∷◌, leb, if◌then◌else◌, arith,
}
use learn_nestjs.Common.Text.{Text}
use learn_nestjs.Common.Lists.{any, every, length}

-- The rows come in descending order of `rank`.
unfoldable pub descending {ℓ} : {A : Type ℓ} → (A → ℕ) → List A → Bool
unfolding every
descending rank [] = true
descending rank (x ∷ xs) = every (λ y. leb (rank y) (rank x)) xs && descending rank xs

-- `clash a b` says that a unique constraint forbids `a` beside `b`. `find_page` is `findMany` with
-- `orderBy` in descending order, `take`, and the row of the cursor with `skip: 1`. An operation
-- answers `none` where a constraint refuses it, and then changes nothing.
pub record Store {Row : Type 0} (clash : Row → Row → Bool) : Type 1 where
  pub State : Type 0
  pub find_many : (Row → Bool) → State → List Row
  pub find_first : (Row → Bool) → State → Option Row
  pub find_page : (Row → Bool) → (Row → ℕ) → Option ℕ → Option (Row → Bool) → State → List Row
  pub create : (Text → Row) → State → Option (Row × State)
  -- `createMany` with `skipDuplicates`
  pub create_many : List Row → State → Option State
  pub update_many : (Row → Bool) → (Row → Row) → State → State
  pub delete_many : (Row → Bool) → State → State
  pub any-find_many :
      (p q : Row → Bool) (s : State)
      → any q (find_many p s) ≡ any (λ r. p r && q r) (find_many (λ r. true) s)
  pub find_first_sound :
      (p : Row → Bool) (r : Row) (s : State)
      → find_first p s ≡ some r
      → (p r ≡ true) × ((q : Row → Bool) → q r ≡ true → any q (find_many (λ r. true) s) ≡ true)
  pub is_some-find_first :
      (p : Row → Bool) (s : State) → is_some (find_first p s) ≡ any p (find_many (λ r. true) s)
  pub any-find_page :
      (p q : Row → Bool) (rank : Row → ℕ) (take : Option ℕ) (cursor : Option (Row → Bool))
      (s : State)
      → any q (find_page p rank take cursor s) ≡ true
      → any (λ r. p r && q r) (find_many (λ r. true) s) ≡ true
  -- Without `take` and cursor no row is left out.
  pub any-find_page_whole :
      (p q : Row → Bool) (rank : Row → ℕ) (s : State)
      → any q (find_page p rank none none s) ≡ any (λ r. p r && q r) (find_many (λ r. true) s)
  pub descending-find_page :
      (p : Row → Bool) (rank : Row → ℕ) (take : Option ℕ) (cursor : Option (Row → Bool)) (s : State)
      → descending rank (find_page p rank take cursor s) ≡ true
  pub length-find_page :
      (p : Row → Bool) (rank : Row → ℕ) (n : ℕ) (cursor : Option (Row → Bool)) (s : State)
      → length (find_page p rank (some n) cursor s) ≤ n
  pub any-create :
      (make : Text → Row) (r : Row) (s t : State) (p : Row → Bool)
      → create make s ≡ some (r, t)
      → any p (find_many (λ r. true) t) ≡ (p r || any p (find_many (λ r. true) s))
  pub create_made :
      (make : Text → Row) (r : Row) (s t : State)
      → create make s ≡ some (r, t)
      → (id : Text) × (r ≡ make id)
  -- Old rows stay; a row that is there is an old one or one of the given ones; of every given row
  -- there is one with its unique columns.
  pub create_many_keeps :
      (rs : List Row) (s t : State) (p : Row → Bool)
      → create_many rs s ≡ some t
      → any p (find_many (λ r. true) s) ≡ true
      → any p (find_many (λ r. true) t) ≡ true
  pub create_many_sound :
      (rs : List Row) (s t : State) (p : Row → Bool)
      → create_many rs s ≡ some t
      → any p (find_many (λ r. true) t) ≡ true
      → (any p (find_many (λ r. true) s) || any p rs) ≡ true
  pub create_many_complete :
      (rs : List Row) (s t : State) (p : Row → Bool)
      → create_many rs s ≡ some t
      → any p rs ≡ true
      → any (λ x. any (λ r. p r && clash r x) rs) (find_many (λ r. true) t) ≡ true
  pub any-update_many :
      (q : Row → Bool) (f : Row → Row) (s : State) (p : Row → Bool)
      → any p (find_many (λ r. true) (update_many q f s))
        ≡ any (λ r. p (if q r then f r else r)) (find_many (λ r. true) s)
  pub any-delete_many :
      (q : Row → Bool) (s : State) (p : Row → Bool)
      → any p (find_many (λ r. true) (delete_many q s))
        ≡ any (λ r. not (q r) && p r) (find_many (λ r. true) s)

-- Some row of the table passes the test.
module _ {Row : Type 0} {clash : Row → Row → Bool} where
  abbrev pub has : (s : Store clash) → (Row → Bool) → s.State → Bool
  has s p w = any p (s.find_many (λ r. true) w)

-- What some row of a list passes, some row passes a weaker test for.
pub any_mono {ℓ} :
    {A : Type ℓ} (p q : A → Bool) (xs : List A)
    → ((x : A) → p x ≡ true → q x ≡ true)
    → any p xs ≡ true
    → any q xs ≡ true
unfolding any
any_mono p q [] h e = ground arith
any_mono p q (x ∷ xs) h e = ground (arith, h x, any_mono p q xs h)

-- Tests that agree find a row in the same lists.
pub any_ext {ℓ} :
    {A : Type ℓ} (p q : A → Bool) (xs : List A) → ((x : A) → p x ≡ q x) → any p xs ≡ any q xs
unfolding any
any_ext p q [] h = refl
any_ext p q (x ∷ xs) h = ground (arith, h x, any_ext p q xs h)

-- A row that passes the test.
pub any_witness {ℓ} :
    {A : Type ℓ} (p : A → Bool) (xs : List A) → any p xs ≡ true → (x : A) × (p x ≡ true)
unfolding any
any_witness p [] h = absurd (ground arith)
any_witness p (x ∷ xs) h = elim (Bool-cases (p x)) [
  | inl passes ↦ (x, passes)
  | inr fails ↦ any_witness p xs (ground arith)
]

-- A test that no row fails.
pub every_of_none {ℓ} :
    {A : Type ℓ} (p : A → Bool) (xs : List A) → any (λ x. not (p x)) xs ≡ false → every p xs ≡ true
unfolding any every
every_of_none p [] h = refl
every_of_none p (x ∷ xs) h = ground (arith, every_of_none p xs)

none_both {ℓ} : {A : Type ℓ} (p : A → Bool) (xs : List A) → any (λ x. p x && not (p x)) xs ≡ false
unfolding any
none_both p [] = refl
none_both p (x ∷ xs) = ground (arith, none_both p xs)

-- The rows of a page pass its test.
module _ {Row : Type 0} {clash : Row → Row → Bool} (s : Store clash) where
  pub every-find_page :
      (p : Row → Bool) (rank : Row → ℕ) (take : Option ℕ) (cursor : Option (Row → Bool))
      (t : s.State)
      → every p (s.find_page p rank take cursor t) ≡ true
  every-find_page p rank take cursor t = every_of_none p (s.find_page p rank take cursor t) (
      ground (
        arith,
        s.any-find_page p (λ r. not (p r)) rank take cursor t,
        none_both p (s.find_many (λ r. true) t),
      ))
