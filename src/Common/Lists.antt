-- ===== src/Common/Lists.antt =====
-- List functions over Boolean tests, and sets of texts kept as lists.
use mathlib.Core.List.{reverse, reverse-cons}
use learn_nestjs.Common.{
  ℕ, suc, ◌≡◌, refl, Bool, true, false, ◌&&◌, ◌||◌, Option, none, some, List, [], ◌∷◌, ◌++◌, arith,
  if◌then◌else◌,
}
use learn_nestjs.Common.Text.{Text, text_eq, text_eq_iff}

module _ {ℓ} {A : Type ℓ} where
  abbrev pub length : List A → ℕ
  length [] = 0
  length (x ∷ xs) = suc (length xs)

  unfoldable pub any : (A → Bool) → List A → Bool
  any p [] = false
  any p (x ∷ xs) = p x || any p xs

  unfoldable pub every : (A → Bool) → List A → Bool
  every p [] = true
  every p (x ∷ xs) = p x && every p xs

  unfoldable pub filter : (A → Bool) → List A → List A
  filter p [] = []
  filter p (x ∷ xs) = let rest = filter p xs in if p x then x ∷ rest else rest

  unfoldable pub find : (A → Bool) → List A → Option A
  find p [] = none
  find p (x ∷ xs) = if p x then some x else find p xs

  pub any-append : (p : A → Bool) (xs ys : List A) → any p (xs ++ ys) ≡ (any p xs || any p ys)
  unfolding any
  any-append p [] ys = refl
  any-append p (x ∷ xs) ys = ground (arith, any-append p xs ys)

  pub every-append :
      (p : A → Bool) (xs ys : List A) → every p (xs ++ ys) ≡ (every p xs && every p ys)
  unfolding every
  every-append p [] ys = refl
  every-append p (x ∷ xs) ys = ground (arith, every-append p xs ys)

  pub every-reverse : (p : A → Bool) (xs : List A) → every p (reverse xs) ≡ every p xs
  unfolding every
  every-reverse p [] = refl
  every-reverse p (x ∷ xs) =
      rw (reverse-cons x xs)
        (ground (arith, every-append p (reverse xs) (x ∷ []), every-reverse p xs))

  pub find_sound : (p : A → Bool) (xs : List A) (x : A) → find p xs ≡ some x → p x ≡ true
  unfolding find
  find_sound p [] x h = ground arith
  find_sound p (y ∷ ys) x h = ground (arith, find_sound p ys x)

-- `xs.includes(x)`, and `set.has(x)` for a set kept in insertion order
unfoldable pub contains : List Text → Text → Bool
contains [] x = false
contains (y ∷ ys) x = text_eq y x || contains ys x

-- `set.add(x)`
unfoldable pub add : Text → List Text → List Text
unfolding contains
add x xs = if contains xs x then xs else xs ++ x ∷ []

-- `new Set(xs)`, in insertion order
unfoldable pub add_all : List Text → List Text → List Text
add_all acc [] = acc
add_all acc (x ∷ xs) = add_all (add x acc) xs

pub contains-append :
    (xs ys : List Text) (a : Text) → contains (xs ++ ys) a ≡ (contains xs a || contains ys a)
unfolding contains
contains-append [] ys a = refl
contains-append (x ∷ xs) ys a = ground (arith, contains-append xs ys a)

pub contains-add :
    (x a : Text) (xs : List Text) → contains (add x xs) a ≡ (text_eq x a || contains xs a)
unfolding add
contains-add x a xs = ground (arith, contains-append xs (x ∷ []) a, text_eq_iff x a)

pub contains-add_all :
    (acc xs : List Text) (a : Text)
    → contains (add_all acc xs) a ≡ (contains acc a || contains xs a)
unfolding add_all contains
contains-add_all acc [] a = ground arith
contains-add_all acc (x ∷ xs) a =
    ground (arith, contains-add_all (add x acc) xs a, contains-add x a acc)
