-- ===== src/Common/Frames.antt =====
-- What a handler leaves as it was: `Keeps view m` says that `m` does not change `view` of the
-- state, whether it returns or throws. A rule for each way to build a handler.
use learn_nestjs.Common.{◌≡◌, refl, Bool, true, false, ◌∙◌}
use learn_nestjs.Common.Results.{Failure, Result, ok, err, Exec, unless, when, continue, ◌>>=◌}

pub record Keeps {ℓ} {S A V : Type ℓ} (view : S → V) (m : Exec S A) : Type ℓ where
  pub at : (s : S) → view (m s).1 ≡ view s

module _ {ℓ} {S A V : Type ℓ} (view : S → V) where
  pub Keeps-const : (r : S → Result A) → Keeps view (λ s. (r s, s))
  Keeps-const r = record { at = λ s. refl }

module _ {ℓ} {S V : Type ℓ} {view : S → V} where
  pub Keeps-when : (b : Bool) (m : Exec S Unit) → Keeps view m → Keeps view (when b m)
  Keeps-when true m k = k
  Keeps-when false m k = record { at = λ s. refl }

  pub Keeps-unless : (b : Bool) (e : Failure) → Keeps view (unless {S = S} b e)
  Keeps-unless true e = record { at = λ s. refl }
  Keeps-unless false e = record { at = λ s. refl }

module _ {ℓ} {S A B V : Type ℓ} {view : S → V} where
  continue-Keeps :
      (r : Result A) (f : A → Exec S B) (s : S)
      → ((a : A) → Keeps view (f a))
      → view (continue r f s).1 ≡ view s
  continue-Keeps (ok a) f s k = (k a).at s
  continue-Keeps (err e) f s k = refl

  pub Keeps-bind :
      (m : Exec S A) (f : A → Exec S B)
      → Keeps view m
      → ((a : A) → Keeps view (f a))
      → Keeps view (m >>= f)
  Keeps-bind m f k l = record { at = λ s. continue-Keeps (m s).0 f (m s).1 l ∙ k.at s }
