-- ===== src/Common/Results.antt =====
-- Exceptions as values, and handlers that change a state and may throw. What was written before a
-- throw stays written, so the state comes back beside the failure too.
use learn_nestjs.Common.{◌⊎◌, ◌≡◌, inl, inr, refl, String, Bool, true, false}

-- The exceptions of `@nestjs/common` that the sources throw, with their message; `database` is an
-- exception of the Prisma client, with its code.
pub data Failure : Type 0 where
  bad_request unauthorized forbidden not_found conflict unsupported_media_type : String → Failure
  too_many_requests internal_server_error database : String → Failure

pub data Result {ℓ} (A : Type ℓ) : Type ℓ where
  ok : A → Result A
  err : Failure → Result A

abbrev pub is_ok {ℓ} : {A : Type ℓ} → Result A → Bool
is_ok (ok a) = true
is_ok (err e) = false

pub Result-cases {ℓ} :
    {A : Type ℓ} (r : Result A) → ((a : A) × (r ≡ ok a)) ⊎ ((e : Failure) × (r ≡ err e))
Result-cases (ok a) = inl (a, refl)
Result-cases (err e) = inr (e, refl)

abbrev pub Exec {ℓ} : Type ℓ → Type ℓ → Type ℓ
Exec S A = S → Result A × S

module _ {ℓ} {S A : Type ℓ} where
  abbrev pub return : A → Exec S A
  return a s = (ok a, s)

  abbrev pub throw : Failure → Exec S A
  throw e s = (err e, s)

  abbrev pub gets : (S → A) → Exec S A
  gets f s = (ok (f s), s)

module _ {ℓ} {S : Type ℓ} where
  abbrev pub unless : Bool → Failure → Exec S Unit
  unless true e s = (ok tt, s)
  unless false e s = (err e, s)

  pub unless_pure : (b : Bool) (e : Failure) (s : S) → (unless b e s).1 ≡ s
  unless_pure true e s = refl
  unless_pure false e s = refl

  -- `if (b) { m }`
  abbrev pub when : Bool → Exec S Unit → Exec S Unit
  when true m s = m s
  when false m s = (ok tt, s)

  abbrev pub modify : (S → S) → Exec S Unit
  modify f s = (ok tt, f s)

module _ {ℓ} {S A B : Type ℓ} where
  abbrev pub continue : Result A → (A → Exec S B) → Exec S B
  continue (ok a) f s = f a s
  continue (err e) f s = (err e, s)

  infixl 5 ◌>>=◌ ◌>>◌
  abbrev pub ◌>>=◌ : Exec S A → (A → Exec S B) → Exec S B
  ◌>>=◌ m f s = let (r, t) = m s in continue r f t

  abbrev pub ◌>>◌ : Exec S A → Exec S B → Exec S B
  m >> n = m >>= λ _. n

  continue-eq-ok :
      (r : Result A) (f : A → Exec S B) (s : S) {b : B} {t : S}
      → continue r f s ≡ (ok b, t)
      → (a : A) × (r ≡ ok a) × (f a s ≡ (ok b, t))
  continue-eq-ok (ok a) f s h = (a, refl, h)
  continue-eq-ok (err e) f s h = cc

  -- A handler that returned went through its first part, which returned too.
  pub bind-eq-ok :
      (m : Exec S A) (f : A → Exec S B) (s : S) {b : B} {t : S}
      → (m >>= f) s ≡ (ok b, t)
      → (a : A) × ((m s).0 ≡ ok a) × (f a (m s).1 ≡ (ok b, t))
  bind-eq-ok m f s h = continue-eq-ok (m s).0 f (m s).1 h
