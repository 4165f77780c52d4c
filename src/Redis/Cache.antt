-- ===== src/Redis/Cache.antt =====
-- What the other services rely on when they call `RedisService`, in either of its modes: the
-- operations that they use, and the laws of these.
use learn_nestjs.Common.{
  ℕ, ◌+◌, ◌<◌, ◌≡◌, Bool, true, ◌&&◌, Option, none, some, is_some, List, ◌∷◌, [], ◌++◌,
  if◌then◌else◌,
}
use learn_nestjs.Common.Text.{Text, text_eq, starts_with}
use learn_nestjs.Common.Lists.{contains}
use learn_nestjs.Redis.Driver.{Stored, number, glob_free, count_of}

pub record Cache (J : Type 0) : Type 1 where
  pub State : Type 0
  pub get : Text → State → Option (Stored J)
  pub set : Text → Stored J → ℕ → State → State
  pub del : Text → State → State
  pub exists : Text → State → Bool
  pub expire : Text → ℕ → State → State
  pub keys : Text → State → List Text
  pub incr : Text → State → Option ℕ × State
  pub get-set :
      (k j : Text) (v : Stored J) (n : ℕ) (s : State)
      → get j (set k v n s) ≡ (if text_eq k j then some v else get j s)
  pub get-del : (k j : Text) (s : State) → get j (del k s) ≡ (if text_eq k j then none else get j s)
  pub exists-get : (k : Text) (s : State) → exists k s ≡ is_some (get k s)
  pub get-expire : (k j : Text) (n : ℕ) (s : State) → 0 < n → get j (expire k n s) ≡ get j s
  pub incr_counts :
      (k : Text) (n : ℕ) (s : State) → count_of (get k s) ≡ some n → (incr k s).0 ≡ some (n + 1)
  pub get-incr :
      (k j : Text) (n : ℕ) (s : State)
      → count_of (get k s) ≡ some n
      → get j (incr k s).1 ≡ (if text_eq k j then some (number (n + 1)) else get j s)
  pub keys_exact :
      (p j : Text) (s : State)
      → glob_free p ≡ true
      → contains (keys (p ++ b'*' ∷ []) s) j ≡ (starts_with j p && is_some (get j s))
