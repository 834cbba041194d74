-- ===== src/Base/Stateful.antt =====
-- Methods on a state that may raise: what they return or raise, and the state that they leave.
use mathlib.Core.Path.{◌≡◌, refl}
use mathlib.Core.Bool.{Bool, true, false}
use roscope.Base.Tests.{if◌then◌else◌}
use roscope.Base.Results.{Result, return, raise}

abbrev pub Stateful : Type 0 → Type 0 → Type 0 → Type 0
Stateful S E A = S → Result E A × S

module _ {S E A B : Type 0} where
  abbrev pub continue : Result E A → (A → Stateful S E B) → Stateful S E B
  continue (return a) f s = f a s
  continue (raise e) f s = (raise e, s)

  infixl 5 ◌>>=◌ ◌>>◌
  abbrev pub ◌>>=◌ : Stateful S E A → (A → Stateful S E B) → Stateful S E B
  ◌>>=◌ m f s = continue (m s).0 f (m s).1

  abbrev pub ◌>>◌ : Stateful S E A → Stateful S E B → Stateful S E B
  ◌>>◌ m n = m >>= λ _. n

module _ {S E A : Type 0} where
  abbrev pub pure : A → Stateful S E A
  pure a s = (return a, s)

  abbrev pub fail : E → Stateful S E A
  fail e s = (raise e, s)

module _ {S X : Type 0} (view : S → X) where
  -- A method that the view does not see.
  unfoldable pub Keeps : {E A : Type 0} → Stateful S E A → Type 0
  Keeps m = (s : S) → view (m s).1 ≡ view s

  continue-Keeps :
      {E A B : Type 0} (r : Result E A) (f : A → Stateful S E B)
      → ((a : A) → Keeps (f a))
      → Keeps (continue r f)
  unfolding Keeps
  continue-Keeps (return a) f keeps s = keeps a s
  continue-Keeps (raise e) f keeps s = refl

  pub >>=-Keeps :
      {E A B : Type 0} (m : Stateful S E A) (f : A → Stateful S E B)
      → Keeps m
      → ((a : A) → Keeps (f a))
      → Keeps (m >>= f)
  unfolding Keeps
  >>=-Keeps m f keeps after s = rw (continue-Keeps (m s).0 f after (m s).1) (keeps s)

  pub if-Keeps :
      {E A : Type 0} (b : Bool) (m n : Stateful S E A)
      → Keeps m
      → Keeps n
      → Keeps (if b then m else n)
  if-Keeps true m n left right = left
  if-Keeps false m n left right = right

  pub pure-Keeps : (E : Type 0) {A : Type 0} (a : A) → Keeps {E = E} (pure a)
  unfolding Keeps
  pure-Keeps E a s = refl

  pub fail-Keeps : (A : Type 0) {E : Type 0} (e : E) → Keeps {A = A} (fail e)
  unfolding Keeps
  fail-Keeps A e s = refl

module _ {S E A B : Type 0} where
  -- What a chain that returned went through.
  pub >>=-return :
      (m : Stateful S E A) (f : A → Stateful S E B) (s : S) (b : B)
      → ((m >>= f) s).0 ≡ return b
      → (a : A) × ((m s).0 ≡ return a) × ((f a (m s).1).0 ≡ return b)
  >>=-return m f s b returned = by_result (m s).0 refl
    where
      by_result :
          (r : Result E A)
          → (m s).0 ≡ r
          → (a : A) × ((m s).0 ≡ return a) × ((f a (m s).1).0 ≡ return b)
      by_result (return a) e = (a, e, (rw e at returned))
      by_result (raise x) e = absurd (clash (rw e at returned))
        where
          clash : ◌≡◌ {A = Result E B} (raise x) (return b) → ⊥
          clash h = cc
