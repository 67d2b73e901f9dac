-- ===== src/Prelude/Results.antt =====
-- What a service returns that may refuse with an error `E` before it commits anything.
use mathlib.Core.Path.{◌≡◌, refl, subst}
use mathlib.Core.Bool.{Bool, true, false}
use mathlib.Core.Option.{Option, none, some}

pub data Result {ε ℓ} (E : Type ε) (A : Type ℓ) : Type (ε ⊔ ℓ) where
  done : A → Result E A
  refused : E → Result E A

infixl 5 ◌>>=◌
unfoldable pub ◌>>=◌ {ε ℓ κ} :
    {E : Type ε} {A : Type ℓ} {B : Type κ} → Result E A → (A → Result E B) → Result E B
done a >>= f = f a
refused e >>= f = refused e

abbrev pub require {ε} : {E : Type ε} → Bool → E → Result E (Unit {0})
require true e = done tt
require false e = refused e

infixl 5 ◌>>◌
abbrev pub ◌>>◌ {ε ℓ} : {E : Type ε} {B : Type ℓ} → Result E (Unit {0}) → Result E B → Result E B
m >> k = m >>= λ _. k

abbrev pub or_refuse {ε ℓ} : {E : Type ε} {A : Type ℓ} → Option A → E → Result E A
or_refuse none e = refused e
or_refuse (some a) e = done a

-- the error, where there is one
unfoldable pub problem {ε ℓ} : {E : Type ε} {A : Type ℓ} → Result E A → Option E
problem (done a) = none
problem (refused e) = some e

-- what is returned satisfies `P`
pub record Ensures {ε ℓ} {E : Type ε} {A : Type ℓ} (P : A → Type 0) (m : Result E A)
    : Type (ε ⊔ ℓ) where
  pub at : (a : A) → m ≡ done a → P a

pub Ensures-done {ε ℓ} :
    {E : Type ε} {A : Type ℓ} {P : A → Type 0} (a : A) → P a → Ensures {E = E} P (done a)
Ensures-done {P = P} a k = record { at = λ a' e. subst P (cc) k }

pub Ensures-bind {ε ℓ κ} :
    {E : Type ε} {A : Type ℓ} {B : Type κ} {P : B → Type 0} (m : Result E A) (f : A → Result E B)
    → ((a : A) → m ≡ done a → Ensures P (f a))
    → Ensures P (m >>= f)
unfolding ◌>>=◌
Ensures-bind (done a) f h = h a refl
Ensures-bind (refused e) f h = record { at = λ a e'. absurd (cc) }

pub or_refuse-done {ε ℓ} :
    {E : Type ε} {A : Type ℓ} (o : Option A) (e : E) (a : A) → or_refuse o e ≡ done a → o ≡ some a
or_refuse-done none e a h = cc
or_refuse-done (some x) e a h = cc

pub require-true {ε} :
    {E : Type ε} (b : Bool) (e : E) (u : Unit {0}) → require b e ≡ done u → b ≡ true
require-true true e u h = refl
require-true false e u h = absurd (cc)
