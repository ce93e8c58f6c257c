-- ===== src/Base/Outcome.antt =====
-- Results with an error, and their sequencing.
use mathlib.Core.Path.{◌≡◌, refl}
use mathlib.Core.Bool.{Bool, true, false}
use load_balancer_controller.Base.Bools.{if◌then◌else◌}

pub data Outcome {ℓ κ} (E : Type κ) (A : Type ℓ) : Type (ℓ ⊔ κ) where
  ok : A → Outcome E A
  err : E → Outcome E A

module _ {ε} {E : Type ε} where
  infixl 5 ◌>>=◌
  abbrev pub ◌>>=◌ {ℓ κ} : {A : Type ℓ} {B : Type κ} → Outcome E A → (A → Outcome E B) → Outcome E B
  ok a >>= f = f a
  err e >>= f = err e

  pub bind-eq-ok {ℓ κ} :
      {A : Type ℓ} {B : Type κ} (m : Outcome E A) (f : A → Outcome E B) {b : B}
      → (m >>= f) ≡ ok b
      → (a : A) × (m ≡ ok a) × (f a ≡ ok b)
  bind-eq-ok (ok a) f h = (a, refl, h)
  bind-eq-ok (err e) f h = cc

abbrev the_ok {ℓ κ} : {A : Type ℓ} (E : Type κ) → A → Outcome E A
the_ok E a = ok a

pub ok-inj {ℓ κ} : {E : Type κ} {A : Type ℓ} {a b : A} → the_ok E a ≡ ok b → a ≡ b
ok-inj h = cc h

-- What a guard that leads to an error comes to.
module _ {ℓ κ} {E : Type κ} {A : Type ℓ} where
  pub if-err :
      (c : Bool) (e : E) (m : Outcome E A) {a : A}
      → (if c then err e else m) ≡ ok a
      → (c ≡ false) × (m ≡ ok a)
  if-err true e m h = absurd (cc h)
  if-err false e m h = (refl, h)

  pub if-ok :
      (c : Bool) (e : E) (a : A) {b : A} → (if c then ok a else err e) ≡ ok b → (c ≡ true) × (a ≡ b)
  if-ok true e a h = (refl, cc h)
  if-ok false e a h = absurd (cc h)
