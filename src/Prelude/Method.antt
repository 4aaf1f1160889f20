-- ===== src/Prelude/Method.antt =====
-- Methods that change an object and may raise. What was written before a raise stays written, so
-- the object comes back beside the error too.

use mathlib.Core.Path.{◌≡◌, refl, ap}

pub data Result {ℓ κ} (E : Type ℓ) (A : Type κ) : Type (ℓ ⊔ κ) where
  ok : A → Result E A
  raise : E → Result E A

abbrev pub Method {ℓ} : Type 0 → Type 0 → Type ℓ → Type ℓ
Method S E A = S → Result E A × S

module _ {ℓ} {S E : Type 0} {A : Type ℓ} where
  abbrev pub pure : A → Method S E A
  pure a s = (ok a, s)

  abbrev pub throw : E → Method S E A
  throw e s = (raise e, s)

  abbrev pub gets : (S → A) → Method S E A
  gets f s = (ok (f s), s)

module _ {S E : Type 0} where
  abbrev pub modify : (S → S) → Method S E (Unit {0})
  modify f s = (ok tt, f s)

module _ {ℓ κ} {S E : Type 0} {A : Type ℓ} {B : Type κ} where
  abbrev continue : Result E A → (A → Method S E B) → S → Result E B × S
  continue (ok a) f s = f a s
  continue (raise e) f s = (raise e, s)

  infixl 10 ◌>>=◌ ◌>>◌
  abbrev pub ◌>>=◌ : Method S E A → (A → Method S E B) → Method S E B
  ◌>>=◌ m f s = let (r, s') = m s in continue r f s'

  abbrev pub ◌>>◌ : Method S E A → Method S E B → Method S E B
  ◌>>◌ m n s = let (r, s') = m s in continue r (λ _. n) s'

module _ {ℓ κ} {S E : Type 0} {A : Type ℓ} {B : Type κ} where
  -- A last step that only makes the answer changes no state, and cannot raise.
  pub state-then_pure :
      (m : Method S E A) (f : A → B) (s : S) → ((m >>= (λ a. pure (f a))) s).1 ≡ (m s).1
  state-then_pure m f s = go (m s)
    where
      go : (r : Result E A × S) → (continue r.0 (λ a. pure (f a)) r.1).1 ≡ r.1
      go (ok a, s') = refl
      go (raise e, s') = refl

module _ {ℓ κ} {S E : Type 0} {A : Type ℓ} {B : Type κ} where
  pub bind-ok :
      (m : Method S E A) (f : A → Method S E B) {s s' : S} {a : A}
      → m s ≡ (ok a, s')
      → (m >>= f) s ≡ f a s'
  bind-ok m f h = ap (λ p. continue p.0 f p.1) h

  pub bind-raise :
      (m : Method S E A) (f : A → Method S E B) {s s' : S} {e : E}
      → m s ≡ (raise e, s')
      → (m >>= f) s ≡ (raise e, s')
  bind-raise m f h = ap (λ p. continue p.0 f p.1) h
