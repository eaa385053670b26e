-- ===== src/Prelude/Effects.antt =====
-- Go functions that act on the outside world and return an error: `Exec W E A`. The world `W` is
-- whatever the calls of code outside the repository read and change; what was done before an error
-- stays done.
use mathlib.Core.Path.{◌≡◌, refl}
use mathlib.Core.Bool.{Bool, true, false}
use native.Mathlib.Omega.{arith}
use competition_api.Prelude.Errors.{Result, ok, err}

abbrev pub Exec : Type 0 → Type 0 → Type 0 → Type 0
Exec W E A = W → Result E A × W

module _ {W E A : Type 0} where
  abbrev pub pure : A → Exec W E A
  pure a w = (ok a, w)

  abbrev pub raise : E → Exec W E A
  raise e w = (err e, w)

  abbrev pub lift : Result E A → Exec W E A
  lift r w = (r, w)

module _ {W E : Type 0} where
  -- `if !b { return err }`
  abbrev pub check : Bool → E → Exec W E (Unit {0})
  check true e w = (ok tt, w)
  check false e w = (err e, w)

  -- A call that returns no error.
  abbrev pub act : (W → W) → Exec W E (Unit {0})
  act f w = (ok tt, f w)

module _ {W E A : Type 0} where
  -- `defer f()`: done at the end, whatever was returned.
  abbrev pub deferring : (W → W) → Exec W E A → Exec W E A
  deferring f m w = let (r, w') = m w in (r, f w')

  abbrev pub after_error : (W → W) → Result E A → W → W
  after_error f (ok a) w = w
  after_error f (err e) w = f w

  -- What is done before an error is returned, and only then.
  abbrev pub on_error : (W → W) → Exec W E A → Exec W E A
  on_error f m w = let (r, w') = m w in (r, after_error f r w')

module _ {E F A : Type 0} where
  abbrev pub or_err : Result F A → E → Result E A
  or_err (ok a) e = ok a
  or_err (err f) e = err e

module _ {W E F A : Type 0} where
  -- `if err != nil { return e }`: the callee's error is replaced.
  abbrev pub or_return : Exec W F A → E → Exec W E A
  or_return m e w = let (r, w') = m w in (or_err r e, w')

  -- The error is kept as a value: `r, err := m()`.
  abbrev pub try : Exec W F A → Exec W E (Result F A)
  try m w = let (r, w') = m w in (ok r, w')

module _ {W E A B : Type 0} where
  abbrev pub continue : Result E A → (A → Exec W E B) → Exec W E B
  continue (ok a) f w = f a w
  continue (err e) f w = (err e, w)

  infixl 5 ◌>>=◌ ◌>>◌
  abbrev pub ◌>>=◌ : Exec W E A → (A → Exec W E B) → Exec W E B
  ◌>>=◌ m f w = let (r, w') = m w in continue r f w'

  abbrev pub ◌>>◌ : Exec W E A → Exec W E B → Exec W E B
  m >> n = m >>= λ _. n

  continue-eq-ok :
      (r : Result E A) (f : A → Exec W E B) (w : W) {b : B}
      → (continue r f w).0 ≡ ok b
      → (a : A) × (r ≡ ok a) × ((f a w).0 ≡ ok b)
  continue-eq-ok (ok a) f w h = (a, refl, h)
  continue-eq-ok (err e) f w h = cc

  -- Inversion of a block that succeeded: its first step did, and the rest did from there.
  pub >>=-eq-ok :
      (m : Exec W E A) (f : A → Exec W E B) (w : W) {b : B}
      → ((m >>= f) w).0 ≡ ok b
      → (a : A) × ((m w).0 ≡ ok a) × ((f a (m w).1).0 ≡ ok b)
  >>=-eq-ok m f w h = continue-eq-ok (m w).0 f (m w).1 h

module _ {W E A : Type 0} where
  -- What follows a guard that did not return was done.
  pub guard_inv :
      (b : Bool) (e : E) (m : Exec W E A) (w : W) {a : A}
      → ((check b e >>= λ _. m) w).0 ≡ ok a
      → (b ≡ true) × ((m w).0 ≡ ok a)
  guard_inv true e m w h = (refl, h)
  guard_inv false e m w h = cc

pub or_return_inv :
    {W E F A : Type 0} (m : Exec W F A) (e : E) (w : W) {a : A}
    → (or_return m e w).0 ≡ ok a
    → (m w).0 ≡ ok a
or_return_inv m e w h = ground arith
