-- ===== src/Prelude/Outcome.antt =====
-- How a call of a Go method ends, and calls that also change a state.
pub mod Runs
pub mod Yields
use mathlib.Core.Path.{◌≡◌, refl}
use mathlib.Core.Logic.{◌≢◌}
use mathlib.Core.Bool.{Bool, true, false}
use mathlib.Core.Option.{Option, none, some}
use azure_keyvault_emulator.Prelude.Tests.{if◌then◌else◌}

-- A value, an error value, or a panic (a nil pointer that is read).
pub data Outcome {ℓ κ} (E : Type ℓ) (A : Type κ) : Type (ℓ ⊔ κ) where
  ok : A → Outcome E A
  err : E → Outcome E A
  panic : Outcome E A

-- A method on a state of type `S`: the state comes back after an error too.
abbrev pub Method : Type 0 → Type 0 → Type 0 → Type 0
Method S E A = S → Outcome E A × S

module _ {S E A : Type 0} where
  abbrev pub pure : A → Method S E A
  pure a s = (ok a, s)

  abbrev pub raise : E → Method S E A
  raise e s = (err e, s)

  abbrev pub gets : (S → A) → Method S E A
  gets f s = (ok (f s), s)

  -- A lookup that must succeed, or else the error is returned.
  abbrev pub or_raise : Option A → E → Method S E A
  or_raise none e s = (err e, s)
  or_raise (some a) e s = (ok a, s)

  -- A pointer that is read.
  abbrev pub deref : Option A → Method S E A
  deref none s = (panic, s)
  deref (some a) s = (ok a, s)

  abbrev pub lift : Outcome E A → Method S E A
  lift r s = (r, s)

module _ {S E : Type 0} where
  -- `if b { return err }`
  abbrev pub raise_if : Bool → E → Method S E (Unit {0})
  raise_if true e s = (err e, s)
  raise_if false e s = (ok tt, s)

  abbrev pub modify : (S → S) → Method S E (Unit {0})
  modify f s = (ok tt, f s)

infixl 5 ◌>>=◌ ◌>>◌
abbrev pub continue : {S E A B : Type 0} → Outcome E A → (A → Method S E B) → Method S E B
continue (ok a) rest s = rest a s
continue (err e) rest s = (err e, s)
continue panic rest s = (panic, s)

abbrev pub ◌>>=◌ : {S E A B : Type 0} → Method S E A → (A → Method S E B) → Method S E B
◌>>=◌ m rest s = let (outcome, t) = m s in continue outcome rest t

abbrev pub ◌>>◌ : {S E B : Type 0} → Method S E (Unit {0}) → Method S E B → Method S E B
m >> rest = m >>= λ _. rest

-- A call that has not panicked, and has left a state in which `P` holds.
abbrev pub Ends : {S E A : Type 0} → (S → Type 0) → Outcome E A × S → Type 0
Ends P (ok a, s) = P s
Ends P (err e, s) = P s
Ends P (panic, s) = ⊥

-- How a call ends that begins with a guard, or with a fallible step that changes nothing.
module _ {S E B : Type 0} (P : S → Type 0) (s : S) where
  pub raise_if-Ends :
      (b : Bool) (e : E) (rest : Method S E B)
      → P s
      → (b ≡ false → Ends P (rest s))
      → Ends P ((raise_if b e >> rest) s)
  raise_if-Ends true e rest p h = p
  raise_if-Ends false e rest p h = h refl

module _ {S E A B : Type 0} (P : S → Type 0) (s : S) where
  pub lift-Ends :
      (r : Outcome E A) (rest : A → Method S E B)
      → P s
      → r ≢ panic
      → ((a : A) → Ends P (rest a s))
      → Ends P ((lift r >>= rest) s)
  lift-Ends (ok a) rest p safe h = h a
  lift-Ends (err e) rest p safe h = p
  lift-Ends panic rest p safe h = absurd (safe refl)

  pub or_raise-Ends :
      (o : Option A) (e : E) (rest : A → Method S E B)
      → P s
      → ((a : A) → o ≡ some a → Ends P (rest a s))
      → Ends P ((or_raise o e >>= rest) s)
  or_raise-Ends none e rest p h = p
  or_raise-Ends (some a) e rest p h = h a refl

-- A call that ends well has had a first step that ends well.
pub continue-ok :
    {S E A B : Type 0} (r : Outcome E A) (rest : A → Method S E B) (s : S) {b : B}
    → (continue r rest s).0 ≡ ok b
    → (a : A) × (r ≡ ok a) × ((rest a s).0 ≡ ok b)
continue-ok (ok a) rest s h = (a, refl, h)
continue-ok (err e) rest s h = cc
continue-ok panic rest s h = cc

-- How a call ends whose first step ends well.
pub then-Ends :
    {S E A B : Type 0} (P : S → Type 0) (r : Outcome E A × S) (rest : A → Method S E B)
    → Ends P r
    → ((a : A) (t : S) → P t → Ends P (rest a t))
    → Ends P (continue r.0 rest r.1)
then-Ends P (ok a, t) rest p h = h a t p
then-Ends P (err e, t) rest p h = p
then-Ends P (panic, t) rest p h = p

-- The value of a call that has ended well.
pub ok-injective : {E A : Type 0} {a b : A} → Path (Outcome E A) (ok a) (ok b) → a ≡ b
ok-injective h = cc

-- A test between two calls.
pub if-Ends :
    {S E A : Type 0} (P : S → Type 0) (b : Bool) (m n : Method S E A) (s : S)
    → Ends P (m s)
    → Ends P (n s)
    → Ends P ((if b then m else n) s)
if-Ends P true m n s h k = h
if-Ends P false m n s h k = k
