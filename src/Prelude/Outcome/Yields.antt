-- ===== src/Prelude/Outcome/Yields.antt =====
-- What holds of the answer of a call, and of the state behind it, if the call ends well.
use mathlib.Core.Path.{◌≡◌, refl, subst}
use mathlib.Core.Bool.{Bool, true, false}
use mathlib.Core.Option.{Option, none, some}
use azure_keyvault_emulator.Prelude.Outcome.{
  Outcome, ok, err, panic, Method, continue, raise_if, lift, or_raise, ◌>>=◌, ◌>>◌,
}

abbrev pub Yields : {S E A : Type 0} → (A → S → Type 0) → Outcome E A × S → Type 0
Yields Q (ok a, t) = Q a t
Yields Q (err e, t) = Unit
Yields Q (panic, t) = Unit

pub yielded :
    {S E A : Type 0} (Q : A → S → Type 0) (r : Outcome E A × S) {a : A}
    → Yields Q r
    → r.0 ≡ ok a
    → Q a r.1
yielded Q (o, t) h e = subst (λ o. Yields Q (o, t)) e h

module _ {S E B : Type 0} (Q : B → S → Type 0) (s : S) where
  pub raise_if-Yields :
      (b : Bool) (e : E) (rest : Method S E B)
      → (b ≡ false → Yields Q (rest s))
      → Yields Q ((raise_if b e >> rest) s)
  raise_if-Yields true e rest h = tt
  raise_if-Yields false e rest h = h refl

module _ {S E A B : Type 0} (Q : B → S → Type 0) (s : S) where
  pub lift-Yields :
      (r : Outcome E A) (rest : A → Method S E B)
      → ((a : A) → r ≡ ok a → Yields Q (rest a s))
      → Yields Q ((lift r >>= rest) s)
  lift-Yields (ok a) rest h = h a refl
  lift-Yields (err e) rest h = tt
  lift-Yields panic rest h = tt

  pub or_raise-Yields :
      (o : Option A) (e : E) (rest : A → Method S E B)
      → ((a : A) → o ≡ some a → Yields Q (rest a s))
      → Yields Q ((or_raise o e >>= rest) s)
  or_raise-Yields none e rest h = tt
  or_raise-Yields (some a) e rest h = h a refl

-- A call behind one whose answer is known.
pub then-Yields :
    {S E A B : Type 0} (First : A → S → Type 0) (Q : B → S → Type 0) (r : Outcome E A × S)
    (rest : A → Method S E B)
    → Yields First r
    → ((a : A) (t : S) → First a t → Yields Q (rest a t))
    → Yields Q (continue r.0 rest r.1)
then-Yields First Q (ok a, t) rest f h = h a t f
then-Yields First Q (err e, t) rest f h = tt
then-Yields First Q (panic, t) rest f h = tt
