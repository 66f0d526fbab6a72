-- ===== src/Prelude/Outcome/Runs.antt =====
-- Calls made one after another on one state, and what holds of all of them.
use mathlib.Core.List.{List, [], ◌∷◌}
use azure_keyvault_emulator.Prelude.Outcome.{
  Outcome, ok, err, panic, Method, Ends, continue, pure, ◌>>=◌,
}

abbrev pub NeverPanics : {E A : Type 0} → List (Outcome E A) → Type 0
NeverPanics [] = Unit
NeverPanics (ok a ∷ rs) = NeverPanics rs
NeverPanics (err e ∷ rs) = NeverPanics rs
NeverPanics (panic ∷ rs) = ⊥

-- Naming an answer changes nothing.
abbrev pub answered : {S E A R : Type 0} → (A → R) → Method S E A → Method S E R
answered f m = m >>= λ a. pure (f a)

pub answered-Ends :
    {S E A R : Type 0} (P : S → Type 0) (f : A → R) (r : Outcome E A) (s : S)
    → Ends P (r, s)
    → Ends P (continue r (λ a. pure (f a)) s)
answered-Ends P f (ok a) s h = h
answered-Ends P f (err e) s h = h
answered-Ends P f panic s h = h

abbrev pub Each : {C : Type 0} → (C → Type 0) → List C → Type 0
Each Safe [] = Unit
Each Safe (c ∷ calls) = Safe c × Each Safe calls

module _ {S E C R : Type 0} (run : C → Method S E R) where
  -- The answers to a sequence of calls, and the state after them.
  pub serve : List C → S → List (Outcome E R) × S
  serve [] s = ([], s)
  serve (c ∷ calls) s = let (r, s') = run c s in let (rs, s'') = serve calls s' in (r ∷ rs, s'')

  -- What each call keeps, all of them keep, and none of them panics.
  pub serve-Ends :
      (P : S → Type 0) (Safe : C → Type 0)
      → ((c : C) (s : S) → Safe c → P s → Ends P (run c s))
      → (calls : List C) (s : S) → Each Safe calls
      → P s
      → NeverPanics (serve calls s).0 × P (serve calls s).1
  unfolding serve
  serve-Ends P Safe step [] s h p = (tt, p)
  serve-Ends P Safe step (c ∷ calls) s h p =
      go (run c s) (step c s h.0 p) (serve-Ends P Safe step calls (run c s).1 h.1)
    where
      go :
          (r : Outcome E R × S)
          → Ends P r
          → (P r.1 → NeverPanics (serve calls r.1).0 × P (serve calls r.1).1)
          → NeverPanics (r.0 ∷ (serve calls r.1).0) × P (serve calls r.1).1
      go (ok a, s') h ih = ih h
      go (err e, s') h ih = ih h
      go (panic, s') h ih = absurd h
