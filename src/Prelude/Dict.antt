-- ===== src/Prelude/Dict.antt =====
-- Go's `map[string]V`: an association list in which a key stands once.
pub mod Every
pub mod Unique
pub mod Keys
use Prim.Native.String.{String}
use mathlib.Core.Path.{◌≡◌, refl}
use mathlib.Core.Bool.{Bool, true, false}
use mathlib.Core.Option.{Option, none, some}
use mathlib.Core.List.{List, [], ◌∷◌}
use native.Mathlib.Omega.{arith}
use text.Mathlib.Text.{◌==◌}
use text.Mathlib.TextEquality.{eq_iff}
use azure_keyvault_emulator.Prelude.Tests.{if◌then◌else◌}

abbrev pub Dict {ℓ} : Type ℓ → Type ℓ
Dict V = List (String × V)

module _ {ℓ} {V : Type ℓ} where
  -- `m[k]`, with `none` for the zero value of a missing key.
  unfoldable pub lookup : String → Dict V → Option V
  lookup k [] = none
  lookup k (e ∷ m) = if e.0 == k then some e.1 else lookup k m

  -- `_, ok := m[k]`
  abbrev pub contains : String → Dict V → Bool
  contains k m = elim (lookup k m) [ none ↦ false | some _ ↦ true ]

  -- `delete(m, k)`
  unfoldable pub erase : String → Dict V → Dict V
  erase k [] = []
  erase k (e ∷ m) = let others = erase k m in if e.0 == k then others else e ∷ others

  -- `m[k] = v`
  unfoldable pub insert : String → V → Dict V → Dict V
  insert k v [] = (k, v) ∷ []
  insert k v (e ∷ m) = if e.0 == k then (k, v) ∷ m else e ∷ insert k v m

  -- `for k := range m`
  unfoldable pub keys : Dict V → List String
  keys [] = []
  keys ((k, _) ∷ m) = k ∷ keys m

  -- `for k, v := range m { out[k] = v }`
  unfoldable pub copy_into : Dict V → Dict V → Dict V
  unfolding insert
  copy_into out [] = out
  copy_into out ((k, v) ∷ m) = copy_into (insert k v out) m

  pub lookup-erase :
      (k j : String) (m : Dict V) → lookup j (erase k m) ≡ (if k == j then none else lookup j m)
  unfolding lookup erase
  lookup-erase k j [] = ground arith
  lookup-erase k j (e ∷ m) =
      ground (arith, eq_iff e.0 k, eq_iff e.0 j, eq_iff k j, lookup-erase k j m)

  pub lookup-insert :
      (k j : String) (v : V) (m : Dict V)
      → lookup j (insert k v m) ≡ (if k == j then some v else lookup j m)
  unfolding lookup insert
  lookup-insert k j v [] = ground arith
  lookup-insert k j v (e ∷ m) =
      ground (arith, eq_iff e.0 k, eq_iff e.0 j, eq_iff k j, lookup-insert k j v m)

pub ruleset dict_laws = (lookup-insert, lookup-erase)
