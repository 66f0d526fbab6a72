-- ===== src/Prelude/Dict/Keys.antt =====
-- The keys of a map, each of which it has once.
use mathlib.Core.List.{[], ◌∷◌}
use mathlib.Core.Path.{◌≡◌, refl, ◌∙◌}
use native.Mathlib.Omega.{arith}
use azure_keyvault_emulator.Prelude.Dict.{Dict, lookup, contains, keys}
use azure_keyvault_emulator.Prelude.Dict.Unique.{IsUnique}
use azure_keyvault_emulator.Prelude.Sort.Same.{has, IsOnce}
use Prim.Native.String.{String}

module _ {V : Type 0} where
  pub has-keys : (k : String) (m : Dict V) → has k (keys m) ≡ contains k m
  unfolding has keys lookup
  has-keys k [] = refl
  has-keys k ((j, v) ∷ m) = ground (arith, has-keys k m)

  pub keys-IsOnce : (m : Dict V) → IsUnique m → IsOnce (keys m)
  unfolding keys
  keys-IsOnce [] h = tt
  keys-IsOnce ((j, v) ∷ m) h = (has-keys j m ∙ rw (h.0, contains) refl, keys-IsOnce m h.1)
