-- ===== src/Prelude/Dict/Every.antt =====
-- What holds of every entry of a map, under each update.
use Prim.Native.String.{String}
use mathlib.Core.Path.{◌≡◌, subst₂}
use mathlib.Core.Logic.{◌≢◌, ◌⊎◌, inl, inr}
use mathlib.Core.Option.{some}
use native.Mathlib.Omega.{arith}
use text.Mathlib.TextEquality.{eq_iff}
use azure_keyvault_emulator.Prelude.Dict.{Dict, lookup, insert, erase, lookup-insert, lookup-erase}

module _ {V : Type 0} where
  abbrev pub Every : (String → V → Type 0) → Dict V → Type 0
  Every P m = (k : String) (v : V) → lookup k m ≡ some v → P k v

  -- What is found after an insertion is the new entry, or an entry of another key.
  pub found_after_insert :
      (name k : String) (v w : V) (m : Dict V)
      → lookup k (insert name v m) ≡ some w
      → (name ≡ k) × (v ≡ w) ⊎ (name ≢ k) × (lookup k m ≡ some w)
  found_after_insert name k v w m h = ground (arith, lookup-insert name k v m, eq_iff name k)

  pub found_after_erase :
      (name k : String) (w : V) (m : Dict V)
      → lookup k (erase name m) ≡ some w
      → (name ≢ k) × (lookup k m ≡ some w)
  found_after_erase name k w m h = ground (arith, lookup-erase name k m, eq_iff name k)

  pub insert-Every :
      (P : String → V → Type 0) (name : String) (v : V) (m : Dict V)
      → P name v
      → ((k : String) (w : V) → name ≢ k → lookup k m ≡ some w → P k w)
      → Every P (insert name v m)
  insert-Every P name v m p others k w h = elim (found_after_insert name k v w m h) [
    | inl (same, e) ↦ subst₂ P same e p
    | inr (differ, old) ↦ others k w differ old
  ]

  pub erase-Every :
      (P : String → V → Type 0) (name : String) (m : Dict V)
      → ((k : String) (w : V) → name ≢ k → lookup k m ≡ some w → P k w)
      → Every P (erase name m)
  erase-Every P name m others k w h =
      let (differ, old) = found_after_erase name k w m h in others k w differ old
