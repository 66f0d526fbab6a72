-- ===== src/Prelude/Dict/Unique.antt =====
-- A map holds a key at most once, and a copy of a map is the map.
use Prim.Native.String.{String}
use mathlib.Core.Path.{◌≡◌, refl, ◌∙◌}
use mathlib.Core.Option.{none}
use mathlib.Core.Logic.{◌≢◌}
use mathlib.Core.List.{[], ◌∷◌, ◌++◌, append-nil, append_assoc}
use native.Mathlib.Omega.{arith}
use text.Mathlib.TextEquality.{eq_iff}
use azure_keyvault_emulator.Prelude.Dict.{
  Dict, lookup, insert, erase, copy_into, lookup-insert, lookup-erase,
}

module _ {ℓ} {V : Type ℓ} where
  abbrev pub IsUnique : Dict V → Type ℓ
  IsUnique [] = Unit
  IsUnique ((k, _) ∷ m) = (lookup k m ≡ none) × IsUnique m

module _ {ℓ} {V : Type ℓ} where
  pub insert-IsUnique : (k : String) (v : V) (m : Dict V) → IsUnique m → IsUnique (insert k v m)
  unfolding lookup insert
  insert-IsUnique k v [] h = (refl, tt)
  insert-IsUnique k v ((j, w) ∷ m) h =
      ground (arith, eq_iff j k, eq_iff k j, insert-IsUnique k v m h.1, lookup-insert k j v m)

  pub erase-IsUnique : (k : String) (m : Dict V) → IsUnique m → IsUnique (erase k m)
  unfolding lookup erase
  erase-IsUnique k [] h = tt
  erase-IsUnique k ((j, w) ∷ m) h =
      ground (arith, eq_iff k j, erase-IsUnique k m h.1, lookup-erase k j m)

  pub copy_into-IsUnique : (out m : Dict V) → IsUnique out → IsUnique (copy_into out m)
  unfolding copy_into
  copy_into-IsUnique out [] h = h
  copy_into-IsUnique out ((k, v) ∷ m) h =
      copy_into-IsUnique (insert k v out) m (insert-IsUnique k v out h)

  insert_absent :
      (k : String) (v : V) (m : Dict V) → lookup k m ≡ none → insert k v m ≡ m ++ (k, v) ∷ []
  unfolding lookup insert
  insert_absent k v [] h = refl
  insert_absent k v ((j, w) ∷ m) h = ground (arith, insert_absent k v m)

  lookup_after :
      (out : Dict V) (k : String) (v : V) (m : Dict V) → lookup k (out ++ (k, v) ∷ m) ≢ none
  unfolding lookup
  lookup_after [] k v m h = ground (arith, eq_iff k k)
  lookup_after ((j, w) ∷ out) k v m h = ground (arith, lookup_after out k v m)

  absent_before :
      (out : Dict V) (k : String) (v : V) (m : Dict V)
      → IsUnique (out ++ (k, v) ∷ m)
      → lookup k out ≡ none
  unfolding lookup
  absent_before [] k v m h = refl
  absent_before ((j, w) ∷ out) k v m h =
      ground (arith, eq_iff j k, lookup_after out k v m, absent_before out k v m h.1)

  copy_into-append : (out m : Dict V) → IsUnique (out ++ m) → copy_into out m ≡ out ++ m
  unfolding copy_into
  copy_into-append out [] h = rw append-nil
  copy_into-append out ((k, v) ∷ m) h = rw (insert_absent k v out (absent_before out k v m h)) (
      copy_into-append (out ++ (k, v) ∷ []) m (rw append_assoc h)
      ∙ append_assoc out ((k, v) ∷ []) m)

  -- A copy of a map has the entries of the map.
  pub copy_into-nil : (m : Dict V) → IsUnique m → copy_into [] m ≡ m
  copy_into-nil m h = copy_into-append [] m h
