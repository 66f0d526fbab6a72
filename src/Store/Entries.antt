-- ===== src/Store/Entries.antt =====
-- The entries of the store's maps, which are alike for secrets, keys and certificates:
-- secretEntry, keyEntry and certificateEntry, and the three types of deleted entries.
pub mod Appended
pub mod Versions
pub mod WellFormed
use azure_keyvault_emulator.Prelude.{
  ℕ, String, Option, none, some, List, [], ◌∷◌, ◌++◌, ◌==◌, if◌then◌else◌,
}
use azure_keyvault_emulator.Prelude.Outcome.{Outcome, ok, err, panic}
use azure_keyvault_emulator.Prelude.Dict.{Dict, lookup, insert}

-- The versions of a name, the oldest first.
pub record Entry (V : Type 0) : Type 0 where
  pub versions : List V

pub record DeletedEntry (V : Type 0) : Type 0 where
  pub entry : Entry V
  pub recovery_id : String
  pub deleted_date : ℕ
  pub scheduled_purge_date : ℕ

module _ {V : Type 0} where
  -- `&secretEntry{}` where the name has no entry yet, and `append(entry.versions, version)`.
  unfoldable pub appended : Option (Entry V) → V → Entry V
  appended none v = record { versions = v ∷ [] }
  appended (some entry) v = record { versions = entry.versions ++ v ∷ [] }

  unfoldable pub put_version : String → V → Dict (Entry V) → Dict (Entry V)
  unfolding appended
  put_version name v entries = insert name (appended (lookup name entries) v) entries

module _ {V : Type 0} (version_of : V → String) where
  -- The loop of findSecretVersion: the first version that has the id.
  unfoldable pub find_id : String → List V → Option V
  find_id version [] = none
  find_id version (current ∷ rest) =
      if version_of current == version then some current else find_id version rest

  -- A write through the pointer that the loop returns.
  unfoldable pub change_id : String → (V → V) → List V → List V
  change_id version f [] = []
  change_id version f (current ∷ rest) =
      if version_of current == version then f current ∷ rest else current ∷ change_id version f rest

-- A write through the pointer to the last version.
module _ {V : Type 0} where
  unfoldable pub change_last : (V → V) → List V → List V
  change_last f [] = []
  change_last f (v ∷ []) = f v ∷ []
  change_last f (v ∷ w ∷ rest) = v ∷ change_last f (w ∷ rest)

-- `if latest != nil { items = append(items, …) }`, seen from the front.
abbrev pub prepend_if : {A : Type 0} → Option A → List A → List A
prepend_if none items = items
prepend_if (some item) items = item ∷ items

-- A round of a loop that may panic, and the rounds behind it.
abbrev pub append_item : {E A : Type 0} → Outcome E A → Outcome E (List A) → Outcome E (List A)
append_item (ok item) (ok items) = ok (item ∷ items)
append_item (ok item) (err e) = err e
append_item (ok item) panic = panic
append_item (err e) rest = err e
append_item panic rest = panic
