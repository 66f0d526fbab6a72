-- ===== src/Store/Metadata/Clones.antt =====
-- Clones: a clone of a clone is the clone, and a clone of attributes is the attributes.
use azure_keyvault_emulator.Prelude.{◌≡◌, refl, ap, Option, none, some, []}
use azure_keyvault_emulator.Prelude.Dict.{copy_into}
use azure_keyvault_emulator.Prelude.Dict.Unique.{copy_into-nil, copy_into-IsUnique}
use azure_keyvault_emulator.Model.{Attributes, Tags}
use azure_keyvault_emulator.Store.Metadata.{clone_tags, clone_attributes, copied}

copied_self : {A : Type 0} (o : Option A) → copied o o ≡ o
copied_self none = refl
copied_self (some v) = refl

pub clone_attributes_lem : (a : Attributes) → clone_attributes a ≡ a
unfolding clone_attributes
clone_attributes_lem a = rw (copied_self a.enabled, copied_self a.not_before, copied_self a.expires)

pub clone_tags_idem : (t : Tags) → clone_tags (clone_tags t) ≡ clone_tags t
unfolding clone_tags
clone_tags_idem none = refl
clone_tags_idem (some m) = ap some (copy_into-nil (copy_into [] m) (copy_into-IsUnique [] m tt))
