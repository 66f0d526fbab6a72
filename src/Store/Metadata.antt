-- ===== src/Store/Metadata.antt =====
-- Attributes and tags: cloneTags, cloneAttributes, buildAttributes, mergeAttributes, newVersion
-- and newRecoveryID of internal/store/store.go.
pub mod Clones
use Prim.Native.String.{◌++◌}
use azure_keyvault_emulator.Prelude.{ℕ, String, Option, none, some, List, []}
use azure_keyvault_emulator.Prelude.Dict.{copy_into}
use azure_keyvault_emulator.Prelude.Text.Hex.{hex_encode}
use azure_keyvault_emulator.Model.{Attributes, Tags}

abbrev pub recovery_level : String
recovery_level = "Recoverable+Purgeable"

abbrev pub recoverable_days : ℕ
recoverable_days = 90

-- `make` and a loop over the map.
unfoldable pub clone_tags : Tags → Tags
clone_tags none = none
clone_tags (some tags) = some (copy_into [] tags)

-- `if p != nil { v := *p; out = &v }`
abbrev pub copied : {A : Type 0} → Option A → Option A → Option A
copied none out = out
copied (some v) out = some v

unfoldable pub clone_attributes : Attributes → Attributes
clone_attributes in_ = record in_ {
  enabled = copied in_.enabled in_.enabled;
  not_before = copied in_.not_before in_.not_before;
  expires = copied in_.expires in_.expires;
}

fill_attributes : Option Attributes → Attributes → Attributes
fill_attributes none attrs = attrs
fill_attributes (some input) attrs = record attrs {
  enabled = copied input.enabled attrs.enabled;
  not_before = copied input.not_before attrs.not_before;
  expires = copied input.expires attrs.expires;
}

unfoldable pub build_attributes : Option Attributes → ℕ → ℕ → Attributes
unfolding fill_attributes
build_attributes input created updated = fill_attributes input (record {
  enabled = none;
  not_before = none;
  expires = none;
  created = created;
  updated = updated;
  recovery_level = recovery_level;
  recoverable_days = recoverable_days;
})

unfoldable pub merge_attributes : ℕ → Attributes → Option Attributes → Attributes
unfolding fill_attributes clone_attributes
merge_attributes now current patch =
    let out = fill_attributes patch (clone_attributes current) in
    record out {
      updated = now;
      recovery_level = recovery_level;
      recoverable_days = recoverable_days;
    }

-- The sixteen bytes that `storeRandRead` gives, in hexadecimal.
unfoldable pub new_version : List ℕ → String
new_version buf = hex_encode buf

unfoldable pub new_recovery_id : String → String → List ℕ → String
unfolding new_version
new_recovery_id kind name buf = "/deleted" ++ (kind ++ ("/" ++ (name ++ ("/" ++ new_version buf))))
