-- ===== src/Store/Keys/Records.antt =====
-- The records of the key operations of internal/store/keys.go, and defaultKeyOps of store.go.
use text.Mathlib.Text.{starts_with}
use azure_keyvault_emulator.Prelude.{
  ℕ, String, Option, none, some, List, [], ◌∷◌, not, is_empty, if◌then◌else◌,
}
use azure_keyvault_emulator.Prelude.Outcome.{Outcome, ok, err, panic}
use azure_keyvault_emulator.Model.{Attributes, Tags, JsonWebKey, UpdateKeyRequest}
use azure_keyvault_emulator.Crypto.Interface.{Fallible}
use azure_keyvault_emulator.Store.Errors.{Error, new_error, not_found, deleted_not_found}
use azure_keyvault_emulator.Store.Metadata.{
  clone_tags, clone_attributes, build_attributes, merge_attributes, new_version,
}
use azure_keyvault_emulator.Store.{KeyRecord, DeletedKeyRecord, DeletedKeyEntry}

-- In a value a copied slice is the slice: `append([]string(nil), ops...)`.
unfoldable pub clone_key_record : KeyRecord → KeyRecord
clone_key_record in_ = record in_ {
  attributes = clone_attributes in_.attributes;
  tags = clone_tags in_.tags;
}

unfoldable pub default_key_ops : String → List String → List String
default_key_ops kty ops =
    if not (is_empty ops)
    then ops
    else if starts_with kty "RSA"
    then "encrypt" ∷ "decrypt" ∷ "sign" ∷ "verify" ∷ "wrapKey" ∷ "unwrapKey" ∷ []
    else if starts_with kty "EC"
    then "sign" ∷ "verify" ∷ []
    else "encrypt" ∷ "decrypt" ∷ "wrapKey" ∷ "unwrapKey" ∷ []

unfoldable pub key_not_found : String → Error
key_not_found name = not_found "key" "KeyNotFound" name

unfoldable pub deleted_key_not_found : String → Error
deleted_key_not_found name = deleted_not_found "key" "KeyNotFound" name

-- An error of internal/crypto becomes a bad request with its text.
unfoldable pub or_bad_request : {A : Type 0} → String → Fallible A → Outcome Error A
or_bad_request code (ok a) = ok a
or_bad_request code (err text) = err (new_error 400 code text)
or_bad_request code panic = panic

-- The record that CreateKey and ImportKey append.
unfoldable pub new_key_record :
    ℕ → List ℕ → String → JsonWebKey → Option Attributes → Tags → KeyRecord
new_key_record now buf name jwk attributes tags = record {
  name = name;
  version = new_version buf;
  key = jwk;
  attributes = build_attributes attributes now now;
  tags = clone_tags tags;
}

-- What UpdateKey writes through the pointer.
unfoldable pub updated_key : ℕ → UpdateKeyRequest → KeyRecord → KeyRecord
updated_key now req ver = record ver {
  attributes = merge_attributes now ver.attributes req.attributes;
  tags = elim req.tags [ none ↦ ver.tags | some t ↦ clone_tags (some t) ];
  key = elim req.key_ops [ none ↦ ver.key | some ops ↦ record (ver.key) { key_ops = ops } ];
}

unfoldable pub deleted_key_record : {M : Type 0} → DeletedKeyEntry M → KeyRecord → DeletedKeyRecord
deleted_key_record deleted latest = record {
  key_record = latest;
  recovery_id = deleted.recovery_id;
  deleted_date = deleted.deleted_date;
  scheduled_purge_date = deleted.scheduled_purge_date;
}
