-- ===== src/Store/Keys.antt =====
-- The key operations of internal/store/keys.go that change or read the maps of keys, each one
-- whole, and latestKey of store.go. The cryptographic ones are in the child `Crypto`.
pub mod Records
pub mod Safety
pub mod Crypto
pub mod Calls
pub mod Deletion
pub mod Reads
pub mod Tests
use mathlib.Core.Option
use text.Mathlib.Text.{starts_with}
use azure_keyvault_emulator.Prelude.{
  ℕ, ◌+◌, ◌*◌, String, Bool, true, false, Option, none, some, List, [], ◌∷◌, ◌==◌, not, last?,
  is_empty, map, reverse, if◌then◌else◌,
}
use azure_keyvault_emulator.Prelude.Dict.{Dict, lookup, contains, insert, erase, keys}
use azure_keyvault_emulator.Prelude.Outcome.{
  Outcome, ok, err, panic, Method, pure, raise, gets, or_raise, deref, lift, raise_if, modify,
  continue, ◌>>=◌, ◌>>◌,
}
use azure_keyvault_emulator.Prelude.Sort.{sort_strings}
use azure_keyvault_emulator.Prelude.Text.Decimal.{ℤ}
use azure_keyvault_emulator.Model.{
  Attributes, Tags, JsonWebKey, CreateKeyRequest, ImportKeyRequest, UpdateKeyRequest,
}
use azure_keyvault_emulator.Crypto.Interface.{KeyCrypto, Fallible}
use azure_keyvault_emulator.Store.Errors.{
  Error, new_error, bad_parameter, not_found, deleted_not_found, currently_deleted, already_exists,
}
use azure_keyvault_emulator.Store.Metadata.{
  clone_tags, clone_attributes, build_attributes, merge_attributes, new_version, new_recovery_id,
  recoverable_days,
}
use azure_keyvault_emulator.Store.Entries.{
  Entry, DeletedEntry, put_version, find_id, change_id, change_last, prepend_if, append_item,
}
use azure_keyvault_emulator.Store.Pagination.{Page, paginate_names}
use azure_keyvault_emulator.Store.{
  Store, Call, KeyRecord, DeletedKeyRecord, KeyVersion, KeyEntry, DeletedKeyEntry,
}
use azure_keyvault_emulator.Store.Keys.Records.{
  clone_key_record, default_key_ops, deleted_key_not_found, deleted_key_record, key_not_found,
  new_key_record, or_bad_request, updated_key,
}

module _ {M : Type 0} where
  abbrev pub key_version_of : KeyVersion M → String
  key_version_of v = v.record_.version

  unfoldable pub latest_key : KeyEntry M → Option (KeyVersion M)
  latest_key entry = last? entry.versions

  unfoldable pub find_key_version : KeyEntry M → String → Option (KeyVersion M)
  find_key_version entry version =
      if version == "" then latest_key entry else find_id key_version_of version entry.versions

  -- A write to the version that `find_key_version` points to.
  unfoldable pub change_key_version :
      String → (KeyVersion M → KeyVersion M) → KeyEntry M → KeyEntry M
  change_key_version version f entry = record {
    versions =
        if version == ""
        then change_last f entry.versions
        else change_id key_version_of version f entry.versions;
  }

  -- latestKey of a pointer that may be nil.
  unfoldable pub latest_key_of : Option (KeyEntry M) → Option (KeyVersion M)
  latest_key_of none = none
  latest_key_of (some entry) = latest_key entry

  abbrev pub clone_of : KeyVersion M → KeyRecord
  clone_of v = clone_key_record v.record_

  -- The loop of ListKeys over a page of names.
  unfoldable pub listed_keys : Dict (KeyEntry M) → List String → List KeyRecord
  listed_keys entries [] = []
  listed_keys entries (name ∷ names) =
      prepend_if (Option.map clone_of (latest_key_of (lookup name entries)))
        (listed_keys entries names)

  unfoldable pub key_item_with :
      DeletedKeyEntry M → Option (KeyVersion M) → Outcome Error DeletedKeyRecord
  key_item_with d none = panic
  key_item_with d (some latest) = ok (deleted_key_record d (clone_of latest))

  -- One round of the loop of ListDeletedKeys.
  unfoldable pub deleted_key_item : Option (DeletedKeyEntry M) → Outcome Error DeletedKeyRecord
  unfolding key_item_with
  deleted_key_item none = panic
  deleted_key_item (some d) = key_item_with d (latest_key d.entry)

  unfoldable pub listed_deleted_keys :
      Dict (DeletedKeyEntry M) → List String → Outcome Error (List DeletedKeyRecord)
  listed_deleted_keys deleted [] = ok []
  listed_deleted_keys deleted (name ∷ names) =
      append_item (deleted_key_item (lookup name deleted)) (listed_deleted_keys deleted names)

  -- The entry that DeleteKey keeps.
  unfoldable pub deleted_key : ℕ → List ℕ → String → KeyEntry M → DeletedKeyEntry M
  deleted_key now buf name entry = record {
    entry = entry;
    recovery_id = new_recovery_id "keys" name buf;
    deleted_date = now;
    scheduled_purge_date = now + recoverable_days * 24 * 60 * 60;
  }

  -- The last steps of CreateKey and of ImportKey.
  unfoldable pub append_key : String → KeyRecord → M → Call M KeyRecord
  append_key name new material = do
    modify (λ s. record s {
      keys = put_version name (record { record_ = new; material = material }) s.keys;
    })
    pure (clone_key_record new)

  -- `buf` holds the bytes of the version, and `entropy` those that the key is made of.
  unfoldable pub create_key :
      KeyCrypto M → ℕ → List ℕ → List ℕ → String → CreateKeyRequest → Call M KeyRecord
  create_key crypto now buf entropy name req = do
    raise_if (name == "") (bad_parameter "Key name is required.")
    raise_if (req.kty == "") (bad_parameter "Key type is required.")
    deleted ← gets (λ s. contains name s.deleted_keys)
    raise_if deleted (currently_deleted "Key" name)
    let ops = default_key_ops req.kty req.key_ops
    (material, jwk) ← lift (
        or_bad_request "BadParameter"
          (crypto.generate_key entropy req.kty req.key_size req.crv "" ops))
    let new = new_key_record now buf name jwk req.attributes req.tags
    append_key name new material

  unfoldable pub import_key :
      KeyCrypto M → ℕ → List ℕ → String → ImportKeyRequest → Call M KeyRecord
  import_key crypto now buf name req = do
    raise_if (name == "") (bad_parameter "Key name is required.")
    raise_if (req.key.kty == "") (bad_parameter "Key type is required.")
    deleted ← gets (λ s. contains name s.deleted_keys)
    raise_if deleted (currently_deleted "Key" name)
    (material, jwk) ← lift (or_bad_request "BadParameter" (crypto.import_key req.key ""))
    let ops = default_key_ops req.key.kty req.key.key_ops
    let new = new_key_record now buf name (record jwk { key_ops = ops }) req.attributes req.tags
    append_key name new material

  unfoldable pub get_key : String → String → Call M KeyRecord
  get_key name version = do
    found ← gets (λ s. lookup name s.keys)
    entry ← or_raise found (key_not_found name)
    ver ← or_raise (find_key_version entry version) (key_not_found name)
    pure (clone_of ver)

  unfoldable pub list_keys : ℤ → String → Call M (Page KeyRecord)
  list_keys max_results skip_token = do
    names ← gets (λ s. sort_strings (keys s.keys))
    (page, next) ← lift (paginate_names names skip_token max_results)
    items ← gets (λ s. listed_keys s.keys page)
    pure (items, next)

  unfoldable pub list_key_versions : String → ℤ → String → Call M (Page KeyRecord)
  list_key_versions name max_results skip_token = do
    found ← gets (λ s. lookup name s.keys)
    entry ← or_raise found (key_not_found name)
    lift (paginate_names (map clone_of (reverse entry.versions)) skip_token max_results)

  unfoldable pub update_key : ℕ → String → String → UpdateKeyRequest → Call M KeyRecord
  update_key now name version req = do
    found ← gets (λ s. lookup name s.keys)
    entry ← or_raise found (key_not_found name)
    ver ← or_raise (find_key_version entry version) (key_not_found name)
    let changed = record ver { record_ = updated_key now req ver.record_ }
    modify (λ s. record s {
      keys = insert name (change_key_version version (λ _. changed) entry) s.keys;
    })
    pure (clone_of changed)

  unfoldable pub delete_key : ℕ → List ℕ → String → Call M DeletedKeyRecord
  delete_key now buf name = do
    found ← gets (λ s. lookup name s.keys)
    entry ← or_raise found (key_not_found name)
    already ← gets (λ s. contains name s.deleted_keys)
    raise_if already (key_not_found name)
    modify (λ s. record s { keys = erase name s.keys })
    let deleted = deleted_key now buf name entry
    modify (λ s. record s { deleted_keys = insert name deleted s.deleted_keys })
    latest ← deref (latest_key entry)
    pure (deleted_key_record deleted (clone_of latest))

  unfoldable pub list_deleted_keys : ℤ → String → Call M (Page DeletedKeyRecord)
  list_deleted_keys max_results skip_token = do
    names ← gets (λ s. sort_strings (keys s.deleted_keys))
    (page, next) ← lift (paginate_names names skip_token max_results)
    found ← gets (λ s. listed_deleted_keys s.deleted_keys page)
    items ← lift found
    pure (items, next)

  unfoldable pub get_deleted_key : String → Call M DeletedKeyRecord
  get_deleted_key name = do
    found ← gets (λ s. lookup name s.deleted_keys)
    deleted ← or_raise found (deleted_key_not_found name)
    latest ← deref (latest_key deleted.entry)
    pure (deleted_key_record deleted (clone_of latest))

  unfoldable pub purge_deleted_key : String → Call M (Unit {0})
  purge_deleted_key name = do
    present ← gets (λ s. contains name s.deleted_keys)
    raise_if (not present) (deleted_key_not_found name)
    modify (λ s. record s { deleted_keys = erase name s.deleted_keys })

  unfoldable pub recover_deleted_key : String → Call M KeyRecord
  recover_deleted_key name = do
    present ← gets (λ s. contains name s.keys)
    raise_if present (already_exists "Key" name)
    found ← gets (λ s. lookup name s.deleted_keys)
    deleted ← or_raise found (deleted_key_not_found name)
    modify (λ s. record s { keys = insert name deleted.entry s.keys })
    modify (λ s. record s { deleted_keys = erase name s.deleted_keys })
    latest ← deref (latest_key deleted.entry)
    pure (clone_of latest)

  -- putKeyVersion, which the certificate operations call.
  unfoldable pub put_key_version : String → String → KeyRecord → M → Call M KeyRecord
  put_key_version name version given material = do
    let new = record given { name = name; version = version }
    modify (λ s. record s {
      keys =
          put_version name (record { record_ = clone_key_record new; material = material }) s.keys;
    })
    pure new
