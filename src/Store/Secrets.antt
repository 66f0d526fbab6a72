-- ===== src/Store/Secrets.antt =====
-- The secret operations of internal/store/secrets.go, each one whole.
pub mod Records
pub mod Backup
pub mod Calls
pub mod Deletion
pub mod Reads
pub mod Listing
pub mod Safety
mod Tests
pub mod Versions
use mathlib.Core.Option
use azure_keyvault_emulator.Prelude.{
  ℕ, ◌+◌, ◌*◌, String, Bool, true, false, Option, none, some, List, [], ◌∷◌, ◌==◌, ◌||◌, not, last?,
  is_empty, map, reverse, if◌then◌else◌,
}
use azure_keyvault_emulator.Prelude.Dict.{Dict, lookup, contains, insert, erase, keys}
use azure_keyvault_emulator.Prelude.Outcome.{
  Outcome, ok, err, panic, Method, pure, raise, gets, or_raise, deref, lift, raise_if, modify,
  continue, ◌>>=◌, ◌>>◌,
}
use azure_keyvault_emulator.Prelude.Sort.{sort_strings}
use azure_keyvault_emulator.Prelude.Text.Decimal.{ℤ}
use azure_keyvault_emulator.Model.{Attributes, Tags, SecretSetRequest, SecretUpdateRequest}
use azure_keyvault_emulator.Store.Errors.{
  Error, bad_parameter, not_found, deleted_not_found, currently_deleted, already_exists,
}
use azure_keyvault_emulator.Store.Metadata.{
  clone_tags, clone_attributes, copied, build_attributes, merge_attributes, new_version,
  new_recovery_id, recovery_level, recoverable_days,
}
use azure_keyvault_emulator.Store.Entries.{
  Entry, DeletedEntry, appended, put_version, find_id, change_id, change_last, prepend_if,
  append_item,
}
use azure_keyvault_emulator.Store.Pagination.{Page, paginate_names}
use azure_keyvault_emulator.Store.{
  Store, Call, SecretRecord, DeletedSecretRecord, SecretEntry, DeletedSecretEntry,
}
use azure_keyvault_emulator.Store.Secrets.Records.{
  BackupCodec, SecretBackup, change_secret_version, clone_secret_record, deleted_item,
  deleted_record, deleted_secret, deleted_secret_not_found, find_secret_version, invalid_backup,
  item_with, latest_of, latest_secret, listed_deleted_secrets, listed_secrets, new_secret, renamed,
  restored_versions, secret_not_found, updated_secret, version_of, without_value,
}

module _ {M : Type 0} where
  unfoldable pub set_secret : ℕ → List ℕ → String → SecretSetRequest → Call M SecretRecord
  set_secret now buf name req = do
    raise_if (name == "") (bad_parameter "Secret name is required.")
    raise_if (req.value == "") (bad_parameter "Secret value is required.")
    deleted ← gets (λ s. contains name s.deleted_secrets)
    raise_if deleted (currently_deleted "Secret" name)
    let new = new_secret now buf name req
    modify (λ s. record s { secrets = put_version name new s.secrets })
    pure (clone_secret_record new)

  unfoldable pub get_secret : String → String → Call M SecretRecord
  get_secret name version = do
    found ← gets (λ s. lookup name s.secrets)
    entry ← or_raise found (secret_not_found name)
    ver ← or_raise (find_secret_version entry version) (secret_not_found name)
    pure (clone_secret_record ver)

  unfoldable pub update_secret : ℕ → String → String → SecretUpdateRequest → Call M SecretRecord
  update_secret now name version req = do
    found ← gets (λ s. lookup name s.secrets)
    entry ← or_raise found (secret_not_found name)
    ver ← or_raise (find_secret_version entry version) (secret_not_found name)
    let changed = updated_secret now req ver
    modify (λ s. record s {
      secrets = insert name (change_secret_version version (λ _. changed) entry) s.secrets;
    })
    pure (clone_secret_record changed)

  unfoldable pub list_secrets : ℤ → String → Call M (Page SecretRecord)
  list_secrets max_results skip_token = do
    names ← gets (λ s. sort_strings (keys s.secrets))
    (page, next) ← lift (paginate_names names skip_token max_results)
    items ← gets (λ s. listed_secrets s.secrets page)
    pure (items, next)

  unfoldable pub list_secret_versions : String → ℤ → String → Call M (Page SecretRecord)
  list_secret_versions name max_results skip_token = do
    found ← gets (λ s. lookup name s.secrets)
    entry ← or_raise found (secret_not_found name)
    lift (paginate_names (map without_value (reverse entry.versions)) skip_token max_results)

  unfoldable pub delete_secret : ℕ → List ℕ → String → Call M DeletedSecretRecord
  delete_secret now buf name = do
    found ← gets (λ s. lookup name s.secrets)
    entry ← or_raise found (secret_not_found name)
    already ← gets (λ s. contains name s.deleted_secrets)
    raise_if already (secret_not_found name)
    modify (λ s. record s { secrets = erase name s.secrets })
    let deleted = deleted_secret now buf name entry
    modify (λ s. record s { deleted_secrets = insert name deleted s.deleted_secrets })
    latest ← deref (latest_secret entry)
    pure (deleted_record deleted (clone_secret_record latest))

  unfoldable pub list_deleted_secrets : ℤ → String → Call M (Page DeletedSecretRecord)
  list_deleted_secrets max_results skip_token = do
    names ← gets (λ s. sort_strings (keys s.deleted_secrets))
    (page, next) ← lift (paginate_names names skip_token max_results)
    found ← gets (λ s. listed_deleted_secrets s.deleted_secrets page)
    items ← lift found
    pure (items, next)

  unfoldable pub get_deleted_secret : String → Call M DeletedSecretRecord
  get_deleted_secret name = do
    found ← gets (λ s. lookup name s.deleted_secrets)
    deleted ← or_raise found (deleted_secret_not_found name)
    latest ← deref (latest_secret deleted.entry)
    pure (deleted_record deleted (clone_secret_record latest))

  unfoldable pub purge_deleted_secret : String → Call M (Unit {0})
  purge_deleted_secret name = do
    present ← gets (λ s. contains name s.deleted_secrets)
    raise_if (not present) (deleted_secret_not_found name)
    modify (λ s. record s { deleted_secrets = erase name s.deleted_secrets })

  unfoldable pub recover_deleted_secret : String → Call M SecretRecord
  recover_deleted_secret name = do
    present ← gets (λ s. contains name s.secrets)
    raise_if present (already_exists "Secret" name)
    found ← gets (λ s. lookup name s.deleted_secrets)
    deleted ← or_raise found (deleted_secret_not_found name)
    modify (λ s. record s { secrets = insert name deleted.entry s.secrets })
    modify (λ s. record s { deleted_secrets = erase name s.deleted_secrets })
    latest ← deref (latest_secret deleted.entry)
    pure (clone_secret_record latest)

  unfoldable pub backup_secret : BackupCodec → String → Call M String
  backup_secret codec name = do
    found ← gets (λ s. lookup name s.secrets)
    entry ← or_raise found (secret_not_found name)
    pure (codec.encode (record { name = name; versions = map clone_secret_record entry.versions }))

  unfoldable pub restore_secret : BackupCodec → String → Call M SecretRecord
  restore_secret codec token = do
    payload ← or_raise (codec.decode token) invalid_backup
    raise_if (payload.name == "" || is_empty payload.versions) invalid_backup
    let entry : SecretEntry = record { versions = restored_versions payload.name payload.versions }
    modify (λ s. record s { secrets = insert payload.name entry s.secrets })
    modify (λ s. record s { deleted_secrets = erase payload.name s.deleted_secrets })
    latest ← deref (latest_secret entry)
    pure (clone_secret_record latest)

-- putSecretVersion, which the certificate operations call.
unfoldable pub put_secret_version :
    {M : Type 0} → String → String → String → String → Attributes → Tags → Call M SecretRecord
put_secret_version name version value content_type attrs tags = do
  let new : SecretRecord = record {
    name = name;
    version = version;
    value = value;
    content_type = content_type;
    attributes = clone_attributes attrs;
    tags = clone_tags tags;
  }
  modify (λ s. record s { secrets = put_version name new s.secrets })
  pure new
