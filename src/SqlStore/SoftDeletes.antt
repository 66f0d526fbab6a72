-- ===== src/SqlStore/SoftDeletes.antt =====
-- The operations of internal/store/sqlstore/sqlstore.go that delete and recover secrets, each one whole.
use Prim.Native.String.{◌++◌}
use azure_keyvault_emulator.Prelude.{
  ℕ, suc, ◌+◌, ◌*◌, String, Option, none, some, List, [], ◌∷◌, last?, map,
}
use azure_keyvault_emulator.Prelude.Outcome.{
  Outcome, ok, err, pure, gets, or_raise, deref, lift, raise_if, ◌>>=◌, ◌>>◌,
}
use azure_keyvault_emulator.Prelude.Sort.{sort_strings}
use azure_keyvault_emulator.Prelude.Text.Decimal.{ℤ}
use azure_keyvault_emulator.Store.{SecretRecord, DeletedSecretRecord}
use azure_keyvault_emulator.Store.Errors.{already_exists}
use azure_keyvault_emulator.Store.Metadata.{clone_tags, new_recovery_id, recoverable_days}
use azure_keyvault_emulator.Store.Pagination.{Page, paginate_names}
use azure_keyvault_emulator.Store.Secrets.Records.{secret_not_found, deleted_secret_not_found}
use azure_keyvault_emulator.Storer.{AnyError, of_store, plain, named_error}
use azure_keyvault_emulator.SqlStore.{
  DeletedSecretRow, SecretVersionSnapshot, Driver, Query, where_, any, first, is_named, is_deleted,
  insert_deleted_row, delete_rows, delete_deleted_rows,
}
use azure_keyvault_emulator.SqlStore.Secrets.{
  and_then, insert_secret_row, get_secret_version_row, all_secret_version_snapshots,
}

-- What a snapshot says of a version, under the name of the secret.
abbrev pub record_of : String → SecretVersionSnapshot → SecretRecord
record_of name snap = record {
  name = name;
  version = snap.version;
  value = snap.value;
  content_type = snap.content_type;
  attributes = snap.attributes;
  tags = clone_tags snap.tags;
}

unfoldable pub deleted_from_payload :
    DeletedSecretRow → Option SecretVersionSnapshot → Outcome AnyError DeletedSecretRecord
deleted_from_payload r none = err (plain ("deleted secret " ++ (r.name ++ " has no versions")))
deleted_from_payload r (some latest) = ok (record {
  secret = record_of r.name latest;
  recovery_id = r.recovery_id;
  deleted_date = r.deleted_date;
  scheduled_purge_date = r.scheduled_purge_date;
})

module _ (driver : Driver) where
  unfoldable pub delete_secret : ℕ → List ℕ → String → Query DeletedSecretRecord
  delete_secret now buf name = do
    latest ← get_secret_version_row driver name ""
    already ← gets (λ db. any (is_deleted name) db.deleted_secrets)
    raise_if already (of_store (secret_not_found name))
    snapshots ← all_secret_version_snapshots driver name
    let id = new_recovery_id "secrets" name buf
    let purge_date = now + recoverable_days * 24 * 60 * 60
    insert_deleted_row driver (record {
      name = name;
      recovery_id = id;
      deleted_date = now;
      scheduled_purge_date = purge_date;
      versions = (driver.payload).marshal (record { versions = snapshots });
    })
    delete_rows name
    pure (record {
      secret = latest;
      recovery_id = id;
      deleted_date = now;
      scheduled_purge_date = purge_date;
    })

  unfoldable pub get_deleted_secret_row : String → Query DeletedSecretRow
  get_deleted_secret_row name = do
    selected ← gets (λ db. first (where_ (is_deleted name) db.deleted_secrets))
    or_raise selected (of_store (deleted_secret_not_found name))

  unfoldable pub deleted_secret_from_row : DeletedSecretRow → Outcome AnyError DeletedSecretRecord
  deleted_secret_from_row r =
      and_then ((driver.payload).unmarshal r.versions)
        λ payload. deleted_from_payload r (last? payload.versions)

  -- The loop of ListDeletedSecrets over a page of names.
  unfoldable pub deleted_of_each : List String → Query (List DeletedSecretRecord)
  deleted_of_each [] = pure []
  deleted_of_each (name ∷ names) = do
    r ← get_deleted_secret_row name
    rec ← lift (deleted_secret_from_row r)
    rest ← deleted_of_each names
    pure (record rec { secret = record (rec.secret) { value = "" } } ∷ rest)

  unfoldable pub list_deleted_secrets : ℤ → String → Query (Page DeletedSecretRecord)
  list_deleted_secrets max_results skip_token = do
    names ← gets (λ db. sort_strings (map (λ (r : DeletedSecretRow). r.name) db.deleted_secrets))
    (page, next) ← lift (named_error (paginate_names names skip_token max_results))
    items ← deleted_of_each page
    pure (items, next)

  unfoldable pub get_deleted_secret : String → Query DeletedSecretRecord
  get_deleted_secret name = do r ← get_deleted_secret_row name; lift (deleted_secret_from_row r)

  unfoldable pub purge_deleted_secret : String → Query (Unit {0})
  purge_deleted_secret name = do _ ← get_deleted_secret_row name; delete_deleted_rows name

  -- The loop of RecoverDeletedSecret from its round `i` on.
  unfoldable pub insert_snapshots : String → ℕ → List SecretVersionSnapshot → Query (Unit {0})
  insert_snapshots name i [] = pure tt
  insert_snapshots name i (snap ∷ snaps) = do
    insert_secret_row driver (record_of name snap) (snap.created_at + i)
    insert_snapshots name (suc i) snaps

  unfoldable pub recover_deleted_secret : String → Query SecretRecord
  recover_deleted_secret name = do
    present ← gets (λ db. any (is_named name) db.secrets)
    raise_if present (of_store (already_exists "Secret" name))
    r ← get_deleted_secret_row name
    payload ← lift ((driver.payload).unmarshal r.versions)
    insert_snapshots name 0 payload.versions
    delete_deleted_rows name
    latest ← deref (last? payload.versions)
    pure (record_of name latest)
