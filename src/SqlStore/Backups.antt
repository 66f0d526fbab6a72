-- ===== src/SqlStore/Backups.antt =====
-- BackupSecret and RestoreSecret of internal/store/sqlstore/sqlstore.go.
pub mod Agreement
use azure_keyvault_emulator.Prelude.{
  ℕ, suc, String, List, [], ◌∷◌, ◌==◌, ◌||◌, last?, is_empty, map,
}
use azure_keyvault_emulator.Prelude.Outcome.{pure, or_raise, deref, raise_if, ◌>>=◌, ◌>>◌}
use azure_keyvault_emulator.Store.{SecretRecord}
use azure_keyvault_emulator.Store.Metadata.{recovery_level, recoverable_days}
use azure_keyvault_emulator.Store.Secrets.Records.{invalid_backup, BackupCodec}
use azure_keyvault_emulator.Storer.{of_store}
use azure_keyvault_emulator.SqlStore.{Driver, Query, delete_rows, delete_deleted_rows}
use azure_keyvault_emulator.SqlStore.Secrets.{
  insert_secret_row, get_secret_version_row, all_secret_version_snapshots,
}
use azure_keyvault_emulator.SqlStore.SoftDeletes.{record_of}

-- A version of a backup, as RestoreSecret inserts it.
abbrev pub recoverable : String → SecretRecord → SecretRecord
recoverable name ver = record ver {
  name = name;
  attributes = record (ver.attributes) {
    recovery_level = recovery_level;
    recoverable_days = recoverable_days;
  };
}

module _ (driver : Driver) where
  unfoldable pub backup_secret : BackupCodec → String → Query String
  backup_secret codec name = do
    _ ← get_secret_version_row driver name ""
    snapshots ← all_secret_version_snapshots driver name
    pure (codec.encode (record { name = name; versions = map (record_of name) snapshots }))

  -- The loop of RestoreSecret from its round `i` on.
  unfoldable pub insert_versions : String → ℕ → List SecretRecord → Query (Unit {0})
  insert_versions name i [] = pure tt
  insert_versions name i (ver ∷ versions) = do
    insert_secret_row driver (recoverable name ver) i
    insert_versions name (suc i) versions

  unfoldable pub restore_secret : BackupCodec → String → Query SecretRecord
  restore_secret codec token = do
    payload ← or_raise (codec.decode token) (of_store invalid_backup)
    raise_if (payload.name == "" || is_empty payload.versions) (of_store invalid_backup)
    delete_rows payload.name
    delete_deleted_rows payload.name
    insert_versions payload.name 0 payload.versions
    latest ← deref (last? payload.versions)
    pure (record latest { name = payload.name })
