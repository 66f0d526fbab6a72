-- ===== src/SqlStore/Restoration/Agreement.antt =====
-- What RestoreSecret of internal/store/sqlstore/sqlstore.go and that of internal/store/secrets.go
-- answer to a token.
use azure_keyvault_emulator.Prelude.{
  String, false, ◌≡◌, refl, ap, some, List, [], ◌∷◌, ◌++◌, ◌==◌, ◌||◌, ◌≢◌, not, is_empty, last?,
  Option-cases, Bool-cases, inl, inr, last?-some,
}
use azure_keyvault_emulator.Prelude.Dict.{insert, erase}
use azure_keyvault_emulator.Prelude.Outcome.{ok}
use azure_keyvault_emulator.Store.{Store, SecretRecord, SecretEntry}
use azure_keyvault_emulator.Store.Entries.Versions.{All}
use azure_keyvault_emulator.Store.Secrets
use azure_keyvault_emulator.Store.Secrets.Records.{
  clone_secret_record, latest_secret, restored_versions, BackupCodec, SecretBackup,
}
use azure_keyvault_emulator.Store.Secrets.Safety.{or_false_right}
use azure_keyvault_emulator.SqlStore.{
  Tables, Driver, where_, is_named, is_deleted, delete_rows, delete_deleted_rows,
}
use azure_keyvault_emulator.SqlStore.Backups.{recoverable, restore_secret}
use azure_keyvault_emulator.SqlStore.Represents.{IsReadBack, Represents}
use azure_keyvault_emulator.SqlStore.Writes.{Agree}
use azure_keyvault_emulator.SqlStore.Deleted.{erase_deleted-Represents}
use azure_keyvault_emulator.SqlStore.Recovery.{recovered_rows, nowhere-AreNew, insert_snapshots-eq}
use azure_keyvault_emulator.SqlStore.Restoration.{
  IsOwn, AreVersionsDistinct, snapshots_of, Snapped-restored_versions, last?-restored_versions,
  snapshots_of-AreSnapsDistinct, snapshots_of-AreSnapsRising, any-deleted, insert_versions-eq,
  snapshots_of-IsReadBack, restore-Represents,
}

-- A token of the emulator: its versions are all different, and JSON reads back what a RestoreSecret
-- writes of them.
abbrev pub IsRestoreReadBack : Driver → BackupCodec → String → Type 0
IsRestoreReadBack driver codec token =
    (payload : SecretBackup)
    → codec.decode token ≡ some payload
    → All IsOwn payload.versions
      × AreVersionsDistinct payload.versions
      × All (λ ver. IsReadBack driver (recoverable payload.name ver)) payload.versions

filled : (vers : List SecretRecord) → is_empty vers ≡ false → vers ≢ []
filled [] h e = cc
filled (ver ∷ vers) h e = cc

module _ (driver : Driver) {M : Type 0} (db : Tables) (s : Store M) (r : Represents driver db s)
    (codec : BackupCodec) (token : String) where
  tables-restored :
      {payload : SecretBackup} {latest : SecretRecord}
      → codec.decode token ≡ some payload
      → (payload.name == "" || is_empty payload.versions) ≡ false
      → All IsOwn payload.versions
      → AreVersionsDistinct payload.versions
      → last? payload.versions ≡ some latest
      → restore_secret driver codec token db ≡ (
        ok (record latest { name = payload.name }),
        record {
          secrets =
              where_ (λ x. not (is_named payload.name x)) db.secrets
              ++ recovered_rows driver payload.name 0 (snapshots_of payload.versions);
          deleted_secrets = where_ (λ row. not (is_deleted payload.name row)) db.deleted_secrets;
        },
      )
  unfolding restore_secret delete_rows delete_deleted_rows
  tables-restored {payload} h good own distinct last =
      let free = any-deleted payload.name db.secrets in
      let snaps = snapshots_of payload.versions in
      rw
        (
          h,
          good,
          insert_versions-eq driver payload.name 0 payload.versions own,
          insert_snapshots-eq driver payload.name 0 snaps
              (record {
                secrets = where_ (λ x. not (is_named payload.name x)) db.secrets;
                deleted_secrets =
                    where_ (λ row. not (is_deleted payload.name row)) db.deleted_secrets;
              })
              (nowhere-AreNew driver payload.name _ snaps free)
              (snapshots_of-AreSnapsDistinct payload.versions distinct),
          last,
        )
        refl

  memory-restored :
      {payload : SecretBackup} {latest : SecretRecord}
      → codec.decode token ≡ some payload
      → (payload.name == "" || is_empty payload.versions) ≡ false
      → last? (restored_versions payload.name payload.versions) ≡ some latest
      → Secrets.restore_secret codec token s ≡ (
        ok (clone_secret_record latest),
        record s {
          secrets =
              insert payload.name
                (record { versions = restored_versions payload.name payload.versions })
                s.secrets;
          deleted_secrets = erase payload.name s.deleted_secrets;
        },
      )
  unfolding Secrets.restore_secret latest_secret
  memory-restored h good last = rw (h, good, last) refl

  pub restore_secret-agrees :
      IsRestoreReadBack driver codec token
      → Agree driver (restore_secret driver codec token db) (Secrets.restore_secret codec token s)
  unfolding restore_secret Secrets.restore_secret
  restore_secret-agrees fit = elim (Option-cases (codec.decode token)) [
    | inl bad ↦ rw bad (refl, r)
    | inr (payload, decoded) ↦ elim (Bool-cases (payload.name == "" || is_empty payload.versions)) [
      | inl bad ↦ rw (decoded, bad) (refl, r)
      | inr good ↦
          let (own, distinct, back) = fit payload decoded in
          let (latest, last) = last?-some payload.versions (
            filled payload.versions
              (or_false_right (payload.name == "") (is_empty payload.versions) good)) in
          let (restored, last_restored, same) =
            last?-restored_versions payload.name payload.versions own last in
          let snaps = snapshots_of payload.versions in
          let entry : SecretEntry = record {
            versions = restored_versions payload.name payload.versions;
          } in
          rw
            (
              tables-restored decoded good own distinct last,
              memory-restored decoded good last_restored,
            )
            (
              ap ok same,
              erase_deleted-Represents driver
                  (record db {
                    secrets =
                        where_ (λ x. not (is_named payload.name x)) db.secrets
                        ++ recovered_rows driver payload.name 0 snaps;
                  })
                  (record s { secrets = insert payload.name entry s.secrets })
                  (restore-Represents driver payload.name db s r entry snaps
                    (Snapped-restored_versions payload.name payload.versions own)
                    (snapshots_of-AreSnapsRising payload.versions)
                    (snapshots_of-AreSnapsDistinct payload.versions distinct)
                    (snapshots_of-IsReadBack driver payload.name payload.versions own back))
                  payload.name,
            )
    ]
  ]
