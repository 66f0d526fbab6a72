-- ===== src/SqlStore/Deletion.antt =====
-- DeleteSecret of internal/store/sqlstore/sqlstore.go beside that of internal/store/secrets.go.
use mathlib.Core.Path.{subst}
use azure_keyvault_emulator.Prelude.{
  ℕ, ◌+◌, ◌*◌, String, true, false, ◌≡◌, refl, ◌∙◌, none, some, List, [], ◌∷◌, ◌++◌, arith, ◌==◌,
  eq_iff, not, Option-cases, last?, inl, inr, last?-some,
}
use azure_keyvault_emulator.Prelude.Dict.{lookup, contains, insert, erase, lookup-insert}
use azure_keyvault_emulator.Prelude.Outcome.{Outcome, ok, err}
use azure_keyvault_emulator.Store.{Store, SecretRecord, SecretEntry, DeletedSecretEntry}
use azure_keyvault_emulator.Store.Metadata.{new_recovery_id, recoverable_days}
use azure_keyvault_emulator.Store.Secrets.Records.{
  clone_secret_record, deleted_record, latest_secret, find_secret_version, deleted_secret,
  secret_not_found,
}
use azure_keyvault_emulator.Store.Secrets
use azure_keyvault_emulator.Store.Secrets.Safety.{AreSecretsWellFormed}
use azure_keyvault_emulator.Store.Secrets.Reads.{versions_of, got}
use azure_keyvault_emulator.Storer.{AnyError, of_store, named_error}
use azure_keyvault_emulator.SqlStore.{
  SecretRow, DeletedSecretRow, SecretVersionSnapshot, Tables, Driver, where_, any, is_named,
  is_deleted, insert_deleted_row, delete_rows,
}
use azure_keyvault_emulator.SqlStore.Secrets.{
  snapshot, each, get_secret_version_row, all_secret_version_snapshots,
}
use azure_keyvault_emulator.SqlStore.SoftDeletes.{delete_secret, deleted_secret_from_row}
use azure_keyvault_emulator.SqlStore.Statements.{
  IsRising, AreDistinct, if-kept, append-IsOnce, where_-append, where_-deleted,
  oldest_first-IsRising,
}
use azure_keyvault_emulator.SqlStore.Represents.{
  if-Holds, IsPayloadReadBack, Holds, HoldsDeleted, Represents, get_secret_version_row-eq,
  selected_lem,
}
use azure_keyvault_emulator.SqlStore.Writes.{Agree, Represents-deleted}
use azure_keyvault_emulator.SqlStore.Snapshots.{
  Dated-AreSnapsRising, Dated-AreSnapsDistinct, snapped, payload-Snapped,
}
use azure_keyvault_emulator.SqlStore.Deleted.{HoldsDeleted-if_inserted, versions-erase}

module _ (driver : Driver) {M : Type 0} (db : Tables) (s : Store M)
    (r : Represents driver db s) where
  delete-Represents :
      (row : DeletedSecretRow) (d : DeletedSecretEntry)
      → lookup row.name s.deleted_secrets ≡ none
      → HoldsDeleted driver (some row) (some d)
      → Represents driver
          (record {
            secrets = where_ (λ x. not (is_named row.name x)) db.secrets;
            deleted_secrets = db.deleted_secrets ++ row ∷ [];
          })
          (record s {
            secrets = erase row.name s.secrets;
            deleted_secrets = insert row.name d s.deleted_secrets;
          })
  delete-Represents row d absent reads = record {
    live = λ j.
        rw (where_-deleted (λ (x : SecretRow). x.name) row.name j, versions-erase driver row.name j)
          (if-Holds driver (row.name == j) _ _ _ _ (r.live j) (λ _. tt));
    rising = λ j.
        rw (where_-deleted (λ (x : SecretRow). x.name) row.name j)
          (if-kept IsRising (row.name == j) (r.rising j) (λ _. tt));
    distinct = λ j.
        rw (where_-deleted (λ (x : SecretRow). x.name) row.name j)
          (if-kept AreDistinct (row.name == j) (r.distinct j) (λ _. tt));
    once =
        append-IsOnce db.deleted_secrets row r.once
          (Represents-deleted driver r row.name ∙ rw (absent, contains) refl);
    deleted = λ j.
        rw (where_-append (is_deleted j), lookup-insert row.name j d)
          (HoldsDeleted-if_inserted driver (row.name == j) _ _ row d (r.deleted j)
            (λ hit.
              subst (λ x. lookup x s.deleted_secrets ≡ none) ((eq_iff row.name j).0 hit) absent)
            reads);
  }

  module _ (name : String) where
    pub latest_row :
        {answer : Outcome AnyError SecretRecord}
        → named_error (got name "" (lookup name s.secrets)) ≡ answer
        → get_secret_version_row driver name "" db ≡ (answer, db)
    latest_row e = rw (get_secret_version_row-eq, selected_lem driver r, e) refl

    pub snapshots_of :
        {snaps : List SecretVersionSnapshot}
        → each (snapshot driver) (where_ (is_named name) db.secrets) ≡ ok snaps
        → all_secret_version_snapshots driver name db ≡ (ok snaps, db)
    unfolding all_secret_version_snapshots
    snapshots_of e = rw (oldest_first-IsRising _ (r.rising name), e) refl

  module _ (now : ℕ) (buf : List ℕ) (name : String) where
    delete-failed :
        {e : AnyError}
        → get_secret_version_row driver name "" db ≡ (err e, db)
        → delete_secret driver now buf name db ≡ (err e, db)
    unfolding delete_secret
    delete-failed h = rw h refl

    delete-already :
        {latest : SecretRecord}
        → get_secret_version_row driver name "" db ≡ (ok latest, db)
        → any (is_deleted name) db.deleted_secrets ≡ true
        → delete_secret driver now buf name db ≡ (err (of_store (secret_not_found name)), db)
    unfolding delete_secret
    delete-already h present = rw (h, present) refl

    -- The row that DeleteSecret inserts.
    abbrev new_row : List SecretVersionSnapshot → DeletedSecretRow
    new_row snaps = record {
      name = name;
      recovery_id = new_recovery_id "secrets" name buf;
      deleted_date = now;
      scheduled_purge_date = now + recoverable_days * 24 * 60 * 60;
      versions = (driver.payload).marshal (record { versions = snaps });
    }

    delete-done :
        {latest : SecretRecord} {snaps : List SecretVersionSnapshot}
        → get_secret_version_row driver name "" db ≡ (ok latest, db)
        → any (is_deleted name) db.deleted_secrets ≡ false
        → all_secret_version_snapshots driver name db ≡ (ok snaps, db)
        → delete_secret driver now buf name db ≡ (
          ok (record {
            secret = latest;
            recovery_id = new_recovery_id "secrets" name buf;
            deleted_date = now;
            scheduled_purge_date = now + recoverable_days * 24 * 60 * 60;
          }),
          record {
            secrets = where_ (λ x. not (is_named name x)) db.secrets;
            deleted_secrets = db.deleted_secrets ++ new_row snaps ∷ [];
          },
        )
    unfolding delete_secret insert_deleted_row delete_rows
    delete-done h free snapshots = rw (h, free, snapshots, free) refl

    memory-missing :
        lookup name s.secrets ≡ none
        → Secrets.delete_secret now buf name s ≡ (err (secret_not_found name), s)
    unfolding Secrets.delete_secret
    memory-missing h = ground arith

    memory-already :
        {entry : SecretEntry}
        → lookup name s.secrets ≡ some entry
        → contains name s.deleted_secrets ≡ true
        → Secrets.delete_secret now buf name s ≡ (err (secret_not_found name), s)
    unfolding Secrets.delete_secret
    memory-already h e = rw (h, e) refl

    memory-done :
        {entry : SecretEntry} {latest : SecretRecord}
        → lookup name s.secrets ≡ some entry
        → contains name s.deleted_secrets ≡ false
        → last? entry.versions ≡ some latest
        → Secrets.delete_secret now buf name s ≡ (
          ok (deleted_record (deleted_secret now buf name entry) (clone_secret_record latest)),
          record s {
            secrets = erase name s.secrets;
            deleted_secrets = insert name (deleted_secret now buf name entry) s.deleted_secrets;
          },
        )
    unfolding Secrets.delete_secret latest_secret deleted_secret
    memory-done h absent e = rw (h, absent, e) refl

    pub delete_secret-agrees :
        IsPayloadReadBack driver name db
        → AreSecretsWellFormed s
        → Agree driver (delete_secret driver now buf name db) (Secrets.delete_secret now buf name s)
    unfolding find_secret_version latest_secret deleted_record deleted_secret
        deleted_secret_from_row
    delete_secret-agrees back w = elim (Option-cases (lookup name s.secrets)) [
      | inl missing ↦
          rw
            (
              delete-failed {e = of_store (secret_not_found name)}
                  (latest_row name (rw missing refl)),
              memory-missing missing,
            )
            (refl, r)
      | inr (entry, found) ↦
          let good = w.live_entry name entry found in
          let (latest, last) = last?-some entry.versions good.filled in
          let (snaps, taken_, all, dated) =
            snapped driver name (where_ (is_named name) db.secrets) entry.versions
              (subst (λ o. Holds driver (where_ (is_named name) db.secrets) (versions_of o)) found
                (r.live name))
              good.named in
          let selected =
            latest_row name {answer = ok (clone_secret_record latest)} (rw (found, last) refl) in
          elim (Option-cases (lookup name s.deleted_secrets)) [
            | inl absent ↦
                let free : contains name s.deleted_secrets ≡ false = rw (absent, contains) refl in
                rw
                  (
                    delete-done selected (Represents-deleted driver r name ∙ free)
                        (snapshots_of name taken_),
                    memory-done found free last,
                  )
                  (
                    refl,
                    delete-Represents (new_row snaps) (deleted_secret now buf name entry) absent (
                      rw (back snaps (snapshots_of name taken_)) (
                          payload-Snapped driver (new_row snaps) (deleted_secret now buf name entry)
                            snaps entry.versions all good.filled refl refl refl),
                      (
                        snaps,
                        back snaps (snapshots_of name taken_),
                        all,
                        Dated-AreSnapsRising (where_ (is_named name) db.secrets) snaps dated
                            (r.rising name),
                        Dated-AreSnapsDistinct (where_ (is_named name) db.secrets) snaps dated
                            (r.distinct name),
                      ),
                    ),
                  )
            | inr (d, gone) ↦
                let present : contains name s.deleted_secrets ≡ true = rw (gone, contains) refl in
                rw
                  (
                    delete-already selected (Represents-deleted driver r name ∙ present),
                    memory-already found present,
                  )
                  (refl, r)
          ]
    ]
