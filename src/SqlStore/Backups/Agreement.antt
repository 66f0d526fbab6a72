-- ===== src/SqlStore/Backups/Agreement.antt =====
-- BackupSecret of internal/store/sqlstore/sqlstore.go beside that of internal/store/secrets.go.
use mathlib.Core.Path.{subst}
use azure_keyvault_emulator.Prelude.{
  String, ◌≡◌, refl, List, [], ◌∷◌, map, Option-cases, inl, inr, last?-some,
}
use azure_keyvault_emulator.Prelude.Dict.{lookup}
use azure_keyvault_emulator.Prelude.Outcome.{ok, err}
use azure_keyvault_emulator.Store.{Store, SecretRecord}
use azure_keyvault_emulator.Store.Secrets
use azure_keyvault_emulator.Store.Secrets.Records.{
  clone_secret_record, BackupCodec, find_secret_version, latest_secret, secret_not_found,
}
use azure_keyvault_emulator.Store.Secrets.Reads.{versions_of}
use azure_keyvault_emulator.Store.Secrets.Safety.{AreSecretsWellFormed}
use azure_keyvault_emulator.Storer.{of_store}
use azure_keyvault_emulator.SqlStore.{SecretVersionSnapshot, Tables, Driver, where_, is_named}
use azure_keyvault_emulator.SqlStore.SoftDeletes.{record_of}
use azure_keyvault_emulator.SqlStore.Backups.{backup_secret}
use azure_keyvault_emulator.SqlStore.Represents.{Holds, Represents, Snapped}
use azure_keyvault_emulator.SqlStore.Snapshots.{snapped}
use azure_keyvault_emulator.SqlStore.Writes.{Agree}
use azure_keyvault_emulator.SqlStore.Deletion.{latest_row, snapshots_of}

map-Snapped :
    (name : String) (snaps : List SecretVersionSnapshot) (vs : List SecretRecord)
    → Snapped name snaps vs
    → map (record_of name) snaps ≡ map clone_secret_record vs
map-Snapped name [] [] h = refl
map-Snapped name [] (v ∷ vs) h = absurd h
map-Snapped name (snap ∷ snaps) [] h = absurd h
map-Snapped name (snap ∷ snaps) (v ∷ vs) h = rw (h.0, map-Snapped name snaps vs h.1) refl

module _ (driver : Driver) {M : Type 0} (db : Tables) (s : Store M)
    (r : Represents driver db s) where
  pub backup_secret-agrees :
      (codec : BackupCodec) (name : String)
      → AreSecretsWellFormed s
      → Agree driver (backup_secret driver codec name db) (Secrets.backup_secret codec name s)
  unfolding backup_secret Secrets.backup_secret find_secret_version latest_secret
  backup_secret-agrees codec name w = elim (Option-cases (lookup name s.secrets)) [
    | inl missing ↦
        rw
          (
            latest_row driver db s r name {answer = err (of_store (secret_not_found name))}
                (rw missing refl),
            missing,
          )
          (refl, r)
    | inr (entry, found) ↦
        let good = w.live_entry name entry found in
        let (latest, last) = last?-some entry.versions good.filled in
        let (snaps, read, all, _) =
          snapped driver name (where_ (is_named name) db.secrets) entry.versions
            (subst (λ o. Holds driver (where_ (is_named name) db.secrets) (versions_of o)) found
              (r.live name))
            good.named in
        rw
          (
            latest_row driver db s r name {answer = ok (clone_secret_record latest)}
                (rw (found, last) refl),
            snapshots_of driver db s r name read,
            map-Snapped name snaps entry.versions all,
            found,
          )
          (refl, r)
  ]
