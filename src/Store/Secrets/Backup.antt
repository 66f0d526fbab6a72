-- ===== src/Store/Secrets/Backup.antt =====
-- BackupSecret and RestoreSecret of internal/store/secrets.go: what a backup brings back.
use mathlib.Core.Option
use mathlib.Core.Path.{ap₂}
use azure_keyvault_emulator.Prelude.{
  String, ◌≡◌, refl, ◌≢◌, ap, ◌∙◌, inl, inr, false, Option, none, some, List, [], ◌∷◌, map, arith,
  ◌==◌, eq_iff, eq_refl, last?, is_empty, Bool-cases,
}
use azure_keyvault_emulator.Prelude.Dict.{lookup, insert, erase, lookup-insert, lookup-erase}
use azure_keyvault_emulator.Prelude.Outcome.{ok}
use azure_keyvault_emulator.Store.{Store, SecretRecord, SecretEntry}
use azure_keyvault_emulator.Store.Metadata.{recovery_level, recoverable_days, clone_attributes}
use azure_keyvault_emulator.Store.Entries.{find_id}
use azure_keyvault_emulator.Store.Entries.Versions.{All}
use azure_keyvault_emulator.Store.Secrets.{backup_secret, restore_secret, get_secret}
use azure_keyvault_emulator.Store.Secrets.Records.{
  restored_versions, renamed, clone_secret_record, latest_secret, BackupCodec, SecretBackup,
  find_secret_version, version_of,
}
use azure_keyvault_emulator.Store.Secrets.Versions.{clone_secret_record_idem}
use azure_keyvault_emulator.Store.Secrets.Safety.{AreSecretsWellFormed}
use azure_keyvault_emulator.Store.Secrets.Reads.{got, got_version, get_secret-eq}

-- The attributes that every operation writes.
pub record IsStamped (r : SecretRecord) : Type 0 where
  pub level : r.attributes.recovery_level ≡ recovery_level
  pub days : r.attributes.recoverable_days ≡ recoverable_days

renamed-clone :
    (name : String) (v : SecretRecord)
    → v.name ≡ name
    → IsStamped v
    → renamed name (clone_secret_record v) ≡ clone_secret_record v
unfolding renamed clone_secret_record clone_attributes
renamed-clone name v same h = rw (← same, ← h.level, ← h.days)

-- A restored version is the clone that was backed up.
restored-clones :
    (name : String) (versions : List SecretRecord)
    → All (λ v. v.name ≡ name) versions
    → All IsStamped versions
    → restored_versions name (map clone_secret_record versions) ≡ map clone_secret_record versions
unfolding restored_versions
restored-clones name [] h stamped = refl
restored-clones name (v ∷ vs) h stamped =
    ap₂ (λ (x : SecretRecord) (xs : List SecretRecord). x ∷ xs)
      (ap clone_secret_record (renamed-clone name v h.0 stamped.0) ∙ clone_secret_record_idem v)
      (restored-clones name vs h.1 stamped.1)

find_id-clones :
    (version : String) (versions : List SecretRecord)
    → find_id version_of version (map clone_secret_record versions)
      ≡ Option.map clone_secret_record (find_id version_of version versions)
unfolding find_id clone_secret_record
find_id-clones version [] = refl
find_id-clones version (v ∷ vs) = ground (arith, find_id-clones version vs)

last?-clones :
    (versions : List SecretRecord)
    → last? (map clone_secret_record versions) ≡ Option.map clone_secret_record (last? versions)
last?-clones [] = refl
last?-clones (v ∷ []) = refl
last?-clones (v ∷ w ∷ vs) = last?-clones (w ∷ vs)

got-clones :
    (name version : String) (versions : List SecretRecord)
    → got name version (some (record { versions = map clone_secret_record versions }))
      ≡ got name version (some (record { versions = versions }))
unfolding find_secret_version latest_secret
got-clones name version versions = elim (Bool-cases (version == "")) [
  | inl empty ↦ rw empty (rw last?-clones (same (last? versions)))
  | inr given ↦ rw given (rw find_id-clones (same (find_id version_of version versions)))
]
  where
    same :
        (o : Option SecretRecord)
        → got_version name (Option.map clone_secret_record o) ≡ got_version name o
    same none = refl
    same (some v) = ap ok (clone_secret_record_idem v)

is_empty-clones :
    (versions : List SecretRecord)
    → versions ≢ []
    → is_empty (map clone_secret_record versions) ≡ false
is_empty-clones [] h = absurd (h refl)
is_empty-clones (v ∷ vs) h = refl

module _ {M : Type 0} (codec : BackupCodec) (name : String) (s t : Store M)
    (w : AreSecretsWellFormed s) {entry : SecretEntry} (live : lookup name s.secrets ≡ some entry)
    (stamped : All IsStamped entry.versions) (named : name ≢ "") where
  abbrev pub payload : SecretBackup
  payload = record { name = name; versions = map clone_secret_record entry.versions }

  backup_secret_live : backup_secret codec name s ≡ (ok (codec.encode payload), s)
  unfolding backup_secret
  backup_secret_live = ground arith

  restored_entry : SecretEntry
  restored_entry = record { versions = map clone_secret_record entry.versions }

  restored_latest :
      latest_secret restored_entry ≡ Option.map clone_secret_record (last? entry.versions)
  unfolding latest_secret restored_entry
  restored_latest = last?-clones entry.versions

  -- What RestoreSecret leaves of the two maps.
  restored :
      codec.decode (codec.encode payload) ≡ some payload
      → (restore_secret codec (codec.encode payload) t).1 ≡ record t {
        secrets = insert name restored_entry t.secrets;
        deleted_secrets = erase name t.deleted_secrets;
      }
  unfolding restore_secret restored_entry
  restored round_trip =
      let h = w.live_entry name entry live in
      ground (
        arith,
        round_trip,
        eq_iff name "",
        is_empty-clones entry.versions h.filled,
        restored-clones name entry.versions h.named stamped,
      )

  -- A backup of a live secret is a token that RestoreSecret takes back into any store: the name is
  -- then live there with the same versions, each read as in the store that was backed up, it is
  -- no longer deleted, and every other name is as it was. The condition is that decoding undoes
  -- encoding on this backup, and that the versions carry the standard recovery attributes.
  pub restore-backup :
      codec.decode (codec.encode payload) ≡ some payload
      → (backup_secret codec name s ≡ (ok (codec.encode payload), s))
        × ((version : String)
            → (get_secret name version (restore_secret codec (codec.encode payload) t).1).0
              ≡ (get_secret name version s).0)
        × (lookup name (restore_secret codec (codec.encode payload) t).1.deleted_secrets ≡ none)
        × ((j : String)
            → j ≢ name
            → (lookup j (restore_secret codec (codec.encode payload) t).1.secrets
                ≡ lookup j t.secrets)
              × (lookup j (restore_secret codec (codec.encode payload) t).1.deleted_secrets
                  ≡ lookup j t.deleted_secrets))
  unfolding restored_entry
  restore-backup round_trip = rw (restored round_trip) (
    backup_secret_live,
    (λ version.
        rw (get_secret-eq, get_secret-eq)
          (rw (lookup-insert, live, eq_refl) (got-clones name version entry.versions))),
    rw (lookup-erase, eq_refl) refl,
    (λ j differ. (
      ground (arith, eq_iff name j, lookup-insert name j restored_entry t.secrets),
      ground (arith, eq_iff name j, lookup-erase name j t.deleted_secrets),
    )),
  )
