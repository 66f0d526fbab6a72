-- ===== src/SqlStore/Restoration.antt =====
-- RestoreSecret of internal/store/sqlstore/sqlstore.go beside that of internal/store/secrets.go.
pub mod Agreement
use mathlib.Core.Option.{some-injective}
use mathlib.Core.Path.{subst}
use azure_keyvault_emulator.Prelude.{
  ℕ, suc, ◌+◌, String, Bool, true, false, ◌≡◌, refl, ap, ◌∙◌, sym, List, [], ◌∷◌, ◌++◌, arith, ◌==◌,
  not, eq_iff, map, if◌then◌else◌, Bool-cases, inl, inr, last?, some, none,
}
use azure_keyvault_emulator.Prelude.Dict.{lookup, insert}
use azure_keyvault_emulator.Prelude.Outcome.{◌>>◌}
use azure_keyvault_emulator.Store.{Store, SecretRecord, SecretEntry}
use azure_keyvault_emulator.Store.Metadata.{clone_tags, recovery_level, recoverable_days}
use azure_keyvault_emulator.Store.Metadata.Clones.{clone_attributes_lem, clone_tags_idem}
use azure_keyvault_emulator.Store.Entries.Versions.{All}
use azure_keyvault_emulator.Store.Secrets.Records.{clone_secret_record, renamed, restored_versions}
use azure_keyvault_emulator.Store.Secrets.Reads.{versions_of}
use azure_keyvault_emulator.SqlStore.{
  SecretRow, SecretVersionSnapshot, Tables, Driver, where_, any, is_named,
}
use azure_keyvault_emulator.SqlStore.Secrets.{insert_secret_row}
use azure_keyvault_emulator.SqlStore.SoftDeletes.{record_of, insert_snapshots}
use azure_keyvault_emulator.SqlStore.Backups.{recoverable, insert_versions}
use azure_keyvault_emulator.SqlStore.Statements.{if-kept, IsRising, AreDistinct, where_-deleted}
use azure_keyvault_emulator.SqlStore.Represents.{
  IsReadBack, Holds, Represents, Snapped, AreSnapsRising, AreSnapsDistinct,
}
use azure_keyvault_emulator.SqlStore.Updates.Agreement.{versions-insert}
use azure_keyvault_emulator.SqlStore.Recovery.{
  recovered_rows, where_-recovered_rows, recovered_rows-IsRising, recovered_rows-AreDistinct,
  Holds-recovered_rows,
}

-- A version of a token as the emulator makes them: as recoverable as a new one, with each tag once.
abbrev pub IsOwn : SecretRecord → Type 0
IsOwn ver =
    (ver.attributes.recovery_level ≡ recovery_level)
    × (ver.attributes.recoverable_days ≡ recoverable_days)
    × (clone_tags ver.tags ≡ ver.tags)

abbrev pub AreVersionsDistinct : List SecretRecord → Type 0
AreVersionsDistinct [] = Unit
AreVersionsDistinct (ver ∷ vers) =
    (any (λ x. x.version == ver.version) vers ≡ false) × AreVersionsDistinct vers

-- A snapshot from which RecoverDeletedSecret would insert the row of the version.
abbrev snapshot_of : SecretRecord → SecretVersionSnapshot
snapshot_of ver = record {
  version = ver.version;
  value = ver.value;
  content_type = ver.content_type;
  attributes = ver.attributes;
  tags = ver.tags;
  created_at = 0;
}

abbrev pub snapshots_of : List SecretRecord → List SecretVersionSnapshot
snapshots_of vers = map snapshot_of vers

module _ (name : String) where
  pub recoverable-IsOwn :
      (ver : SecretRecord) → IsOwn ver → recoverable name ver ≡ record ver { name = name }
  recoverable-IsOwn ver (level, days, _) i = record ver {
    name = name;
    attributes = record (ver.attributes) {
      recovery_level = sym level i;
      recoverable_days = sym days i;
    };
  }

  snapshot-IsOwn :
      (ver : SecretRecord)
      → IsOwn ver
      → record_of name (snapshot_of ver) ≡ record ver { name = name }
  snapshot-IsOwn ver (_, _, tags) i = record ver { name = name; tags = tags i }

  clone-IsOwn :
      (ver : SecretRecord)
      → IsOwn ver
      → clone_secret_record (renamed name ver) ≡ record ver { name = name }
  unfolding clone_secret_record renamed
  clone-IsOwn ver own = rw (clone_attributes_lem, own.2) (recoverable-IsOwn ver own)

  clone_again :
      (ver : SecretRecord)
      → IsOwn ver
      → clone_secret_record (record ver { name = name }) ≡ record ver { name = name }
  unfolding clone_secret_record
  clone_again ver own = rw (clone_attributes_lem, own.2) refl

  pub Snapped-restored_versions :
      (vers : List SecretRecord)
      → All IsOwn vers
      → Snapped name (snapshots_of vers) (restored_versions name vers)
  unfolding restored_versions
  Snapped-restored_versions [] h = tt
  Snapped-restored_versions (ver ∷ vers) h = (
    snapshot-IsOwn ver h.0
        ∙ sym (ap clone_secret_record (clone-IsOwn ver h.0) ∙ clone_again ver h.0),
    Snapped-restored_versions vers h.1,
  )

  pub last?-restored_versions :
      (vers : List SecretRecord) {latest : SecretRecord}
      → All IsOwn vers
      → last? vers ≡ some latest
      → (restored : SecretRecord) × (last? (restored_versions name vers) ≡ some restored)
        × (record latest { name = name } ≡ clone_secret_record restored)
  unfolding restored_versions
  last?-restored_versions [] h e = cc
  last?-restored_versions (ver ∷ []) {latest} h e = (
    clone_secret_record (renamed name ver),
    refl,
    ap (λ (x : SecretRecord). record x { name = name }) (sym (some-injective _ _ e))
        ∙ sym (ap clone_secret_record (clone-IsOwn ver h.0) ∙ clone_again ver h.0),
  )
  last?-restored_versions (ver ∷ next ∷ vers) h e = last?-restored_versions (next ∷ vers) h.1 e

any-snapshots_of :
    (version : String) (vers : List SecretRecord)
    → any (λ x. x.version == version) (snapshots_of vers) ≡ any (λ x. x.version == version) vers
unfolding any
any-snapshots_of version [] = refl
any-snapshots_of version (ver ∷ vers) = rw (any-snapshots_of version vers) refl

pub snapshots_of-AreSnapsDistinct :
    (vers : List SecretRecord) → AreVersionsDistinct vers → AreSnapsDistinct (snapshots_of vers)
snapshots_of-AreSnapsDistinct [] h = tt
snapshots_of-AreSnapsDistinct (ver ∷ vers) h =
    (any-snapshots_of ver.version vers ∙ h.0, snapshots_of-AreSnapsDistinct vers h.1)

pub snapshots_of-AreSnapsRising : (vers : List SecretRecord) → AreSnapsRising (snapshots_of vers)
snapshots_of-AreSnapsRising [] = tt
snapshots_of-AreSnapsRising (ver ∷ []) = tt
snapshots_of-AreSnapsRising (ver ∷ next ∷ vers) =
    (omega arith, snapshots_of-AreSnapsRising (next ∷ vers))

pub any-deleted :
    (name : String) (rows : List SecretRow)
    → any (is_named name) (where_ (λ x. not (is_named name x)) rows) ≡ false
unfolding any where_
any-deleted name [] = refl
any-deleted name (row ∷ rows) = ground (arith, any-deleted name rows)

module _ (driver : Driver) (name : String) where
  -- The loop of RestoreSecret inserts what that of RecoverDeletedSecret would.
  pub insert_versions-eq :
      (i : ℕ) (vers : List SecretRecord)
      → All IsOwn vers
      → insert_versions driver name i vers ≡ insert_snapshots driver name i (snapshots_of vers)
  unfolding insert_versions insert_snapshots
  insert_versions-eq i [] own = refl
  insert_versions-eq i (ver ∷ vers) own =
      let same : recoverable name ver ≡ record_of name (snapshot_of ver) =
        recoverable-IsOwn name ver own.0 ∙ sym (snapshot-IsOwn name ver own.0) in
      let at : i ≡ 0 + i = omega arith in
      let rest = insert_versions-eq (suc i) vers own.1 in
      λ j. insert_secret_row driver (same j) (at j) >> rest j

  pub snapshots_of-IsReadBack :
      (vers : List SecretRecord)
      → All IsOwn vers
      → All (λ ver. IsReadBack driver (recoverable name ver)) vers
      → All (λ snap. IsReadBack driver (record_of name snap)) (snapshots_of vers)
  snapshots_of-IsReadBack [] own back = tt
  snapshots_of-IsReadBack (ver ∷ vers) own back = (
    subst (IsReadBack driver)
        (recoverable-IsOwn name ver own.0 ∙ sym (snapshot-IsOwn name ver own.0)) back.0,
    snapshots_of-IsReadBack vers own.1 back.1,
  )

  module _ {M : Type 0} (db : Tables) (s : Store M) (r : Represents driver db s) where
    replaced-Holds :
        (entry : SecretEntry) (rows : List SecretRow) (b : Bool) (kept : List SecretRow)
        (vs : List SecretRecord)
        → Holds driver rows entry.versions
        → Holds driver kept vs
        → Holds driver
            (if b then rows else (if b then [] else kept))
            (if b then entry.versions else vs)
    replaced-Holds entry rows true kept vs h k = h
    replaced-Holds entry rows false kept vs h k = k

    pub restore-Represents :
        (entry : SecretEntry) (snaps : List SecretVersionSnapshot)
        → Snapped name snaps entry.versions
        → AreSnapsRising snaps
        → AreSnapsDistinct snaps
        → All (λ snap. IsReadBack driver (record_of name snap)) snaps
        → Represents driver
            (record db {
              secrets =
                  where_ (λ x. not (is_named name x)) db.secrets
                  ++ recovered_rows driver name 0 snaps;
            })
            (record s { secrets = insert name entry s.secrets })
    restore-Represents entry snaps snapped rising distinct back = record {
      live = λ j.
          rw
            (
              where_-recovered_rows driver name j 0 (where_ (λ x. not (is_named name x)) db.secrets)
                  snaps (any-deleted name db.secrets),
              where_-deleted (λ (x : SecretRow). x.name) name j,
              versions-insert driver name j entry s.secrets,
            )
            (replaced-Holds entry _ (name == j) _ _
              (Holds-recovered_rows driver name 0 snaps entry.versions snapped back) (r.live j));
      rising = λ j.
          rw
            (
              where_-recovered_rows driver name j 0 (where_ (λ x. not (is_named name x)) db.secrets)
                  snaps (any-deleted name db.secrets),
              where_-deleted (λ (x : SecretRow). x.name) name j,
            )
            (if-kept IsRising (name == j) (if-kept IsRising (name == j) (r.rising j) (λ _. tt))
              (λ _. recovered_rows-IsRising driver name 0 snaps rising));
      distinct = λ j.
          rw
            (
              where_-recovered_rows driver name j 0 (where_ (λ x. not (is_named name x)) db.secrets)
                  snaps (any-deleted name db.secrets),
              where_-deleted (λ (x : SecretRow). x.name) name j,
            )
            (if-kept AreDistinct (name == j)
              (if-kept AreDistinct (name == j) (r.distinct j) (λ _. tt))
              (λ _. recovered_rows-AreDistinct driver name 0 snaps distinct));
      once = r.once;
      deleted = r.deleted;
    }
