-- ===== src/SqlStore/Snapshots.antt =====
-- The snapshots that DeleteSecret of internal/store/sqlstore/sqlstore.go keeps of the versions, and the
-- deleted secret that deletedSecretFromRow reads from them.
use azure_keyvault_emulator.Prelude.{
  arith, ◌==◌, ℕ, String, ◌≡◌, ◌≢◌, refl, ap, ◌∙◌, List, [], ◌∷◌, last?,
}
use azure_keyvault_emulator.Prelude.Outcome.{Outcome, ok, err, panic, ok-injective}
use azure_keyvault_emulator.Model.{Attributes, Tags}
use azure_keyvault_emulator.Store.{SecretRecord, DeletedSecretRecord, DeletedSecretEntry}
use azure_keyvault_emulator.Store.Metadata.{clone_tags}
use azure_keyvault_emulator.Store.Metadata.Clones.{clone_tags_idem}
use azure_keyvault_emulator.Store.Entries.Versions.{All}
use azure_keyvault_emulator.Store.Secrets.Records.{clone_secret_record, deleted_record}
use azure_keyvault_emulator.Storer.{AnyError}
use azure_keyvault_emulator.SqlStore.Statements.{IsRising, AreDistinct}
use azure_keyvault_emulator.SqlStore.{
  any, SecretRow, DeletedSecretRow, SecretVersionSnapshot, Driver,
}
use azure_keyvault_emulator.SqlStore.Secrets.{scan, snapshot, each, and_then}
use azure_keyvault_emulator.SqlStore.SoftDeletes.{record_of, deleted_from_payload}
use azure_keyvault_emulator.SqlStore.Represents.{
  Holds, deleted_version, Snapped, AreSnapsRising, AreSnapsDistinct,
}

-- The record and the snapshot of a row whose JSON has been read.
abbrev read : SecretRow → Attributes → Tags → SecretRecord
read row attrs tags = record {
  name = row.name;
  version = row.version;
  value = row.value;
  content_type = row.content_type;
  attributes = attrs;
  tags = tags;
}

abbrev taken : SecretRow → Attributes → Tags → SecretVersionSnapshot
taken row attrs tags = record {
  version = row.version;
  value = row.value;
  content_type = row.content_type;
  attributes = attrs;
  tags = tags;
  created_at = row.created_at;
}

-- Snapshots with the versions and the times of the rows.
abbrev pub Dated : List SecretRow → List SecretVersionSnapshot → Type 0
Dated [] [] = Unit
Dated [] (snap ∷ snaps) = ⊥
Dated (row ∷ rows) [] = ⊥
Dated (row ∷ rows) (snap ∷ snaps) =
    ((snap.version ≡ row.version) × (snap.created_at ≡ row.created_at)) × Dated rows snaps

pub Dated-AreSnapsRising :
    (rows : List SecretRow) (snaps : List SecretVersionSnapshot)
    → Dated rows snaps
    → IsRising rows
    → AreSnapsRising snaps
Dated-AreSnapsRising [] [] h k = tt
Dated-AreSnapsRising [] (snap ∷ snaps) h k = absurd h
Dated-AreSnapsRising (row ∷ rows) [] h k = absurd h
Dated-AreSnapsRising (row ∷ []) (snap ∷ []) h k = tt
Dated-AreSnapsRising (row ∷ next ∷ rows) (snap ∷ []) h k = absurd h.1
Dated-AreSnapsRising (row ∷ []) (snap ∷ later ∷ snaps) h k = absurd h.1
Dated-AreSnapsRising (row ∷ next ∷ rows) (snap ∷ later ∷ snaps) h k =
    (omega (arith, h.0.1, h.1.0.1, k.0), Dated-AreSnapsRising (next ∷ rows) (later ∷ snaps) h.1 k.1)

any-Dated :
    (version : String) (rows : List SecretRow) (snaps : List SecretVersionSnapshot)
    → Dated rows snaps
    → any (λ x. x.version == version) snaps ≡ any (λ x. x.version == version) rows
unfolding any
any-Dated version [] [] h = refl
any-Dated version [] (snap ∷ snaps) h = absurd h
any-Dated version (row ∷ rows) [] h = absurd h
any-Dated version (row ∷ rows) (snap ∷ snaps) h = rw (h.0.0, any-Dated version rows snaps h.1) refl

pub Dated-AreSnapsDistinct :
    (rows : List SecretRow) (snaps : List SecretVersionSnapshot)
    → Dated rows snaps
    → AreDistinct rows
    → AreSnapsDistinct snaps
Dated-AreSnapsDistinct [] [] h k = tt
Dated-AreSnapsDistinct [] (snap ∷ snaps) h k = absurd h
Dated-AreSnapsDistinct (row ∷ rows) [] h k = absurd h
Dated-AreSnapsDistinct (row ∷ rows) (snap ∷ snaps) h k = (
  any-Dated snap.version rows snaps h.1 ∙ rw (h.0.0) k.0,
  Dated-AreSnapsDistinct rows snaps h.1 k.1,
)

module _ (driver : Driver) where
  snapshot-scan :
      (name : String) (row : SecretRow) (v : SecretRecord)
      → v.name ≡ name
      → scan driver row ≡ ok (clone_secret_record v)
      → (snap : SecretVersionSnapshot) × (snapshot driver row ≡ ok snap)
        × (record_of name snap ≡ clone_secret_record v)
        × (snap.version ≡ row.version)
        × (snap.created_at ≡ row.created_at)
  unfolding scan snapshot clone_secret_record
  snapshot-scan name row v named h =
      go ((driver.attributes).unmarshal row.attributes) ((driver.tags).unmarshal row.tags) h
    where
      go :
          (a : Outcome AnyError Attributes) (t : Outcome AnyError Tags)
          → and_then a (λ attrs. and_then t (λ tags. ok (read row attrs tags)))
            ≡ ok (clone_secret_record v)
          → (snap : SecretVersionSnapshot) × (and_then a
                (λ attrs. and_then t (λ tags. ok (taken row attrs tags)))
              ≡ ok snap)
            × (record_of name snap ≡ clone_secret_record v)
            × (snap.version ≡ row.version)
            × (snap.created_at ≡ row.created_at)
      go (ok a) (ok t) e = (
        taken row a t,
        refl,
        ap (λ (r : SecretRecord). record r { name = name; tags = clone_tags r.tags })
              (ok-injective e)
            ∙ rw (clone_tags_idem, named) refl,
        refl,
        refl,
      )
      go (ok a) (err e) h = cc
      go (ok a) panic h = cc
      go (err e) t h = cc
      go panic t h = cc

  pub snapped :
      (name : String) (rows : List SecretRow) (vs : List SecretRecord)
      → Holds driver rows vs
      → All (λ v. v.name ≡ name) vs
      → (snaps : List SecretVersionSnapshot) × (each (snapshot driver) rows ≡ ok snaps)
        × Snapped name snaps vs
        × Dated rows snaps
  snapped name [] [] h n = ([], refl, tt, tt)
  snapped name [] (v ∷ vs) h n = absurd h
  snapped name (row ∷ rows) [] h n = absurd h
  snapped name (row ∷ rows) (v ∷ vs) h n =
      let (snap, e, same, version, time) = snapshot-scan name row v n.0 h.0 in
      let (snaps, es, all, dated) = snapped name rows vs h.1 n.1 in
      (snap ∷ snaps, rw (e, es) refl, (same, all), ((version, time), dated))

  made :
      {r r' : SecretRecord} {i i' : String} {x x' y y' : ℕ}
      → r ≡ r'
      → i ≡ i'
      → x ≡ x'
      → y ≡ y'
      → Path DeletedSecretRecord
          (record { secret = r; recovery_id = i; deleted_date = x; scheduled_purge_date = y })
          (record { secret = r'; recovery_id = i'; deleted_date = x'; scheduled_purge_date = y' })
  made e i j k = cc

  -- The last snapshot makes the deleted record.
  pub payload-Snapped :
      (row : DeletedSecretRow) (d : DeletedSecretEntry) (snaps : List SecretVersionSnapshot)
      (vs : List SecretRecord)
      → Snapped row.name snaps vs
      → vs ≢ []
      → row.recovery_id ≡ d.recovery_id
      → row.deleted_date ≡ d.deleted_date
      → row.scheduled_purge_date ≡ d.scheduled_purge_date
      → deleted_from_payload row (last? snaps) ≡ deleted_version d (last? vs)
  unfolding deleted_from_payload deleted_record
  payload-Snapped row d [] [] h filled i j k = absurd (filled refl)
  payload-Snapped row d [] (v ∷ vs) h filled i j k = absurd h
  payload-Snapped row d (snap ∷ snaps) [] h filled i j k = absurd h
  payload-Snapped row d (snap ∷ []) (v ∷ []) h filled i j k = ap ok (made h.0 i j k)
  payload-Snapped row d (snap ∷ next ∷ snaps) (v ∷ []) h filled i j k = absurd h.1
  payload-Snapped row d (snap ∷ []) (v ∷ w ∷ vs) h filled i j k = absurd h.1
  payload-Snapped row d (snap ∷ next ∷ snaps) (v ∷ w ∷ vs) h filled i j k =
      payload-Snapped row d (next ∷ snaps) (w ∷ vs) h.1 (λ e. cc) i j k
