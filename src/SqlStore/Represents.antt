-- ===== src/SqlStore/Represents.antt =====
-- When the tables of internal/store/sqlstore/sqlstore.go hold the secrets of an in-memory store of
-- internal/store, and what GetSecret of the two answers then.
use azure_keyvault_emulator.Prelude.{
  Bool, true, false, ◌≤◌, String, ◌≡◌, refl, ap, Option, none, some, List, [], ◌∷◌, arith, ◌==◌,
  last?, if◌then◌else◌, Bool-cases, inl, inr,
}
use azure_keyvault_emulator.Prelude.Dict.{lookup}
use azure_keyvault_emulator.Prelude.Outcome.{Outcome, ok, err, panic}
use azure_keyvault_emulator.Store.{
  Store, new_store, SecretRecord, SecretEntry, DeletedSecretRecord, DeletedSecretEntry,
}
use azure_keyvault_emulator.Store.Entries.{find_id}
use azure_keyvault_emulator.Store.Secrets.Records.{
  clone_secret_record, find_secret_version, latest_secret, version_of, secret_not_found,
  deleted_record,
}
use azure_keyvault_emulator.Store.Secrets
use azure_keyvault_emulator.Store.Secrets.Reads.{got, got_version, versions_of, get_secret-eq}
use azure_keyvault_emulator.Storer.{AnyError, of_store, named_error}
use azure_keyvault_emulator.SqlStore.{
  SecretRow, DeletedSecretRow, SecretVersionSnapshot, Tables, Driver, where_, any, first, is_named,
  is_deleted,
}
use azure_keyvault_emulator.SqlStore.Secrets.{
  scan, selected_version, all_secret_version_snapshots, get_secret_version_row, get_secret,
}
use azure_keyvault_emulator.SqlStore.SoftDeletes.{deleted_secret_from_row, record_of}
use azure_keyvault_emulator.Prelude.Sort.Same.{IsOnce}
use azure_keyvault_emulator.SqlStore.Statements.{
  IsRising, AreDistinct, first-newest_first, where_version, deleted_names,
}

-- The tables that `migrate` makes.
abbrev pub no_rows : Tables
no_rows = record { secrets = []; deleted_secrets = [] }

-- What JSON writes, it reads back: the columns of a record, and the payload of the versions of a name.
abbrev pub IsReadBack : Driver → SecretRecord → Type 0
IsReadBack driver rec =
    ((driver.attributes).unmarshal ((driver.attributes).marshal rec.attributes) ≡ ok rec.attributes)
    × ((driver.tags).unmarshal ((driver.tags).marshal rec.tags) ≡ ok rec.tags)

abbrev pub IsPayloadReadBack : Driver → String → Tables → Type 0
IsPayloadReadBack driver name db =
    (snaps : List SecretVersionSnapshot)
    → all_secret_version_snapshots driver name db ≡ (ok snaps, db)
    → (driver.payload).unmarshal ((driver.payload).marshal (record { versions = snaps }))
      ≡ ok (record { versions = snaps })

-- The answer of GetDeletedSecret of the in-memory store for the entry of a name.
abbrev pub deleted_version :
    DeletedSecretEntry → Option SecretRecord → Outcome AnyError DeletedSecretRecord
deleted_version d none = panic
deleted_version d (some latest) = ok (deleted_record d (clone_secret_record latest))

-- Snapshots that say what the versions of a secret say.
abbrev pub Snapped : String → List SecretVersionSnapshot → List SecretRecord → Type 0
Snapped name [] [] = Unit
Snapped name [] (v ∷ vs) = ⊥
Snapped name (snap ∷ snaps) [] = ⊥
Snapped name (snap ∷ snaps) (v ∷ vs) =
    (record_of name snap ≡ clone_secret_record v) × Snapped name snaps vs

-- Snapshots of which none was taken before the one before it.
abbrev pub AreSnapsRising : List SecretVersionSnapshot → Type 0
AreSnapsRising [] = Unit
AreSnapsRising (snap ∷ []) = Unit
AreSnapsRising (snap ∷ next ∷ snaps) =
    (snap.created_at ≤ next.created_at) × AreSnapsRising (next ∷ snaps)

-- No two snapshots have the same version.
abbrev pub AreSnapsDistinct : List SecretVersionSnapshot → Type 0
AreSnapsDistinct [] = Unit
AreSnapsDistinct (snap ∷ snaps) =
    (any (λ x. x.version == snap.version) snaps ≡ false) × AreSnapsDistinct snaps

module _ (driver : Driver) where
  -- Rows that read as the versions of a secret, in the same order.
  abbrev pub Holds : List SecretRow → List SecretRecord → Type 0
  Holds [] [] = Unit
  Holds [] (v ∷ vs) = ⊥
  Holds (row ∷ rows) [] = ⊥
  Holds (row ∷ rows) (v ∷ vs) = (scan driver row ≡ ok (clone_secret_record v)) × Holds rows vs

  pub if-Holds :
      (b : Bool) (rows rows' : List SecretRow) (vs vs' : List SecretRecord)
      → Holds rows vs
      → (b ≡ true → Holds rows' vs')
      → Holds (if b then rows' else rows) (if b then vs' else vs)
  if-Holds true rows rows' vs vs' h k = k refl
  if-Holds false rows rows' vs vs' h k = h

  -- A payload from which the versions of the deleted secret can be inserted again.
  abbrev pub IsRecoverable : DeletedSecretRow → DeletedSecretEntry → Type 0
  IsRecoverable row d =
      (snaps : List SecretVersionSnapshot) × ((driver.payload).unmarshal row.versions
        ≡ ok (record { versions = snaps }))
      × Snapped row.name snaps d.entry.versions
      × AreSnapsRising snaps
      × AreSnapsDistinct snaps

  -- A row, if there is one, that reads as the deleted secret.
  abbrev pub HoldsDeleted : Option DeletedSecretRow → Option DeletedSecretEntry → Type 0
  HoldsDeleted none none = Unit
  HoldsDeleted none (some d) = ⊥
  HoldsDeleted (some row) none = ⊥
  HoldsDeleted (some row) (some d) =
      (deleted_secret_from_row driver row ≡ deleted_version d (last? d.entry.versions))
      × IsRecoverable row d

  -- The tables hold what the store holds: for every name the same versions, made one after
  -- another and distinct, and the same deleted secret, each in one row.
  pub record Represents {M : Type 0} (db : Tables) (s : Store M) : Type 0 where
    pub live :
        (name : String)
        → Holds (where_ (is_named name) db.secrets) (versions_of (lookup name s.secrets))
    pub rising : (name : String) → IsRising (where_ (is_named name) db.secrets)
    pub distinct : (name : String) → AreDistinct (where_ (is_named name) db.secrets)
    pub once : IsOnce (deleted_names db.deleted_secrets)
    pub deleted :
        (name : String)
        → HoldsDeleted
            (first (where_ (is_deleted name) db.deleted_secrets))
            (lookup name s.deleted_secrets)

  -- The answer of getSecretVersionRow for the row that is selected.
  abbrev pub scanned : String → Option SecretRow → Outcome AnyError SecretRecord
  scanned name none = err (of_store (secret_not_found name))
  scanned name (some row) = scan driver row

  pub get_secret_version_row-eq :
      (name version : String) (db : Tables)
      → get_secret_version_row driver name version db
        ≡ (scanned name (selected_version name version db.secrets), db)
  unfolding get_secret_version_row
  get_secret_version_row-eq name version db = ground arith

  scan-version :
      (row : SecretRow) (v : SecretRecord)
      → scan driver row ≡ ok (clone_secret_record v)
      → row.version ≡ v.version
  unfolding scan clone_secret_record
  scan-version row v h = ground arith

  Holds-last? :
      (name : String) (rows : List SecretRow) (vs : List SecretRecord)
      → Holds rows vs
      → scanned name (last? rows) ≡ named_error (got_version name (last? vs))
  Holds-last? name [] [] h = refl
  Holds-last? name [] (v ∷ vs) h = absurd h
  Holds-last? name (row ∷ rows) [] h = absurd h
  Holds-last? name (row ∷ []) (v ∷ []) h = h.0
  Holds-last? name (row ∷ next ∷ rows) (v ∷ []) h = absurd h.1
  Holds-last? name (row ∷ []) (v ∷ w ∷ vs) h = absurd h.1
  Holds-last? name (row ∷ next ∷ rows) (v ∷ w ∷ vs) h = Holds-last? name (next ∷ rows) (w ∷ vs) h.1

  Holds-find_id :
      (name version : String) (rows : List SecretRow) (vs : List SecretRecord)
      → Holds rows vs
      → scanned name (first (where_ (λ row. row.version == version) rows))
        ≡ named_error (got_version name (find_id version_of version vs))
  unfolding where_ find_id
  Holds-find_id name version [] [] h = refl
  Holds-find_id name version [] (v ∷ vs) h = absurd h
  Holds-find_id name version (row ∷ rows) [] h = absurd h
  Holds-find_id name version (row ∷ rows) (v ∷ vs) h =
      let same : (row.version == version) ≡ (v.version == version) =
        ap (λ x. x == version) (scan-version row v h.0) in
      elim (Bool-cases (v.version == version)) [
        | inl hit ↦ rw (same, hit) h.0
        | inr miss ↦ rw (same, miss) (Holds-find_id name version rows vs h.1)
      ]

  got-eq :
      (name version : String) (o : Option SecretEntry)
      → got name version o
        ≡ got_version name (
            if version == ""
            then last? (versions_of o)
            else find_id version_of version (versions_of o))
  unfolding find_secret_version latest_secret find_id
  got-eq name version none = ground arith
  got-eq name version (some entry) = ground arith

  module _ {M : Type 0} {db : Tables} {s : Store M} (r : Represents db s) where
    pub selected_lem :
        (name version : String)
        → scanned name (selected_version name version db.secrets)
          ≡ named_error (got name version (lookup name s.secrets))
    unfolding selected_version
    selected_lem name version = elim (Bool-cases (version == "")) [
      | inl latest ↦
          rw (got-eq, latest, first-newest_first _ (r.rising name))
            (Holds-last? name _ _ (r.live name))
      | inr given ↦ rw (got-eq, given, where_version) (Holds-find_id name version _ _ (r.live name))
    ]

  module _ {M : Type 0} (db : Tables) (s : Store M) (r : Represents db s) where
    pub get_secret-agrees :
        (name version : String)
        → get_secret driver name version db
          ≡ (named_error (Secrets.get_secret name version s).0, db)
    unfolding get_secret
    get_secret-agrees name version =
        rw (get_secret_version_row-eq, selected_lem r, get_secret-eq) refl

    get_secret-same : (name version : String) → (Secrets.get_secret name version s).1 ≡ s
    get_secret-same name version = rw (get_secret-eq) refl

    pub get_secret-Represents :
        (name version : String)
        → Represents (get_secret driver name version db).1 (Secrets.get_secret name version s).1
    get_secret-Represents name version = rw (get_secret-agrees name version, get_secret-same) r

  pub no_rows-Represents : (M : Type 0) → Represents no_rows (new_store {M = M})
  unfolding where_ lookup
  no_rows-Represents M = record {
    live = λ _. tt;
    rising = λ _. tt;
    distinct = λ _. tt;
    once = tt;
    deleted = λ _. tt;
  }
