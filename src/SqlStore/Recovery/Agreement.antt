-- ===== src/SqlStore/Recovery/Agreement.antt =====
-- RecoverDeletedSecret of internal/store/sqlstore/sqlstore.go beside that of
-- internal/store/secrets.go.
use mathlib.Core.Path.{subst}
use azure_keyvault_emulator.Prelude.{
  String, Bool-cases, true, false, ◌≡◌, refl, ap, ◌∙◌, sym, Option, none, some, List, [], ◌∷◌, ◌++◌,
  arith, ◌==◌, eq_iff, last?, not, Option-cases, inl, inr, ◌≢◌,
}
use mathlib.Core.Option.{some-injective}
use azure_keyvault_emulator.Prelude.Dict.{lookup, insert, erase}
use azure_keyvault_emulator.Prelude.Outcome.{ok, err}
use azure_keyvault_emulator.Store.{Store, SecretRecord, SecretEntry, DeletedSecretEntry}
use azure_keyvault_emulator.Store.Errors.{already_exists}
use azure_keyvault_emulator.Store.Entries.Versions.{All}
use azure_keyvault_emulator.Store.Secrets
use azure_keyvault_emulator.Store.Secrets.Records.{
  clone_secret_record, latest_secret, deleted_secret_not_found,
}
use azure_keyvault_emulator.Store.Secrets.Reads.{versions_of}
use azure_keyvault_emulator.Store.Secrets.Safety.{AreSecretsWellFormed}
use azure_keyvault_emulator.Storer.{of_store}
use azure_keyvault_emulator.SqlStore.{
  DeletedSecretRow, SecretVersionSnapshot, Tables, Driver, where_, any, first, is_named, is_deleted,
  delete_deleted_rows,
}
use azure_keyvault_emulator.SqlStore.SoftDeletes.{
  record_of, get_deleted_secret_row, recover_deleted_secret,
}
use azure_keyvault_emulator.SqlStore.Statements.{if-kept, IsRising, AreDistinct}
use azure_keyvault_emulator.SqlStore.Represents.{
  if-Holds, IsReadBack, Holds, HoldsDeleted, Represents, Snapped, AreSnapsRising, AreSnapsDistinct,
}
use azure_keyvault_emulator.SqlStore.Writes.{Agree}
use azure_keyvault_emulator.SqlStore.Deleted.{
  HoldsDeleted-none, HoldsDeleted-some, erase_deleted-Represents,
}
use azure_keyvault_emulator.SqlStore.Versions.{any-Holds}
use azure_keyvault_emulator.SqlStore.Updates.Agreement.{versions-insert}
use azure_keyvault_emulator.SqlStore.Recovery.{
  recovered_rows, nowhere-AreNew, insert_snapshots-eq, where_-recovered_rows,
  recovered_rows-IsRising, recovered_rows-AreDistinct, Holds-recovered_rows,
}

-- JSON reads back what a RecoverDeletedSecret of a name writes.
abbrev pub IsRecoverReadBack : Driver → String → Tables → Type 0
IsRecoverReadBack driver name db =
    (row : DeletedSecretRow) (snaps : List SecretVersionSnapshot)
    → get_deleted_secret_row driver name db ≡ (ok row, db)
    → (driver.payload).unmarshal row.versions ≡ ok (record { versions = snaps })
    → All (λ snap. IsReadBack driver (record_of name snap)) snaps

first-where_ :
    (name : String) (rows : List DeletedSecretRow) {row : DeletedSecretRow}
    → first (where_ (is_deleted name) rows) ≡ some row
    → row.name ≡ name
unfolding where_
first-where_ name [] h = cc
first-where_ name (r ∷ rows) {row} h = elim (Bool-cases (r.name == name)) [
  | inl hit ↦
      let same : some r ≡ some row = rw hit at h in
      ap (λ x. x.name) (some-injective _ _ (sym same)) ∙ (eq_iff r.name name).0 hit
  | inr miss ↦ first-where_ name rows (rw miss at h)
]

last?-Snapped :
    (name : String) (snaps : List SecretVersionSnapshot) (vs : List SecretRecord)
    → Snapped name snaps vs
    → vs ≢ []
    → (snap : SecretVersionSnapshot) × (v : SecretRecord) × (last? snaps ≡ some snap)
      × (last? vs ≡ some v)
      × (record_of name snap ≡ clone_secret_record v)
last?-Snapped name [] [] h filled = absurd (filled refl)
last?-Snapped name [] (v ∷ vs) h filled = absurd h
last?-Snapped name (snap ∷ snaps) [] h filled = absurd h
last?-Snapped name (snap ∷ []) (v ∷ []) h filled = (snap, v, refl, refl, h.0)
last?-Snapped name (snap ∷ next ∷ snaps) (v ∷ []) h filled = absurd h.1
last?-Snapped name (snap ∷ []) (v ∷ w ∷ vs) h filled = absurd h.1
last?-Snapped name (snap ∷ next ∷ snaps) (v ∷ w ∷ vs) h filled =
    last?-Snapped name (next ∷ snaps) (w ∷ vs) h.1 (λ e. cc)

module _ (driver : Driver) {M : Type 0} (db : Tables) (s : Store M) (r : Represents driver db s)
    (name : String) where
  recover-Represents :
      (entry : SecretEntry) (snaps : List SecretVersionSnapshot)
      → any (is_named name) db.secrets ≡ false
      → Snapped name snaps entry.versions
      → AreSnapsRising snaps
      → AreSnapsDistinct snaps
      → All (λ snap. IsReadBack driver (record_of name snap)) snaps
      → Represents driver
          (record db { secrets = db.secrets ++ recovered_rows driver name 0 snaps })
          (record s { secrets = insert name entry s.secrets })
  recover-Represents entry snaps free snapped rising distinct back = record {
    live = λ j.
        rw
          (
            where_-recovered_rows driver name j 0 db.secrets snaps free,
            versions-insert driver name j entry s.secrets,
          )
          (if-Holds driver (name == j) _ _ _ _ (r.live j)
            (λ _. Holds-recovered_rows driver name 0 snaps entry.versions snapped back));
    rising = λ j. rw (where_-recovered_rows driver name j 0 db.secrets snaps free) (
        if-kept IsRising (name == j) (r.rising j)
          (λ _. recovered_rows-IsRising driver name 0 snaps rising));
    distinct = λ j. rw (where_-recovered_rows driver name j 0 db.secrets snaps free) (
        if-kept AreDistinct (name == j) (r.distinct j)
          (λ _. recovered_rows-AreDistinct driver name 0 snaps distinct));
    once = r.once;
    deleted = r.deleted;
  }

  tables-exists :
      any (is_named name) db.secrets ≡ true
      → recover_deleted_secret driver name db ≡ (err (of_store (already_exists "Secret" name)), db)
  unfolding recover_deleted_secret
  tables-exists h = rw h refl

  tables-missing :
      any (is_named name) db.secrets ≡ false
      → first (where_ (is_deleted name) db.deleted_secrets) ≡ none
      → recover_deleted_secret driver name db ≡ (err (of_store (deleted_secret_not_found name)), db)
  unfolding recover_deleted_secret get_deleted_secret_row
  tables-missing h e = rw (h, e) refl

  selected-row :
      {row : DeletedSecretRow}
      → first (where_ (is_deleted name) db.deleted_secrets) ≡ some row
      → get_deleted_secret_row driver name db ≡ (ok row, db)
  unfolding get_deleted_secret_row
  selected-row e = rw e refl

  tables-recovered :
      {row : DeletedSecretRow} {snaps : List SecretVersionSnapshot} {latest : SecretVersionSnapshot}
      → any (is_named name) db.secrets ≡ false
      → get_deleted_secret_row driver name db ≡ (ok row, db)
      → (driver.payload).unmarshal row.versions ≡ ok (record { versions = snaps })
      → AreSnapsDistinct snaps
      → last? snaps ≡ some latest
      → recover_deleted_secret driver name db ≡ (
        ok (record_of name latest),
        record {
          secrets = db.secrets ++ recovered_rows driver name 0 snaps;
          deleted_secrets = where_ (λ row. not (is_deleted name row)) db.deleted_secrets;
        },
      )
  unfolding recover_deleted_secret delete_deleted_rows
  tables-recovered {snaps = snaps} h e payload distinct last =
      rw
        (
          h,
          e,
          payload,
          insert_snapshots-eq driver name 0 snaps db (nowhere-AreNew driver name db.secrets snaps h)
              distinct,
          last,
        )
        refl

  memory-exists :
      {entry : SecretEntry}
      → lookup name s.secrets ≡ some entry
      → Secrets.recover_deleted_secret name s ≡ (err (already_exists "Secret" name), s)
  unfolding Secrets.recover_deleted_secret
  memory-exists h = ground arith

  memory-missing :
      lookup name s.secrets ≡ none
      → lookup name s.deleted_secrets ≡ none
      → Secrets.recover_deleted_secret name s ≡ (err (deleted_secret_not_found name), s)
  unfolding Secrets.recover_deleted_secret
  memory-missing h e = ground arith

  memory-recovered :
      {d : DeletedSecretEntry} {latest : SecretRecord}
      → lookup name s.secrets ≡ none
      → lookup name s.deleted_secrets ≡ some d
      → last? d.entry.versions ≡ some latest
      → Secrets.recover_deleted_secret name s ≡ (
        ok (clone_secret_record latest),
        record s {
          secrets = insert name d.entry s.secrets;
          deleted_secrets = erase name s.deleted_secrets;
        },
      )
  unfolding Secrets.recover_deleted_secret latest_secret
  memory-recovered absent h e = ground arith

  deleted_row :
      {o : Option DeletedSecretEntry}
      → lookup name s.deleted_secrets ≡ o
      → HoldsDeleted driver (first (where_ (is_deleted name) db.deleted_secrets)) o
  deleted_row e =
      subst (HoldsDeleted driver (first (where_ (is_deleted name) db.deleted_secrets))) e
        (r.deleted name)

  recovered-agrees :
      (row : DeletedSecretRow) (d : DeletedSecretEntry)
      → any (is_named name) db.secrets ≡ false
      → first (where_ (is_deleted name) db.deleted_secrets) ≡ some row
      → lookup name s.secrets ≡ none
      → lookup name s.deleted_secrets ≡ some d
      → d.entry.versions ≢ []
      → IsRecoverReadBack driver name db
      → Agree driver (recover_deleted_secret driver name db) (Secrets.recover_deleted_secret name s)
  recovered-agrees row d free selected absent gone filled back =
      let (_, recoverable) =
        subst (λ o. HoldsDeleted driver o (some d)) selected (deleted_row gone) in
      let (snaps, payload, all, rising, distinct) = recoverable in
      let snapped =
        subst (λ x. Snapped x snaps d.entry.versions)
          (first-where_ name db.deleted_secrets selected) all in
      let (snap, v, last_snap, last_v, same) =
        last?-Snapped name snaps d.entry.versions snapped filled in
      rw
        (
          tables-recovered free (selected-row selected) payload distinct last_snap,
          memory-recovered absent gone last_v,
        )
        (
          ap ok same,
          erase_deleted-Represents driver
              (record db { secrets = db.secrets ++ recovered_rows driver name 0 snaps })
              (record s { secrets = insert name d.entry s.secrets })
              (recover-Represents d.entry snaps free snapped rising distinct
                (back row snaps (selected-row selected) payload))
              name,
        )

  pub recover_deleted_secret-agrees :
      AreSecretsWellFormed s
      → IsRecoverReadBack driver name db
      → Agree driver (recover_deleted_secret driver name db) (Secrets.recover_deleted_secret name s)
  recover_deleted_secret-agrees w back = elim (Option-cases (lookup name s.secrets)) [
    | inl absent ↦
        let free = (any-Holds driver name db.secrets _ (r.live name)).0 (rw absent refl) in
        elim (Option-cases (lookup name s.deleted_secrets)) [
          | inl missing ↦
              rw
                (
                  tables-missing free (HoldsDeleted-none driver _ (deleted_row missing)),
                  memory-missing absent missing,
                )
                (refl, r)
          | inr (d, gone) ↦
              let (row, selected) = HoldsDeleted-some driver _ d (deleted_row gone) in
              recovered-agrees row d free selected absent gone
                ((w.deleted_entry name d gone).filled) back
        ]
    | inr (entry, found) ↦
        let held =
          subst (λ o. Holds driver (where_ (is_named name) db.secrets) (versions_of o)) found
            (r.live name) in
        rw
          (
            tables-exists (
                (any-Holds driver name db.secrets _ held).1
                  ((w.live_entry name entry found).filled)),
            memory-exists found,
          )
          (refl, r)
  ]
