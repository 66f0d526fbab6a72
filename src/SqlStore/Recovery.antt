-- ===== src/SqlStore/Recovery.antt =====
-- The rows that the loop of RecoverDeletedSecret of internal/store/sqlstore/sqlstore.go inserts.
pub mod Agreement
use azure_keyvault_emulator.Prelude.{
  ℕ, suc, ◌+◌, ◌<◌, String, Bool, true, false, ◌≡◌, refl, ap, ◌∙◌, sym, Option, none, some, List,
  [], ◌∷◌, ◌++◌, arith, ◌==◌, ◌||◌, ◌&&◌, eq_iff, eq_refl, if◌then◌else◌, Bool-cases, inl, inr,
}
use azure_keyvault_emulator.Prelude.Outcome.{Outcome, ok, err, panic}
use azure_keyvault_emulator.Store.{SecretRecord}
use azure_keyvault_emulator.Store.Entries.Versions.{All}
use azure_keyvault_emulator.Store.Secrets.Records.{clone_secret_record}
use azure_keyvault_emulator.SqlStore.{
  SecretRow, SecretVersionSnapshot, Tables, Driver, where_, any, is_named, is_version, insert_row,
}
use azure_keyvault_emulator.SqlStore.Secrets.{scan, row_of, insert_secret_row}
use azure_keyvault_emulator.SqlStore.SoftDeletes.{record_of, insert_snapshots}
use azure_keyvault_emulator.SqlStore.Statements.{IsRising, AreDistinct, any-append}
use azure_keyvault_emulator.SqlStore.Represents.{
  IsReadBack, Holds, Snapped, AreSnapsRising, AreSnapsDistinct,
}
use azure_keyvault_emulator.SqlStore.Writes.{scan-row_of}

append-nil : {A : Type 0} (xs : List A) → xs ++ [] ≡ xs
append-nil [] = refl
append-nil (x ∷ xs) = ap (λ l. x ∷ l) (append-nil xs)

append_assoc :
    {A : Type 0} (xs : List A) (y : A) (ys : List A) → (xs ++ y ∷ []) ++ ys ≡ xs ++ y ∷ ys
append_assoc [] y ys = refl
append_assoc (x ∷ xs) y ys = ap (λ l. x ∷ l) (append_assoc xs y ys)

module _ (driver : Driver) (name : String) where
  -- The rows of the loop from its round `i` on.
  unfoldable pub recovered_rows : ℕ → List SecretVersionSnapshot → List SecretRow
  recovered_rows i [] = []
  recovered_rows i (snap ∷ snaps) =
      row_of driver (record_of name snap) (snap.created_at + i) ∷ recovered_rows (suc i) snaps

  -- No row of the name has a version of the snapshots.
  abbrev AreNew : List SecretRow → List SecretVersionSnapshot → Type 0
  AreNew rows snaps = All (λ snap. any (is_version name snap.version) rows ≡ false) snaps

  AreNew-append :
      (rows : List SecretRow) (row : SecretRow) (snaps : List SecretVersionSnapshot)
      → AreNew rows snaps
      → any (λ x. x.version == row.version) snaps ≡ false
      → AreNew (rows ++ row ∷ []) snaps
  unfolding any
  AreNew-append rows row [] h k = tt
  AreNew-append rows row (snap ∷ snaps) h k = (
    ground (
      arith,
      any-append (is_version name snap.version) rows row,
      h.0,
      eq_iff row.version snap.version,
      eq_iff snap.version row.version,
    ),
    AreNew-append rows row snaps h.1 (ground arith),
  )

  is_version-nowhere :
      (version : String) (rows : List SecretRow)
      → any (is_named name) rows ≡ false
      → any (is_version name version) rows ≡ false
  unfolding any
  is_version-nowhere version [] h = refl
  is_version-nowhere version (r ∷ rows) h = ground (arith, is_version-nowhere version rows)

  pub nowhere-AreNew :
      (rows : List SecretRow) (snaps : List SecretVersionSnapshot)
      → any (is_named name) rows ≡ false
      → AreNew rows snaps
  nowhere-AreNew rows [] h = tt
  nowhere-AreNew rows (snap ∷ snaps) h =
      (is_version-nowhere snap.version rows h, nowhere-AreNew rows snaps h)

  pub insert_snapshots-eq :
      (i : ℕ) (snaps : List SecretVersionSnapshot) (db : Tables)
      → AreNew db.secrets snaps
      → AreSnapsDistinct snaps
      → insert_snapshots driver name i snaps db
        ≡ (ok tt, record db { secrets = db.secrets ++ recovered_rows i snaps })
  unfolding insert_snapshots insert_secret_row insert_row row_of recovered_rows
  insert_snapshots-eq i [] db new distinct = rw (append-nil db.secrets) refl
  insert_snapshots-eq i (snap ∷ snaps) db new distinct =
      let row = row_of driver (record_of name snap) (snap.created_at + i) in
      rw
        (
          new.0,
          insert_snapshots-eq (suc i) snaps (record db { secrets = db.secrets ++ row ∷ [] })
              (AreNew-append db.secrets row snaps new.1 distinct.0) distinct.1,
          append_assoc db.secrets row (recovered_rows (suc i) snaps),
        )
        refl

  where_-all_recovered :
      (j : String) (i : ℕ) (snaps : List SecretVersionSnapshot)
      → where_ (is_named j) (recovered_rows i snaps)
        ≡ (if name == j then recovered_rows i snaps else [])
  unfolding where_ recovered_rows row_of
  where_-all_recovered j i [] = ground arith
  where_-all_recovered j i (snap ∷ snaps) = ground (arith, where_-all_recovered j (suc i) snaps)

  pub where_-recovered_rows :
      (j : String) (i : ℕ) (rows : List SecretRow) (snaps : List SecretVersionSnapshot)
      → any (is_named name) rows ≡ false
      → where_ (is_named j) (rows ++ recovered_rows i snaps)
        ≡ (if name == j then recovered_rows i snaps else where_ (is_named j) rows)
  unfolding where_ any
  where_-recovered_rows j i [] snaps h = where_-all_recovered j i snaps
  where_-recovered_rows j i (r ∷ rows) snaps h = ground (
    arith,
    eq_iff r.name j,
    eq_iff r.name name,
    eq_iff name j,
    where_-recovered_rows j i rows snaps,
  )

  pub recovered_rows-IsRising :
      (i : ℕ) (snaps : List SecretVersionSnapshot)
      → AreSnapsRising snaps
      → IsRising (recovered_rows i snaps)
  unfolding recovered_rows row_of
  recovered_rows-IsRising i [] h = tt
  recovered_rows-IsRising i (snap ∷ []) h = tt
  recovered_rows-IsRising i (snap ∷ next ∷ snaps) h =
      (omega (arith, h.0), recovered_rows-IsRising (suc i) (next ∷ snaps) h.1)

  any-recovered_rows :
      (version : String) (i : ℕ) (snaps : List SecretVersionSnapshot)
      → any (λ x. x.version == version) (recovered_rows i snaps)
        ≡ any (λ x. x.version == version) snaps
  unfolding any recovered_rows row_of
  any-recovered_rows version i [] = refl
  any-recovered_rows version i (snap ∷ snaps) = rw (any-recovered_rows version (suc i) snaps) refl

  pub recovered_rows-AreDistinct :
      (i : ℕ) (snaps : List SecretVersionSnapshot)
      → AreSnapsDistinct snaps
      → AreDistinct (recovered_rows i snaps)
  unfolding recovered_rows row_of
  recovered_rows-AreDistinct i [] h = tt
  recovered_rows-AreDistinct i (snap ∷ snaps) h = (
    any-recovered_rows snap.version (suc i) snaps ∙ h.0,
    recovered_rows-AreDistinct (suc i) snaps h.1,
  )

  pub Holds-recovered_rows :
      (i : ℕ) (snaps : List SecretVersionSnapshot) (vs : List SecretRecord)
      → Snapped name snaps vs
      → All (λ snap. IsReadBack driver (record_of name snap)) snaps
      → Holds driver (recovered_rows i snaps) vs
  unfolding recovered_rows
  Holds-recovered_rows i [] [] h back = tt
  Holds-recovered_rows i [] (v ∷ vs) h back = absurd h
  Holds-recovered_rows i (snap ∷ snaps) [] h back = absurd h
  Holds-recovered_rows i (snap ∷ snaps) (v ∷ vs) h back = (
    scan-row_of driver (record_of name snap) (snap.created_at + i) back.0 ∙ ap ok h.0,
    Holds-recovered_rows (suc i) snaps vs h.1 back.1,
  )
