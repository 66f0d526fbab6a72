-- ===== src/SqlStore/Updates.antt =====
-- The UPDATE of UpdateSecret of internal/store/sqlstore/sqlstore.go on the rows of a secret, beside the
-- write through a pointer of internal/store/secrets.go.
pub mod Agreement
use mathlib.Core.Path.{subst}
use azure_keyvault_emulator.Prelude.{
  ℕ, ◌<◌, String, Bool, true, false, ◌≡◌, ◌≢◌, refl, ap, ◌∙◌, sym, Option, none, some, List, [],
  ◌∷◌, arith, ◌==◌, ◌&&◌, eq_iff, last?, if◌then◌else◌, Bool-cases, inl, inr,
}
use azure_keyvault_emulator.Prelude.Outcome.{Outcome, ok, err, panic, ok-injective}
use azure_keyvault_emulator.Model.{Tags, SecretUpdateRequest}
use azure_keyvault_emulator.Store.{SecretRecord}
use azure_keyvault_emulator.Store.Metadata.{clone_attributes, clone_tags, merge_attributes}
use azure_keyvault_emulator.Store.Metadata.Clones.{clone_attributes_lem, clone_tags_idem}
use azure_keyvault_emulator.Store.Entries.{find_id, change_id, change_last}
use azure_keyvault_emulator.Store.Entries.Versions.{All}
use azure_keyvault_emulator.Store.Secrets.Records.{clone_secret_record, updated_secret, version_of}
use azure_keyvault_emulator.SqlStore.{SecretRow, Driver, where_, any, is_named, is_version}
use azure_keyvault_emulator.SqlStore.Secrets.{scan, row_of, set_columns, updated_rows}
use azure_keyvault_emulator.SqlStore.Statements.{IsRising, AreDistinct}
use azure_keyvault_emulator.SqlStore.Represents.{IsReadBack, Holds}

-- What an UPDATE leaves in a row.
module _ (new : SecretRow) where
  set_columns-keeps :
      (row : SecretRow)
      → ((set_columns new row).name ≡ row.name)
        × ((set_columns new row).version ≡ row.version)
        × ((set_columns new row).created_at ≡ row.created_at)
  set_columns-keeps row = elim (Bool-cases (is_version new.name new.version row)) [
    | inl hit ↦ rw hit (refl, refl, refl)
    | inr miss ↦ rw miss (refl, refl, refl)
  ]

  pub where_-updated_rows :
      (j : String) (rows : List SecretRow)
      → where_ (is_named j) (updated_rows new rows) ≡ (
          if new.name == j
          then updated_rows new (where_ (is_named j) rows)
          else where_ (is_named j) rows)
  unfolding where_ updated_rows
  where_-updated_rows j [] = ground arith
  where_-updated_rows j (row ∷ rows) = ground (
    arith,
    eq_iff row.name new.name,
    eq_iff row.name j,
    eq_iff new.name j,
    where_-updated_rows j rows,
  )

  any-updated_rows :
      (version : String) (rows : List SecretRow)
      → any (λ x. x.version == version) (updated_rows new rows)
        ≡ any (λ x. x.version == version) rows
  unfolding any updated_rows
  any-updated_rows version [] = refl
  any-updated_rows version (row ∷ rows) =
      rw ((set_columns-keeps row).1, any-updated_rows version rows) refl

  pub updated_rows-IsRising :
      (rows : List SecretRow) → IsRising rows → IsRising (updated_rows new rows)
  unfolding updated_rows
  updated_rows-IsRising [] h = tt
  updated_rows-IsRising (row ∷ []) h = tt
  updated_rows-IsRising (row ∷ next ∷ rows) h = (
    rw ((set_columns-keeps row).2, (set_columns-keeps next).2) h.0,
    updated_rows-IsRising (next ∷ rows) h.1,
  )

  pub updated_rows-AreDistinct :
      (rows : List SecretRow) → AreDistinct rows → AreDistinct (updated_rows new rows)
  unfolding updated_rows
  updated_rows-AreDistinct [] h = tt
  updated_rows-AreDistinct (row ∷ rows) h = (
    rw ((set_columns-keeps row).1, any-updated_rows row.version rows) h.0,
    updated_rows-AreDistinct rows h.1,
  )

  updated_rows-missed :
      (rows : List SecretRow)
      → any (λ x. x.version == new.version) rows ≡ false
      → updated_rows new rows ≡ rows
  unfolding any updated_rows
  updated_rows-missed [] h = refl
  updated_rows-missed (row ∷ rows) h = ground (arith, updated_rows-missed rows)

tags-clone :
    (t old : Tags)
    → clone_tags (elim t [ none ↦ old | some t ↦ clone_tags (some t) ])
      ≡ (elim t [ none ↦ clone_tags old | some t ↦ clone_tags (some t) ])
tags-clone none old = refl
tags-clone (some t) old = clone_tags_idem (some t)

pub updated_secret-clone :
    (now : ℕ) (req : SecretUpdateRequest) (v : SecretRecord)
    → clone_secret_record (updated_secret now req v)
      ≡ updated_secret now req (clone_secret_record v)
unfolding updated_secret clone_secret_record
updated_secret-clone now req v = simp (clone_attributes_lem, tags-clone req.tags v.tags)

module _ (driver : Driver) where
  scan-fields :
      (row : SecretRow) (v : SecretRecord)
      → scan driver row ≡ ok v
      → (row.name ≡ v.name) × (row.version ≡ v.version) × (row.value ≡ v.value)
  unfolding scan
  scan-fields row v h = (ground arith, ground arith, ground arith)

  scan-columns :
      (row : SecretRow) (rec : SecretRecord)
      → (row.name ≡ rec.name) × (row.version ≡ rec.version) × (row.value ≡ rec.value)
      → IsReadBack driver rec
      → scan driver (record row {
        content_type = rec.content_type;
        attributes = (driver.attributes).marshal rec.attributes;
        tags = (driver.tags).marshal rec.tags;
      })
        ≡ ok rec
  unfolding scan
  scan-columns row rec same back = simp (back.0, back.1, same.0, same.1, same.2)

  find_id-version :
      (version : String) (vs : List SecretRecord) {ver : SecretRecord}
      → find_id version_of version vs ≡ some ver
      → ver.version ≡ version
  unfolding find_id
  find_id-version version [] found = cc
  find_id-version version (v ∷ vs) {ver} found = elim (Bool-cases (v.version == version)) [
    | inl hit ↦
        let same : v ≡ ver = ground arith in
        subst (λ x. x.version ≡ version) same ((eq_iff v.version version).0 hit)
    | inr miss ↦ find_id-version version vs (rw miss at found)
  ]

  any-last? :
      (rows : List SecretRow) (vs : List SecretRecord) {ver : SecretRecord}
      → Holds driver rows vs
      → last? vs ≡ some ver
      → any (λ x. x.version == ver.version) rows ≡ true
  unfolding any clone_secret_record
  any-last? [] [] h found = cc
  any-last? [] (v ∷ vs) h found = absurd h
  any-last? (row ∷ rows) [] h found = absurd h
  any-last? (row ∷ []) (v ∷ []) {ver} h found =
      let same : v ≡ ver = cc in
      ground
        (arith, eq_iff row.version ver.version, scan-fields row (clone_secret_record v) h.0, same)
  any-last? (row ∷ next ∷ rows) (v ∷ []) h found = absurd h.1
  any-last? (row ∷ []) (v ∷ w ∷ vs) h found = absurd h.1
  any-last? (row ∷ next ∷ rows) (v ∷ w ∷ vs) h found =
      ground (arith, any-last? (next ∷ rows) (w ∷ vs) h.1 found)

  -- The UPDATE on the row of a version that is found.
  module _ (now : ℕ) (req : SecretUpdateRequest) (ver : SecretRecord)
      (back : IsReadBack driver (updated_secret now req (clone_secret_record ver))) where
    abbrev new : SecretRow
    new = row_of driver (updated_secret now req (clone_secret_record ver)) 0

    scan-set_columns :
        (row : SecretRow)
        → scan driver row ≡ ok (clone_secret_record ver)
        → scan driver (set_columns new row) ≡ ok (clone_secret_record (updated_secret now req ver))
    unfolding scan row_of updated_secret clone_secret_record
    scan-set_columns row h =
        let same = scan-fields row (clone_secret_record ver) h in
        let hit : is_version ver.name ver.version row ≡ true =
          ground (arith, same, eq_iff row.name ver.name, eq_iff row.version ver.version) in
        rw (updated_secret-clone now req ver, hit)
          (scan-columns row (updated_secret now req (clone_secret_record ver)) same back)

    set_columns-missed :
        (row : SecretRow) → (row.version == ver.version) ≡ false → set_columns new row ≡ row
    unfolding row_of updated_secret clone_secret_record
    set_columns-missed row h = ground arith

    -- The version that has the id, which one row has.
    pub Holds-updated_id :
        (version : String) (rows : List SecretRow) (vs : List SecretRecord)
        → Holds driver rows vs
        → AreDistinct rows
        → find_id version_of version vs ≡ some ver
        → Holds driver
            (updated_rows new rows)
            (change_id version_of version (λ _. updated_secret now req ver) vs)
    unfolding updated_rows find_id change_id row_of updated_secret clone_secret_record
    Holds-updated_id version [] [] h d found = tt
    Holds-updated_id version [] (v ∷ vs) h d found = absurd h
    Holds-updated_id version (row ∷ rows) [] h d found = absurd h
    Holds-updated_id version (row ∷ rows) (v ∷ vs) h d found =
        let (_, versions, _) = scan-fields row (clone_secret_record v) h.0 in
        elim (Bool-cases (v.version == version)) [
          | inl hit ↦
              let same : v ≡ ver = ground arith in
              let tail : updated_rows new rows ≡ rows = updated_rows-missed new rows (
                subst (λ x. any (λ y. y.version == x) rows ≡ false)
                  (versions ∙ ap (λ x. x.version) same) d.0) in
              rw hit (
                scan-set_columns row
                    (subst (λ x. scan driver row ≡ ok (clone_secret_record x)) same h.0),
                rw tail h.1,
              )
          | inr miss ↦
              let other : (row.version == ver.version) ≡ false =
                subst (λ x. (x == ver.version) ≡ false) (sym versions)
                  (subst (λ x. (v.version == x) ≡ false)
                    (sym (find_id-version version vs (rw miss at found))) miss) in
              rw miss (
                rw (set_columns-missed row other) h.0,
                Holds-updated_id version rows vs h.1 d.1 (rw miss at found),
              )
        ]

    -- The latest version, which is that of the last row.
    pub Holds-updated_last :
        (rows : List SecretRow) (vs : List SecretRecord)
        → Holds driver rows vs
        → AreDistinct rows
        → last? vs ≡ some ver
        → Holds driver (updated_rows new rows) (change_last (λ _. updated_secret now req ver) vs)
    unfolding updated_rows change_last
    Holds-updated_last [] [] h d found = tt
    Holds-updated_last [] (v ∷ vs) h d found = absurd h
    Holds-updated_last (row ∷ rows) [] h d found = absurd h
    Holds-updated_last (row ∷ []) (v ∷ []) h d found = (
      scan-set_columns row
          (subst (λ x. scan driver row ≡ ok (clone_secret_record x)) (cc found) h.0),
      tt,
    )
    Holds-updated_last (row ∷ next ∷ rows) (v ∷ []) h d found = absurd h.1
    Holds-updated_last (row ∷ []) (v ∷ w ∷ vs) h d found = absurd h.1
    Holds-updated_last (row ∷ next ∷ rows) (v ∷ w ∷ vs) h d found =
        let other : (row.version == ver.version) ≡ false =
          elim (Bool-cases (row.version == ver.version)) [
            | inl hit ↦
                let none_later =
                  subst (λ x. any (λ y. y.version == x) (next ∷ rows) ≡ false)
                    ((eq_iff row.version ver.version).0 hit) d.0 in
                let later = any-last? (next ∷ rows) (w ∷ vs) h.1 found in cc
            | inr miss ↦ miss
          ] in
        (
          rw (set_columns-missed row other) h.0,
          Holds-updated_last (next ∷ rows) (w ∷ vs) h.1 d.1 found,
        )
