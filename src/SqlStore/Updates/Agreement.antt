-- ===== src/SqlStore/Updates/Agreement.antt =====
-- UpdateSecret of internal/store/sqlstore/sqlstore.go beside that of internal/store/secrets.go.
use mathlib.Core.Path.{subst}
use azure_keyvault_emulator.Prelude.{
  ℕ, String, ◌≡◌, refl, ap, sym, none, some, List, arith, ◌==◌, eq_iff, if◌then◌else◌, Bool-cases,
  Option-cases, inl, inr,
}
use azure_keyvault_emulator.Prelude.Dict.{Dict, lookup, insert, lookup-insert}
use azure_keyvault_emulator.Prelude.Outcome.{ok, err}
use azure_keyvault_emulator.Model.{SecretUpdateRequest}
use azure_keyvault_emulator.Store.{Store, SecretRecord, SecretEntry}
use azure_keyvault_emulator.Store.Entries.Versions.{All, All-find_id, All-last?}
use azure_keyvault_emulator.Store.Secrets
use azure_keyvault_emulator.Store.Secrets.Records.{
  clone_secret_record, updated_secret, version_of, find_secret_version, change_secret_version,
  latest_secret, secret_not_found,
}
use azure_keyvault_emulator.Store.Secrets.Reads.{versions_of, got}
use azure_keyvault_emulator.Store.Secrets.Safety.{AreSecretsWellFormed}
use azure_keyvault_emulator.Storer.{AnyError, of_store, named_error}
use azure_keyvault_emulator.SqlStore.{SecretRow, Tables, Driver, where_, is_named}
use azure_keyvault_emulator.SqlStore.Secrets.{
  row_of, updated_rows, get_secret_version_row, get_secret, update_secret,
}
use azure_keyvault_emulator.SqlStore.Statements.{IsRising, AreDistinct, if-kept}
use azure_keyvault_emulator.SqlStore.Represents.{
  IsReadBack, Holds, if-Holds, Represents, get_secret_version_row-eq, selected_lem,
}
use azure_keyvault_emulator.SqlStore.Writes.{Agree}
use azure_keyvault_emulator.SqlStore.Updates.{
  where_-updated_rows, updated_rows-IsRising, updated_rows-AreDistinct, updated_secret-clone,
  Holds-updated_id, Holds-updated_last,
}

-- JSON reads back what an UpdateSecret of a version writes.
abbrev pub IsUpdateReadBack : Driver → ℕ → String → String → SecretUpdateRequest → Tables → Type 0
IsUpdateReadBack driver now name version req db =
    (rec : SecretRecord)
    → get_secret driver name version db ≡ (ok rec, db)
    → IsReadBack driver (updated_secret now req rec)

-- The columns that the UPDATE sets for a version.
abbrev new_row : Driver → ℕ → SecretUpdateRequest → SecretRecord → SecretRow
new_row driver now req ver = row_of driver (updated_secret now req (clone_secret_record ver)) 0

module _ (driver : Driver) where
  module _ (now : ℕ) (req : SecretUpdateRequest) (ver : SecretRecord)
      (back : IsReadBack driver (updated_secret now req (clone_secret_record ver))) where
    Holds-changed :
        (version : String) (rows : List SecretRow) (entry : SecretEntry)
        → Holds driver rows entry.versions
        → AreDistinct rows
        → find_secret_version entry version ≡ some ver
        → Holds driver
            (updated_rows (new_row driver now req ver) rows)
            ((change_secret_version version (λ _. updated_secret now req ver) entry).versions)
    unfolding find_secret_version latest_secret change_secret_version
    Holds-changed version rows entry h d found = elim (Bool-cases (version == "")) [
      | inl latest ↦
          rw latest (
            Holds-updated_last driver now req ver back rows entry.versions h d (rw latest at found))
      | inr given ↦ rw given (
          Holds-updated_id driver now req ver back version rows entry.versions h d
            (rw given at found))
    ]

  pub versions-insert :
      (name j : String) (entry : SecretEntry) (m : Dict SecretEntry)
      → versions_of (lookup j (insert name entry m))
        ≡ (if name == j then entry.versions else versions_of (lookup j m))
  versions-insert name j entry m = ground (arith, lookup-insert name j entry m)

  module _ {M : Type 0} (db : Tables) (s : Store M) (r : Represents driver db s) where
    update-Represents :
        (now : ℕ) (req : SecretUpdateRequest) (version : String) (entry : SecretEntry)
        (ver : SecretRecord)
        → IsReadBack driver (updated_secret now req (clone_secret_record ver))
        → lookup ver.name s.secrets ≡ some entry
        → find_secret_version entry version ≡ some ver
        → Represents driver
            (record db { secrets = updated_rows (new_row driver now req ver) db.secrets })
            (record s {
              secrets =
                  insert ver.name
                    (change_secret_version version (λ _. updated_secret now req ver) entry)
                    s.secrets;
            })
    unfolding row_of updated_secret clone_secret_record
    update-Represents now req version entry ver back found chosen = record {
      live = λ j.
          rw
            (
              where_-updated_rows (new_row driver now req ver) j,
              versions-insert ver.name j
                  (change_secret_version version (λ _. updated_secret now req ver) entry) s.secrets,
            )
            (if-Holds driver (ver.name == j) _ _ _ _ (r.live j) (λ hit.
              let same = (eq_iff ver.name j).0 hit in
              Holds-changed now req ver back version (where_ (is_named j) db.secrets) entry
                (subst (λ o. Holds driver (where_ (is_named j) db.secrets) (versions_of o))
                  (subst (λ x. lookup x s.secrets ≡ some entry) same found) (r.live j))
                (r.distinct j) chosen));
      rising = λ j. rw (where_-updated_rows (new_row driver now req ver) j) (
          if-kept IsRising (ver.name == j) (r.rising j)
            (λ _. updated_rows-IsRising (new_row driver now req ver) _ (r.rising j)));
      distinct = λ j. rw (where_-updated_rows (new_row driver now req ver) j) (
          if-kept AreDistinct (ver.name == j) (r.distinct j)
            (λ _. updated_rows-AreDistinct (new_row driver now req ver) _ (r.distinct j)));
      once = r.once;
      deleted = r.deleted;
    }

    module _ (now : ℕ) (name version : String) (req : SecretUpdateRequest) where
      selected :
          get_secret_version_row driver name version db
          ≡ (named_error (got name version (lookup name s.secrets)), db)
      selected = rw (get_secret_version_row-eq, selected_lem driver r) refl

      tables-failed :
          (e : AnyError)
          → named_error (got name version (lookup name s.secrets)) ≡ err e
          → update_secret driver now name version req db ≡ (err e, db)
      unfolding update_secret
      tables-failed e h = rw (selected, h) refl

      tables-updated :
          (ver : SecretRecord)
          → named_error (got name version (lookup name s.secrets)) ≡ ok (clone_secret_record ver)
          → update_secret driver now name version req db ≡ (
            ok (updated_secret now req (clone_secret_record ver)),
            record db { secrets = updated_rows (new_row driver now req ver) db.secrets },
          )
      unfolding update_secret
      tables-updated ver h = rw (selected, h) refl

      memory-missing :
          lookup name s.secrets ≡ none
          → Secrets.update_secret now name version req s ≡ (err (secret_not_found name), s)
      unfolding Secrets.update_secret
      memory-missing h = rw h refl

      memory-unversioned :
          {entry : SecretEntry}
          → lookup name s.secrets ≡ some entry
          → find_secret_version entry version ≡ none
          → Secrets.update_secret now name version req s ≡ (err (secret_not_found name), s)
      unfolding Secrets.update_secret
      memory-unversioned h e = rw (h, e) refl

      memory-updated :
          {entry : SecretEntry} {ver : SecretRecord}
          → lookup name s.secrets ≡ some entry
          → find_secret_version entry version ≡ some ver
          → Secrets.update_secret now name version req s ≡ (
            ok (clone_secret_record (updated_secret now req ver)),
            record s {
              secrets =
                  insert name
                    (change_secret_version version (λ _. updated_secret now req ver) entry)
                    s.secrets;
            },
          )
      unfolding Secrets.update_secret
      memory-updated h e = rw (h, e) refl

      found-IsNamed :
          (entry : SecretEntry) {ver : SecretRecord}
          → All (λ v. v.name ≡ name) entry.versions
          → find_secret_version entry version ≡ some ver
          → ver.name ≡ name
      unfolding find_secret_version latest_secret
      found-IsNamed entry all chosen = elim (Bool-cases (version == "")) [
        | inl latest ↦ All-last? (λ v. v.name ≡ name) entry.versions all (rw latest at chosen)
        | inr given ↦
            All-find_id (λ v. v.name ≡ name) version_of version entry.versions all
              (rw given at chosen)
      ]

      pub update_secret-agrees :
          AreSecretsWellFormed s
          → IsUpdateReadBack driver now name version req db
          → Agree driver
              (update_secret driver now name version req db)
              (Secrets.update_secret now name version req s)
      unfolding get_secret
      update_secret-agrees w back = elim (Option-cases (lookup name s.secrets)) [
        | inl missing ↦
            rw
              (
                tables-failed (of_store (secret_not_found name)) (rw missing refl),
                memory-missing missing,
              )
              (refl, r)
        | inr (entry, found) ↦ elim (Option-cases (find_secret_version entry version)) [
          | inl unversioned ↦
              rw
                (
                  tables-failed (of_store (secret_not_found name)) (rw (found, unversioned) refl),
                  memory-unversioned found unversioned,
                )
                (refl, r)
          | inr (ver, chosen) ↦
              let answer : named_error (got name version (lookup name s.secrets))
                  ≡ ok (clone_secret_record ver) =
                rw (found, chosen) refl in
              let named = found-IsNamed entry ((w.live_entry name entry found).named) chosen in
              rw (tables-updated ver answer, memory-updated found chosen)
                (
                  ap ok (sym (updated_secret-clone now req ver)),
                  subst
                      (λ x.
                        Represents driver
                          (record db {
                            secrets = updated_rows (new_row driver now req ver) db.secrets;
                          })
                          (record s {
                            secrets =
                                insert x
                                  (change_secret_version version (λ _. updated_secret now req ver)
                                    entry)
                                  s.secrets;
                          }))
                      named
                      (update-Represents now req version entry ver
                        (back (clone_secret_record ver) (rw (selected, answer) refl))
                        (subst (λ x. lookup x s.secrets ≡ some entry) (sym named) found) chosen),
                )
        ]
      ]
