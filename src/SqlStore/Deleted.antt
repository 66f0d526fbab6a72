-- ===== src/SqlStore/Deleted.antt =====
-- GetDeletedSecret and PurgeDeletedSecret of internal/store/sqlstore/sqlstore.go beside those of
-- internal/store/secrets.go.
use mathlib.Core.Path.{subst}
use azure_keyvault_emulator.Prelude.{
  String, Bool, true, false, ◌≡◌, refl, Option, none, some, List, [], ◌∷◌, ◌++◌, arith, ◌==◌, not,
  Option-cases, last?, if◌then◌else◌, inl, inr,
}
use azure_keyvault_emulator.Prelude.Dict.{Dict, lookup, erase, lookup-erase}
use azure_keyvault_emulator.Prelude.Outcome.{Outcome, ok, err}
use azure_keyvault_emulator.Store.{Store, SecretEntry, DeletedSecretRecord, DeletedSecretEntry}
use azure_keyvault_emulator.Store.Secrets.Records.{latest_secret, deleted_secret_not_found}
use azure_keyvault_emulator.Store.Secrets
use azure_keyvault_emulator.Store.Secrets.Reads.{versions_of}
use azure_keyvault_emulator.Storer.{AnyError, of_store, named_error}
use azure_keyvault_emulator.SqlStore.{
  DeletedSecretRow, Tables, Driver, where_, first, is_deleted, delete_deleted_rows,
}
use azure_keyvault_emulator.SqlStore.SoftDeletes.{
  get_deleted_secret, get_deleted_secret_row, purge_deleted_secret, deleted_secret_from_row,
}
use azure_keyvault_emulator.SqlStore.Statements.{where_-deleted, where_-IsOnce}
use azure_keyvault_emulator.SqlStore.Represents.{HoldsDeleted, Represents, deleted_version}
use azure_keyvault_emulator.SqlStore.Writes.{Agree}

module _ (driver : Driver) where
  -- What the two answer for the deleted row, and for the deleted entry, of a name.
  abbrev of_row : String → Option DeletedSecretRow → Outcome AnyError DeletedSecretRecord
  of_row name none = err (of_store (deleted_secret_not_found name))
  of_row name (some row) = deleted_secret_from_row driver row

  abbrev of_entry : String → Option DeletedSecretEntry → Outcome AnyError DeletedSecretRecord
  of_entry name none = err (of_store (deleted_secret_not_found name))
  of_entry name (some d) = deleted_version d (last? d.entry.versions)

  of_row-HoldsDeleted :
      (name : String) (row : Option DeletedSecretRow) (o : Option DeletedSecretEntry)
      → HoldsDeleted driver row o
      → of_row name row ≡ of_entry name o
  of_row-HoldsDeleted name none none h = refl
  of_row-HoldsDeleted name none (some d) h = absurd h
  of_row-HoldsDeleted name (some row) none h = absurd h
  of_row-HoldsDeleted name (some row) (some d) h = h.0

  get_deleted_secret-eq :
      (name : String) (db : Tables)
      → get_deleted_secret driver name db
        ≡ (of_row name (first (where_ (is_deleted name) db.deleted_secrets)), db)
  unfolding get_deleted_secret get_deleted_secret_row
  get_deleted_secret-eq name db = ground arith

  pub HoldsDeleted-none :
      (row : Option DeletedSecretRow) → HoldsDeleted driver row none → row ≡ none
  HoldsDeleted-none none h = refl
  HoldsDeleted-none (some row) h = absurd h

  pub HoldsDeleted-some :
      (row : Option DeletedSecretRow) (d : DeletedSecretEntry)
      → HoldsDeleted driver row (some d)
      → (found : DeletedSecretRow) × (row ≡ some found)
  HoldsDeleted-some none d h = absurd h
  HoldsDeleted-some (some row) d h = (row, refl)

  HoldsDeleted-if_erased :
      (b : Bool) (rows : List DeletedSecretRow) (o : Option DeletedSecretEntry)
      → HoldsDeleted driver (first rows) o
      → HoldsDeleted driver (first (if b then [] else rows)) (if b then none else o)
  HoldsDeleted-if_erased true rows o h = tt
  HoldsDeleted-if_erased false rows o h = h

  pub HoldsDeleted-if_inserted :
      (b : Bool) (rows : List DeletedSecretRow) (o : Option DeletedSecretEntry)
      (row : DeletedSecretRow) (d : DeletedSecretEntry)
      → HoldsDeleted driver (first rows) o
      → (b ≡ true → o ≡ none)
      → HoldsDeleted driver (some row) (some d)
      → HoldsDeleted driver (first (if b then rows ++ row ∷ [] else rows)) (if b then some d else o)
  HoldsDeleted-if_inserted true [] o row d h absent reads = reads
  HoldsDeleted-if_inserted true (r ∷ rows) none row d h absent reads = absurd h
  HoldsDeleted-if_inserted true (r ∷ rows) (some e) row d h absent reads = absurd (cc (absent refl))
  HoldsDeleted-if_inserted false rows o row d h absent reads = h

  pub versions-erase :
      (name j : String) (m : Dict SecretEntry)
      → versions_of (lookup j (erase name m)) ≡ (if name == j then [] else versions_of (lookup j m))
  versions-erase name j m = ground (arith, lookup-erase name j m)

  module _ {M : Type 0} where
    deleted_entry-eq :
        (name : String) (s : Store M)
        → (named_error (Secrets.get_deleted_secret name s).0
            ≡ of_entry name (lookup name s.deleted_secrets))
          × ((Secrets.get_deleted_secret name s).1 ≡ s)
    unfolding Secrets.get_deleted_secret latest_secret
    deleted_entry-eq name s = ground arith

    module _ (db : Tables) (s : Store M) (r : Represents driver db s) where
      pub get_deleted_secret-agrees :
          (name : String)
          → Agree driver (get_deleted_secret driver name db) (Secrets.get_deleted_secret name s)
      get_deleted_secret-agrees name =
          let (answer, same) = deleted_entry-eq name s in
          rw (get_deleted_secret-eq, answer, same)
            (of_row-HoldsDeleted name _ _ (r.deleted name), r)

      pub erase_deleted-Represents :
          (name : String)
          → Represents driver
              (record db {
                deleted_secrets = where_ (λ row. not (is_deleted name row)) db.deleted_secrets;
              })
              (record s { deleted_secrets = erase name s.deleted_secrets })
      erase_deleted-Represents name = record {
        live = r.live;
        rising = r.rising;
        distinct = r.distinct;
        once = where_-IsOnce (λ row. not (is_deleted name row)) db.deleted_secrets r.once;
        deleted = λ j.
            rw (where_-deleted (λ (x : DeletedSecretRow). x.name) name j, lookup-erase name j)
              (HoldsDeleted-if_erased (name == j) _ _ (r.deleted j));
      }

      module _ (name : String) where
        purge-missing :
            first (where_ (is_deleted name) db.deleted_secrets) ≡ none
            → purge_deleted_secret driver name db
              ≡ (err (of_store (deleted_secret_not_found name)), db)
        unfolding purge_deleted_secret get_deleted_secret_row
        purge-missing h = ground arith

        purge-found :
            {row : DeletedSecretRow}
            → first (where_ (is_deleted name) db.deleted_secrets) ≡ some row
            → purge_deleted_secret driver name db ≡ (
              ok tt,
              record db {
                deleted_secrets = where_ (λ row. not (is_deleted name row)) db.deleted_secrets;
              },
            )
        unfolding purge_deleted_secret get_deleted_secret_row delete_deleted_rows
        purge-found h = ground arith

        purge_memory-missing :
            lookup name s.deleted_secrets ≡ none
            → Secrets.purge_deleted_secret name s ≡ (err (deleted_secret_not_found name), s)
        unfolding Secrets.purge_deleted_secret
        purge_memory-missing h = ground arith

        purge_memory-found :
            {d : DeletedSecretEntry}
            → lookup name s.deleted_secrets ≡ some d
            → Secrets.purge_deleted_secret name s
              ≡ (ok tt, record s { deleted_secrets = erase name s.deleted_secrets })
        unfolding Secrets.purge_deleted_secret
        purge_memory-found h = ground arith

      pub purge_deleted_secret-agrees :
          (name : String)
          → Agree driver (purge_deleted_secret driver name db) (Secrets.purge_deleted_secret name s)
      purge_deleted_secret-agrees name = elim (Option-cases (lookup name s.deleted_secrets)) [
        | inl absent ↦
            let none_deleted =
              HoldsDeleted-none (first (where_ (is_deleted name) db.deleted_secrets)) (
                subst (HoldsDeleted driver (first (where_ (is_deleted name) db.deleted_secrets)))
                  absent (r.deleted name)) in
            rw (purge-missing name none_deleted, purge_memory-missing name absent) (refl, r)
        | inr (d, found) ↦
            let (row, e) =
              HoldsDeleted-some (first (where_ (is_deleted name) db.deleted_secrets)) d (
                subst (HoldsDeleted driver (first (where_ (is_deleted name) db.deleted_secrets)))
                  found (r.deleted name)) in
            rw (purge-found name e, purge_memory-found name found)
              (refl, erase_deleted-Represents name)
      ]
