-- ===== src/SqlStore.antt =====
-- The SQL store of internal/store/sqlstore/sqlstore.go, without its keys and certificates: the two
-- tables of secrets that `migrate` makes, and the statements that the secret operations send. A
-- table is the list of its rows in the order they were inserted. The driver is taken to reach the
-- database, so that a statement fails only on a primary key that is taken, and to compare texts
-- byte by byte. Each statement is a step of its own, as in the code, which opens no transaction.
pub mod Secrets
pub mod SoftDeletes
pub mod Backups
pub mod Statements
pub mod Represents
pub mod Writes
pub mod Snapshots
pub mod Deleted
pub mod Deletion
pub mod Versions
pub mod Updates
pub mod Recovery
pub mod Listing
pub mod DeletedListing
pub mod Restoration
pub mod Requests
pub mod Refinement
mod Tests
use azure_keyvault_emulator.Prelude.{
  ℕ, String, Bool, List, [], ◌∷◌, ◌++◌, Option, none, some, ◌==◌, ◌&&◌, ◌||◌, not, reverse, leb,
  if◌then◌else◌,
}
use azure_keyvault_emulator.Prelude.Outcome.{
  Outcome, ok, err, panic, raise_if, gets, modify, ◌>>=◌, ◌>>◌,
}
use azure_keyvault_emulator.Model.{Attributes, Tags}
use azure_keyvault_emulator.Storer.{AnyError, Served}

pub record SecretRow : Type 0 where
  pub name : String
  pub version : String
  pub value : String
  pub content_type : String
  pub attributes : String
  pub tags : String
  pub created_at : ℕ

pub record DeletedSecretRow : Type 0 where
  pub name : String
  pub recovery_id : String
  pub deleted_date : ℕ
  pub scheduled_purge_date : ℕ
  pub versions : String

pub record SecretVersionSnapshot : Type 0 where
  pub version : String
  pub value : String
  pub content_type : String
  pub attributes : Attributes
  pub tags : Tags
  pub created_at : ℕ

pub record DeletedSecretPayload : Type 0 where
  pub versions : List SecretVersionSnapshot

-- `kv_secrets` and `kv_deleted_secrets`
pub record Tables : Type 0 where
  pub secrets : List SecretRow
  pub deleted_secrets : List DeletedSecretRow

-- `json.Marshal` and `json.Unmarshal` of a type, which the standard library does.
pub record Json (A : Type 0) : Type 0 where
  pub marshal : A → String
  pub unmarshal : String → Outcome AnyError A

-- The standard library's JSON, and the driver's error for a primary key that is taken.
pub record Driver : Type 0 where
  pub attributes : Json Attributes
  pub tags : Json Tags
  pub payload : Json DeletedSecretPayload
  pub duplicate : AnyError

abbrev pub Query : Type 0 → Type 0
Query A = Served Tables A

module _ {A : Type 0} where
  -- `WHERE …`
  unfoldable pub where_ : (A → Bool) → List A → List A
  where_ p [] = []
  where_ p (row ∷ rows) = if p row then row ∷ where_ p rows else where_ p rows

  -- `SELECT COUNT(*) … WHERE …`, compared with 0
  unfoldable pub any : (A → Bool) → List A → Bool
  any p [] = Bool.false
  any p (row ∷ rows) = p row || any p rows

  abbrev pub first : List A → Option A
  first [] = none
  first (row ∷ rows) = some row

unfoldable pub insert_by_time : SecretRow → List SecretRow → List SecretRow
insert_by_time row [] = row ∷ []
insert_by_time row (next ∷ rows) =
    if leb row.created_at next.created_at then row ∷ next ∷ rows else next ∷ insert_by_time row rows

-- `ORDER BY created_at ASC`
unfoldable pub oldest_first : List SecretRow → List SecretRow
unfolding insert_by_time
oldest_first [] = []
oldest_first (row ∷ rows) = insert_by_time row (oldest_first rows)

-- `ORDER BY created_at DESC`
unfoldable pub newest_first : List SecretRow → List SecretRow
unfolding oldest_first
newest_first rows = reverse (oldest_first rows)

abbrev pub is_named : String → SecretRow → Bool
is_named name row = row.name == name

abbrev pub is_version : String → String → SecretRow → Bool
is_version name version row = row.name == name && row.version == version

abbrev pub is_deleted : String → DeletedSecretRow → Bool
is_deleted name row = row.name == name

-- `INSERT INTO kv_secrets …`
unfoldable pub insert_row : Driver → SecretRow → Query (Unit {0})
unfolding any
insert_row driver row = do
  taken ← gets (λ db. any (is_version row.name row.version) db.secrets)
  raise_if taken driver.duplicate
  modify (λ db. record db { secrets = db.secrets ++ row ∷ [] })

-- `INSERT INTO kv_deleted_secrets …`
unfoldable pub insert_deleted_row : Driver → DeletedSecretRow → Query (Unit {0})
unfolding any
insert_deleted_row driver row = do
  taken ← gets (λ db. any (is_deleted row.name) db.deleted_secrets)
  raise_if taken driver.duplicate
  modify (λ db. record db { deleted_secrets = db.deleted_secrets ++ row ∷ [] })

-- `DELETE FROM kv_secrets WHERE name = …`
unfoldable pub delete_rows : String → Query (Unit {0})
unfolding where_
delete_rows name =
    modify (λ db. record db { secrets = where_ (λ row. not (is_named name row)) db.secrets })

-- `DELETE FROM kv_deleted_secrets WHERE name = …`
unfoldable pub delete_deleted_rows : String → Query (Unit {0})
unfolding where_
delete_deleted_rows name = modify (λ db. record db {
  deleted_secrets = where_ (λ row. not (is_deleted name row)) db.deleted_secrets;
})
