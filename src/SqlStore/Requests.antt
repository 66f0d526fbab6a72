-- ===== src/SqlStore/Requests.antt =====
-- The calls of secrets that both internal/store/sqlstore/sqlstore.go and internal/store serve.
use azure_keyvault_emulator.Prelude.{ℕ, String, List, [], ◌∷◌}
use azure_keyvault_emulator.Prelude.Outcome.{Outcome}
use azure_keyvault_emulator.Prelude.Text.Decimal.{ℤ}
use azure_keyvault_emulator.Model.{SecretSetRequest, SecretUpdateRequest}
use azure_keyvault_emulator.Store.{Store, SecretRecord, DeletedSecretRecord}
use azure_keyvault_emulator.Store.Errors.{Error}
use azure_keyvault_emulator.Store.Pagination.{Page}
use azure_keyvault_emulator.Store.Secrets
use azure_keyvault_emulator.Store.Secrets.Records.{new_secret, BackupCodec}
use azure_keyvault_emulator.Storer.{AnyError, named_error}
use azure_keyvault_emulator.SqlStore.{Tables, Driver}
use azure_keyvault_emulator.SqlStore.Secrets.{
  set_secret, get_secret, update_secret, list_secrets, list_secret_versions,
}
use azure_keyvault_emulator.SqlStore.SoftDeletes.{
  delete_secret, list_deleted_secrets, get_deleted_secret, purge_deleted_secret,
  recover_deleted_secret,
}
use azure_keyvault_emulator.SqlStore.Backups.{backup_secret, restore_secret}
use azure_keyvault_emulator.SqlStore.Represents.{IsReadBack, IsPayloadReadBack}
use azure_keyvault_emulator.SqlStore.Writes.{IsFresh}
use azure_keyvault_emulator.SqlStore.Updates.Agreement.{IsUpdateReadBack}
use azure_keyvault_emulator.SqlStore.Recovery.Agreement.{IsRecoverReadBack}
use azure_keyvault_emulator.SqlStore.Restoration.Agreement.{IsRestoreReadBack}

-- A call, with what it reads of the clock and of `crypto/rand`.
pub data Request : Type 0 where
  set : ℕ → List ℕ → ℕ → String → SecretSetRequest → Request
  get : String → String → Request
  update : ℕ → String → String → SecretUpdateRequest → Request
  list : ℤ → String → Request
  list_versions : String → ℤ → String → Request
  delete : ℕ → List ℕ → String → Request
  list_deleted : ℤ → String → Request
  get_deleted : String → Request
  purge : String → Request
  recover : String → Request
  backup : String → Request
  restore : String → Request

pub data Answer : Type 0 where
  secret : Outcome AnyError SecretRecord → Answer
  page : Outcome AnyError (Page SecretRecord) → Answer
  deleted : Outcome AnyError DeletedSecretRecord → Answer
  deleted_page : Outcome AnyError (Page DeletedSecretRecord) → Answer
  token : Outcome AnyError String → Answer
  done : Outcome AnyError (Unit {0}) → Answer

abbrev pub answered :
    {A S : Type 0} → (Outcome AnyError A → Answer) → Outcome AnyError A × S → Answer × S
answered f r = (f r.0, r.1)

abbrev pub forgotten : {A S : Type 0} → Outcome Error A × S → Outcome AnyError A × S
forgotten r = (named_error r.0, r.1)

module _ (driver : Driver) (codec : BackupCodec) where
  abbrev pub on_tables : Request → Tables → Answer × Tables
  on_tables (set now buf ts name req) db =
      answered secret (set_secret driver now buf ts name req db)
  on_tables (get name version) db = answered secret (get_secret driver name version db)
  on_tables (update now name version req) db =
      answered secret (update_secret driver now name version req db)
  on_tables (list m t) db = answered page (list_secrets driver m t db)
  on_tables (list_versions name m t) db = answered page (list_secret_versions driver name m t db)
  on_tables (delete now buf name) db = answered deleted (delete_secret driver now buf name db)
  on_tables (list_deleted m t) db = answered deleted_page (list_deleted_secrets driver m t db)
  on_tables (get_deleted name) db = answered deleted (get_deleted_secret driver name db)
  on_tables (purge name) db = answered done (purge_deleted_secret driver name db)
  on_tables (recover name) db = answered secret (recover_deleted_secret driver name db)
  on_tables (backup name) db = answered token (backup_secret driver codec name db)
  on_tables (restore blob) db = answered secret (restore_secret driver codec blob db)

module _ {M : Type 0} (codec : BackupCodec) where
  abbrev pub in_memory : Request → Store M → Answer × Store M
  in_memory (set now buf ts name req) s =
      answered secret (forgotten (Secrets.set_secret now buf name req s))
  in_memory (get name version) s = answered secret (forgotten (Secrets.get_secret name version s))
  in_memory (update now name version req) s =
      answered secret (forgotten (Secrets.update_secret now name version req s))
  in_memory (list m t) s = answered page (forgotten (Secrets.list_secrets m t s))
  in_memory (list_versions name m t) s =
      answered page (forgotten (Secrets.list_secret_versions name m t s))
  in_memory (delete now buf name) s =
      answered deleted (forgotten (Secrets.delete_secret now buf name s))
  in_memory (list_deleted m t) s =
      answered deleted_page (forgotten (Secrets.list_deleted_secrets m t s))
  in_memory (get_deleted name) s = answered deleted (forgotten (Secrets.get_deleted_secret name s))
  in_memory (purge name) s = answered done (forgotten (Secrets.purge_deleted_secret name s))
  in_memory (recover name) s = answered secret (forgotten (Secrets.recover_deleted_secret name s))
  in_memory (backup name) s = answered token (forgotten (Secrets.backup_secret codec name s))
  in_memory (restore blob) s = answered secret (forgotten (Secrets.restore_secret codec blob s))

-- The answers to a sequence of calls.
unfoldable pub answers : {S : Type 0} → (Request → S → Answer × S) → List Request → S → List Answer
answers serve [] s = []
answers serve (request ∷ requests) s =
    let (answer, s') = serve request s in answer ∷ answers serve requests s'

module _ (driver : Driver) (codec : BackupCodec) where
  -- JSON reads back what the call writes; what a SetSecret reads of the clock and of `crypto/rand` is
  -- new to the tables, and a RestoreSecret is given a token of the emulator.
  abbrev pub IsFit : Request → Tables → Type 0
  IsFit (set now buf ts name req) db =
      IsFresh buf ts name db × IsReadBack driver (new_secret now buf name req)
  IsFit (get name version) db = Unit
  IsFit (update now name version req) db = IsUpdateReadBack driver now name version req db
  IsFit (list m t) db = Unit
  IsFit (list_versions name m t) db = Unit
  IsFit (delete now buf name) db = IsPayloadReadBack driver name db
  IsFit (list_deleted m t) db = Unit
  IsFit (get_deleted name) db = Unit
  IsFit (purge name) db = Unit
  IsFit (recover name) db = IsRecoverReadBack driver name db
  IsFit (backup name) db = Unit
  IsFit (restore blob) db = IsRestoreReadBack driver codec blob

  unfoldable pub AreFit : List Request → Tables → Type 0
  AreFit [] db = Unit
  AreFit (request ∷ requests) db =
      IsFit request db × AreFit requests (on_tables driver codec request db).1
