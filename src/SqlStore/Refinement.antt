-- ===== src/SqlStore/Refinement.antt =====
-- The secrets of internal/store/sqlstore/sqlstore.go as a refinement of those of internal/store: the
-- same calls, made one after another, are answered alike.
use azure_keyvault_emulator.Prelude.{◌≡◌, refl, ap, List, [], ◌∷◌}
use azure_keyvault_emulator.Prelude.Outcome.{Outcome, ok, err, panic, Ends}
use azure_keyvault_emulator.Store.{Store, new_store}
use azure_keyvault_emulator.Store.Errors.{Error}
use azure_keyvault_emulator.Store.Secrets.Records.{BackupCodec}
use azure_keyvault_emulator.Store.Secrets.Safety.{
  AreSecretsWellFormed, set_secret-Ends, get_secret-Ends, update_secret-Ends, list_secrets-Ends,
  list_secret_versions-Ends, delete_secret-Ends, list_deleted_secrets-Ends, get_deleted_secret-Ends,
  purge_deleted_secret-Ends, recover_deleted_secret-Ends, backup_secret-Ends, restore_secret-Ends,
}
use azure_keyvault_emulator.Store.Secrets.Calls.{new_store-AreSecretsWellFormed}
use azure_keyvault_emulator.Storer.{AnyError}
use azure_keyvault_emulator.SqlStore.{Tables, Driver}
use azure_keyvault_emulator.SqlStore.Represents.{
  Represents, get_secret-agrees, get_secret-Represents, no_rows, no_rows-Represents,
}
use azure_keyvault_emulator.SqlStore.Requests.{
  Request, set, get, update, list, list_versions, delete, list_deleted, get_deleted, purge, recover,
  backup, restore, Answer, secret, page, deleted, deleted_page, done, token, answered, forgotten,
  on_tables, in_memory, answers, IsFit, AreFit,
}
use azure_keyvault_emulator.SqlStore.Writes.{Agree, set_secret-agrees}
use azure_keyvault_emulator.SqlStore.Updates.Agreement.{update_secret-agrees}
use azure_keyvault_emulator.SqlStore.Listing.{list_secrets-agrees}
use azure_keyvault_emulator.SqlStore.Versions.{list_secret_versions-agrees}
use azure_keyvault_emulator.SqlStore.Deletion.{delete_secret-agrees}
use azure_keyvault_emulator.SqlStore.DeletedListing.{list_deleted_secrets-agrees}
use azure_keyvault_emulator.SqlStore.Deleted.{
  get_deleted_secret-agrees, purge_deleted_secret-agrees,
}
use azure_keyvault_emulator.SqlStore.Recovery.Agreement.{recover_deleted_secret-agrees}
use azure_keyvault_emulator.SqlStore.Backups.Agreement.{backup_secret-agrees}
use azure_keyvault_emulator.SqlStore.Restoration.Agreement.{restore_secret-agrees}

module _ (M : Type 0) (driver : Driver) (codec : BackupCodec) where
  -- One call: the same answer, and the tables hold the store again.
  abbrev Stays : Answer × Tables → Answer × Store M → Type 0
  Stays r r' = (r.0 ≡ r'.0) × Represents driver r.1 r'.1 × AreSecretsWellFormed r'.1

  stays :
      {A : Type 0} (f : Outcome AnyError A → Answer) (r : Outcome AnyError A × Tables)
      (r' : Outcome Error A × Store M)
      → Agree driver r r'
      → Ends AreSecretsWellFormed r'
      → Stays (answered f r) (answered f (forgotten r'))
  stays f r (ok a, s) agree w = (ap f agree.0, agree.1, w)
  stays f r (err e, s) agree w = (ap f agree.0, agree.1, w)
  stays f r (panic, s) agree w = absurd w

  step :
      (request : Request) (db : Tables) (s : Store M)
      → Represents driver db s
      → AreSecretsWellFormed s
      → IsFit driver codec request db
      → Stays (on_tables driver codec request db) (in_memory codec request s)
  step (set now buf ts name req) db s r w fit =
      stays secret _ _ (set_secret-agrees driver db s r now buf ts name req fit.0 fit.1)
        (set_secret-Ends now buf name req s w)
  step (get name version) db s r w fit =
      stays secret _ _
        (
          ap (λ x. x.0) (get_secret-agrees driver db s r name version),
          get_secret-Represents driver db s r name version,
        )
        (get_secret-Ends name version s w)
  step (update now name version req) db s r w fit =
      stays secret _ _ (update_secret-agrees driver db s r now name version req w fit)
        (update_secret-Ends now name version req s w)
  step (list m t) db s r w fit =
      stays page _ _ (list_secrets-agrees driver db s r w m t) (list_secrets-Ends m t s w)
  step (list_versions name m t) db s r w fit =
      stays page _ _ (list_secret_versions-agrees driver db s r name m t w)
        (list_secret_versions-Ends name m t s w)
  step (delete now buf name) db s r w fit =
      stays deleted _ _ (delete_secret-agrees driver db s r now buf name fit w)
        (delete_secret-Ends now buf name s w)
  step (list_deleted m t) db s r w fit =
      stays deleted_page _ _ (list_deleted_secrets-agrees driver db s r w m t)
        (list_deleted_secrets-Ends m t s w)
  step (get_deleted name) db s r w fit =
      stays deleted _ _ (get_deleted_secret-agrees driver db s r name)
        (get_deleted_secret-Ends name s w)
  step (purge name) db s r w fit =
      stays done _ _ (purge_deleted_secret-agrees driver db s r name)
        (purge_deleted_secret-Ends name s w)
  step (recover name) db s r w fit =
      stays secret _ _ (recover_deleted_secret-agrees driver db s r name w fit)
        (recover_deleted_secret-Ends name s w)
  step (backup name) db s r w fit =
      stays token _ _ (backup_secret-agrees driver db s r codec name w)
        (backup_secret-Ends codec name s w)
  step (restore blob) db s r w fit =
      stays secret _ _ (restore_secret-agrees driver db s r codec blob fit)
        (restore_secret-Ends codec blob s w)

  agreed :
      (requests : List Request) (db : Tables) (s : Store M)
      → Represents driver db s
      → AreSecretsWellFormed s
      → AreFit driver codec requests db
      → answers (on_tables driver codec) requests db ≡ answers (in_memory codec) requests s
  unfolding answers AreFit
  agreed [] db s r w fit = refl
  agreed (request ∷ requests) db s r w fit =
      let (same, next, good) = step request db s r w fit.0 in
      rw (same, agreed requests _ _ next good fit.1) refl

  -- From empty tables and a new in-memory store, the same sequence of calls of the twelve operations
  -- on secrets gets the same answers, if JSON reads back what the calls write, each SetSecret comes
  -- later than the rows of its name and makes a version that no row of it has, and a token that is
  -- restored has distinct versions with the emulator's recovery attributes and each tag once.
  pub answers-on_tables :
      (requests : List Request)
      → AreFit driver codec requests no_rows
      → answers (on_tables driver codec) requests no_rows
        ≡ answers (in_memory {M = M} codec) requests new_store
  answers-on_tables requests fit =
      agreed requests no_rows new_store (no_rows-Represents driver M)
        (new_store-AreSecretsWellFormed M) fit
