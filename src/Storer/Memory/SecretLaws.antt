-- ===== src/Storer/Memory/SecretLaws.antt =====
-- The in-memory store of internal/store keeps the invariant of its secrets.
use azure_keyvault_emulator.Prelude.Outcome.{Outcome, ok, err, panic, Ends}
use azure_keyvault_emulator.Store.{Store}
use azure_keyvault_emulator.Store.Errors.{Error}
use azure_keyvault_emulator.Store.Secrets.Records.{BackupCodec}
use azure_keyvault_emulator.Store.Secrets.Safety.{
  AreSecretsWellFormed, set_secret-Ends, get_secret-Ends, update_secret-Ends, list_secrets-Ends,
  list_secret_versions-Ends, delete_secret-Ends, list_deleted_secrets-Ends, get_deleted_secret-Ends,
  purge_deleted_secret-Ends, recover_deleted_secret-Ends, backup_secret-Ends, restore_secret-Ends,
}
use azure_keyvault_emulator.Storer.{named_error}
use azure_keyvault_emulator.Storer.Laws.{AreSecretsKept}
use azure_keyvault_emulator.Storer.Memory.{Moment, memory_secrets}

-- The name of an error changes nothing.
pub delegated-Ends :
    {S A : Type 0} (P : S → Type 0) (r : Outcome Error A × S)
    → Ends P r
    → Ends P (named_error r.0, r.1)
delegated-Ends P (ok a, s) h = h
delegated-Ends P (err e, s) h = h
delegated-Ends P (panic, s) h = h

module _ {M : Type 0} (at : Moment) (codec : BackupCodec) where
  abbrev keeps :
      {A : Type 0} (r : Outcome Error A × Store M)
      → Ends AreSecretsWellFormed r
      → Ends AreSecretsWellFormed (named_error r.0, r.1)
  keeps r h = delegated-Ends AreSecretsWellFormed r h

  pub memory_secrets-AreSecretsKept :
      AreSecretsKept AreSecretsWellFormed (memory_secrets {M = M} at codec)
  memory_secrets-AreSecretsKept = record {
    set_secret = λ a b s w. keeps _ (set_secret-Ends at.now at.buf a b s w);
    get_secret = λ a b s w. keeps _ (get_secret-Ends a b s w);
    list_secrets = λ a b s w. keeps _ (list_secrets-Ends a b s w);
    list_secret_versions = λ a b c s w. keeps _ (list_secret_versions-Ends a b c s w);
    update_secret = λ a b c s w. keeps _ (update_secret-Ends at.now a b c s w);
    delete_secret = λ a s w. keeps _ (delete_secret-Ends at.now at.buf a s w);
    list_deleted_secrets = λ a b s w. keeps _ (list_deleted_secrets-Ends a b s w);
    get_deleted_secret = λ a s w. keeps _ (get_deleted_secret-Ends a s w);
    purge_deleted_secret = λ a s w. keeps _ (purge_deleted_secret-Ends a s w);
    recover_deleted_secret = λ a s w. keeps _ (recover_deleted_secret-Ends a s w);
    backup_secret = λ a s w. keeps _ (backup_secret-Ends codec a s w);
    restore_secret = λ a s w. keeps _ (restore_secret-Ends codec a s w);
  }
