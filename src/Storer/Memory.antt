-- ===== src/Storer/Memory.antt =====
-- The in-memory store of internal/store as a `Storer`. The clock's reading and the bytes that
-- `crypto/rand` gives during a call are arguments.
pub mod SecretLaws
use azure_keyvault_emulator.Prelude.{ℕ, List}
use azure_keyvault_emulator.Crypto.Interface.{Bytes}
use azure_keyvault_emulator.Store.{Store}
use azure_keyvault_emulator.Store.Secrets
use azure_keyvault_emulator.Store.Keys
use azure_keyvault_emulator.Store.Keys.Crypto
use azure_keyvault_emulator.Store.Certificates
use azure_keyvault_emulator.Store.Certificates.Issuance
use azure_keyvault_emulator.Crypto.Interface.{KeyCrypto, CertificateCrypto}
use azure_keyvault_emulator.Storer.{SecretMethods, KeyMethods, CertificateMethods, delegated}

-- What a call reads from its surroundings.
pub record Moment : Type 0 where
  pub now : ℕ
  pub buf : Bytes
  pub entropy : Bytes

module _ {M : Type 0} (at : Moment) where
  abbrev pub memory_secrets : Secrets.Records.BackupCodec → SecretMethods (Store M)
  memory_secrets codec = record {
    set_secret = λ name req. delegated (Secrets.set_secret at.now at.buf name req);
    get_secret = λ name version. delegated (Secrets.get_secret name version);
    list_secrets = λ m t. delegated (Secrets.list_secrets m t);
    list_secret_versions = λ name m t. delegated (Secrets.list_secret_versions name m t);
    update_secret = λ name version req. delegated (Secrets.update_secret at.now name version req);
    delete_secret = λ name. delegated (Secrets.delete_secret at.now at.buf name);
    list_deleted_secrets = λ m t. delegated (Secrets.list_deleted_secrets m t);
    get_deleted_secret = λ name. delegated (Secrets.get_deleted_secret name);
    purge_deleted_secret = λ name. delegated (Secrets.purge_deleted_secret name);
    recover_deleted_secret = λ name. delegated (Secrets.recover_deleted_secret name);
    backup_secret = λ name. delegated (Secrets.backup_secret codec name);
    restore_secret = λ t. delegated (Secrets.restore_secret codec t);
  }

  abbrev pub memory_keys : KeyCrypto M → KeyMethods (Store M)
  memory_keys crypto = record {
    create_key = λ name req. delegated (Keys.create_key crypto at.now at.buf at.entropy name req);
    import_key = λ name req. delegated (Keys.import_key crypto at.now at.buf name req);
    get_key = λ name version. delegated (Keys.get_key name version);
    list_keys = λ m t. delegated (Keys.list_keys m t);
    list_key_versions = λ name m t. delegated (Keys.list_key_versions name m t);
    update_key = λ name version req. delegated (Keys.update_key at.now name version req);
    delete_key = λ name. delegated (Keys.delete_key at.now at.buf name);
    list_deleted_keys = λ m t. delegated (Keys.list_deleted_keys m t);
    get_deleted_key = λ name. delegated (Keys.get_deleted_key name);
    purge_deleted_key = λ name. delegated (Keys.purge_deleted_key name);
    recover_deleted_key = λ name. delegated (Keys.recover_deleted_key name);
    encrypt = λ name version req. delegated (Crypto.encrypt crypto at.entropy name version req);
    decrypt = λ name version req. delegated (Crypto.decrypt crypto name version req);
    sign = λ name version req. delegated (Crypto.sign crypto at.entropy name version req);
    verify = λ name version req. delegated (Crypto.verify crypto name version req);
    wrap_key = λ name version req. delegated (Crypto.wrap_key crypto at.entropy name version req);
    unwrap_key = λ name version req. delegated (Crypto.unwrap_key crypto name version req);
  }

  module _ {C P K : Type 0} where
    abbrev pub memory_certificates : CertificateCrypto M C P K → CertificateMethods (Store M)
    memory_certificates crypto = record {
      create_certificate = λ name req.
          delegated (Issuance.create_certificate crypto at.now at.buf at.entropy name req);
      import_certificate =
          λ name req. delegated (Issuance.import_certificate crypto at.now at.buf name req);
      get_certificate = λ name version. delegated (Certificates.get_certificate name version);
      list_certificates = λ m t. delegated (Certificates.list_certificates m t);
      list_certificate_versions =
          λ name m t. delegated (Certificates.list_certificate_versions name m t);
      update_certificate =
          λ name version req. delegated (Certificates.update_certificate at.now name version req);
      get_certificate_policy = λ name. delegated (Certificates.get_certificate_policy name);
      update_certificate_policy =
          λ name p. delegated (Certificates.update_certificate_policy at.now name p);
      get_pending_certificate_operation =
          λ name. delegated (Certificates.get_pending_certificate_operation name);
      delete_certificate = λ name. delegated (Certificates.delete_certificate at.now at.buf name);
      list_deleted_certificates = λ m t. delegated (Certificates.list_deleted_certificates m t);
      get_deleted_certificate = λ name. delegated (Certificates.get_deleted_certificate name);
      purge_deleted_certificate = λ name. delegated (Certificates.purge_deleted_certificate name);
      recover_deleted_certificate =
          λ name. delegated (Certificates.recover_deleted_certificate name);
    }
