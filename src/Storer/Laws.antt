-- ===== src/Storer/Laws.antt =====
-- What a `Storer` promises that keeps a property of its state: no method panics, and each leaves
-- the property as it was. One record for each part of the interface.
use azure_keyvault_emulator.Prelude.{String, Option}
use azure_keyvault_emulator.Prelude.Outcome.{Ends}
use azure_keyvault_emulator.Prelude.Text.Decimal.{ℤ}
use azure_keyvault_emulator.Model.{
  SecretSetRequest, SecretUpdateRequest, CreateKeyRequest, ImportKeyRequest, UpdateKeyRequest,
  EncryptRequest, SignRequest, VerifyRequest, CertificatePolicy, CreateCertificateRequest,
  ImportCertificateRequest, UpdateCertificateRequest,
}
use azure_keyvault_emulator.Storer.{SecretMethods, KeyMethods, CertificateMethods}

pub record AreSecretsKept {S : Type 0} (P : S → Type 0) (m : SecretMethods S) : Type 0 where
  pub set_secret : (a : String) (b : SecretSetRequest) (s : S) → P s → Ends P (m.set_secret a b s)
  pub get_secret : (a : String) (b : String) (s : S) → P s → Ends P (m.get_secret a b s)
  pub list_secrets : (a : ℤ) (b : String) (s : S) → P s → Ends P (m.list_secrets a b s)
  pub list_secret_versions :
      (a : String) (b : ℤ) (c : String) (s : S) → P s → Ends P (m.list_secret_versions a b c s)
  pub update_secret :
      (a : String) (b : String) (c : SecretUpdateRequest) (s : S)
      → P s
      → Ends P (m.update_secret a b c s)
  pub delete_secret : (a : String) (s : S) → P s → Ends P (m.delete_secret a s)
  pub list_deleted_secrets :
      (a : ℤ) (b : String) (s : S) → P s → Ends P (m.list_deleted_secrets a b s)
  pub get_deleted_secret : (a : String) (s : S) → P s → Ends P (m.get_deleted_secret a s)
  pub purge_deleted_secret : (a : String) (s : S) → P s → Ends P (m.purge_deleted_secret a s)
  pub recover_deleted_secret : (a : String) (s : S) → P s → Ends P (m.recover_deleted_secret a s)
  pub backup_secret : (a : String) (s : S) → P s → Ends P (m.backup_secret a s)
  pub restore_secret : (a : String) (s : S) → P s → Ends P (m.restore_secret a s)

pub record AreKeysKept {S : Type 0} (P : S → Type 0) (m : KeyMethods S) : Type 0 where
  pub create_key : (a : String) (b : CreateKeyRequest) (s : S) → P s → Ends P (m.create_key a b s)
  pub import_key : (a : String) (b : ImportKeyRequest) (s : S) → P s → Ends P (m.import_key a b s)
  pub get_key : (a : String) (b : String) (s : S) → P s → Ends P (m.get_key a b s)
  pub list_keys : (a : ℤ) (b : String) (s : S) → P s → Ends P (m.list_keys a b s)
  pub list_key_versions :
      (a : String) (b : ℤ) (c : String) (s : S) → P s → Ends P (m.list_key_versions a b c s)
  pub update_key :
      (a : String) (b : String) (c : UpdateKeyRequest) (s : S) → P s → Ends P (m.update_key a b c s)
  pub delete_key : (a : String) (s : S) → P s → Ends P (m.delete_key a s)
  pub list_deleted_keys : (a : ℤ) (b : String) (s : S) → P s → Ends P (m.list_deleted_keys a b s)
  pub get_deleted_key : (a : String) (s : S) → P s → Ends P (m.get_deleted_key a s)
  pub purge_deleted_key : (a : String) (s : S) → P s → Ends P (m.purge_deleted_key a s)
  pub recover_deleted_key : (a : String) (s : S) → P s → Ends P (m.recover_deleted_key a s)
  pub encrypt :
      (a : String) (b : String) (c : EncryptRequest) (s : S) → P s → Ends P (m.encrypt a b c s)
  pub decrypt :
      (a : String) (b : String) (c : EncryptRequest) (s : S) → P s → Ends P (m.decrypt a b c s)
  pub sign : (a : String) (b : String) (c : SignRequest) (s : S) → P s → Ends P (m.sign a b c s)
  pub verify :
      (a : String) (b : String) (c : VerifyRequest) (s : S) → P s → Ends P (m.verify a b c s)
  pub wrap_key :
      (a : String) (b : String) (c : EncryptRequest) (s : S) → P s → Ends P (m.wrap_key a b c s)
  pub unwrap_key :
      (a : String) (b : String) (c : EncryptRequest) (s : S) → P s → Ends P (m.unwrap_key a b c s)

pub record AreCertificatesKept {S : Type 0} (P : S → Type 0) (m : CertificateMethods S)
    : Type 0 where
  pub create_certificate :
      (a : String) (b : CreateCertificateRequest) (s : S)
      → P s
      → Ends P (m.create_certificate a b s)
  pub import_certificate :
      (a : String) (b : ImportCertificateRequest) (s : S)
      → P s
      → Ends P (m.import_certificate a b s)
  pub get_certificate : (a : String) (b : String) (s : S) → P s → Ends P (m.get_certificate a b s)
  pub list_certificates : (a : ℤ) (b : String) (s : S) → P s → Ends P (m.list_certificates a b s)
  pub list_certificate_versions :
      (a : String) (b : ℤ) (c : String) (s : S) → P s → Ends P (m.list_certificate_versions a b c s)
  pub update_certificate :
      (a : String) (b : String) (c : UpdateCertificateRequest) (s : S)
      → P s
      → Ends P (m.update_certificate a b c s)
  pub get_certificate_policy : (a : String) (s : S) → P s → Ends P (m.get_certificate_policy a s)
  pub update_certificate_policy :
      (a : String) (b : Option CertificatePolicy) (s : S)
      → P s
      → Ends P (m.update_certificate_policy a b s)
  pub get_pending_certificate_operation :
      (a : String) (s : S) → P s → Ends P (m.get_pending_certificate_operation a s)
  pub delete_certificate : (a : String) (s : S) → P s → Ends P (m.delete_certificate a s)
  pub list_deleted_certificates :
      (a : ℤ) (b : String) (s : S) → P s → Ends P (m.list_deleted_certificates a b s)
  pub get_deleted_certificate : (a : String) (s : S) → P s → Ends P (m.get_deleted_certificate a s)
  pub purge_deleted_certificate :
      (a : String) (s : S) → P s → Ends P (m.purge_deleted_certificate a s)
  pub recover_deleted_certificate :
      (a : String) (s : S) → P s → Ends P (m.recover_deleted_certificate a s)
