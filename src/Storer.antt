-- ===== src/Storer.antt =====
-- The `Storer` interface of internal/store/store.go, which the handlers take: its methods by what
-- they are about. A method changes a state of type `S`, and fails with a `store.Error` or with
-- another `error`. `Close` releases what the process holds, and is left out.
pub mod Laws
pub mod Memory
use azure_keyvault_emulator.Prelude.{String, Bool, Option}
use azure_keyvault_emulator.Prelude.Outcome.{Outcome, ok, err, panic, Method}
use azure_keyvault_emulator.Prelude.Text.Decimal.{ℤ}
use azure_keyvault_emulator.Model.{
  SecretSetRequest, SecretUpdateRequest, CreateKeyRequest, ImportKeyRequest, UpdateKeyRequest,
  EncryptRequest, SignRequest, VerifyRequest, CertificatePolicy, CreateCertificateRequest,
  ImportCertificateRequest, UpdateCertificateRequest, CertificateOperation,
}
use azure_keyvault_emulator.Store.{
  SecretRecord, DeletedSecretRecord, KeyRecord, DeletedKeyRecord, CertificateRecord,
  DeletedCertificateRecord,
}
use azure_keyvault_emulator.Store.Errors.{Error}
use azure_keyvault_emulator.Store.Pagination.{Page}

-- Go's `error`: one of the store, or one that has a text only.
pub data AnyError : Type 0 where
  of_store : Error → AnyError
  plain : String → AnyError

abbrev pub named_error : {A : Type 0} → Outcome Error A → Outcome AnyError A
named_error (ok a) = ok a
named_error (err e) = err (of_store e)
named_error panic = panic

abbrev pub Served : Type 0 → Type 0 → Type 0
Served S A = Method S AnyError A

-- A method whose errors are those of the store.
abbrev pub delegated : {S A : Type 0} → Method S Error A → Served S A
delegated m s = let (r, t) = m s in (named_error r, t)

pub record SecretMethods (S : Type 0) : Type 0 where
  pub set_secret : String → SecretSetRequest → Served S SecretRecord
  pub get_secret : String → String → Served S SecretRecord
  pub list_secrets : ℤ → String → Served S (Page SecretRecord)
  pub list_secret_versions : String → ℤ → String → Served S (Page SecretRecord)
  pub update_secret : String → String → SecretUpdateRequest → Served S SecretRecord
  pub delete_secret : String → Served S DeletedSecretRecord
  pub list_deleted_secrets : ℤ → String → Served S (Page DeletedSecretRecord)
  pub get_deleted_secret : String → Served S DeletedSecretRecord
  pub purge_deleted_secret : String → Served S (Unit {0})
  pub recover_deleted_secret : String → Served S SecretRecord
  pub backup_secret : String → Served S String
  pub restore_secret : String → Served S SecretRecord

pub record KeyMethods (S : Type 0) : Type 0 where
  pub create_key : String → CreateKeyRequest → Served S KeyRecord
  pub import_key : String → ImportKeyRequest → Served S KeyRecord
  pub get_key : String → String → Served S KeyRecord
  pub list_keys : ℤ → String → Served S (Page KeyRecord)
  pub list_key_versions : String → ℤ → String → Served S (Page KeyRecord)
  pub update_key : String → String → UpdateKeyRequest → Served S KeyRecord
  pub delete_key : String → Served S DeletedKeyRecord
  pub list_deleted_keys : ℤ → String → Served S (Page DeletedKeyRecord)
  pub get_deleted_key : String → Served S DeletedKeyRecord
  pub purge_deleted_key : String → Served S (Unit {0})
  pub recover_deleted_key : String → Served S KeyRecord
  pub encrypt : String → String → EncryptRequest → Served S (String × String)
  pub decrypt : String → String → EncryptRequest → Served S (String × String)
  pub sign : String → String → SignRequest → Served S String
  pub verify : String → String → VerifyRequest → Served S Bool
  pub wrap_key : String → String → EncryptRequest → Served S String
  pub unwrap_key : String → String → EncryptRequest → Served S String

pub record CertificateMethods (S : Type 0) : Type 0 where
  pub create_certificate : String → CreateCertificateRequest → Served S CertificateRecord
  pub import_certificate : String → ImportCertificateRequest → Served S CertificateRecord
  pub get_certificate : String → String → Served S CertificateRecord
  pub list_certificates : ℤ → String → Served S (Page CertificateRecord)
  pub list_certificate_versions : String → ℤ → String → Served S (Page CertificateRecord)
  pub update_certificate : String → String → UpdateCertificateRequest → Served S CertificateRecord
  pub get_certificate_policy : String → Served S (Option CertificatePolicy)
  pub update_certificate_policy :
      String → Option CertificatePolicy → Served S (Option CertificatePolicy)
  pub get_pending_certificate_operation : String → Served S CertificateOperation
  pub delete_certificate : String → Served S DeletedCertificateRecord
  pub list_deleted_certificates : ℤ → String → Served S (Page DeletedCertificateRecord)
  pub get_deleted_certificate : String → Served S DeletedCertificateRecord
  pub purge_deleted_certificate : String → Served S (Unit {0})
  pub recover_deleted_certificate : String → Served S CertificateRecord
