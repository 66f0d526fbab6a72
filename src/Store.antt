-- ===== src/Store.antt =====
-- The in-memory store of internal/store: the state and the helpers of store.go. The six maps are
-- those of the `Store` struct; `M` is the type of `kvcrypto.KeyMaterial`. The mutex is not
-- modelled: an operation holds it from before its first read to its return, so operations run
-- one after another. The clock's reading and the bytes of `crypto/rand` are arguments.
pub mod Errors
pub mod Metadata
pub mod Pagination
pub mod Entries
pub mod Certificates
pub mod Keys
pub mod Secrets
use azure_keyvault_emulator.Prelude.{ℕ, String, List, []}
use azure_keyvault_emulator.Prelude.Dict.{Dict}
use azure_keyvault_emulator.Prelude.Outcome.{Method}
use azure_keyvault_emulator.Model.{Attributes, Tags, JsonWebKey, CertificatePolicy}
use azure_keyvault_emulator.Prelude.{Option}
use Errors.{Error}
use Entries.{Entry, DeletedEntry}

pub record SecretRecord : Type 0 where
  pub name : String
  pub version : String
  pub value : String
  pub content_type : String
  pub attributes : Attributes
  pub tags : Tags

pub record DeletedSecretRecord : Type 0 where
  pub secret : SecretRecord
  pub recovery_id : String
  pub deleted_date : ℕ
  pub scheduled_purge_date : ℕ

pub record KeyRecord : Type 0 where
  pub name : String
  pub version : String
  pub key : JsonWebKey
  pub attributes : Attributes
  pub tags : Tags

pub record DeletedKeyRecord : Type 0 where
  pub key_record : KeyRecord
  pub recovery_id : String
  pub deleted_date : ℕ
  pub scheduled_purge_date : ℕ

pub record CertificateRecord : Type 0 where
  pub name : String
  pub version : String
  pub cer : List ℕ
  pub kid : String
  pub sid : String
  pub attributes : Attributes
  pub tags : Tags
  pub policy : Option CertificatePolicy

pub record DeletedCertificateRecord : Type 0 where
  pub certificate : CertificateRecord
  pub recovery_id : String
  pub deleted_date : ℕ
  pub scheduled_purge_date : ℕ

pub record KeyVersion (M : Type 0) : Type 0 where
  pub record_ : KeyRecord
  pub material : M

pub record CertificateVersion : Type 0 where
  pub record_ : CertificateRecord
  pub pem : List ℕ

-- A version of a secret is its record.
abbrev pub SecretEntry : Type 0
SecretEntry = Entry SecretRecord

abbrev pub DeletedSecretEntry : Type 0
DeletedSecretEntry = DeletedEntry SecretRecord

abbrev pub KeyEntry : Type 0 → Type 0
KeyEntry M = Entry (KeyVersion M)

abbrev pub DeletedKeyEntry : Type 0 → Type 0
DeletedKeyEntry M = DeletedEntry (KeyVersion M)

abbrev pub CertificateEntry : Type 0
CertificateEntry = Entry CertificateVersion

abbrev pub DeletedCertificateEntry : Type 0
DeletedCertificateEntry = DeletedEntry CertificateVersion

pub record Store (M : Type 0) : Type 0 where
  pub secrets : Dict SecretEntry
  pub deleted_secrets : Dict DeletedSecretEntry
  pub keys : Dict (KeyEntry M)
  pub deleted_keys : Dict (DeletedKeyEntry M)
  pub certificates : Dict CertificateEntry
  pub deleted_certificates : Dict DeletedCertificateEntry

-- `New`
abbrev pub new_store : {M : Type 0} → Store M
new_store = record {
  secrets = [];
  deleted_secrets = [];
  keys = [];
  deleted_keys = [];
  certificates = [];
  deleted_certificates = [];
}

-- A method of `*Store`.
abbrev pub Call : Type 0 → Type 0 → Type 0
Call M A = Method (Store M) Error A
