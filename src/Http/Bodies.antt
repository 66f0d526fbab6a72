-- ===== src/Http/Bodies.antt =====
-- The values that the handlers of internal/handler encode: the bundles and items of internal/model.
use azure_keyvault_emulator.Prelude.{ℕ, String, Bool, Option, List}
use azure_keyvault_emulator.Model.{
  Attributes, Tags, JsonWebKey, CertificatePolicy, CertificateOperation,
}

pub record SecretBundle : Type 0 where
  pub value : String
  pub id : String
  pub content_type : String
  pub attributes : Attributes
  pub tags : Tags

pub record SecretItem : Type 0 where
  pub id : String
  pub content_type : String
  pub attributes : Attributes
  pub tags : Tags

pub record DeletedSecretBundle : Type 0 where
  pub bundle : SecretBundle
  pub recovery_id : String
  pub deleted_date : ℕ
  pub scheduled_purge_date : ℕ

pub record KeyBundle : Type 0 where
  pub key : JsonWebKey
  pub attributes : Attributes
  pub tags : Tags

pub record KeyItem : Type 0 where
  pub kid : String
  pub attributes : Attributes
  pub tags : Tags

pub record DeletedKeyBundle : Type 0 where
  pub bundle : KeyBundle
  pub recovery_id : String
  pub deleted_date : ℕ
  pub scheduled_purge_date : ℕ

pub record CryptoResponse : Type 0 where
  pub kid : String
  pub value : String
  pub alg : String
  pub iv : String

pub record CertificateBundle : Type 0 where
  pub id : String
  pub kid : String
  pub sid : String
  pub cer : String
  pub attributes : Attributes
  pub tags : Tags
  pub policy : Option CertificatePolicy

pub record CertificateItem : Type 0 where
  pub id : String
  pub kid : String
  pub sid : String
  pub x5t : String
  pub attributes : Attributes
  pub tags : Tags

pub record DeletedCertificateBundle : Type 0 where
  pub bundle : CertificateBundle
  pub recovery_id : String
  pub deleted_date : ℕ
  pub scheduled_purge_date : ℕ

pub record ListResult (T : Type 0) : Type 0 where
  pub value : List T
  pub next_link : Option String

-- A value that writeJSON is given. `status_body` is the answer of healthz, `token_body` that of a
-- backup.
pub data Body : Type 0 where
  error_body : String → String → Body
  status_body : String → Body
  token_body : String → Body
  secret_body : SecretBundle → Body
  deleted_secret_body : DeletedSecretBundle → Body
  secret_list : ListResult SecretItem → Body
  deleted_secret_list : ListResult DeletedSecretBundle → Body
  key_body : KeyBundle → Body
  deleted_key_body : DeletedKeyBundle → Body
  key_list : ListResult KeyItem → Body
  deleted_key_list : ListResult DeletedKeyBundle → Body
  crypto_body : CryptoResponse → Body
  verify_body : Bool → Body
  certificate_body : CertificateBundle → Body
  deleted_certificate_body : DeletedCertificateBundle → Body
  certificate_list : ListResult CertificateItem → Body
  deleted_certificate_list : ListResult DeletedCertificateBundle → Body
  policy_body : Option CertificatePolicy → Body
  operation_body : CertificateOperation → Body
