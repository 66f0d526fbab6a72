-- ===== src/Web/Objects/Requests.antt =====
-- The bodies and the responses of the handlers of internal/web/handler.go for secrets, keys and
-- certificates.
use azure_keyvault_emulator.Prelude.{ℕ, String, Bool, false, Option, none, some}
use azure_keyvault_emulator.Prelude.Text.Decimal.{ℤ}
use azure_keyvault_emulator.Model.{Attributes}
use azure_keyvault_emulator.Store.{SecretRecord, KeyRecord, CertificateRecord}
use azure_keyvault_emulator.Storer.{AnyError, of_store, plain}
use azure_keyvault_emulator.Encryption.{Ciphers}
use azure_keyvault_emulator.Web.Replies.{
  SecretResponse, KeyResponse, CertificateResponse, Reply, error_reply,
}
use azure_keyvault_emulator.Web.{Scanned}

pub record CreateSecret : Type 0 where
  pub name : String
  pub value : String
  pub content_type : String
  pub not_before : Option ℤ
  pub expires : Option ℤ

pub record CreateKey : Type 0 where
  pub name : String
  pub kty : String
  pub key_size : ℤ
  pub crv : String
  pub not_before : Option ℤ
  pub expires : Option ℤ

-- `validity_months` is a number above 0, as its text, or none.
pub record GenerateCertificate : Type 0 where
  pub name : String
  pub common_name : String
  pub organization : String
  pub country : String
  pub state : String
  pub locality : String
  pub validity_months : Option String
  pub cert_type : String
  pub issuer_name : String

pub record ImportCertificate : Type 0 where
  pub name : String
  pub value : String
  pub password : String

pub record ObjectPackages : Type 0 where
  pub create_secret : String → Scanned CreateSecret
  pub create_key : String → Scanned CreateKey
  pub generate_certificate : String → Scanned GenerateCertificate
  pub import_certificate : String → Scanned ImportCertificate
  pub ciphers : Ciphers

-- `err.Error()`
unfoldable pub error_message : AnyError → String
error_message (of_store e) = e.message
error_message (plain message) = message

unfoldable pub failed : ℕ → AnyError → Reply
failed status e = error_reply status (error_message e)

abbrev is_set : Option Bool → Bool
is_set none = false
is_set (some b) = b

unfoldable pub secret_response : SecretRecord → SecretResponse
secret_response r = record {
  name = r.name;
  version = r.version;
  enabled = is_set r.attributes.enabled;
  content_type = r.content_type;
  created = r.attributes.created;
  updated = r.attributes.updated;
  not_before = r.attributes.not_before;
  expires = r.attributes.expires;
}

unfoldable pub key_response : KeyRecord → KeyResponse
key_response r = record {
  name = r.name;
  version = r.version;
  kty = r.key.kty;
  crv = r.key.crv;
  kid = r.key.kid;
  created = r.attributes.created;
  updated = r.attributes.updated;
  not_before = r.attributes.not_before;
  expires = r.attributes.expires;
}

unfoldable pub certificate_response : CertificateRecord → CertificateResponse
certificate_response r = record {
  name = r.name;
  version = r.version;
  created = r.attributes.created;
  updated = r.attributes.updated;
  expires = r.attributes.expires;
}

-- `&model.Attributes{NotBefore: …, Expires: …}`
abbrev pub dated : Option ℤ → Option ℤ → Attributes
dated not_before expires = record {
  enabled = none;
  not_before = not_before;
  expires = expires;
  created = 0;
  updated = 0;
  recovery_level = "";
  recoverable_days = 0;
}
