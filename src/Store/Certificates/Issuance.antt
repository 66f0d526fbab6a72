-- ===== src/Store/Certificates/Issuance.antt =====
-- CreateCertificate and ImportCertificate of internal/store/certificates.go, and
-- getIssuerMaterial. Both also append a key and a secret of the certificate's name.
use Prim.Native.String.{◌++◌}
use azure_keyvault_emulator.Prelude.{ℕ, String, Option, none, some, List, [], ◌==◌, if◌then◌else◌}
use mathlib.Core.List.{◌++◌ as append}
use azure_keyvault_emulator.Prelude.Dict.{Dict, lookup, contains}
use azure_keyvault_emulator.Prelude.Outcome.{
  Outcome, ok, err, panic, pure, gets, lift, raise_if, modify, ◌>>=◌, ◌>>◌,
}
use azure_keyvault_emulator.Model.{
  Attributes, Tags, CertificatePolicy, CreateCertificateRequest, ImportCertificateRequest, Props,
  Json,
}
use azure_keyvault_emulator.Crypto.Interface.{Bytes, Fallible, CertificateCrypto, CertOptions}
use azure_keyvault_emulator.Store.Errors.{Error, bad_parameter, currently_deleted}
use azure_keyvault_emulator.Store.Metadata.{clone_tags, build_attributes, new_version}
use azure_keyvault_emulator.Store.Entries.{put_version}
use azure_keyvault_emulator.Store.{Call, SecretRecord, SecretEntry, KeyRecord, CertificateRecord}
use azure_keyvault_emulator.Store.Secrets.{put_secret_version}
use azure_keyvault_emulator.Store.Secrets.Records.{latest_secret}
use azure_keyvault_emulator.Store.Keys.{put_key_version}
use azure_keyvault_emulator.Store.Keys.Records.{default_key_ops, or_bad_request}
use azure_keyvault_emulator.Store.Certificates.Records.{clone_certificate_record}
use azure_keyvault_emulator.Store.Certificates.Policy.{clone_policy, default_certificate_policy}

-- `policy.X509Props[key].(string)`, and "" where it is missing or no string.
unfoldable pub text_or_empty : Option Json → String
text_or_empty (some (Json.str t)) = t
text_or_empty _ = ""

unfoldable pub string_prop : String → Props → String
unfolding text_or_empty
string_prop key none = ""
string_prop key (some props) = text_or_empty (lookup key props)

unfoldable pub cert_type_of : Props → String
cert_type_of props = let t = string_prop "cert_type" props in if t == "" then "CA" else t

unfoldable pub new_certificate :
    ℕ → List ℕ → String → Option Attributes → Tags → Bytes → CertificatePolicy → CertificateRecord
new_certificate now buf name attributes tags der policy = record {
  name = name;
  version = new_version buf;
  cer = der;
  kid = name;
  sid = name;
  attributes = build_attributes attributes now now;
  tags = clone_tags tags;
  policy = clone_policy (some policy);
}

abbrev pub parent_of : {A : Type 0} → Outcome Error A → Outcome Error (Option A)
parent_of (ok parent) = ok (some parent)
parent_of (err e) = err e
parent_of panic = panic

module _ {M C P K : Type 0} (crypto : CertificateCrypto M C P K) where
  -- What getIssuerMaterial makes of what ParseImportedCertificate returns.
  unfoldable pub issuer_parsed : String → Fallible (C × Option P × Bytes) → Fallible (C × P)
  issuer_parsed issuer (ok (cert, none, text)) =
      err ("issuer certificate " ++ (crypto.quoted issuer ++ " has no private key and cannot sign"))
  issuer_parsed issuer (ok (cert, some key, text)) = ok (cert, key)
  issuer_parsed issuer (err e) =
      err ("failed to parse issuer certificate " ++ (crypto.quoted issuer ++ (": " ++ e)))
  issuer_parsed issuer panic = panic

  unfoldable pub issuer_of_latest : String → Option SecretRecord → Fallible (C × P)
  issuer_of_latest issuer none =
      err ("issuer certificate " ++ (crypto.quoted issuer ++ " has no versions"))
  issuer_of_latest issuer (some latest) =
      issuer_parsed issuer (crypto.parse_imported latest.value "")

  unfoldable pub issuer_of_entry : String → Option SecretEntry → Fallible (C × P)
  issuer_of_entry issuer none =
      err ("issuer certificate " ++ (crypto.quoted issuer ++ " not found in vault"))
  issuer_of_entry issuer (some entry) = issuer_of_latest issuer (latest_secret entry)

  unfoldable pub get_issuer_material : String → Dict SecretEntry → Fallible (C × P)
  get_issuer_material issuer secrets = issuer_of_entry issuer (lookup issuer secrets)

  -- The parent that the policy asks for.
  unfoldable pub issuer_for : String → Dict SecretEntry → Outcome Error (Option (C × P))
  issuer_for name secrets =
      if name == ""
      then ok none
      else parent_of (or_bad_request "InvalidIssuer" (get_issuer_material name secrets))

  unfoldable pub append_certificate : CertificateRecord → Bytes → Call M (Unit {0})
  append_certificate new text = modify (λ s. record s {
    certificates =
        put_version new.name (record { record_ = clone_certificate_record new; pem = text })
          s.certificates;
  })

  -- The key of an RSA certificate.
  unfoldable pub managed_key : CertificateRecord → Tags → K → KeyRecord
  managed_key new tags pub_ = record {
    name = new.name;
    version = new.version;
    key = crypto.rsa_to_jwk "" "RSA" (default_key_ops "RSA" []) pub_;
    attributes = new.attributes;
    tags = clone_tags tags;
  }

  unfoldable pub put_managed_key : CertificateRecord → Tags → K → M → Call M (Unit {0})
  put_managed_key new tags pub_ material = do
    _ ← put_key_version new.name new.version (managed_key new tags pub_) material
    pure tt

  unfoldable pub put_managed_secret : CertificateRecord → Tags → String → Call M (Unit {0})
  put_managed_secret new tags text = do
    _ ← put_secret_version new.name new.version text "application/x-pem-file" new.attributes tags
    pure tt

  unfoldable pub create_certificate :
      ℕ → List ℕ → Bytes → String → CreateCertificateRequest → Call M CertificateRecord
  create_certificate now buf entropy name req = do
    raise_if (name == "") (bad_parameter "Certificate name is required.")
    deleted ← gets (λ s. contains name s.deleted_certificates)
    raise_if deleted (currently_deleted "Certificate" name)
    let policy = default_certificate_policy name req.policy
    secrets ← gets (λ s. s.secrets)
    parent ← lift (issuer_for (string_prop "issuer_name" policy.x509_props) secrets)
    let options : CertOptions C P = record {
      cert_type = cert_type_of policy.x509_props;
      issuer = parent;
    }
    (priv, der) ←
        lift (or_bad_request "InvalidOperation" (crypto.generate_cert entropy name policy options))
    let cert_pem = crypto.encode_pem "CERTIFICATE" der
    let key_pem = crypto.encode_pem "RSA PRIVATE KEY" (crypto.marshal_private_key priv)
    let new = new_certificate now buf name req.attributes req.tags der policy
    append_certificate new cert_pem
    put_managed_key new req.tags (crypto.public_key priv) (crypto.private_material priv)
    put_managed_secret new req.tags (crypto.text_of (append cert_pem key_pem))
    pure (clone_certificate_record new)

  unfoldable pub imported_material : K → Option P → M
  imported_material pub_ none = crypto.public_material pub_
  imported_material pub_ (some priv) = crypto.private_material priv

  unfoldable pub put_imported_key :
      CertificateRecord → Tags → Option K → Option P → Call M (Unit {0})
  put_imported_key new tags none priv = pure tt
  put_imported_key new tags (some pub_) priv =
      put_managed_key new tags pub_ (imported_material pub_ priv)

  unfoldable pub import_certificate :
      ℕ → List ℕ → String → ImportCertificateRequest → Call M CertificateRecord
  import_certificate now buf name req = do
    raise_if (name == "") (bad_parameter "Certificate name is required.")
    raise_if (req.value == "") (bad_parameter "Certificate value is required.")
    (cert, priv, text) ←
        lift (or_bad_request "BadParameter" (crypto.parse_imported req.value req.password))
    deleted ← gets (λ s. contains name s.deleted_certificates)
    raise_if deleted (currently_deleted "Certificate" name)
    let policy = default_certificate_policy name req.policy
    let new = new_certificate now buf name req.attributes req.tags (crypto.raw cert) policy
    append_certificate new text
    put_imported_key new req.tags (crypto.rsa_public_key cert) priv
    put_managed_secret new req.tags (crypto.text_of text)
    pure (clone_certificate_record new)
