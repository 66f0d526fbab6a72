-- ===== src/Store/Certificates/Tests.antt =====
-- Runs of the certificate operations of internal/store/certificates.go, and its theorems at
-- concrete inputs.
use azure_keyvault_emulator.Prelude.{ℕ, ◌≡◌, refl, none, some, List, [], ◌∷◌}
use azure_keyvault_emulator.Prelude.Dict.{lookup}
use azure_keyvault_emulator.Prelude.Outcome.{ok, err}
use azure_keyvault_emulator.Prelude.Outcome.Runs.{serve, NeverPanics}
use azure_keyvault_emulator.Prelude.Text.Hex.{hex_encode, hex_digit}
use azure_keyvault_emulator.Model.{Attributes, JsonWebKey, CreateCertificateRequest}
use azure_keyvault_emulator.Crypto.Interface.{CertificateCrypto}
use azure_keyvault_emulator.Store.{
  Store, SecretRecord, KeyRecord, CertificateRecord, CertificateVersion, DeletedSecretEntry,
  DeletedKeyEntry, new_store,
}
use azure_keyvault_emulator.Store.Errors.{already_exists}
use azure_keyvault_emulator.Store.Metadata.{
  new_version, build_attributes, clone_attributes, clone_tags, recovery_level, recoverable_days,
}
use azure_keyvault_emulator.Store.Secrets.{
  get_secret, delete_secret, recover_deleted_secret, put_secret_version,
}
use azure_keyvault_emulator.Store.Secrets.Records.{secret_not_found}
use azure_keyvault_emulator.Store.Keys.{get_key, delete_key, recover_deleted_key, put_key_version}
use azure_keyvault_emulator.Store.Keys.Records.{key_not_found, or_bad_request}
use azure_keyvault_emulator.Store.Certificates.Records.{clone_certificate_record}
use azure_keyvault_emulator.Store.Certificates.Policy.{
  clone_policy, default_certificate_policy, marshalled, marshalled_policy, or_props, policy_or_none,
}
use azure_keyvault_emulator.Store.Certificates.Issuance.{
  create_certificate, new_certificate, issuer_for, string_prop, text_or_empty, cert_type_of,
  append_certificate, put_managed_key, put_managed_secret, managed_key,
}
use azure_keyvault_emulator.Store.Certificates.Safety.{AreCertificatesWellFormed}
use azure_keyvault_emulator.Store.Certificates.Calls.{
  CertificateCall, run_certificate, serve_certificates_safe, new_store-AreCertificatesWellFormed,
}
use azure_keyvault_emulator.Store.Certificates.Managed.{IsIssued, create_certificate-IsIssued}
use azure_keyvault_emulator.Store.Certificates.Conflicts.{secret_conflict, key_conflict}

abbrev blank : JsonWebKey
blank = record {
  kid = "";
  kty = "RSA";
  key_ops = [];
  n = "";
  e = "";
  d = "";
  p = "";
  q = "";
  dp = "";
  dq = "";
  qi = "";
  crv = "";
  x = "";
  y = "";
  k = "";
}

-- A private key is a number, and a certificate is that number as one byte.
abbrev toy : CertificateCrypto ℕ ℕ ℕ ℕ
toy = record {
  generate_cert = λ _ _ _ _. ok (7, 7 ∷ []);
  parse_imported = λ _ _. ok (7, some 7, 7 ∷ []);
  rsa_to_jwk = λ _ _ _ _. blank;
  raw = λ c. c ∷ [];
  rsa_public_key = λ c. some c;
  public_key = λ p. p;
  private_material = λ p. p;
  public_material = λ k. k;
  encode_pem = λ _ b. b;
  marshal_private_key = λ p. p ∷ [];
  text_of = hex_encode;
  quoted = λ t. t;
}

abbrev request : CreateCertificateRequest
request = record { policy = none; attributes = none; tags = none }

abbrev buf : List ℕ
buf = 10 ∷ 255 ∷ []

abbrev attributes : Attributes
attributes = record {
  enabled = none;
  not_before = none;
  expires = none;
  created = 100;
  updated = 100;
  recovery_level = recovery_level;
  recoverable_days = recoverable_days;
}

abbrev tls : CertificateRecord
tls = record {
  name = "tls";
  version = "0aff";
  cer = 7 ∷ [];
  kid = "tls";
  sid = "tls";
  attributes = attributes;
  tags = none;
  policy = some (default_certificate_policy "tls" none);
}

-- A store in which the name is that of a deleted secret and of a deleted key.
abbrev old_secret : DeletedSecretEntry
old_secret = record {
  entry = record {
    versions =
        (record {
          name = "tls";
          version = "01";
          value = "s3cret";
          content_type = "";
          attributes = attributes;
          tags = none;
        })
        ∷ [];
  };
  recovery_id = "";
  deleted_date = 0;
  scheduled_purge_date = 0;
}

abbrev old_key : DeletedKeyEntry ℕ
old_key = record {
  entry = record {
    versions =
        (record {
          record_ = record {
            name = "tls";
            version = "01";
            key = blank;
            attributes = attributes;
            tags = none;
          };
          material = 5;
        })
        ∷ [];
  };
  recovery_id = "";
  deleted_date = 0;
  scheduled_purge_date = 0;
}

abbrev before : Store ℕ
before = record new_store {
  deleted_secrets = ("tls", old_secret) ∷ [];
  deleted_keys = ("tls", old_key) ∷ [];
}

create_tls : (create_certificate toy 100 buf [] "tls" request before).0 ≡ ok tls
unfolding create_certificate default_certificate_policy marshalled marshalled_policy or_props
    policy_or_none string_prop text_or_empty cert_type_of issuer_for or_bad_request new_certificate
    append_certificate put_managed_key put_managed_secret managed_key put_key_version
    put_secret_version clone_certificate_record clone_policy build_attributes clone_attributes
    clone_tags new_version hex_encode hex_digit lookup
create_tls = refl

abbrev after : Store ℕ
after = (create_certificate toy 100 buf [] "tls" request before).1

create_certificate-IsIssued_example : IsIssued "tls" (new_version buf) before tls after
create_certificate-IsIssued_example =
    create_certificate-IsIssued toy 100 buf [] "tls" request before create_tls

secret_deleted : lookup "tls" before.deleted_secrets ≡ some old_secret
unfolding lookup
secret_deleted = refl

key_deleted : lookup "tls" before.deleted_keys ≡ some old_key
unfolding lookup
key_deleted = refl

secret_conflict_example :
    ((v : SecretRecord) × (get_secret "tls" "" after ≡ (ok v, after)))
    × (lookup "tls" after.deleted_secrets ≡ some old_secret)
    × (delete_secret 200 buf "tls" after ≡ (err (secret_not_found "tls"), after))
    × (recover_deleted_secret "tls" after ≡ (err (already_exists "Secret" "tls"), after))
secret_conflict_example =
    secret_conflict toy 100 buf [] "tls" request before create_tls 200 buf secret_deleted

key_conflict_example :
    ((k : KeyRecord) × (get_key "tls" "" after ≡ (ok k, after)))
    × (lookup "tls" after.deleted_keys ≡ some old_key)
    × (delete_key 200 buf "tls" after ≡ (err (key_not_found "tls"), after))
    × (recover_deleted_key "tls" after ≡ (err (already_exists "Key" "tls"), after))
key_conflict_example =
    key_conflict toy 100 buf [] "tls" request before create_tls 200 buf key_deleted

abbrev calls : List CertificateCall
calls =
    CertificateCall.create 100 buf [] "tls" request
    ∷ CertificateCall.delete 200 buf "tls"
    ∷ CertificateCall.recover_deleted "tls"
    ∷ CertificateCall.get_policy "tls"
    ∷ []

serve_certificates_safe_example :
    NeverPanics (serve (run_certificate toy) calls (new_store {M = ℕ})).0
    × AreCertificatesWellFormed (serve (run_certificate toy) calls (new_store {M = ℕ})).1
serve_certificates_safe_example =
    serve_certificates_safe toy calls new_store
      (((λ _ _ e. cc), (λ _ _ e. cc)), (tt, (tt, (tt, tt)))) (new_store-AreCertificatesWellFormed ℕ)

abbrev issued : CertificateVersion
issued = record { record_ = tls; pem = 7 ∷ [] }

abbrev one : Store ℕ
one = record new_store { certificates = ("tls", record { versions = issued ∷ [] }) ∷ [] }
