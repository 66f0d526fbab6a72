-- ===== src/Store/Certificates/Managed.antt =====
-- The key and the secret that CreateCertificate and ImportCertificate of
-- internal/store/certificates.go append, and the maps of deleted names that they do not read.
use azure_keyvault_emulator.Prelude.{ℕ, String, ◌≡◌, refl, ap, ◌∙◌, some, List, arith, ◌==◌, eq_iff}
use azure_keyvault_emulator.Prelude.Dict.{lookup, contains, lookup-insert}
use azure_keyvault_emulator.Prelude.Outcome.{ok, pure, ◌>>◌}
use azure_keyvault_emulator.Prelude.Outcome.Yields.{Yields, yielded, raise_if-Yields, lift-Yields}
use azure_keyvault_emulator.Model.{CreateCertificateRequest, Tags}
use azure_keyvault_emulator.Crypto.Interface.{Bytes, CertificateCrypto}
use azure_keyvault_emulator.Store.{
  Store, Call, SecretRecord, KeyRecord, CertificateRecord, KeyVersion, CertificateVersion,
}
use azure_keyvault_emulator.Store.Metadata.{new_version, clone_attributes, clone_tags}
use azure_keyvault_emulator.Store.Metadata.Clones.{clone_attributes_lem, clone_tags_idem}
use azure_keyvault_emulator.Store.Entries.{appended, put_version}
use azure_keyvault_emulator.Store.Entries.Appended.{last?-appended}
use azure_keyvault_emulator.Store.Secrets.{put_secret_version, get_secret}
use azure_keyvault_emulator.Store.Secrets.Records.{
  find_secret_version, latest_secret, clone_secret_record,
}
use azure_keyvault_emulator.Store.Keys.{put_key_version, get_key, find_key_version, latest_key}
use azure_keyvault_emulator.Store.Keys.Records.{clone_key_record, or_bad_request}
use azure_keyvault_emulator.Store.Certificates.{get_certificate}
use azure_keyvault_emulator.Store.Certificates.Records.{
  find_certificate_version, latest_certificate, clone_certificate_record,
}
use azure_keyvault_emulator.Store.Certificates.Policy.{
  clone_policy_idem, default_certificate_policy,
}
use azure_keyvault_emulator.Store.Certificates.Issuance.{
  create_certificate, issuer_for, append_certificate, put_managed_key, put_managed_secret,
  new_certificate, managed_key, string_prop, cert_type_of,
}

clone_certificate_record_idem :
    (r : CertificateRecord)
    → clone_certificate_record (clone_certificate_record r) ≡ clone_certificate_record r
unfolding clone_certificate_record
clone_certificate_record_idem r = simp (clone_attributes_lem, clone_tags_idem, clone_policy_idem)

-- The entry that a name has behind `put_version`.
lookup-put_version :
    {V : Type 0} (name : String) (v : V) (entries : _)
    → lookup name (put_version name v entries) ≡ some (appended (lookup name entries) v)
unfolding put_version
lookup-put_version name v entries =
    ground
      (arith, lookup-insert name name (appended (lookup name entries) v) entries, eq_iff name name)

-- What the reads with no version answer of a name whose newest version has just been appended.
module _ {M : Type 0} (name : String) (t : Store M) where
  get_certificate-appended :
      (new : CertificateVersion) (o : _)
      → lookup name t.certificates ≡ some (appended o new)
      → get_certificate name "" t ≡ (ok (clone_certificate_record new.record_), t)
  unfolding get_certificate find_certificate_version latest_certificate
  get_certificate-appended new o h = ground (arith, h, last?-appended o new)

  get_key-put :
      (new : KeyVersion M) (o : _)
      → lookup name t.keys ≡ some (appended o new)
      → get_key name "" t ≡ (ok (clone_key_record new.record_), t)
  unfolding get_key find_key_version latest_key
  get_key-put new o h = ground (arith, h, last?-appended o new)

  get_secret-put :
      (new : SecretRecord) (o : _)
      → lookup name t.secrets ≡ some (appended o new)
      → get_secret name "" t ≡ (ok (clone_secret_record new), t)
  unfolding get_secret find_secret_version latest_secret
  get_secret-put new o h = ground (arith, h, last?-appended o new)

module _ {M : Type 0} where
  -- The certificate `r` is read back, and so are a key and a secret of its name and version.
  pub record IsIssued (name version : String) (s : Store M) (r : CertificateRecord) (t : Store M)
      : Type 0 where
    pub certificate_read : get_certificate name "" t ≡ (ok r, t)
    pub certificate_version : r.version ≡ version
    pub key : KeyRecord
    pub key_read : get_key name "" t ≡ (ok key, t)
    pub key_version : key.version ≡ version
    pub secret : SecretRecord
    pub secret_read : get_secret name "" t ≡ (ok secret, t)
    pub secret_version : secret.version ≡ version
    pub secret_type : secret.content_type ≡ "application/x-pem-file"
    pub deleted_secrets_kept : t.deleted_secrets ≡ s.deleted_secrets
    pub deleted_keys_kept : t.deleted_keys ≡ s.deleted_keys

module _ {M C P K : Type 0} (crypto : CertificateCrypto M C P K) where
  -- The last steps of CreateCertificate, and of ImportCertificate for a certificate of RSA.
  abbrev issue : CertificateRecord → Bytes → Tags → K → M → String → Call M CertificateRecord
  issue new pem tags pub_ material text =
      append_certificate crypto new pem
      >> (put_managed_key crypto new tags pub_ material
          >> (put_managed_secret crypto new tags text >> pure (clone_certificate_record new)))

  module _ (new : CertificateRecord) (pem : Bytes) (tags : Tags) (pub_ : K) (material : M)
      (text : String) (s : Store M) where
    abbrev issued_version : CertificateVersion
    issued_version = record { record_ = clone_certificate_record new; pem = pem }

    abbrev issued_key : KeyVersion M
    issued_key = record {
      record_ = clone_key_record (managed_key crypto new tags pub_);
      material = material;
    }

    abbrev issued_secret : SecretRecord
    issued_secret = record {
      name = new.name;
      version = new.version;
      value = text;
      content_type = "application/x-pem-file";
      attributes = clone_attributes new.attributes;
      tags = clone_tags tags;
    }

    abbrev issued : Store M
    issued = record s {
      certificates = put_version new.name issued_version s.certificates;
      keys = put_version new.name issued_key s.keys;
      secrets = put_version new.name issued_secret s.secrets;
    }

    issue-eq : issue new pem tags pub_ material text s ≡ (ok (clone_certificate_record new), issued)
    unfolding append_certificate put_managed_key put_managed_secret put_key_version
        put_secret_version managed_key
    issue-eq = refl

    issued-IsIssued : IsIssued new.name new.version s (clone_certificate_record new) issued
    unfolding clone_certificate_record clone_key_record clone_secret_record managed_key
    issued-IsIssued = record {
      certificate_read =
          get_certificate-appended new.name issued issued_version (lookup new.name s.certificates)
            (lookup-put_version new.name issued_version s.certificates)
          ∙ ap (λ r. (ok r, issued)) (clone_certificate_record_idem new);
      certificate_version = refl;
      key = clone_key_record issued_key.record_;
      key_read =
          get_key-put new.name issued issued_key (lookup new.name s.keys)
            (lookup-put_version new.name issued_key s.keys);
      key_version = refl;
      secret = clone_secret_record issued_secret;
      secret_read =
          get_secret-put new.name issued issued_secret (lookup new.name s.secrets)
            (lookup-put_version new.name issued_secret s.secrets);
      secret_version = refl;
      secret_type = refl;
      deleted_secrets_kept = refl;
      deleted_keys_kept = refl;
    }

    issue-Yields :
        Yields (IsIssued new.name new.version s) (issue new pem tags pub_ material text s)
    issue-Yields = rw issue-eq issued-IsIssued

  create_certificate-Yields :
      (now : ℕ) (buf : List ℕ) (entropy : Bytes) (name : String) (req : CreateCertificateRequest)
      (s : Store M)
      → Yields
          (IsIssued name (new_version buf) s)
          (create_certificate crypto now buf entropy name req s)
  unfolding create_certificate new_certificate
  create_certificate-Yields now buf entropy name req s =
      let policy = default_certificate_policy name req.policy in
      raise_if-Yields (IsIssued name (new_version buf) s) s (name == "") _ _ λ _.
        raise_if-Yields (IsIssued name (new_version buf) s) s (contains name s.deleted_certificates)
          _ _
          λ _.
            lift-Yields (IsIssued name (new_version buf) s) s
              (issuer_for crypto (string_prop "issuer_name" policy.x509_props) s.secrets) _
              λ parent _.
                lift-Yields (IsIssued name (new_version buf) s) s
                  (or_bad_request "InvalidOperation" (
                    crypto.generate_cert entropy name policy
                      (record { cert_type = cert_type_of policy.x509_props; issuer = parent })))
                  _
                  λ made _.
                    issue-Yields
                      (new_certificate now buf name req.attributes req.tags made.1 policy)
                      (crypto.encode_pem "CERTIFICATE" made.1) req.tags (crypto.public_key made.0)
                      (crypto.private_material made.0) _ s

  -- After a CreateCertificate that succeeds, GetCertificate, GetKey and GetSecret with no version
  -- answer the new certificate, a key and a PEM secret, all three of the new version; and the maps
  -- of deleted secrets and deleted keys are what they were.
  pub create_certificate-IsIssued :
      (now : ℕ) (buf : List ℕ) (entropy : Bytes) (name : String) (req : CreateCertificateRequest)
      (s : Store M) {r : CertificateRecord}
      → (create_certificate crypto now buf entropy name req s).0 ≡ ok r
      → IsIssued name (new_version buf) s r (create_certificate crypto now buf entropy name req s).1
  create_certificate-IsIssued now buf entropy name req s =
      yielded (IsIssued name (new_version buf) s)
        (create_certificate crypto now buf entropy name req s)
        (create_certificate-Yields now buf entropy name req s)
