-- ===== src/Store/Certificates/Conflicts.antt =====
-- CreateCertificate of internal/store/certificates.go reads the map of deleted certificates alone: a
-- name that is deleted as a secret or as a key is put among the live ones of that kind as well.
use azure_keyvault_emulator.Prelude.{ℕ, String, ◌≡◌, ap, ◌∙◌, some, List, arith}
use azure_keyvault_emulator.Prelude.Dict.{lookup}
use azure_keyvault_emulator.Prelude.Outcome.{ok, err}
use azure_keyvault_emulator.Model.{CreateCertificateRequest}
use azure_keyvault_emulator.Crypto.Interface.{Bytes, CertificateCrypto}
use azure_keyvault_emulator.Store.{
  Store, SecretRecord, KeyRecord, CertificateRecord, DeletedSecretEntry, DeletedKeyEntry,
}
use azure_keyvault_emulator.Store.Errors.{already_exists}
use azure_keyvault_emulator.Store.Secrets.{get_secret, delete_secret, recover_deleted_secret}
use azure_keyvault_emulator.Store.Secrets.Records.{secret_not_found}
use azure_keyvault_emulator.Store.Keys.{get_key, delete_key, recover_deleted_key}
use azure_keyvault_emulator.Store.Keys.Records.{key_not_found}
use azure_keyvault_emulator.Store.Certificates.Issuance.{create_certificate}
use azure_keyvault_emulator.Store.Certificates.Managed.{create_certificate-IsIssued}

-- A name that is live and deleted at once can be neither deleted nor recovered.
module _ {M : Type 0} (name : String) (t : Store M) where
  delete_secret-both :
      (now : ℕ) (buf : List ℕ) (v : SecretRecord) (d : DeletedSecretEntry)
      → get_secret name "" t ≡ (ok v, t)
      → lookup name t.deleted_secrets ≡ some d
      → delete_secret now buf name t ≡ (err (secret_not_found name), t)
  unfolding get_secret delete_secret
  delete_secret-both now buf v d h e = ground arith

  recover_deleted_secret-both :
      (v : SecretRecord)
      → get_secret name "" t ≡ (ok v, t)
      → recover_deleted_secret name t ≡ (err (already_exists "Secret" name), t)
  unfolding get_secret recover_deleted_secret
  recover_deleted_secret-both v h = ground arith

  delete_key-both :
      (now : ℕ) (buf : List ℕ) (k : KeyRecord) (d : DeletedKeyEntry M)
      → get_key name "" t ≡ (ok k, t)
      → lookup name t.deleted_keys ≡ some d
      → delete_key now buf name t ≡ (err (key_not_found name), t)
  unfolding get_key delete_key
  delete_key-both now buf k d h e = ground arith

  recover_deleted_key-both :
      (k : KeyRecord)
      → get_key name "" t ≡ (ok k, t)
      → recover_deleted_key name t ≡ (err (already_exists "Key" name), t)
  unfolding get_key recover_deleted_key
  recover_deleted_key-both k h = ground arith

module _ {M C P K : Type 0} (crypto : CertificateCrypto M C P K) (now : ℕ) (buf : List ℕ)
    (entropy : Bytes) (name : String) (req : CreateCertificateRequest) (s : Store M)
    {r : CertificateRecord}
    (done : (create_certificate crypto now buf entropy name req s).0 ≡ ok r) where
  abbrev pub created : Store M
  created = (create_certificate crypto now buf entropy name req s).1

  -- A name that is deleted as a secret, and of which a certificate is created, becomes that of a
  -- secret that GetSecret answers, that DeleteSecret does not find and that RecoverDeletedSecret
  -- refuses to recover.
  pub secret_conflict :
      (now' : ℕ) (buf' : List ℕ) {d : DeletedSecretEntry}
      → lookup name s.deleted_secrets ≡ some d
      → ((v : SecretRecord) × (get_secret name "" created ≡ (ok v, created)))
        × (lookup name created.deleted_secrets ≡ some d)
        × (delete_secret now' buf' name created ≡ (err (secret_not_found name), created))
        × (recover_deleted_secret name created ≡ (err (already_exists "Secret" name), created))
  secret_conflict now' buf' {d} deleted =
      let i = create_certificate-IsIssued crypto now buf entropy name req s done in
      let still = ap (lookup name) i.deleted_secrets_kept ∙ deleted in
      (
        (i.secret, i.secret_read),
        still,
        delete_secret-both name created now' buf' i.secret d i.secret_read still,
        recover_deleted_secret-both name created i.secret i.secret_read,
      )

  -- A name that is deleted as a key, and of which a certificate is created, becomes that of a key
  -- that GetKey answers, that DeleteKey does not find and that RecoverDeletedKey refuses to recover.
  pub key_conflict :
      (now' : ℕ) (buf' : List ℕ) {d : DeletedKeyEntry M}
      → lookup name s.deleted_keys ≡ some d
      → ((k : KeyRecord) × (get_key name "" created ≡ (ok k, created)))
        × (lookup name created.deleted_keys ≡ some d)
        × (delete_key now' buf' name created ≡ (err (key_not_found name), created))
        × (recover_deleted_key name created ≡ (err (already_exists "Key" name), created))
  key_conflict now' buf' {d} deleted =
      let i = create_certificate-IsIssued crypto now buf entropy name req s done in
      let still = ap (lookup name) i.deleted_keys_kept ∙ deleted in
      (
        (i.key, i.key_read),
        still,
        delete_key-both name created now' buf' i.key d i.key_read still,
        recover_deleted_key-both name created i.key i.key_read,
      )
