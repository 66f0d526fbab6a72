-- ===== src/Web/Objects.antt =====
-- The handlers of internal/web/handler.go for secrets, keys and certificates, and the text of the
-- policy that a generated certificate is asked for.
pub mod Requests
use Prim.Native.String.{◌++◌}
use azure_keyvault_emulator.Prelude.{
  ℕ, String, Bool, false, Option, none, some, [], ◌∷◌, map, ◌==◌, if◌then◌else◌,
}
use azure_keyvault_emulator.Prelude.Dict.{Dict, insert}
use azure_keyvault_emulator.Prelude.Outcome.{pure, lift, raise_if, ◌>>=◌, ◌>>◌}
use azure_keyvault_emulator.Prelude.Text.Decimal.{ℤ, pos}
use azure_keyvault_emulator.Model.{
  Attributes, SecretSetRequest, CreateKeyRequest, Json, str, num, CertificatePolicy,
  CreateCertificateRequest, ImportCertificateRequest,
}
use azure_keyvault_emulator.Store.{Store, SecretRecord, KeyRecord, CertificateRecord}
use azure_keyvault_emulator.Store.Secrets.{list_secrets}
use azure_keyvault_emulator.Storer.{
  AnyError, of_store, plain, KeyMethods, CertificateMethods, delegated,
}
use azure_keyvault_emulator.Encryption.{Ciphers}
use azure_keyvault_emulator.Encryption.Secrets.{set_encrypted, get_decrypted, delete_decrypted}
use azure_keyvault_emulator.Web.Replies.{
  SecretResponse, KeyResponse, CertificateResponse, Reply, error_reply, json_reply, no_content,
  secret_body, secrets_body, secret_detail_body, key_body, keys_body, certificate_body,
  certificates_body,
}
use azure_keyvault_emulator.Web.{
  WebRequest, WebMoment, Scanned, WebCall, WebHandler, decode_json, on_store, vault_of,
}
use azure_keyvault_emulator.Web.Objects.Requests.{
  dated, CreateKey, CreateSecret, GenerateCertificate, ImportCertificate, ObjectPackages,
  certificate_response, error_message, failed, key_response, secret_response,
}

module _ {M : Type 0} (ciphers : Ciphers) (at : WebMoment) where
  -- SetSecret of the encrypted store.
  unfoldable pub kv_set_secret : String → SecretSetRequest → WebCall M SecretRecord
  kv_set_secret name req w =
      on_store (set_encrypted ciphers (vault_of w) at.nonce at.now at.buf name req) (failed 500) w

  -- GetSecret of the encrypted store.
  unfoldable pub kv_get_secret : String → String → WebCall M SecretRecord
  kv_get_secret name version w =
      on_store (get_decrypted ciphers (vault_of w) name version) (failed 404) w

module _ {M : Type 0} (go : ObjectPackages) (at : WebMoment) where
  unfoldable pub handle_list_secrets : WebHandler M
  handle_list_secrets = do
    (records, next) ← on_store (delegated (list_secrets (pos 100) "")) (failed 500)
    pure (json_reply 200 (secrets_body (map secret_response records)))

  unfoldable pub handle_create_secret : WebRequest → WebHandler M
  handle_create_secret r = do
    req ← lift (decode_json go.create_secret r)
    raise_if (req.name == "") (error_reply 400 "name is required")
    in_ ← kv_set_secret go.ciphers at req.name (record {
      value = req.value;
      content_type = req.content_type;
      attributes = some (dated req.not_before req.expires);
      tags = none;
    })
    pure (json_reply 200 (secret_body (secret_response in_)))

  unfoldable pub handle_get_secret : WebRequest → WebHandler M
  handle_get_secret r = do
    in_ ← kv_get_secret go.ciphers at r.path_value ""
    pure (
        json_reply 200
          (secret_detail_body (record { secret = secret_response in_; value = in_.value })))

  unfoldable pub handle_delete_secret : WebRequest → WebHandler M
  handle_delete_secret r w =
      (do
        deleted ←
            on_store (delete_decrypted go.ciphers (vault_of w) at.now at.buf r.path_value)
              (failed 500)
        pure no_content)
        w

-- The parts of the subject in order, each if it is given.
unfoldable pub subject_of : GenerateCertificate → String
subject_of req =
    let part : String → String → String =
      λ key value. if value == "" then "" else ", " ++ (key ++ value) in
    "CN="
    ++ ((if req.common_name == "" then req.name else req.common_name)
        ++ (part "O=" req.organization
            ++ (part "C=" req.country ++ (part "ST=" req.state ++ part "L=" req.locality))))

-- The policy that handleGenerateCertificate makes.
unfoldable pub generated_policy : GenerateCertificate → CertificatePolicy
generated_policy req =
    let props : Dict Json = ("subject", str (subject_of req)) ∷ [] in
    let props : Dict Json = elim req.validity_months [
      | none ↦ props
      | some months ↦ insert "validity_months" (num months) props
    ] in
    let props : Dict Json =
      insert "cert_type" (str (if req.cert_type == "" then "CA" else req.cert_type)) props in
    let props : Dict Json =
      if req.issuer_name == "" then props else insert "issuer_name" (str req.issuer_name) props in
    record {
      id = "";
      issuer = none;
      key_props = none;
      secret_props = none;
      x509_props = some props;
      lifetime_actions = [];
      attributes = none;
    }

module _ {M : Type 0} (go : ObjectPackages) (keys : KeyMethods (Store M))
    (certificates : CertificateMethods (Store M)) where
  unfoldable pub handle_list_keys : WebHandler M
  handle_list_keys = do
    (records, next) ← on_store (keys.list_keys (pos 100) "") (failed 500)
    pure (json_reply 200 (keys_body (map key_response records)))

  unfoldable pub handle_create_key : WebRequest → WebHandler M
  handle_create_key r = do
    req ← lift (decode_json go.create_key r)
    raise_if (req.name == "") (error_reply 400 "name is required")
    raise_if (req.kty == "") (error_reply 400 "kty is required")
    let asked : CreateKeyRequest = record {
      kty = req.kty;
      key_size = req.key_size;
      key_ops = [];
      attributes = some (dated req.not_before req.expires);
      tags = none;
      crv = req.crv;
      value = "";
    }
    in_ ← on_store (keys.create_key req.name asked) (failed 500)
    pure (json_reply 200 (key_body (key_response in_)))

  unfoldable pub handle_delete_key : WebRequest → WebHandler M
  handle_delete_key r = do
    deleted ← on_store (keys.delete_key r.path_value) (failed 500)
    pure no_content

  unfoldable pub handle_list_certificates : WebHandler M
  handle_list_certificates = do
    (records, next) ← on_store (certificates.list_certificates (pos 100) "") (failed 500)
    pure (json_reply 200 (certificates_body (map certificate_response records)))

  unfoldable pub handle_generate_certificate : WebRequest → WebHandler M
  handle_generate_certificate r = do
    req ← lift (decode_json go.generate_certificate r)
    raise_if (req.name == "") (error_reply 400 "name is required")
    let asked : CreateCertificateRequest = record {
      policy = some (generated_policy req);
      attributes = none;
      tags = none;
    }
    in_ ← on_store (certificates.create_certificate req.name asked) (failed 500)
    pure (json_reply 200 (certificate_body (certificate_response in_)))

  unfoldable pub handle_import_certificate : WebRequest → WebHandler M
  handle_import_certificate r = do
    req ← lift (decode_json go.import_certificate r)
    raise_if (req.name == "") (error_reply 400 "name is required")
    raise_if (req.value == "") (error_reply 400 "certificate value is required")
    let asked : ImportCertificateRequest = record {
      value = req.value;
      password = req.password;
      policy = none;
      attributes = none;
      tags = none;
    }
    in_ ← on_store (certificates.import_certificate req.name asked) (failed 500)
    pure (json_reply 200 (certificate_body (certificate_response in_)))

  unfoldable pub handle_delete_certificate : WebRequest → WebHandler M
  handle_delete_certificate r = do
    deleted ← on_store (certificates.delete_certificate r.path_value) (failed 500)
    pure no_content
