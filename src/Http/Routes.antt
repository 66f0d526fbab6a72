-- ===== src/Http/Routes.antt =====
-- The patterns that internal/handler registers on the `http.ServeMux`, with their handlers. Which
-- pattern a request matches is the mux's choice.
use azure_keyvault_emulator.Prelude.Outcome.{Outcome, ok, err, panic, pure, raise}
use azure_keyvault_emulator.Prelude.{String, Option, List, [], ◌∷◌, ◌++◌}
use azure_keyvault_emulator.Storer.{AnyError, SecretMethods, KeyMethods, CertificateMethods}
use azure_keyvault_emulator.Http.Bodies.{status_body}
use azure_keyvault_emulator.Http.{
  Request, Response, Packages, Handled, json, resource_not_found, write_error,
}
use azure_keyvault_emulator.Http.Secrets.{
  handle_list_secrets, handle_restore_secret, handle_secret_routes, handle_list_deleted_secrets,
  handle_deleted_secret_routes,
}
use azure_keyvault_emulator.Http.Keys.{
  handle_list_keys, handle_key_routes, handle_list_deleted_keys, handle_deleted_key_routes,
}
use azure_keyvault_emulator.Http.Certificates.{
  handle_list_certificates, handle_certificate_routes, handle_list_deleted_certificates,
  handle_deleted_certificate_routes,
}

pub data SecretEndpoint : Type 0 where
  list_secrets : SecretEndpoint
  restore_secret : SecretEndpoint
  secret_routes : SecretEndpoint
  list_deleted_secrets : SecretEndpoint
  deleted_secret_routes : SecretEndpoint

pub data KeyEndpoint : Type 0 where
  list_keys : KeyEndpoint
  key_routes : KeyEndpoint
  list_deleted_keys : KeyEndpoint
  deleted_key_routes : KeyEndpoint

pub data CertificateEndpoint : Type 0 where
  list_certificates : CertificateEndpoint
  certificate_routes : CertificateEndpoint
  list_deleted_certificates : CertificateEndpoint
  deleted_certificate_routes : CertificateEndpoint

pub data Endpoint : Type 0 where
  healthz : Endpoint
  of_secrets : SecretEndpoint → Endpoint
  of_keys : KeyEndpoint → Endpoint
  of_certificates : CertificateEndpoint → Endpoint
  anything_else : Endpoint

abbrev pub Registered : Type 0
Registered = List (String × Endpoint)

abbrev register_secret_routes : Registered
register_secret_routes =
    ("GET /secrets", of_secrets list_secrets)
    ∷ ("POST /secrets/restore", of_secrets restore_secret)
    ∷ ("PUT /secrets/", of_secrets secret_routes)
    ∷ ("GET /secrets/", of_secrets secret_routes)
    ∷ ("DELETE /secrets/", of_secrets secret_routes)
    ∷ ("PATCH /secrets/", of_secrets secret_routes)
    ∷ ("POST /secrets/", of_secrets secret_routes)
    ∷ ("GET /deletedsecrets", of_secrets list_deleted_secrets)
    ∷ ("GET /deletedsecrets/", of_secrets deleted_secret_routes)
    ∷ ("DELETE /deletedsecrets/", of_secrets deleted_secret_routes)
    ∷ ("POST /deletedsecrets/", of_secrets deleted_secret_routes)
    ∷ []

abbrev register_key_routes : Registered
register_key_routes =
    ("GET /keys", of_keys list_keys)
    ∷ ("POST /keys/", of_keys key_routes)
    ∷ ("GET /keys/", of_keys key_routes)
    ∷ ("DELETE /keys/", of_keys key_routes)
    ∷ ("PATCH /keys/", of_keys key_routes)
    ∷ ("GET /deletedkeys", of_keys list_deleted_keys)
    ∷ ("GET /deletedkeys/", of_keys deleted_key_routes)
    ∷ ("DELETE /deletedkeys/", of_keys deleted_key_routes)
    ∷ ("POST /deletedkeys/", of_keys deleted_key_routes)
    ∷ []

abbrev register_certificate_routes : Registered
register_certificate_routes =
    ("GET /certificates", of_certificates list_certificates)
    ∷ ("POST /certificates/", of_certificates certificate_routes)
    ∷ ("GET /certificates/", of_certificates certificate_routes)
    ∷ ("DELETE /certificates/", of_certificates certificate_routes)
    ∷ ("PATCH /certificates/", of_certificates certificate_routes)
    ∷ ("GET /deletedcertificates", of_certificates list_deleted_certificates)
    ∷ ("GET /deletedcertificates/", of_certificates deleted_certificate_routes)
    ∷ ("DELETE /deletedcertificates/", of_certificates deleted_certificate_routes)
    ∷ ("POST /deletedcertificates/", of_certificates deleted_certificate_routes)
    ∷ []

unfoldable pub register : Registered
register =
    ("GET /healthz", healthz) ∷ register_secret_routes
    ++ register_key_routes
    ++ register_certificate_routes
    ++ ("/", anything_else) ∷ []

module _ {S : Type 0} (go : Packages) where
  unfoldable pub handle_secrets : SecretMethods S → SecretEndpoint → Request → Handled S
  handle_secrets store list_secrets r = handle_list_secrets go store r
  handle_secrets store restore_secret r = handle_restore_secret go store r
  handle_secrets store secret_routes r = handle_secret_routes go store r
  handle_secrets store list_deleted_secrets r = handle_list_deleted_secrets go store r
  handle_secrets store deleted_secret_routes r = handle_deleted_secret_routes go store r

  unfoldable pub handle_keys : KeyMethods S → KeyEndpoint → Request → Handled S
  handle_keys store list_keys r = handle_list_keys go store r
  handle_keys store key_routes r = handle_key_routes go store r
  handle_keys store list_deleted_keys r = handle_list_deleted_keys go store r
  handle_keys store deleted_key_routes r = handle_deleted_key_routes go store r

  unfoldable pub handle_certificates :
      CertificateMethods S → CertificateEndpoint → Request → Handled S
  handle_certificates store list_certificates r = handle_list_certificates go store r
  handle_certificates store certificate_routes r = handle_certificate_routes go store r
  handle_certificates store list_deleted_certificates r =
      handle_list_deleted_certificates go store r
  handle_certificates store deleted_certificate_routes r =
      handle_deleted_certificate_routes go store r

  unfoldable pub handle :
      SecretMethods S → KeyMethods S → CertificateMethods S → Endpoint → Request → Handled S
  handle secrets keys certificates healthz r = pure (json 200 (status_body "ok"))
  handle secrets keys certificates (of_secrets e) r = handle_secrets secrets e r
  handle secrets keys certificates (of_keys e) r = handle_keys keys e r
  handle secrets keys certificates (of_certificates e) r = handle_certificates certificates e r
  handle secrets keys certificates anything_else r = raise resource_not_found

-- What is written in the end, or nothing if the handler panics.
unfoldable pub written : Outcome AnyError Response → Option Response
written (ok response) = Option.some response
written (err e) = Option.some (write_error e)
written panic = Option.none
