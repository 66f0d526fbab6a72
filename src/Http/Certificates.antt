-- ===== src/Http/Certificates.antt =====
-- The certificate handlers of internal/handler/certificates.go, each one whole.
use azure_keyvault_emulator.Prelude.{String, ◌==◌, List, [], ◌∷◌, map, if◌then◌else◌}
use azure_keyvault_emulator.Prelude.Outcome.{pure, raise, lift, ◌>>=◌, ◌>>◌}
use azure_keyvault_emulator.Store.{CertificateRecord, DeletedCertificateRecord}
use azure_keyvault_emulator.Storer.{CertificateMethods}
use azure_keyvault_emulator.Http.Bodies.{
  CertificateBundle, CertificateItem, DeletedCertificateBundle, certificate_body,
  deleted_certificate_body, certificate_list, deleted_certificate_list, policy_body, operation_body,
}
use azure_keyvault_emulator.Http.{
  Request, Packages, Handled, json, no_json, method_not_allowed, resource_not_found, body_of,
  vault_base_url, split_path, recovery_id, secret_id, key_id, certificate_id, parse_pagination,
  build_next_link,
}

unfoldable pub certificate_bundle : Packages → Request → CertificateRecord → CertificateBundle
certificate_bundle go r in_ = record {
  id = certificate_id (vault_base_url go r) in_.name in_.version;
  kid = key_id (vault_base_url go r) in_.name in_.version;
  sid = secret_id (vault_base_url go r) in_.name in_.version;
  cer = go.base64url in_.cer;
  attributes = in_.attributes;
  tags = in_.tags;
  policy = in_.policy;
}

unfoldable pub certificate_item : Packages → Request → CertificateRecord → CertificateItem
certificate_item go r in_ = record {
  id = certificate_id (vault_base_url go r) in_.name in_.version;
  kid = key_id (vault_base_url go r) in_.name in_.version;
  sid = secret_id (vault_base_url go r) in_.name in_.version;
  x5t = go.base64url (go.sha1 in_.cer);
  attributes = in_.attributes;
  tags = in_.tags;
}

unfoldable pub deleted_certificate_bundle :
    Packages → Request → DeletedCertificateRecord → DeletedCertificateBundle
deleted_certificate_bundle go r in_ = record {
  bundle = certificate_bundle go r in_.certificate;
  recovery_id = recovery_id (vault_base_url go r) in_.recovery_id;
  deleted_date = in_.deleted_date;
  scheduled_purge_date = in_.scheduled_purge_date;
}

module _ {S : Type 0} (go : Packages) (store : CertificateMethods S) where
  unfoldable pub handle_list_certificates : Request → Handled S
  handle_list_certificates r = do
    (max_results, skip) ← lift (parse_pagination r)
    (records, next) ← store.list_certificates max_results skip
    let items = map (certificate_item go r) records
    pure (
        json 200
          (certificate_list (record { value = items; next_link = build_next_link go r next })))

  unfoldable pub handle_list_certificate_versions : Request → String → Handled S
  handle_list_certificate_versions r name = do
    (max_results, skip) ← lift (parse_pagination r)
    (records, next) ← store.list_certificate_versions name max_results skip
    let items = map (certificate_item go r) records
    pure (
        json 200
          (certificate_list (record { value = items; next_link = build_next_link go r next })))

  unfoldable pub handle_list_deleted_certificates : Request → Handled S
  handle_list_deleted_certificates r = do
    (max_results, skip) ← lift (parse_pagination r)
    (records, next) ← store.list_deleted_certificates max_results skip
    let items = map (deleted_certificate_bundle go r) records
    pure (
        json 200 (
          deleted_certificate_list
            (record { value = items; next_link = build_next_link go r next })))

  -- The cases of the switches in handleCertificateRoutes.
  unfoldable pub post_certificate_create : Request → String → Handled S
  post_certificate_create r name = do
    req ← lift (body_of go.decode.create_certificate r)
    in_ ← store.create_certificate name req
    pure (json 200 (certificate_body (certificate_bundle go r in_)))

  unfoldable pub post_certificate_import : Request → String → Handled S
  post_certificate_import r name = do
    req ← lift (body_of go.decode.import_certificate r)
    in_ ← store.import_certificate name req
    pure (json 200 (certificate_body (certificate_bundle go r in_)))

  unfoldable pub post_certificate : Request → String → List String → Handled S
  post_certificate r name (word ∷ []) =
      if word == "create"
      then post_certificate_create r name
      else if word == "import"
      then post_certificate_import r name
      else raise resource_not_found
  post_certificate r name _ = raise resource_not_found

  unfoldable pub get_certificate_at : Request → String → String → Handled S
  get_certificate_at r name version = do
    in_ ← store.get_certificate name version
    pure (json 200 (certificate_body (certificate_bundle go r in_)))

  unfoldable pub get_policy : String → Handled S
  get_policy name = do
    found ← store.get_certificate_policy name
    pure (json 200 (policy_body found))

  unfoldable pub get_pending : String → Handled S
  get_pending name = do
    op ← store.get_pending_certificate_operation name
    pure (json 200 (operation_body op))

  unfoldable pub get_certificate_route : Request → String → List String → Handled S
  get_certificate_route r name [] = get_certificate_at r name ""
  get_certificate_route r name (word ∷ []) =
      if word == "versions"
      then handle_list_certificate_versions r name
      else if word == "policy"
      then get_policy name
      else if word == "pending"
      then get_pending name
      else get_certificate_at r name word
  get_certificate_route r name (_ ∷ _ ∷ _) = raise resource_not_found

  unfoldable pub patch_policy : Request → String → Handled S
  patch_policy r name = do
    req ← lift (body_of go.decode.create_certificate r)
    changed ← store.update_certificate_policy name req.policy
    pure (json 200 (policy_body changed))

  unfoldable pub patch_version : Request → String → String → Handled S
  patch_version r name version = do
    req ← lift (body_of go.decode.update_certificate r)
    in_ ← store.update_certificate name version req
    pure (json 200 (certificate_body (certificate_bundle go r in_)))

  unfoldable pub patch_certificate : Request → String → List String → Handled S
  patch_certificate r name (word ∷ []) =
      if word == "policy" then patch_policy r name else patch_version r name word
  patch_certificate r name _ = raise resource_not_found

  unfoldable pub delete_certificate_route : Request → String → List String → Handled S
  delete_certificate_route r name [] = do
    in_ ← store.delete_certificate name
    pure (json 200 (deleted_certificate_body (deleted_certificate_bundle go r in_)))
  delete_certificate_route r name (_ ∷ _) = raise resource_not_found

  unfoldable pub handle_certificate_segments : Request → List String → Handled S
  handle_certificate_segments r [] = raise resource_not_found
  handle_certificate_segments r (name ∷ rest) =
      if r.method == "POST"
      then post_certificate r name rest
      else if r.method == "GET"
      then get_certificate_route r name rest
      else if r.method == "PATCH"
      then patch_certificate r name rest
      else if r.method == "DELETE"
      then delete_certificate_route r name rest
      else pure method_not_allowed

  unfoldable pub handle_certificate_routes : Request → Handled S
  handle_certificate_routes r = handle_certificate_segments r (split_path r.path "/certificates/")

  -- The cases of the switch in handleDeletedCertificateRoutes.
  unfoldable pub get_deleted_certificate_route : Request → String → List String → Handled S
  get_deleted_certificate_route r name [] = do
    in_ ← store.get_deleted_certificate name
    pure (json 200 (deleted_certificate_body (deleted_certificate_bundle go r in_)))
  get_deleted_certificate_route r name (_ ∷ _) = raise resource_not_found

  unfoldable pub purge_certificate_route : String → List String → Handled S
  purge_certificate_route name [] = do store.purge_deleted_certificate name; pure (no_json 204)
  purge_certificate_route name (_ ∷ _) = raise resource_not_found

  unfoldable pub recover_certificate_at : Request → String → Handled S
  recover_certificate_at r name = do
    in_ ← store.recover_deleted_certificate name
    pure (json 200 (certificate_body (certificate_bundle go r in_)))

  unfoldable pub recover_certificate_route : Request → String → List String → Handled S
  recover_certificate_route r name (operation ∷ []) =
      if operation == "recover" then recover_certificate_at r name else raise resource_not_found
  recover_certificate_route r name _ = raise resource_not_found

  unfoldable pub handle_deleted_certificate_segments : Request → List String → Handled S
  handle_deleted_certificate_segments r [] = raise resource_not_found
  handle_deleted_certificate_segments r (name ∷ rest) =
      if r.method == "GET"
      then get_deleted_certificate_route r name rest
      else if r.method == "DELETE"
      then purge_certificate_route name rest
      else if r.method == "POST"
      then recover_certificate_route r name rest
      else pure method_not_allowed

  unfoldable pub handle_deleted_certificate_routes : Request → Handled S
  handle_deleted_certificate_routes r =
      handle_deleted_certificate_segments r (split_path r.path "/deletedcertificates/")
