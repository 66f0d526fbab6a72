-- ===== src/Http/Secrets.antt =====
-- The secret handlers of internal/handler/secrets.go, each one whole.
use azure_keyvault_emulator.Prelude.{String, ◌==◌, List, [], ◌∷◌, map, if◌then◌else◌}
use azure_keyvault_emulator.Prelude.Outcome.{pure, raise, lift, ◌>>=◌, ◌>>◌}
use azure_keyvault_emulator.Store.{SecretRecord, DeletedSecretRecord}
use azure_keyvault_emulator.Storer.{SecretMethods}
use azure_keyvault_emulator.Http.Bodies.{
  SecretBundle, SecretItem, DeletedSecretBundle, token_body, secret_body, deleted_secret_body,
  secret_list, deleted_secret_list,
}
use azure_keyvault_emulator.Http.{
  Request, Packages, Handled, json, no_json, method_not_allowed, resource_not_found, body_of,
  vault_base_url, split_path, recovery_id, secret_id, parse_pagination, build_next_link,
}

unfoldable pub secret_item : String → SecretRecord → SecretItem
secret_item base_url r = record {
  id = secret_id base_url r.name r.version;
  content_type = r.content_type;
  attributes = r.attributes;
  tags = r.tags;
}

unfoldable pub secret_bundle : Packages → Request → SecretRecord → SecretBundle
secret_bundle go r in_ = record {
  value = in_.value;
  id = secret_id (vault_base_url go r) in_.name in_.version;
  content_type = in_.content_type;
  attributes = in_.attributes;
  tags = in_.tags;
}

unfoldable pub deleted_secret_bundle :
    Packages → Request → DeletedSecretRecord → DeletedSecretBundle
deleted_secret_bundle go r in_ = record {
  bundle = secret_bundle go r in_.secret;
  recovery_id = recovery_id (vault_base_url go r) in_.recovery_id;
  deleted_date = in_.deleted_date;
  scheduled_purge_date = in_.scheduled_purge_date;
}

module _ {S : Type 0} (go : Packages) (store : SecretMethods S) where
  unfoldable pub handle_list_secrets : Request → Handled S
  handle_list_secrets r = do
    (max_results, skip) ← lift (parse_pagination r)
    (records, next) ← store.list_secrets max_results skip
    let items = map (secret_item (vault_base_url go r)) records
    pure (json 200 (secret_list (record { value = items; next_link = build_next_link go r next })))

  unfoldable pub handle_list_secret_versions : Request → String → Handled S
  handle_list_secret_versions r name = do
    (max_results, skip) ← lift (parse_pagination r)
    (records, next) ← store.list_secret_versions name max_results skip
    let items = map (secret_item (vault_base_url go r)) records
    pure (json 200 (secret_list (record { value = items; next_link = build_next_link go r next })))

  unfoldable pub handle_list_deleted_secrets : Request → Handled S
  handle_list_deleted_secrets r = do
    (max_results, skip) ← lift (parse_pagination r)
    (records, next) ← store.list_deleted_secrets max_results skip
    let items = map (deleted_secret_bundle go r) records
    pure (
        json 200
          (deleted_secret_list (record { value = items; next_link = build_next_link go r next })))

  -- The cases of the switch in handleSecretRoutes.
  unfoldable pub put_secret : Request → String → List String → Handled S
  put_secret r name [] = do
    req ← lift (body_of go.decode.secret_set r)
    in_ ← store.set_secret name req
    pure (json 200 (secret_body (secret_bundle go r in_)))
  put_secret r name (_ ∷ _) = raise resource_not_found

  unfoldable pub get_secret_at : Request → String → String → Handled S
  get_secret_at r name version = do
    in_ ← store.get_secret name version
    pure (json 200 (secret_body (secret_bundle go r in_)))

  unfoldable pub get_secret_route : Request → String → List String → Handled S
  get_secret_route r name [] = get_secret_at r name ""
  get_secret_route r name (version ∷ []) =
      if version == "versions"
      then handle_list_secret_versions r name
      else get_secret_at r name version
  get_secret_route r name (_ ∷ _ ∷ _) = raise resource_not_found

  unfoldable pub delete_secret_route : Request → String → List String → Handled S
  delete_secret_route r name [] = do
    in_ ← store.delete_secret name
    pure (json 200 (deleted_secret_body (deleted_secret_bundle go r in_)))
  delete_secret_route r name (_ ∷ _) = raise resource_not_found

  unfoldable pub patch_secret : Request → String → List String → Handled S
  patch_secret r name (version ∷ []) = do
    req ← lift (body_of go.decode.secret_update r)
    in_ ← store.update_secret name version req
    pure (json 200 (secret_body (secret_bundle go r in_)))
  patch_secret r name _ = raise resource_not_found

  unfoldable pub backup_secret_at : String → Handled S
  backup_secret_at name = do backup ← store.backup_secret name; pure (json 200 (token_body backup))

  unfoldable pub post_secret : Request → String → List String → Handled S
  post_secret r name (operation ∷ []) =
      if operation == "backup" then backup_secret_at name else raise resource_not_found
  post_secret r name _ = raise resource_not_found

  unfoldable pub handle_secret_segments : Request → List String → Handled S
  handle_secret_segments r [] = raise resource_not_found
  handle_secret_segments r (name ∷ rest) =
      if r.method == "PUT"
      then put_secret r name rest
      else if r.method == "GET"
      then get_secret_route r name rest
      else if r.method == "DELETE"
      then delete_secret_route r name rest
      else if r.method == "PATCH"
      then patch_secret r name rest
      else if r.method == "POST"
      then post_secret r name rest
      else pure method_not_allowed

  unfoldable pub handle_secret_routes : Request → Handled S
  handle_secret_routes r = handle_secret_segments r (split_path r.path "/secrets/")

  -- The cases of the switch in handleDeletedSecretRoutes.
  unfoldable pub get_deleted_secret_route : Request → String → List String → Handled S
  get_deleted_secret_route r name [] = do
    in_ ← store.get_deleted_secret name
    pure (json 200 (deleted_secret_body (deleted_secret_bundle go r in_)))
  get_deleted_secret_route r name (_ ∷ _) = raise resource_not_found

  unfoldable pub purge_secret_route : String → List String → Handled S
  purge_secret_route name [] = do store.purge_deleted_secret name; pure (no_json 204)
  purge_secret_route name (_ ∷ _) = raise resource_not_found

  unfoldable pub recover_secret_at : Request → String → Handled S
  recover_secret_at r name = do
    in_ ← store.recover_deleted_secret name
    pure (json 200 (secret_body (secret_bundle go r in_)))

  unfoldable pub recover_secret_route : Request → String → List String → Handled S
  recover_secret_route r name (operation ∷ []) =
      if operation == "recover" then recover_secret_at r name else raise resource_not_found
  recover_secret_route r name _ = raise resource_not_found

  unfoldable pub handle_deleted_secret_segments : Request → List String → Handled S
  handle_deleted_secret_segments r [] = raise resource_not_found
  handle_deleted_secret_segments r (name ∷ rest) =
      if r.method == "GET"
      then get_deleted_secret_route r name rest
      else if r.method == "DELETE"
      then purge_secret_route name rest
      else if r.method == "POST"
      then recover_secret_route r name rest
      else pure method_not_allowed

  unfoldable pub handle_deleted_secret_routes : Request → Handled S
  handle_deleted_secret_routes r =
      handle_deleted_secret_segments r (split_path r.path "/deletedsecrets/")

  unfoldable pub handle_restore_secret : Request → Handled S
  handle_restore_secret r = do
    value ← lift (body_of go.decode.restore r)
    in_ ← store.restore_secret value
    pure (json 200 (secret_body (secret_bundle go r in_)))
