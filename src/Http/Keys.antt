-- ===== src/Http/Keys.antt =====
-- The key handlers of internal/handler/keys.go, each one whole.
use azure_keyvault_emulator.Prelude.{String, Bool, ◌==◌, ◌||◌, List, [], ◌∷◌, map, if◌then◌else◌}
use azure_keyvault_emulator.Prelude.Outcome.{pure, raise, lift, ◌>>=◌, ◌>>◌}
use azure_keyvault_emulator.Store.{KeyRecord, DeletedKeyRecord}
use azure_keyvault_emulator.Storer.{KeyMethods}
use azure_keyvault_emulator.Http.Bodies.{
  KeyBundle, KeyItem, DeletedKeyBundle, CryptoResponse, key_body, deleted_key_body, key_list,
  deleted_key_list, crypto_body, verify_body,
}
use azure_keyvault_emulator.Http.{
  Request, Packages, Handled, json, no_json, method_not_allowed, resource_not_found, body_of,
  vault_base_url, split_path, recovery_id, key_id, parse_pagination, build_next_link,
}

unfoldable pub key_item : String → KeyRecord → KeyItem
key_item base_url r = record {
  kid = key_id base_url r.name r.version;
  attributes = r.attributes;
  tags = r.tags;
}

unfoldable pub key_bundle : Packages → Request → KeyRecord → KeyBundle
key_bundle go r in_ = record {
  key = record (in_.key) { kid = key_id (vault_base_url go r) in_.name in_.version };
  attributes = in_.attributes;
  tags = in_.tags;
}

unfoldable pub deleted_key_bundle : Packages → Request → DeletedKeyRecord → DeletedKeyBundle
deleted_key_bundle go r in_ = record {
  bundle = key_bundle go r in_.key_record;
  recovery_id = recovery_id (vault_base_url go r) in_.recovery_id;
  deleted_date = in_.deleted_date;
  scheduled_purge_date = in_.scheduled_purge_date;
}

module _ {S : Type 0} (go : Packages) (store : KeyMethods S) where
  unfoldable pub handle_list_keys : Request → Handled S
  handle_list_keys r = do
    (max_results, skip) ← lift (parse_pagination r)
    (records, next) ← store.list_keys max_results skip
    let items = map (key_item (vault_base_url go r)) records
    pure (json 200 (key_list (record { value = items; next_link = build_next_link go r next })))

  unfoldable pub handle_list_key_versions : Request → String → Handled S
  handle_list_key_versions r name = do
    (max_results, skip) ← lift (parse_pagination r)
    (records, next) ← store.list_key_versions name max_results skip
    let items = map (key_item (vault_base_url go r)) records
    pure (json 200 (key_list (record { value = items; next_link = build_next_link go r next })))

  unfoldable pub handle_list_deleted_keys : Request → Handled S
  handle_list_deleted_keys r = do
    (max_results, skip) ← lift (parse_pagination r)
    (records, next) ← store.list_deleted_keys max_results skip
    let items = map (deleted_key_bundle go r) records
    pure (
        json 200
          (deleted_key_list (record { value = items; next_link = build_next_link go r next })))

  -- The cases of the switches in handleKeyPost.
  unfoldable pub post_create : Request → String → Handled S
  post_create r name = do
    req ← lift (body_of go.decode.create_key r)
    in_ ← store.create_key name req
    pure (json 200 (key_body (key_bundle go r in_)))

  unfoldable pub post_import : Request → String → Handled S
  post_import r name = do
    req ← lift (body_of go.decode.import_key r)
    in_ ← store.import_key name req
    pure (json 200 (key_body (key_bundle go r in_)))

  abbrev crypto_response : Request → String → String → String → String → String → CryptoResponse
  crypto_response r name version value alg iv = record {
    kid = key_id (vault_base_url go r) name version;
    value = value;
    alg = alg;
    iv = iv;
  }

  unfoldable pub post_crypt : Request → String → String → Bool → Handled S
  post_crypt r name version is_encrypt = do
    req ← lift (body_of go.decode.encrypt r)
    (value, iv) ←
        if is_encrypt then store.encrypt name version req else store.decrypt name version req
    pure (json 200 (crypto_body (crypto_response r name version value req.alg iv)))

  unfoldable pub post_sign : Request → String → String → Handled S
  post_sign r name version = do
    req ← lift (body_of go.decode.sign r)
    value ← store.sign name version req
    pure (json 200 (crypto_body (crypto_response r name version value req.alg "")))

  unfoldable pub post_verify : Request → String → String → Handled S
  post_verify r name version = do
    req ← lift (body_of go.decode.verify r)
    is_valid ← store.verify name version req
    pure (json 200 (verify_body is_valid))

  unfoldable pub post_wrap : Request → String → String → Bool → Handled S
  post_wrap r name version is_wrap = do
    req ← lift (body_of go.decode.encrypt r)
    value ← if is_wrap then store.wrap_key name version req else store.unwrap_key name version req
    pure (json 200 (crypto_body (crypto_response r name version value req.alg "")))

  unfoldable pub post_operation : Request → String → String → String → Handled S
  post_operation r name version operation =
      if operation == "encrypt" || operation == "decrypt"
      then post_crypt r name version (operation == "encrypt")
      else if operation == "sign"
      then post_sign r name version
      else if operation == "verify"
      then post_verify r name version
      else if operation == "wrapkey" || operation == "unwrapkey"
      then post_wrap r name version (operation == "wrapkey")
      else raise resource_not_found

  unfoldable pub handle_key_post : Request → String → List String → Handled S
  handle_key_post r name (word ∷ []) =
      if word == "create"
      then post_create r name
      else if word == "import"
      then post_import r name
      else raise resource_not_found
  handle_key_post r name (version ∷ word ∷ []) = post_operation r name version (go.to_lower word)
  handle_key_post r name _ = raise resource_not_found

  unfoldable pub get_key_at : Request → String → String → Handled S
  get_key_at r name version = do
    in_ ← store.get_key name version
    pure (json 200 (key_body (key_bundle go r in_)))

  unfoldable pub handle_key_get : Request → String → List String → Handled S
  handle_key_get r name [] = get_key_at r name ""
  handle_key_get r name (version ∷ []) =
      if version == "versions" then handle_list_key_versions r name else get_key_at r name version
  handle_key_get r name (_ ∷ _ ∷ _) = raise resource_not_found

  unfoldable pub delete_key_route : Request → String → List String → Handled S
  delete_key_route r name [] = do
    in_ ← store.delete_key name
    pure (json 200 (deleted_key_body (deleted_key_bundle go r in_)))
  delete_key_route r name (_ ∷ _) = raise resource_not_found

  unfoldable pub patch_key : Request → String → List String → Handled S
  patch_key r name (version ∷ []) = do
    req ← lift (body_of go.decode.update_key r)
    in_ ← store.update_key name version req
    pure (json 200 (key_body (key_bundle go r in_)))
  patch_key r name _ = raise resource_not_found

  unfoldable pub handle_key_segments : Request → List String → Handled S
  handle_key_segments r [] = raise resource_not_found
  handle_key_segments r (name ∷ rest) =
      if r.method == "POST"
      then handle_key_post r name rest
      else if r.method == "GET"
      then handle_key_get r name rest
      else if r.method == "DELETE"
      then delete_key_route r name rest
      else if r.method == "PATCH"
      then patch_key r name rest
      else pure method_not_allowed

  unfoldable pub handle_key_routes : Request → Handled S
  handle_key_routes r = handle_key_segments r (split_path r.path "/keys/")

  -- The cases of the switch in handleDeletedKeyRoutes.
  unfoldable pub get_deleted_key_route : Request → String → List String → Handled S
  get_deleted_key_route r name [] = do
    in_ ← store.get_deleted_key name
    pure (json 200 (deleted_key_body (deleted_key_bundle go r in_)))
  get_deleted_key_route r name (_ ∷ _) = raise resource_not_found

  unfoldable pub purge_key_route : String → List String → Handled S
  purge_key_route name [] = do store.purge_deleted_key name; pure (no_json 204)
  purge_key_route name (_ ∷ _) = raise resource_not_found

  unfoldable pub recover_key_at : Request → String → Handled S
  recover_key_at r name = do
    in_ ← store.recover_deleted_key name
    pure (json 200 (key_body (key_bundle go r in_)))

  unfoldable pub recover_key_route : Request → String → List String → Handled S
  recover_key_route r name (operation ∷ []) =
      if operation == "recover" then recover_key_at r name else raise resource_not_found
  recover_key_route r name _ = raise resource_not_found

  unfoldable pub handle_deleted_key_segments : Request → List String → Handled S
  handle_deleted_key_segments r [] = raise resource_not_found
  handle_deleted_key_segments r (name ∷ rest) =
      if r.method == "GET"
      then get_deleted_key_route r name rest
      else if r.method == "DELETE"
      then purge_key_route name rest
      else if r.method == "POST"
      then recover_key_route r name rest
      else pure method_not_allowed

  unfoldable pub handle_deleted_key_routes : Request → Handled S
  handle_deleted_key_routes r = handle_deleted_key_segments r (split_path r.path "/deletedkeys/")
