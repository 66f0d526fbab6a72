-- ===== src/Http/Kept.antt =====
-- The secret handlers of internal/handler keep what the store keeps, and write a response.
use azure_keyvault_emulator.Prelude.{
  arith, zero, suc, String, ◌≢◌, Option, none, some, List, [], ◌∷◌, ◌==◌,
}
use azure_keyvault_emulator.Prelude.Outcome.{
  Outcome, panic, pure, continue, Ends, lift-Ends, then-Ends, if-Ends,
}
use azure_keyvault_emulator.Prelude.Text.Decimal.{ℤ, pos, negsuc, atoi}
use azure_keyvault_emulator.Storer.{AnyError, SecretMethods}
use azure_keyvault_emulator.Storer.Laws.{AreSecretsKept}
use azure_keyvault_emulator.Http.{
  Request, Packages, Decoded, body_of, parse_pagination, max_results_of, page_limit, get_value,
  split_path,
}
use azure_keyvault_emulator.Http.Secrets.{
  handle_list_secrets, handle_list_secret_versions, handle_list_deleted_secrets, put_secret,
  get_secret_at, get_secret_route, delete_secret_route, patch_secret, backup_secret_at, post_secret,
  handle_secret_segments, handle_secret_routes, get_deleted_secret_route, purge_secret_route,
  recover_secret_at, recover_secret_route, handle_deleted_secret_segments,
  handle_deleted_secret_routes, handle_restore_secret,
}
use azure_keyvault_emulator.Http.Routes.{
  SecretEndpoint, list_secrets, restore_secret, secret_routes, list_deleted_secrets,
  deleted_secret_routes, handle_secrets,
}

body_of-safe : {A : Type 0} (decode : String → Decoded A) (r : Request) → body_of decode r ≢ panic
unfolding body_of
body_of-safe decode r h = ground arith

page_limit-safe : (o : Option ℤ) (message : String) → page_limit o message ≢ panic
unfolding page_limit
page_limit-safe none message h = cc
page_limit-safe (some (negsuc n)) message h = cc
page_limit-safe (some (pos zero)) message h = cc
page_limit-safe (some (pos (suc n))) message h = cc

max_results_of-safe : (raw other : String) → max_results_of raw other ≢ panic
unfolding max_results_of
max_results_of-safe raw other h = ground (
  arith,
  page_limit-safe (atoi other) "The provided maxresults value is invalid.",
  page_limit-safe (atoi raw) "The provided $maxresults value is invalid.",
)

parse_pagination-safe : (r : Request) → parse_pagination r ≢ panic
unfolding parse_pagination
parse_pagination-safe r h =
    ground (
      arith,
      max_results_of-safe (get_value "$maxresults" r.query) (get_value "maxresults" r.query),
    )

module _ {S : Type 0} (P : S → Type 0) (go : Packages) where
  -- A call of the store, and what is made of its answer.
  after_call :
      {A B : Type 0} (r : Outcome AnyError A × S) (f : A → B)
      → Ends P r
      → Ends P (continue r.0 (λ a. pure (f a)) r.1)
  after_call r f h = then-Ends P r (λ a. pure (f a)) h (λ a t p. p)

  module _ (store : SecretMethods S) (kept : AreSecretsKept P store) (r : Request) (s : S)
      (p : P s) where
    handle_list_secrets-Ends : Ends P (handle_list_secrets go store r s)
    unfolding handle_list_secrets
    handle_list_secrets-Ends =
        lift-Ends P s (parse_pagination r) _ p (parse_pagination-safe r)
          λ a. after_call (store.list_secrets a.0 a.1 s) _ (kept.list_secrets a.0 a.1 s p)

    handle_list_secret_versions-Ends :
        (name : String) → Ends P (handle_list_secret_versions go store r name s)
    unfolding handle_list_secret_versions
    handle_list_secret_versions-Ends name =
        lift-Ends P s (parse_pagination r) _ p (parse_pagination-safe r) λ a.
          after_call (store.list_secret_versions name a.0 a.1 s) _
            (kept.list_secret_versions name a.0 a.1 s p)

    handle_list_deleted_secrets-Ends : Ends P (handle_list_deleted_secrets go store r s)
    unfolding handle_list_deleted_secrets
    handle_list_deleted_secrets-Ends =
        lift-Ends P s (parse_pagination r) _ p (parse_pagination-safe r) λ a.
          after_call (store.list_deleted_secrets a.0 a.1 s) _
            (kept.list_deleted_secrets a.0 a.1 s p)

    put_secret-Ends :
        (name : String) (rest : List String) → Ends P (put_secret go store r name rest s)
    unfolding put_secret
    put_secret-Ends name [] =
        lift-Ends P s (body_of go.decode.secret_set r) _ p (body_of-safe go.decode.secret_set r)
          λ a. after_call (store.set_secret name a s) _ (kept.set_secret name a s p)
    put_secret-Ends name (_ ∷ _) = p

    get_secret_at-Ends : (name version : String) → Ends P (get_secret_at go store r name version s)
    unfolding get_secret_at
    get_secret_at-Ends name version =
        after_call (store.get_secret name version s) _ (kept.get_secret name version s p)

    get_secret_route-Ends :
        (name : String) (rest : List String) → Ends P (get_secret_route go store r name rest s)
    unfolding get_secret_route
    get_secret_route-Ends name [] = get_secret_at-Ends name ""
    get_secret_route-Ends name (version ∷ []) =
        if-Ends P (version == "versions") _ _ s (handle_list_secret_versions-Ends name)
          (get_secret_at-Ends name version)
    get_secret_route-Ends name (_ ∷ _ ∷ _) = p

    delete_secret_route-Ends :
        (name : String) (rest : List String) → Ends P (delete_secret_route go store r name rest s)
    unfolding delete_secret_route
    delete_secret_route-Ends name [] =
        after_call (store.delete_secret name s) _ (kept.delete_secret name s p)
    delete_secret_route-Ends name (_ ∷ _) = p

    patch_secret-Ends :
        (name : String) (rest : List String) → Ends P (patch_secret go store r name rest s)
    unfolding patch_secret
    patch_secret-Ends name [] = p
    patch_secret-Ends name (version ∷ []) =
        lift-Ends P s (body_of go.decode.secret_update r) _ p
          (body_of-safe go.decode.secret_update r)
          λ a.
            after_call (store.update_secret name version a s) _
              (kept.update_secret name version a s p)
    patch_secret-Ends name (_ ∷ _ ∷ _) = p

    post_secret-Ends :
        (name : String) (rest : List String) → Ends P (post_secret go store r name rest s)
    unfolding post_secret backup_secret_at
    post_secret-Ends name [] = p
    post_secret-Ends name (operation ∷ []) =
        if-Ends P (operation == "backup") _ _ s
          (after_call (store.backup_secret name s) _ (kept.backup_secret name s p)) p
    post_secret-Ends name (_ ∷ _ ∷ _) = p

    handle_secret_segments-Ends :
        (segments : List String) → Ends P (handle_secret_segments go store r segments s)
    unfolding handle_secret_segments
    handle_secret_segments-Ends [] = p
    handle_secret_segments-Ends (name ∷ rest) =
        if-Ends P (r.method == "PUT") _ _ s (put_secret-Ends name rest) (
          if-Ends P (r.method == "GET") _ _ s (get_secret_route-Ends name rest) (
            if-Ends P (r.method == "DELETE") _ _ s (delete_secret_route-Ends name rest) (
              if-Ends P (r.method == "PATCH") _ _ s (patch_secret-Ends name rest)
                (if-Ends P (r.method == "POST") _ _ s (post_secret-Ends name rest) p))))

    get_deleted_secret_route-Ends :
        (name : String) (rest : List String)
        → Ends P (get_deleted_secret_route go store r name rest s)
    unfolding get_deleted_secret_route
    get_deleted_secret_route-Ends name [] =
        after_call (store.get_deleted_secret name s) _ (kept.get_deleted_secret name s p)
    get_deleted_secret_route-Ends name (_ ∷ _) = p

    purge_secret_route-Ends :
        (name : String) (rest : List String) → Ends P (purge_secret_route go store name rest s)
    unfolding purge_secret_route
    purge_secret_route-Ends name [] =
        after_call (store.purge_deleted_secret name s) _ (kept.purge_deleted_secret name s p)
    purge_secret_route-Ends name (_ ∷ _) = p

    recover_secret_route-Ends :
        (name : String) (rest : List String) → Ends P (recover_secret_route go store r name rest s)
    unfolding recover_secret_route recover_secret_at
    recover_secret_route-Ends name [] = p
    recover_secret_route-Ends name (operation ∷ []) =
        if-Ends P (operation == "recover") _ _ s
          (after_call (store.recover_deleted_secret name s) _
            (kept.recover_deleted_secret name s p))
          p
    recover_secret_route-Ends name (_ ∷ _ ∷ _) = p

    handle_deleted_secret_segments-Ends :
        (segments : List String) → Ends P (handle_deleted_secret_segments go store r segments s)
    unfolding handle_deleted_secret_segments
    handle_deleted_secret_segments-Ends [] = p
    handle_deleted_secret_segments-Ends (name ∷ rest) =
        if-Ends P (r.method == "GET") _ _ s (get_deleted_secret_route-Ends name rest) (
          if-Ends P (r.method == "DELETE") _ _ s (purge_secret_route-Ends name rest)
            (if-Ends P (r.method == "POST") _ _ s (recover_secret_route-Ends name rest) p))

    -- Whatever the request, a secret handler does not panic and keeps what the store keeps.
    pub handle_secrets-Ends : (e : SecretEndpoint) → Ends P (handle_secrets go store e r s)
    unfolding handle_secrets handle_secret_routes handle_deleted_secret_routes handle_restore_secret
    handle_secrets-Ends list_secrets = handle_list_secrets-Ends
    handle_secrets-Ends restore_secret =
        lift-Ends P s (body_of go.decode.restore r) _ p (body_of-safe go.decode.restore r)
          λ a. after_call (store.restore_secret a s) _ (kept.restore_secret a s p)
    handle_secrets-Ends secret_routes = handle_secret_segments-Ends (split_path r.path "/secrets/")
    handle_secrets-Ends list_deleted_secrets = handle_list_deleted_secrets-Ends
    handle_secrets-Ends deleted_secret_routes =
        handle_deleted_secret_segments-Ends (split_path r.path "/deletedsecrets/")
