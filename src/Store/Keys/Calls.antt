-- ===== src/Store/Keys/Calls.antt =====
-- The key part of the `Storer` interface of internal/store/store.go as data: a call, and what it
-- answers. `now` is the clock's reading at a call; `buf` and `entropy` are the bytes that it reads
-- from `crypto/rand`.
use azure_keyvault_emulator.Prelude.{ℕ, String, Bool, List, ◌≢◌}
use azure_keyvault_emulator.Prelude.Dict.{lookup}
use azure_keyvault_emulator.Prelude.Outcome.{panic, Ends}
use azure_keyvault_emulator.Prelude.Outcome.Runs.{
  NeverPanics, answered, answered-Ends, serve, Each, serve-Ends,
}
use azure_keyvault_emulator.Prelude.Text.Decimal.{ℤ}
use azure_keyvault_emulator.Model.{
  CreateKeyRequest, ImportKeyRequest, UpdateKeyRequest, EncryptRequest, SignRequest, VerifyRequest,
}
use azure_keyvault_emulator.Crypto.Interface.{KeyCrypto, Bytes}
use azure_keyvault_emulator.Store.{Store, Call, KeyRecord, DeletedKeyRecord, new_store}
use azure_keyvault_emulator.Store.Pagination.{Page}
use azure_keyvault_emulator.Store.Keys.{
  create_key, import_key, get_key, update_key, list_keys, list_key_versions, delete_key,
  list_deleted_keys, get_deleted_key, purge_deleted_key, recover_deleted_key,
}
use azure_keyvault_emulator.Store.Keys.Records.{default_key_ops}
use azure_keyvault_emulator.Store.Keys.Crypto.{encrypt, decrypt, sign, verify, wrap_key, unwrap_key}
use azure_keyvault_emulator.Store.Keys.Safety.{
  AreKeysWellFormed, create_key-Ends, import_key-Ends, get_key-Ends, update_key-Ends,
  list_keys-Ends, list_key_versions-Ends,
}
use azure_keyvault_emulator.Store.Keys.Crypto.Safety.{
  encrypt-Ends, decrypt-Ends, sign-Ends, verify-Ends, wrap_key-Ends, unwrap_key-Ends,
}
use azure_keyvault_emulator.Store.Keys.Safety.Deleted.{
  delete_key-Ends, list_deleted_keys-Ends, get_deleted_key-Ends, purge_deleted_key-Ends,
  recover_deleted_key-Ends,
}

pub data KeyCall : Type 0 where
  create : ℕ → Bytes → Bytes → String → CreateKeyRequest → KeyCall
  import_ : ℕ → Bytes → String → ImportKeyRequest → KeyCall
  get : String → String → KeyCall
  list : ℤ → String → KeyCall
  list_versions : String → ℤ → String → KeyCall
  update : ℕ → String → String → UpdateKeyRequest → KeyCall
  delete : ℕ → Bytes → String → KeyCall
  list_deleted : ℤ → String → KeyCall
  get_deleted : String → KeyCall
  purge_deleted : String → KeyCall
  recover_deleted : String → KeyCall
  encrypt_ : Bytes → String → String → EncryptRequest → KeyCall
  decrypt_ : String → String → EncryptRequest → KeyCall
  sign_ : Bytes → String → String → SignRequest → KeyCall
  verify_ : String → String → VerifyRequest → KeyCall
  wrap : Bytes → String → String → EncryptRequest → KeyCall
  unwrap : String → String → EncryptRequest → KeyCall

pub data KeyReply : Type 0 where
  key : KeyRecord → KeyReply
  deleted : DeletedKeyRecord → KeyReply
  page : Page KeyRecord → KeyReply
  deleted_page : Page DeletedKeyRecord → KeyReply
  done : KeyReply
  text : String → KeyReply
  texts : String × String → KeyReply
  valid : Bool → KeyReply

module _ {M : Type 0} (crypto : KeyCrypto M) where
  pub run_key : KeyCall → Call M KeyReply
  run_key (create now buf entropy name req) =
      answered key (create_key crypto now buf entropy name req)
  run_key (import_ now buf name req) = answered key (import_key crypto now buf name req)
  run_key (get name version) = answered key (get_key name version)
  run_key (list m t) = answered page (list_keys m t)
  run_key (list_versions name m t) = answered page (list_key_versions name m t)
  run_key (update now name version req) = answered key (update_key now name version req)
  run_key (delete now buf name) = answered deleted (delete_key now buf name)
  run_key (list_deleted m t) = answered deleted_page (list_deleted_keys m t)
  run_key (get_deleted name) = answered deleted (get_deleted_key name)
  run_key (purge_deleted name) = answered (λ _. done) (purge_deleted_key name)
  run_key (recover_deleted name) = answered key (recover_deleted_key name)
  run_key (encrypt_ entropy name version req) =
      answered texts (encrypt crypto entropy name version req)
  run_key (decrypt_ name version req) = answered texts (decrypt crypto name version req)
  run_key (sign_ entropy name version req) = answered text (sign crypto entropy name version req)
  run_key (verify_ name version req) = answered valid (verify crypto name version req)
  run_key (wrap entropy name version req) = answered text (wrap_key crypto entropy name version req)
  run_key (unwrap name version req) = answered text (unwrap_key crypto name version req)

  -- The call's own use of internal/crypto does not panic, whatever the key and the input.
  abbrev pub IsHarmless : KeyCall → Type 0
  IsHarmless (create now buf entropy name req) =
      crypto.generate_key entropy req.kty req.key_size req.crv ""
        (default_key_ops req.kty req.key_ops)
      ≢ panic
  IsHarmless (import_ now buf name req) = crypto.import_key req.key "" ≢ panic
  IsHarmless (encrypt_ entropy name version req) =
      (m : M) (kty : String) (p iv : Bytes) → crypto.encrypt entropy m kty req.alg p iv ≢ panic
  IsHarmless (decrypt_ name version req) =
      (m : M) (kty : String) (c iv : Bytes) → crypto.decrypt m kty req.alg c iv ≢ panic
  IsHarmless (sign_ entropy name version req) =
      (m : M) (kty : String) (d : Bytes) → crypto.sign entropy m kty req.alg d ≢ panic
  IsHarmless (verify_ name version req) =
      (m : M) (kty : String) (d sig : Bytes) → crypto.verify m kty req.alg d sig ≢ panic
  IsHarmless (wrap entropy name version req) =
      (m : M) (kty : String) (p : Bytes) → crypto.wrap entropy m kty req.alg p ≢ panic
  IsHarmless (unwrap name version req) =
      (m : M) (kty : String) (c : Bytes) → crypto.unwrap m kty req.alg c ≢ panic
  IsHarmless _ = Unit

  -- Whatever the call, it does not panic and keeps the invariant.
  run_key-Ends :
      (c : KeyCall) (s : Store M)
      → IsHarmless c
      → AreKeysWellFormed s
      → Ends AreKeysWellFormed (run_key c s)
  unfolding run_key
  run_key-Ends (create now buf entropy name req) s safe w =
      answered-Ends AreKeysWellFormed key _ _
        (create_key-Ends crypto now buf entropy name req s safe w)
  run_key-Ends (import_ now buf name req) s safe w =
      answered-Ends AreKeysWellFormed key _ _ (import_key-Ends crypto now buf name req s safe w)
  run_key-Ends (get name version) s safe w =
      answered-Ends AreKeysWellFormed key _ _ (get_key-Ends name version s w)
  run_key-Ends (list m t) s safe w =
      answered-Ends AreKeysWellFormed page _ _ (list_keys-Ends m t s w)
  run_key-Ends (list_versions name m t) s safe w =
      answered-Ends AreKeysWellFormed page _ _ (list_key_versions-Ends name m t s w)
  run_key-Ends (update now name version req) s safe w =
      answered-Ends AreKeysWellFormed key _ _ (update_key-Ends now name version req s w)
  run_key-Ends (delete now buf name) s safe w =
      answered-Ends AreKeysWellFormed deleted _ _ (delete_key-Ends now buf name s w)
  run_key-Ends (list_deleted m t) s safe w =
      answered-Ends AreKeysWellFormed deleted_page _ _ (list_deleted_keys-Ends m t s w)
  run_key-Ends (get_deleted name) s safe w =
      answered-Ends AreKeysWellFormed deleted _ _ (get_deleted_key-Ends name s w)
  run_key-Ends (purge_deleted name) s safe w =
      answered-Ends AreKeysWellFormed (λ _. done) _ _ (purge_deleted_key-Ends name s w)
  run_key-Ends (recover_deleted name) s safe w =
      answered-Ends AreKeysWellFormed key _ _ (recover_deleted_key-Ends name s w)
  run_key-Ends (encrypt_ entropy name version req) s safe w =
      answered-Ends AreKeysWellFormed texts _ _
        (encrypt-Ends crypto entropy name version req s safe w)
  run_key-Ends (decrypt_ name version req) s safe w =
      answered-Ends AreKeysWellFormed texts _ _ (decrypt-Ends crypto name version req s safe w)
  run_key-Ends (sign_ entropy name version req) s safe w =
      answered-Ends AreKeysWellFormed text _ _ (sign-Ends crypto entropy name version req s safe w)
  run_key-Ends (verify_ name version req) s safe w =
      answered-Ends AreKeysWellFormed valid _ _ (verify-Ends crypto name version req s safe w)
  run_key-Ends (wrap entropy name version req) s safe w =
      answered-Ends AreKeysWellFormed text _ _
        (wrap_key-Ends crypto entropy name version req s safe w)
  run_key-Ends (unwrap name version req) s safe w =
      answered-Ends AreKeysWellFormed text _ _ (unwrap_key-Ends crypto name version req s safe w)

  -- Whatever the sequence of key calls, none of them panics and the invariant of the maps of keys
  -- holds at the end, if it held at the start and no call makes internal/crypto panic.
  pub serve_keys_safe :
      (calls : List KeyCall) (s : Store M)
      → Each IsHarmless calls
      → AreKeysWellFormed s
      → NeverPanics (serve run_key calls s).0 × AreKeysWellFormed (serve run_key calls s).1
  serve_keys_safe = serve-Ends run_key AreKeysWellFormed IsHarmless run_key-Ends

pub new_store-AreKeysWellFormed : (M : Type 0) → AreKeysWellFormed (new_store {M = M})
unfolding lookup
new_store-AreKeysWellFormed M = record {
  live_entry = λ k e h. cc;
  deleted_entry = λ k d h. cc;
  disjoint = λ k e h. cc;
  live_unique = tt;
  deleted_unique = tt;
}
