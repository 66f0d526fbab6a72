-- ===== src/Encryption/Secrets.antt =====
-- The store of internal/web/encryptedstore.go: the six methods that it overrides. The others are
-- those of the store that it wraps, which is here the in-memory one.
pub mod Values
pub mod Tests
use azure_keyvault_emulator.Prelude.{
  ℕ, String, ◌≡◌, refl, ◌≢◌, ap, Bool, not, Option, none, some, List, [], ◌∷◌, ◌==◌, eq_iff,
  if◌then◌else◌, arith,
}
use azure_keyvault_emulator.Prelude.Outcome.{
  Outcome, ok, err, panic, Method, continue, pure, lift, ◌>>=◌,
}
use azure_keyvault_emulator.Prelude.Outcome.Yields.{Yields, yielded, then-Yields}
use azure_keyvault_emulator.Model.{SecretSetRequest, SecretUpdateRequest}
use azure_keyvault_emulator.Crypto.Interface.{Bytes, Fallible}
use azure_keyvault_emulator.Crypto.Blocks.{IsBlock}
use azure_keyvault_emulator.Storer.{AnyError, plain, Served, delegated}
use azure_keyvault_emulator.Store.{Store, Call, SecretRecord, DeletedSecretRecord}
use azure_keyvault_emulator.Store.Errors.{Error, new_error}
use azure_keyvault_emulator.Store.Secrets.{
  set_secret, get_secret, update_secret, delete_secret, get_deleted_secret, recover_deleted_secret,
}
use azure_keyvault_emulator.Encryption.{Ciphers, encrypt_string, decrypt_string}
use azure_keyvault_emulator.Encryption.RoundTrip.{AreSound, decrypt_string-encrypt_string}

-- `getKey()`, and what `isLocked()` answers: false if the function is nil.
pub record Vault : Type 0 where
  pub key : Option Bytes
  pub is_locked : Bool

abbrev pub Wrapped : Type 0 → Type 0 → Type 0
Wrapped M A = Served (Store M) A

abbrev pub plainly : {A : Type 0} → Fallible A → Outcome AnyError A
plainly (ok a) = ok a
plainly (err text) = err (plain text)
plainly panic = panic

-- The value if it is decrypted, and else as it is.
unfoldable pub decrypted_or : SecretRecord → Fallible String → SecretRecord
decrypted_or r (ok value) = record r { value = value }
decrypted_or r (err e) = r
decrypted_or r panic = r

module _ (go : Ciphers) (vault : Vault) where
  unfoldable pub decrypt_record : SecretRecord → SecretRecord
  decrypt_record r = elim vault.key [
    | none ↦ r
    | some key ↦ if r.value == "" then r else decrypted_or r (decrypt_string go key r.value)
  ]

  unfoldable pub decrypt_deleted : DeletedSecretRecord → DeletedSecretRecord
  decrypt_deleted r = record r { secret = decrypt_record r.secret }

  -- The value that is handed on: a locked vault refuses, an open one encrypts.
  unfoldable pub value_to_store : Bytes → String → Outcome AnyError String
  value_to_store nonce value = elim vault.key [
    | none ↦
        if vault.is_locked
        then err (plain "vault is locked: unlock before writing secrets")
        else ok value
    | some key ↦ if value == "" then ok value else plainly (encrypt_string go nonce key value)
  ]

  module _ {M : Type 0} where
    unfoldable pub set_encrypted :
        Bytes → ℕ → List ℕ → String → SecretSetRequest → Wrapped M SecretRecord
    set_encrypted nonce now buf name req = do
      value ← lift (value_to_store nonce req.value)
      delegated (set_secret now buf name (record req { value = value }))

    unfoldable pub get_decrypted : String → String → Wrapped M SecretRecord
    get_decrypted name version = do r ← delegated (get_secret name version); pure (decrypt_record r)

    unfoldable pub get_deleted_decrypted : String → Wrapped M DeletedSecretRecord
    get_deleted_decrypted name = do
      r ← delegated (get_deleted_secret name)
      pure (decrypt_deleted r)

    unfoldable pub recover_deleted_decrypted : String → Wrapped M SecretRecord
    recover_deleted_decrypted name = do
      r ← delegated (recover_deleted_secret name)
      pure (decrypt_record r)

    unfoldable pub update_decrypted :
        ℕ → String → String → SecretUpdateRequest → Wrapped M SecretRecord
    update_decrypted now name version req = do
      r ← delegated (update_secret now name version req)
      pure (decrypt_record r)

    unfoldable pub delete_decrypted : ℕ → List ℕ → String → Wrapped M DeletedSecretRecord
    delete_decrypted now buf name = do
      r ← delegated (delete_secret now buf name)
      pure (decrypt_deleted r)
