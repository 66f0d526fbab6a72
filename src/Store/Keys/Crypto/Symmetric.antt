-- ===== src/Store/Keys/Crypto/Symmetric.antt =====
-- Symmetric keys in the operations of internal/store/keys.go, through internal/crypto/keys.go.
use text.Mathlib.Text.{starts_with}
use azure_keyvault_emulator.Prelude.{
  ℕ, suc, ◌%◌, String, ◌≡◌, ◌≢◌, true, false, some, List, arith, ◌==◌, eq_iff, eqb,
}
use azure_keyvault_emulator.Prelude.Dict.{contains}
use azure_keyvault_emulator.Prelude.Outcome.{ok, panic}
use azure_keyvault_emulator.Prelude.Text.Decimal.{negsuc}
use azure_keyvault_emulator.Prelude.Text.Hex.{AreBytes}
use azure_keyvault_emulator.Model.{EncryptRequest, CreateKeyRequest}
use azure_keyvault_emulator.Crypto.Interface.{Bytes}
use azure_keyvault_emulator.Crypto.Blocks.{BlockCipher, IsPermutation}
use azure_keyvault_emulator.Crypto.KeyWrap.RoundTrip.{aes_key_unwrap-aes_key_wrap}
use azure_keyvault_emulator.Crypto.Cbc.RoundTrip.{decrypt_cbc-encrypt_cbc}
use azure_keyvault_emulator.Crypto.Keys.{Packages, KeyMaterial}
use azure_keyvault_emulator.Crypto.Keys.Generation.{generate_key, size_or, random_key}
use azure_keyvault_emulator.Crypto.Keys.Operations as Ops
use azure_keyvault_emulator.Store.{Store, KeyVersion}
use azure_keyvault_emulator.Store.Keys.{create_key}
use azure_keyvault_emulator.Store.Keys.Records.{or_bad_request}
use azure_keyvault_emulator.Store.Keys.Crypto.{key_material, encrypt, decrypt, wrap_key, unwrap_key}
use azure_keyvault_emulator.Store.Keys.Crypto.RoundTrips.{
  Base64Law, Decrypts, Unwraps, decrypt-encrypt, unwrap_key-wrap_key,
}

-- `aes.NewCipher` answers ciphers whose decryption undoes their encryption.
abbrev pub IsSound : Packages → Type 0
IsSound go = (key : Bytes) (c : BlockCipher) → go.new_cipher key ≡ ok c → IsPermutation c

module _ (go : Packages) (sound : IsSound go) (kty : String) (other : starts_with kty "RSA" ≡ false)
    (symmetric : starts_with kty "oct" ≡ true) where
  symmetric-Decrypts : (m : KeyMaterial) → Decrypts (Ops.key_crypto go) m kty
  unfolding Ops.encrypt Ops.decrypt
  symmetric-Decrypts m random alg p iv c iv' hr hp hiv done =
      rw (other, symmetric)
        (decrypt_cbc-encrypt_cbc go.quoted go.new_cipher sound random m.aes alg p iv c iv' hr hp hiv
          (rw (other, symmetric) at done))

  symmetric-Unwraps : (m : KeyMaterial) → Unwraps (Ops.key_crypto go) m kty
  unfolding Ops.wrap Ops.unwrap
  symmetric-Unwraps m random alg p c hr hp done =
      let (bytes, _, back) =
        aes_key_unwrap-aes_key_wrap go.quoted go.new_cipher sound m.aes p c hp
          (rw (other, symmetric) at done) in
      rw (other, symmetric) (bytes, back)

-- A key of a symmetric type in the store.
module _ (go : Packages) (sound : IsSound go) (law : Base64Law (Ops.key_crypto go))
    (name version : String) (s : Store KeyMaterial) {ver : KeyVersion KeyMaterial}
    (found : key_material name version s ≡ (ok ver, s))
    (other : starts_with ver.record_.key.kty "RSA" ≡ false)
    (symmetric : starts_with ver.record_.key.kty "oct" ≡ true) where
  -- With a symmetric key, Decrypt answers to what Encrypt answered, which went through the CBC mode,
  -- the bytes that were encrypted and the same vector, if base64 and the block cipher are undone by
  -- their inverses.
  pub symmetric-decrypt-encrypt :
      (random b : Bytes) (req : EncryptRequest) (c iv : String)
      → AreBytes random
      → (Ops.key_crypto go).decode_base64_url req.value ≡ some b
      → (encrypt (Ops.key_crypto go) random name version req s).0 ≡ ok (c, iv)
      → decrypt (Ops.key_crypto go) name version (record { alg = req.alg; value = c; iv = iv }) s
        ≡ (ok (go.encode_base64 b, iv), s)
  symmetric-decrypt-encrypt =
      decrypt-encrypt (Ops.key_crypto go) law name version s found
        (symmetric-Decrypts go sound ver.record_.key.kty other symmetric ver.material)

  -- With a symmetric key, UnwrapKey answers to what WrapKey answered, which went through the AES key
  -- wrap, the bytes that were wrapped, if base64 and the block cipher are undone by their inverses.
  pub symmetric-unwrap_key-wrap_key :
      (random b : Bytes) (req : EncryptRequest) (c iv : String)
      → AreBytes random
      → (Ops.key_crypto go).decode_base64_url req.value ≡ some b
      → (wrap_key (Ops.key_crypto go) random name version req s).0 ≡ ok c
      → unwrap_key (Ops.key_crypto go) name version (record { alg = req.alg; value = c; iv = iv }) s
        ≡ (ok (go.encode_base64 b), s)
  symmetric-unwrap_key-wrap_key =
      unwrap_key-wrap_key (Ops.key_crypto go) law name version s found
        (symmetric-Unwraps go sound ver.record_.key.kty other symmetric ver.material)

-- CreateKey of a symmetric key whose size is negative and a multiple of eight panics, and leaves the
-- store as it is, for every name that is not empty and not that of a deleted key.
pub create_key-negative_size :
    (go : Packages) (now : ℕ) (buf random : List ℕ) (name : String) (req : CreateKeyRequest)
    (s : Store KeyMaterial) (n : ℕ)
    → name ≢ ""
    → contains name s.deleted_keys ≡ false
    → req.kty ≡ "oct"
    → req.key_size ≡ negsuc n
    → suc n % 8 ≡ 0
    → create_key (Ops.key_crypto go) now buf random name req s ≡ (panic, s)
unfolding create_key or_bad_request generate_key size_or random_key
create_key-negative_size go now buf random name req s n named absent kind negative whole =
    let given : (name == "") ≡ false = ground (arith, eq_iff name "") in
    let eight : eqb (suc n % 8) 0 ≡ true = ground arith in rw (given, kind, absent, negative, eight)
