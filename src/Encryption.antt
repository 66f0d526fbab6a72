-- ===== src/Encryption.antt =====
-- internal/encryption/encryption.go over an AEAD, and the store of internal/web/encryptedstore.go
-- that wraps another store. The AEAD is `cipher.NewGCM` of `aes.NewCipher`.
pub mod RoundTrip
pub mod Secrets
pub mod Strokes
use azure_keyvault_emulator.Prelude.{
  ℕ, String, Bool, not, Option, none, some, List, [], ◌∷◌, ◌++◌, eqb, ltb, ◌==◌, if◌then◌else◌,
  length, take, drop,
}
use azure_keyvault_emulator.Prelude.Outcome.{Outcome, ok, err, panic}
use azure_keyvault_emulator.Prelude.Text.Hex.{hex_encode, hex_decode}
use azure_keyvault_emulator.Crypto.Interface.{Bytes, Fallible}
use azure_keyvault_emulator.Crypto.KeyWrap.{and_then, fail_if}

-- `cipher.AEAD`, without additional data: `Seal` and `Open` of a nonce and a text.
pub record Aead : Type 0 where
  pub seal : Bytes → Bytes → Bytes
  pub open_ : Bytes → Bytes → Fallible Bytes

-- What is used of Go's packages, and the conversions of a string to bytes and back. The error of
-- `hex.DecodeString` is its text for the string; `pbkdf2.Key` is with SHA-256.
pub record Ciphers : Type 0 where
  pub aead : Bytes → Fallible Aead
  pub bytes_of : String → Bytes
  pub text_of : Bytes → String
  pub hex_error : String → String
  pub pbkdf2 : Bytes → Bytes → ℕ → ℕ → Bytes

abbrev pub nonce_size : ℕ
nonce_size = 12

abbrev pub key_size : ℕ
key_size = 32

abbrev pub pbkdf2_iters : ℕ
pbkdf2_iters = 100000

abbrev pub or_error : {A : Type 0} → Option A → String → Fallible A
or_error none message = err message
or_error (some a) message = ok a

module _ (go : Ciphers) where
  abbrev pub derive_key : String → Bytes → Bytes
  derive_key passphrase salt = go.pbkdf2 (go.bytes_of passphrase) salt pbkdf2_iters key_size

  unfoldable pub new_gcm : Bytes → Fallible Aead
  new_gcm key = fail_if (not (eqb (length key) key_size)) "key must be 32 bytes" (go.aead key)

  -- `nonce` is what `crypto/rand` fills.
  unfoldable pub encrypt : Bytes → Bytes → Bytes → Fallible Bytes
  encrypt nonce key plaintext = and_then (new_gcm key) λ gcm. ok (nonce ++ gcm.seal nonce plaintext)

  unfoldable pub decrypt : Bytes → Bytes → Fallible Bytes
  decrypt key ciphertext = and_then (new_gcm key) λ gcm.
      fail_if (ltb (length ciphertext) nonce_size) "ciphertext too short"
        (gcm.open_ (take nonce_size ciphertext) (drop nonce_size ciphertext))

  unfoldable pub encrypt_string : Bytes → Bytes → String → Fallible String
  encrypt_string nonce key s =
      and_then (encrypt nonce key (go.bytes_of s)) λ ciphertext. ok (hex_encode ciphertext)

  unfoldable pub decrypt_string : Bytes → String → Fallible String
  decrypt_string key s =
      and_then (or_error (hex_decode s) (go.hex_error s))
        λ ciphertext. and_then (decrypt key ciphertext) λ plaintext. ok (go.text_of plaintext)
