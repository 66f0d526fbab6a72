-- ===== src/Crypto/Cbc.antt =====
-- The CBC mode of internal/crypto/keys.go: pkcs7Pad, pkcs7Unpad, encryptCBC and decryptCBC. The
-- chaining is that of `cipher.NewCBCEncrypter` and `cipher.NewCBCDecrypter`.
pub mod Padding
pub mod RoundTrip
use azure_keyvault_emulator.Prelude.{
  ℕ, zero, suc, true, false, ◌+◌, ◌-◌, ◌*◌, ◌/◌, ◌%◌, Bool, not, ◌&&◌, ◌||◌, Option, none, some,
  String, List, [], ◌∷◌, ◌++◌, eqb, ltb, ◌==◌, if◌then◌else◌, length, take, drop, last?, is_empty,
  replicate,
}
use azure_keyvault_emulator.Prelude.Outcome.{Outcome, ok, err, panic}
use azure_keyvault_emulator.Crypto.Interface.{Bytes, Fallible}
use azure_keyvault_emulator.Crypto.Blocks.{BlockCipher, xor_bytes}
use azure_keyvault_emulator.Crypto.KeyWrap.{and_then, fail_if, select_aes_key}

unfoldable pub pkcs7_pad : Bytes → ℕ → Bytes
pkcs7_pad data_ block_size =
    let pad_len = block_size - length data_ % block_size in
    data_ ++ replicate pad_len (pad_len % 256)

unfoldable pub all_are : ℕ → Bytes → Bool
all_are n [] = true
all_are n (b ∷ bs) = eqb b n && all_are n bs

-- `data[len(data)-1]`, of data that are not empty.
unfoldable pub last_byte : Option ℕ → ℕ
last_byte none = 0
last_byte (some b) = b

unfoldable pub pkcs7_unpad : Bytes → ℕ → Fallible Bytes
pkcs7_unpad data_ block_size =
    let pad_len = last_byte (last? data_) in
    let kept = length data_ - pad_len in
    fail_if (eqb (length data_) 0 || not (eqb (length data_ % block_size) 0)) "invalid padded data"
      (fail_if (eqb pad_len 0 || (ltb block_size pad_len || ltb (length data_) pad_len))
        "invalid padding"
        (fail_if (not (all_are pad_len (drop kept data_))) "invalid padding"
          (ok (take kept data_))))

module _ (cipher : BlockCipher) where
  -- `CryptBlocks` of `n` blocks, each one against the block before it.
  unfoldable pub cbc_encrypt : ℕ → Bytes → Bytes → Bytes
  cbc_encrypt zero before data_ = []
  cbc_encrypt (suc n) before data_ =
      let c = cipher.encrypt_block (xor_bytes (take 16 data_) before) in
      c ++ cbc_encrypt n c (drop 16 data_)

  unfoldable pub cbc_decrypt : ℕ → Bytes → Bytes → Bytes
  cbc_decrypt zero before data_ = []
  cbc_decrypt (suc n) before data_ =
      xor_bytes (cipher.decrypt_block (take 16 data_)) before
      ++ cbc_decrypt n (take 16 data_) (drop 16 data_)

-- `strings.HasSuffix`
unfoldable pub has_suffix : String → String → Bool
has_suffix String.[] suffix = suffix == ""
has_suffix (String.◌∷◌ c rest) suffix = String.◌∷◌ c rest == suffix || has_suffix rest suffix

unfoldable pub is_padded : String → Bool
is_padded alg = has_suffix alg "PAD"

-- The input of the encryption.
unfoldable pub padded : String → Bytes → Fallible Bytes
padded alg plaintext =
    if is_padded alg
    then ok (pkcs7_pad plaintext 16)
    else fail_if (not (eqb (length plaintext % 16) 0))
        "plaintext size must be a multiple of 16 bytes" (ok plaintext)

-- The output of the decryption.
unfoldable pub unpadded : String → Bytes → Fallible Bytes
unpadded alg out = if is_padded alg then pkcs7_unpad out 16 else ok out

-- The vector: `random` fills it where none is given.
unfoldable pub vector_of : Bytes → Bytes → Bytes
vector_of random iv = if is_empty iv then random else iv

module _ (quoted : String → String) (new_cipher : Bytes → Fallible BlockCipher) where
  unfoldable pub encrypt_cbc : Bytes → Bytes → String → Bytes → Bytes → Fallible (Bytes × Bytes)
  encrypt_cbc random key alg plaintext given =
      let iv = vector_of random given in
      fail_if (not (eqb (length iv) 16)) "iv must be 16 bytes" (
        and_then (select_aes_key quoted key alg) λ key. and_then (new_cipher key) λ block.
          and_then (padded alg plaintext)
            λ input. ok (cbc_encrypt block (length input / 16) iv input, iv))

  unfoldable pub decrypt_cbc : Bytes → String → Bytes → Bytes → Fallible (Bytes × Bytes)
  decrypt_cbc key alg ciphertext iv = fail_if (not (eqb (length iv) 16)) "iv must be 16 bytes" (
      fail_if (not (eqb (length ciphertext % 16) 0))
        "ciphertext size must be a multiple of 16 bytes"
        (and_then (select_aes_key quoted key alg) λ key. and_then (new_cipher key) λ block.
          and_then (unpadded alg (cbc_decrypt block (length ciphertext / 16) iv ciphertext))
            λ out. ok (out, iv)))
