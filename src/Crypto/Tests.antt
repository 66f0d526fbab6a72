-- ===== src/Crypto/Tests.antt =====
-- The theorems on internal/crypto/keys.go at concrete inputs.
use mathlib.Core.Path.{subst}
use azure_keyvault_emulator.Prelude.{◌+◌, ◌≡◌, refl, String, [], ◌∷◌, arith, length}
use azure_keyvault_emulator.Prelude.Outcome.{ok, ok-injective}
use azure_keyvault_emulator.Prelude.Text.Hex.{AreBytes}
use azure_keyvault_emulator.Crypto.Interface.{Bytes, Fallible}
use azure_keyvault_emulator.Crypto.Blocks.{
  BlockCipher, IsPermutation, xor_bytes, xor_bytes-xor_bytes, xor_bytes-IsBlock,
}
use azure_keyvault_emulator.Crypto.KeyWrap.{
  aes_key_wrap, aes_key_unwrap, wrapped, select_aes_key, key_of_size, aes_key_size, map_kw_alg,
}
use azure_keyvault_emulator.Crypto.KeyWrap.RoundTrip.{aes_key_unwrap-aes_key_wrap}
use azure_keyvault_emulator.Crypto.Cbc.{
  encrypt_cbc, decrypt_cbc, cbc_encrypt, pkcs7_pad, has_suffix, vector_of, padded, is_padded,
}
use azure_keyvault_emulator.Crypto.Cbc.RoundTrip.{decrypt_cbc-encrypt_cbc}

-- A cipher that xors each block with the key.
abbrev mask_cipher : Bytes → BlockCipher
mask_cipher key = record {
  encrypt_block = λ b. xor_bytes b key;
  decrypt_block = λ b. xor_bytes b key;
}

abbrev new_cipher : Bytes → Fallible BlockCipher
new_cipher key = ok (mask_cipher key)

abbrev quoted : String → String
quoted t = t

mask_cipher-IsPermutation : (key : Bytes) → IsPermutation (mask_cipher key)
mask_cipher-IsPermutation key = record {
  encrypt-IsBlock = λ b h. xor_bytes-IsBlock 16 b key h;
  decrypt-encrypt = λ b h. xor_bytes-xor_bytes b key h.0;
}

sound : (key : Bytes) (c : BlockCipher) → new_cipher key ≡ ok c → IsPermutation c
sound key c e = subst IsPermutation (ok-injective e) (mask_cipher-IsPermutation key)

abbrev key : Bytes
key = 1 ∷ 2 ∷ 3 ∷ 4 ∷ 5 ∷ 6 ∷ 7 ∷ 8 ∷ 9 ∷ 10 ∷ 11 ∷ 12 ∷ 13 ∷ 14 ∷ 15 ∷ 16 ∷ []

abbrev text : Bytes
text = 10 ∷ 20 ∷ 30 ∷ 40 ∷ 50 ∷ 60 ∷ 70 ∷ 80 ∷ []

text-AreBytes : AreBytes text
text-AreBytes = (
  omega arith,
  (
    omega arith,
    (omega arith, (omega arith, (omega arith, (omega arith, (omega arith, (omega arith, tt)))))),
  ),
)

key-AreBytes : AreBytes key
key-AreBytes = (
  omega arith,
  (
    omega arith,
    (
      omega arith,
      (
        omega arith,
        (
          omega arith,
          (
            omega arith,
            (
              omega arith,
              (
                omega arith,
                (
                  omega arith,
                  (
                    omega arith,
                    (
                      omega arith,
                      (omega arith, (omega arith, (omega arith, (omega arith, (omega arith, tt))))),
                    ),
                  ),
                ),
              ),
            ),
          ),
        ),
      ),
    ),
  ),
)

wraps : aes_key_wrap quoted new_cipher key text ≡ ok (wrapped (mask_cipher key) text)
unfolding aes_key_wrap select_aes_key key_of_size aes_key_size map_kw_alg
wraps = refl

aes_key_unwrap-aes_key_wrap_example :
    AreBytes (wrapped (mask_cipher key) text)
    × (length (wrapped (mask_cipher key) text) ≡ length text + 8)
    × (aes_key_unwrap quoted new_cipher key (wrapped (mask_cipher key) text) ≡ ok text)
aes_key_unwrap-aes_key_wrap_example =
    aes_key_unwrap-aes_key_wrap quoted new_cipher sound key text (wrapped (mask_cipher key) text)
      text-AreBytes wraps

abbrev code : Bytes
code = cbc_encrypt (mask_cipher key) 1 key (pkcs7_pad text 16)

encrypts : encrypt_cbc quoted new_cipher key key "A128CBCPAD" text [] ≡ ok (code, key)
unfolding encrypt_cbc select_aes_key key_of_size aes_key_size vector_of padded is_padded has_suffix
    pkcs7_pad
encrypts = refl

decrypt_cbc-encrypt_cbc_example :
    AreBytes code
    × AreBytes key
    × (decrypt_cbc quoted new_cipher key "A128CBCPAD" code key ≡ ok (text, key))
decrypt_cbc-encrypt_cbc_example =
    decrypt_cbc-encrypt_cbc quoted new_cipher sound key key "A128CBCPAD" text [] code key
      key-AreBytes text-AreBytes tt encrypts
