-- ===== src/Crypto/Cbc/RoundTrip.antt =====
-- decryptCBC of internal/crypto/keys.go takes encryptCBC back.
use mathlib.Core.Path.{subst}
use azure_keyvault_emulator.Prelude.{
  ℕ, zero, suc, true, false, inl, inr, ◌+◌, ◌*◌, ◌/◌, ◌%◌, ◌≡◌, refl, ap, ◌∙◌, not, String, [], ◌∷◌,
  eqb, arith, length, take, drop, take-append-drop, Bool-cases,
}
use azure_keyvault_emulator.Prelude.Outcome.{ok, err, panic}
use azure_keyvault_emulator.Prelude.Text.Hex.{AreBytes}
use azure_keyvault_emulator.Crypto.Interface.{Bytes, Fallible}
use azure_keyvault_emulator.Crypto.Blocks.{
  BlockCipher, IsPermutation, IsBlock, xor_bytes, xor_bytes-xor_bytes, xor_bytes-IsBlock,
  take-block, drop-block, append-IsBlock, take-IsBlock, drop-IsBlock,
}
use azure_keyvault_emulator.Crypto.KeyWrap.{and_then, and_then-ok, fail_if-ok, select_aes_key}
use azure_keyvault_emulator.Crypto.Cbc.{
  cbc_encrypt, cbc_decrypt, padded, unpadded, vector_of, encrypt_cbc, decrypt_cbc, is_padded,
}
use azure_keyvault_emulator.Crypto.Cbc.Padding.{
  length-pkcs7_pad, pkcs7_pad-AreBytes, pkcs7_unpad-pkcs7_pad,
}

module _ (c : BlockCipher) (p : IsPermutation c) where
  encrypt_block-IsBlock :
      (b before : Bytes) → IsBlock 16 b → IsBlock 16 (c.encrypt_block (xor_bytes b before))
  encrypt_block-IsBlock b before h = p.encrypt-IsBlock _ (xor_bytes-IsBlock 16 b before h)

  cbc_encrypt-IsBlock :
      (n : ℕ) (before data_ : Bytes)
      → IsBlock (n * 16) data_
      → IsBlock (n * 16) (cbc_encrypt c n before data_)
  unfolding cbc_encrypt
  cbc_encrypt-IsBlock zero before data_ h = (tt, refl)
  cbc_encrypt-IsBlock (suc n) before data_ h =
      let whole : length data_ ≡ 16 + n * 16 = h.1 ∙ omega arith in
      let b =
        encrypt_block-IsBlock (take 16 data_) before
          (take-IsBlock 16 (n * 16) data_ (h.0, whole)) in
      let (x, y) =
        append-IsBlock 16 (n * 16) _ _ b
          (cbc_encrypt-IsBlock n _ (drop 16 data_) (drop-IsBlock 16 (n * 16) data_ (h.0, whole))) in
      (x, y ∙ omega arith)

  cbc_decrypt-cbc_encrypt :
      (n : ℕ) (before data_ : Bytes)
      → IsBlock (n * 16) data_
      → cbc_decrypt c n before (cbc_encrypt c n before data_) ≡ data_
  unfolding cbc_encrypt cbc_decrypt
  cbc_decrypt-cbc_encrypt zero before [] h = refl
  cbc_decrypt-cbc_encrypt zero before (x ∷ data_) h = absurd (let e = h.1 in omega arith)
  cbc_decrypt-cbc_encrypt (suc n) before data_ h =
      let whole : length data_ ≡ 16 + n * 16 = h.1 ∙ omega arith in
      let first = take-IsBlock 16 (n * 16) data_ (h.0, whole) in
      let b = encrypt_block-IsBlock (take 16 data_) before first in
      let code = c.encrypt_block (xor_bytes (take 16 data_) before) in
      let rest = cbc_encrypt c n code (drop 16 data_) in
      rw
        (
          take-block 16 code rest b,
          drop-block 16 code rest b,
          p.decrypt-encrypt (xor_bytes (take 16 data_) before)
              (xor_bytes-IsBlock 16 _ before first),
          xor_bytes-xor_bytes (take 16 data_) before first.0,
          cbc_decrypt-cbc_encrypt n code (drop 16 data_)
              (drop-IsBlock 16 (n * 16) data_ (h.0, whole)),
        )
        (take-append-drop 16 data_)

-- The input of an encryption: whole blocks, from which the text is read back.
abbrev IsInput : String → Bytes → Fallible Bytes → Type 0
IsInput alg plaintext (ok input) =
    AreBytes input × (length input ≡ length input / 16 * 16) × (unpadded alg input ≡ ok plaintext)
IsInput alg plaintext (err e) = Unit
IsInput alg plaintext panic = Unit

padded-IsInput :
    (alg : String) (plaintext : Bytes)
    → AreBytes plaintext
    → IsInput alg plaintext (padded alg plaintext)
unfolding padded unpadded
padded-IsInput alg plaintext h = elim (Bool-cases (is_padded alg)) [
  | inl pads ↦
      let size = length-pkcs7_pad plaintext in
      rw pads
        (pkcs7_pad-AreBytes plaintext h, omega arith, rw pads (pkcs7_unpad-pkcs7_pad plaintext))
  | inr plain ↦ elim (Bool-cases (eqb (length plaintext % 16) 0)) [
    | inl whole ↦ rw (plain, whole) (h, ground arith, rw plain)
    | inr part ↦ rw (plain, part) tt
  ]
]

vector_of-AreBytes :
    (random given : Bytes) → AreBytes random → AreBytes given → AreBytes (vector_of random given)
unfolding vector_of
vector_of-AreBytes random [] hr hg = hr
vector_of-AreBytes random (b ∷ bs) hr hg = hg

module _ (quoted : String → String) (new_cipher : Bytes → Fallible BlockCipher)
    (sound : (key : Bytes) (c : BlockCipher) → new_cipher key ≡ ok c → IsPermutation c) where
  -- The steps of encryptCBC behind the choice of the cipher, and behind that of the key.
  abbrev with_cipher : String → Bytes → Bytes → BlockCipher → Fallible (Bytes × Bytes)
  with_cipher alg plaintext iv block =
      and_then (padded alg plaintext)
        λ input. ok (cbc_encrypt block (length input / 16) iv input, iv)

  abbrev with_key : String → Bytes → Bytes → Bytes → Fallible (Bytes × Bytes)
  with_key alg plaintext iv key = and_then (new_cipher key) (with_cipher alg plaintext iv)

  -- What an answer of encryptCBC is to decryptCBC.
  abbrev IsDecrypted : Bytes → String → Bytes → Fallible (Bytes × Bytes) → Type 0
  IsDecrypted key alg plaintext (ok (code, iv)) =
      AreBytes code
      × AreBytes iv
      × (decrypt_cbc quoted new_cipher key alg code iv ≡ ok (plaintext, iv))
  IsDecrypted key alg plaintext (err e) = Unit
  IsDecrypted key alg plaintext panic = Unit

  decrypt_cbc-eq :
      (key code iv : Bytes) (alg : String) (k : Bytes) (c : BlockCipher) (out plaintext : Bytes)
      → not (eqb (length iv) 16) ≡ false
      → eqb (length code % 16) 0 ≡ true
      → select_aes_key quoted key alg ≡ ok k
      → new_cipher k ≡ ok c
      → cbc_decrypt c (length code / 16) iv code ≡ out
      → unpadded alg out ≡ ok plaintext
      → decrypt_cbc quoted new_cipher key alg code iv ≡ ok (plaintext, iv)
  unfolding decrypt_cbc
  decrypt_cbc-eq key code iv alg k c out plaintext sized whole selected made opened back =
      rw (sized, whole, selected, made, opened, back)

  encrypt_cbc-IsDecrypted :
      (random key : Bytes) (alg : String) (plaintext given code iv : Bytes)
      → AreBytes random
      → AreBytes plaintext
      → AreBytes given
      → encrypt_cbc quoted new_cipher random key alg plaintext given ≡ ok (code, iv)
      → IsDecrypted key alg plaintext (ok (code, iv))
  unfolding encrypt_cbc
  encrypt_cbc-IsDecrypted random key alg plaintext given code iv hr hp hg done =
      let v = vector_of random given in
      let (sized, e) =
        fail_if-ok (not (eqb (length v) 16)) _
          (and_then (select_aes_key quoted key alg) (with_key alg plaintext v)) done in
      let (k, selected, e') =
        and_then-ok (select_aes_key quoted key alg) (with_key alg plaintext v) e in
      let (c, made, e'') = and_then-ok (new_cipher k) (with_cipher alg plaintext v) e' in
      let (input, fits, answer) =
        and_then-ok (padded alg plaintext)
          (λ input. ok (cbc_encrypt c (length input / 16) v input, v)) e'' in
      let n = length input / 16 in
      let (bytes, size, back) =
        subst (IsInput alg plaintext) fits (padded-IsInput alg plaintext hp) in
      let (coded, length_) = cbc_encrypt-IsBlock c (sound k c made) n v input (bytes, size) in
      let whole : eqb (length (cbc_encrypt c n v input) % 16) 0 ≡ true = ground arith in
      let count : length (cbc_encrypt c n v input) / 16 ≡ n = omega arith in
      subst (IsDecrypted key alg plaintext) answer (
        coded,
        vector_of-AreBytes random given hr hg,
        decrypt_cbc-eq key _ v alg k c input plaintext sized whole selected made
            (ap (λ m. cbc_decrypt c m v (cbc_encrypt c n v input)) count
              ∙ cbc_decrypt-cbc_encrypt c (sound k c made) n v input (bytes, size))
            back,
      )

  -- The code and the vector that encryptCBC answers are made of bytes, and decryptCBC with the same
  -- key and algorithm answers the text and the vector to them, if the block cipher's decryption
  -- undoes its encryption and the key, the text and the vectors are made of bytes.
  pub decrypt_cbc-encrypt_cbc :
      (random key : Bytes) (alg : String) (plaintext given code iv : Bytes)
      → AreBytes random
      → AreBytes plaintext
      → AreBytes given
      → encrypt_cbc quoted new_cipher random key alg plaintext given ≡ ok (code, iv)
      → AreBytes code
        × AreBytes iv
        × (decrypt_cbc quoted new_cipher key alg code iv ≡ ok (plaintext, iv))
  decrypt_cbc-encrypt_cbc = encrypt_cbc-IsDecrypted
