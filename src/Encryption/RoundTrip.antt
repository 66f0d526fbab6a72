-- ===== src/Encryption/RoundTrip.antt =====
-- DecryptString of internal/encryption/encryption.go takes EncryptString back.
use mathlib.Core.Path.{subst}
use azure_keyvault_emulator.Prelude.{
  String, ◌≡◌, false, not, ◌++◌, eqb, ltb, arith, length, length-append,
}
use azure_keyvault_emulator.Prelude.Outcome.{ok, ok-injective}
use azure_keyvault_emulator.Prelude.Text.Hex.{hex_encode, AreBytes, hex_decode-hex_encode}
use azure_keyvault_emulator.Crypto.Interface.{Bytes}
use azure_keyvault_emulator.Crypto.KeyWrap.{and_then-ok, fail_if-ok}
use azure_keyvault_emulator.Crypto.Blocks.{IsBlock, take-block, drop-block, AreBytes-append}
use azure_keyvault_emulator.Encryption.{
  Ciphers, Aead, new_gcm, encrypt, decrypt, encrypt_string, decrypt_string, nonce_size, key_size,
}

-- What the code relies on: a sealed text is made of bytes and is opened with the same nonce, and
-- the conversion of a string to bytes is undone.
pub record AreSound (go : Ciphers) : Type 0 where
  pub seal-AreBytes :
      (key : Bytes) (a : Aead) (nonce p : Bytes) → go.aead key ≡ ok a → AreBytes (a.seal nonce p)
  pub open-seal :
      (key : Bytes) (a : Aead) (nonce p : Bytes)
      → go.aead key ≡ ok a
      → IsBlock 12 nonce
      → a.open_ nonce (a.seal nonce p) ≡ ok p
  pub text_of-bytes_of : (s : String) → go.text_of (go.bytes_of s) ≡ s

module _ (go : Ciphers) (sound : AreSound go) (nonce key : Bytes) (fresh : IsBlock 12 nonce) where
  abbrev sealed : String → Aead → Bytes
  sealed s a = nonce ++ a.seal nonce (go.bytes_of s)

  aead-new_gcm : (a : Aead) → new_gcm go key ≡ ok a → go.aead key ≡ ok a
  unfolding new_gcm
  aead-new_gcm a made =
      (fail_if-ok (not (eqb (length key) key_size)) "key must be 32 bytes" (go.aead key) made).1

  decrypt-sealed :
      (s : String) (a : Aead)
      → new_gcm go key ≡ ok a
      → go.aead key ≡ ok a
      → decrypt_string go key (hex_encode (sealed s a)) ≡ ok s
  unfolding decrypt_string decrypt
  decrypt-sealed s a made aead =
      let size = length-append nonce (a.seal nonce (go.bytes_of s)) in
      let twelve = fresh.1 in
      let long : ltb (length (sealed s a)) nonce_size ≡ false = ground arith in
      let bytes =
        AreBytes-append nonce _ fresh.0 (sound.seal-AreBytes key a nonce (go.bytes_of s) aead) in
      rw (
        hex_decode-hex_encode (sealed s a) bytes,
        made,
        long,
        take-block 12 nonce (a.seal nonce (go.bytes_of s)) fresh,
        drop-block 12 nonce (a.seal nonce (go.bytes_of s)) fresh,
        sound.open-seal key a nonce (go.bytes_of s) aead fresh,
        sound.text_of-bytes_of s,
      )

  -- DecryptString with the same key answers the string to what EncryptString answered with a nonce
  -- of twelve bytes, if the AEAD opens what it has sealed.
  pub decrypt_string-encrypt_string :
      (s text : String)
      → encrypt_string go nonce key s ≡ ok text
      → decrypt_string go key text ≡ ok s
  unfolding encrypt_string encrypt
  decrypt_string-encrypt_string s text done =
      let (c, e, answer) =
        and_then-ok (encrypt go nonce key (go.bytes_of s)) (λ c. ok (hex_encode c)) done in
      let (a, made, same) =
        and_then-ok (new_gcm go key) (λ (gcm : Aead). ok (nonce ++ gcm.seal nonce (go.bytes_of s)))
          e in
      subst (λ t. decrypt_string go key t ≡ ok s) (ok-injective answer)
        (subst (λ b. decrypt_string go key (hex_encode b) ≡ ok s) (ok-injective same)
          (decrypt-sealed s a made (aead-new_gcm a made)))
