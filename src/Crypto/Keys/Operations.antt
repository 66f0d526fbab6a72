-- ===== src/Crypto/Keys/Operations.antt =====
-- Encrypt, Decrypt, Sign, Verify, Wrap and Unwrap of internal/crypto/keys.go.
use Prim.Native.String.{◌++◌ as text_append}
use text.Mathlib.Text.{starts_with}
use azure_keyvault_emulator.Prelude.{
  ℕ, ◌*◌, String, Bool, true, false, Option, none, some, [], ◌++◌, eqb, if◌then◌else◌, ◌==◌, take,
  drop, length,
}
use azure_keyvault_emulator.Prelude.Outcome.{ok, err, panic}
use azure_keyvault_emulator.Crypto.Interface.{Bytes, Fallible, KeyCrypto}
use azure_keyvault_emulator.Crypto.KeyWrap.{and_then, aes_key_wrap, aes_key_unwrap}
use azure_keyvault_emulator.Crypto.Cbc.{encrypt_cbc, decrypt_cbc}
use azure_keyvault_emulator.Crypto.Keys.{
  Packages, KeyMaterial, RsaPublicKey, RsaPrivateKey, EcdsaPublicKey, EcdsaPrivateKey, Hash, sha1,
  sha256, sha384, sha512, set_bytes, int_bytes, pad_bytes, coordinate_size,
}
use azure_keyvault_emulator.Crypto.Keys.Generation.{generate_key, import_key}

-- The public key of an RSA material: that of the private key, if there is one.
unfoldable pub public_rsa : KeyMaterial → Option RsaPublicKey
public_rsa material = elim material.rsa [ none ↦ material.rsa_pub | some priv ↦ some priv.public ]

unfoldable pub public_ecdsa : KeyMaterial → Option EcdsaPublicKey
public_ecdsa material = elim material.ecdsa [
  | none ↦ material.ecdsa_pub
  | some priv ↦ some priv.public
]

-- A pointer that must not be nil.
abbrev pub or_fail : {A : Type 0} → Option A → String → Fallible A
or_fail none message = err message
or_fail (some a) message = ok a

-- `return out, nil, err`
abbrev pub no_vector : Fallible Bytes → Fallible (Bytes × Bytes)
no_vector (ok out) = ok (out, [])
no_vector (err e) = err e
no_vector panic = panic

-- `out, _, err := …`
abbrev pub without_vector : Fallible (Bytes × Bytes) → Fallible Bytes
without_vector (ok (out, iv)) = ok out
without_vector (err e) = err e
without_vector panic = panic

unfoldable pub rsa_hash : (String → String) → String → Fallible (Hash × Bool)
rsa_hash quoted alg =
    if alg == "RS256"
    then ok (sha256, false)
    else if alg == "RS384"
    then ok (sha384, false)
    else if alg == "RS512"
    then ok (sha512, false)
    else if alg == "PS256"
    then ok (sha256, true)
    else if alg == "PS384"
    then ok (sha384, true)
    else if alg == "PS512"
    then ok (sha512, true)
    else err (text_append "unsupported signing algorithm " (quoted alg))

-- `DecodeBase64URL`, whose error the store replaces by its own.
abbrev pub decoded_or_none : Fallible Bytes → Option Bytes
decoded_or_none (ok b) = some b
decoded_or_none _ = none

module _ (go : Packages) where
  unfoldable pub encrypt_rsa : Bytes → RsaPublicKey → String → Bytes → Fallible Bytes
  encrypt_rsa random pub_ alg plaintext =
      if alg == "RSA-OAEP"
      then go.encrypt_oaep sha1 random pub_ plaintext
      else if alg == "RSA-OAEP-256"
      then go.encrypt_oaep sha256 random pub_ plaintext
      else if alg == "RSA1_5"
      then go.encrypt_pkcs1v15 random pub_ plaintext
      else err (text_append "unsupported encrypt algorithm " (go.quoted alg))

  unfoldable pub encrypt :
      Bytes → KeyMaterial → String → String → Bytes → Bytes → Fallible (Bytes × Bytes)
  encrypt random material kty alg plaintext iv =
      if starts_with kty "RSA"
      then (and_then (or_fail (public_rsa material) "rsa public key not available")
          λ pub_. no_vector (encrypt_rsa random pub_ alg plaintext))
      else if starts_with kty "oct"
      then encrypt_cbc go.quoted go.new_cipher random material.aes alg plaintext iv
      else err (text_append "encrypt not supported for " (go.quoted kty))

  unfoldable pub decrypt_rsa : RsaPrivateKey → String → Bytes → Fallible Bytes
  decrypt_rsa priv alg ciphertext =
      if alg == "RSA-OAEP"
      then go.decrypt_oaep sha1 priv ciphertext
      else if alg == "RSA-OAEP-256"
      then go.decrypt_oaep sha256 priv ciphertext
      else if alg == "RSA1_5"
      then go.decrypt_pkcs1v15 priv ciphertext
      else err (text_append "unsupported decrypt algorithm " (go.quoted alg))

  unfoldable pub decrypt : KeyMaterial → String → String → Bytes → Bytes → Fallible (Bytes × Bytes)
  decrypt material kty alg ciphertext iv =
      if starts_with kty "RSA"
      then (and_then (or_fail material.rsa "rsa private key not available")
          λ priv. no_vector (decrypt_rsa priv alg ciphertext))
      else if starts_with kty "oct"
      then decrypt_cbc go.quoted go.new_cipher material.aes alg ciphertext iv
      else err (text_append "decrypt not supported for " (go.quoted kty))

  unfoldable pub sign_rsa : Bytes → RsaPrivateKey → Hash × Bool → Bytes → Fallible Bytes
  sign_rsa random priv (hash, true) digest = go.sign_pss random priv hash digest
  sign_rsa random priv (hash, false) digest = go.sign_pkcs1v15 priv hash digest

  -- The two numbers of a signature, each one as wide as a coordinate.
  unfoldable pub signature_bytes : EcdsaPrivateKey → ℕ × ℕ → Bytes
  signature_bytes priv (r, s) =
      let size = coordinate_size priv.public.curve in
      pad_bytes (int_bytes r) size ++ pad_bytes (int_bytes s) size

  unfoldable pub sign : Bytes → KeyMaterial → String → String → Bytes → Fallible Bytes
  sign random material kty alg digest =
      if starts_with kty "RSA"
      then (and_then (or_fail material.rsa "rsa private key not available")
          λ priv. and_then (rsa_hash go.quoted alg) λ hash. sign_rsa random priv hash digest)
      else if starts_with kty "EC"
      then (and_then (or_fail material.ecdsa "ecdsa private key not available")
          λ priv. and_then (go.ecdsa_sign random priv digest) λ rs. ok (signature_bytes priv rs))
      else err (text_append "sign not supported for " (go.quoted kty))

  unfoldable pub verify_rsa : RsaPublicKey → Hash × Bool → Bytes → Bytes → Bool
  verify_rsa pub_ (hash, true) digest signature = go.verify_pss pub_ hash digest signature
  verify_rsa pub_ (hash, false) digest signature = go.verify_pkcs1v15 pub_ hash digest signature

  unfoldable pub verify_ecdsa : EcdsaPublicKey → Bytes → Bytes → Bool
  verify_ecdsa pub_ digest signature =
      let size = coordinate_size pub_.curve in
      if eqb (length signature) (size * 2)
      then go.ecdsa_verify pub_ digest (set_bytes 0 (take size signature))
          (set_bytes 0 (drop size signature))
      else false

  unfoldable pub verify : KeyMaterial → String → String → Bytes → Bytes → Fallible Bool
  verify material kty alg digest signature =
      if starts_with kty "RSA"
      then (and_then (or_fail (public_rsa material) "rsa public key not available") λ pub_.
          and_then (rsa_hash go.quoted alg) λ hash. ok (verify_rsa pub_ hash digest signature))
      else if starts_with kty "EC"
      then (and_then (or_fail (public_ecdsa material) "ecdsa public key not available")
          λ pub_. ok (verify_ecdsa pub_ digest signature))
      else err (text_append "verify not supported for " (go.quoted kty))

  unfoldable pub wrap : Bytes → KeyMaterial → String → String → Bytes → Fallible Bytes
  wrap random material kty alg plaintext =
      if starts_with kty "RSA"
      then without_vector (encrypt random material kty alg plaintext [])
      else if starts_with kty "oct"
      then aes_key_wrap go.quoted go.new_cipher material.aes plaintext
      else err (text_append "wrap not supported for " (go.quoted kty))

  unfoldable pub unwrap : KeyMaterial → String → String → Bytes → Fallible Bytes
  unwrap material kty alg ciphertext =
      if starts_with kty "RSA"
      then without_vector (decrypt material kty alg ciphertext [])
      else if starts_with kty "oct"
      then aes_key_unwrap go.quoted go.new_cipher material.aes ciphertext
      else err (text_append "unwrap not supported for " (go.quoted kty))

  -- The package as the store uses it.
  abbrev pub key_crypto : KeyCrypto KeyMaterial
  key_crypto = record {
    generate_key = generate_key go;
    import_key = import_key go;
    encrypt = encrypt;
    decrypt = decrypt;
    sign = sign;
    verify = verify;
    wrap = wrap;
    unwrap = unwrap;
    encode_base64_url = go.encode_base64;
    decode_base64_url = λ t. decoded_or_none (go.decode_base64 t);
  }
