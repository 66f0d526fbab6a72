-- ===== src/Crypto/Keys/Generation.antt =====
-- GenerateKey and ImportKey of internal/crypto/keys.go.
use Prim.Native.String.{◌++◌ as text_append}
use azure_keyvault_emulator.Prelude.{
  ℕ, zero, suc, ◌-◌, ◌/◌, ◌%◌, ◌^◌, String, Bool, not, ◌||◌, Option, none, some, List, [], ◌∷◌, eqb,
  leb, ltb, if◌then◌else◌, ◌==◌, take,
}
use azure_keyvault_emulator.Prelude.Outcome.{ok, err, panic}
use azure_keyvault_emulator.Prelude.Text.Decimal.{ℤ, pos, negsuc}
use azure_keyvault_emulator.Model.{JsonWebKey}
use azure_keyvault_emulator.Crypto.Interface.{Bytes, Fallible}
use azure_keyvault_emulator.Crypto.KeyWrap.{and_then, fail_if}
use azure_keyvault_emulator.Crypto.Keys.{
  Packages, KeyMaterial, no_material, RsaPublicKey, RsaPrivateKey, EcdsaPublicKey, EcdsaPrivateKey,
  Curve, decode_big_int, rsa_to_jwk, ecdsa_to_jwk, symmetric_to_jwk, resolve_curve,
}

abbrev pub Made : Type 0
Made = Fallible (KeyMaterial × JsonWebKey)

abbrev pub is_rsa_type : String → Bool
is_rsa_type kty = kty == "RSA" || kty == "RSA-HSM"

abbrev pub is_ec_type : String → Bool
is_ec_type kty = kty == "EC" || kty == "EC-HSM"

abbrev pub is_oct_type : String → Bool
is_oct_type kty = kty == "oct" || kty == "oct-HSM"

-- `if keySize == 0 { keySize = … }`
unfoldable pub size_or : ℕ → ℤ → ℤ
size_or default (pos zero) = pos default
size_or default (pos (suc n)) = pos (suc n)
size_or default (negsuc n) = negsuc n

-- `make([]byte, keySize/8)` and its filling, where the remainder of the size by eight is zero: a
-- negative length panics. `negsuc n` is `-(n + 1)`.
unfoldable pub random_key : Bytes → ℤ → Fallible Bytes
random_key random (pos size) =
    fail_if (not (eqb (size % 8) 0)) "invalid symmetric key size" (ok (take (size / 8) random))
random_key random (negsuc n) = fail_if (not (eqb (suc n % 8) 0)) "invalid symmetric key size" panic

module _ (go : Packages) where
  unfoldable pub generate_key : Bytes → String → ℤ → String → String → List String → Made
  generate_key random kty key_size crv kid ops =
      if is_rsa_type kty
      then (and_then (go.rsa_generate_key random (size_or 2048 key_size)) λ priv. ok (
        record no_material { rsa = some priv; rsa_pub = some priv.public },
        rsa_to_jwk go kid kty ops priv.public,
      ))
      else if is_ec_type kty
      then (and_then (resolve_curve go crv) λ (c : Curve × String).
          and_then (go.ecdsa_generate_key random c.0) λ priv. ok (
            record no_material { ecdsa = some priv; ecdsa_pub = some priv.public },
            ecdsa_to_jwk go kid kty ops c.1 priv.public,
          ))
      else if is_oct_type kty
      then (and_then (random_key random (size_or 256 key_size))
          λ buf. ok (record no_material { aes = buf }, symmetric_to_jwk go kid kty ops none))
      else err (text_append "unsupported key type " (go.quoted kty))

  unfoldable pub import_symmetric : JsonWebKey → String → Made
  import_symmetric jwk kid = fail_if (jwk.k == "") "missing key material" (
      and_then (go.decode_base64 jwk.k) λ key.
        ok (record no_material { aes = key }, symmetric_to_jwk go kid jwk.kty jwk.key_ops none))

  -- The two primes, if both are given, with which the key is precomputed.
  unfoldable pub import_primes : JsonWebKey → RsaPrivateKey → Fallible RsaPrivateKey
  import_primes jwk priv =
      if jwk.p == "" || jwk.q == ""
      then ok priv
      else (and_then (decode_big_int go jwk.p) λ p. and_then (decode_big_int go jwk.q) λ q.
          let full : RsaPrivateKey = record priv { primes = p ∷ q ∷ [] } in
          and_then (go.rsa_precompute full) λ _. ok full)

  unfoldable pub import_rsa_private : JsonWebKey → RsaPublicKey → Fallible (Option RsaPrivateKey)
  import_rsa_private jwk pub_ =
      if jwk.d == ""
      then ok none
      else (and_then (decode_big_int go jwk.d) λ d.
          and_then (import_primes jwk (record { public = pub_; d = d; primes = [] }))
            λ priv. ok (some priv))

  -- An exponent is a positive `int` above one.
  unfoldable pub import_rsa_public : JsonWebKey → Fallible RsaPublicKey
  import_rsa_public jwk = fail_if (jwk.n == "" || jwk.e == "") "missing rsa modulus or exponent" (
      and_then (decode_big_int go jwk.n) λ n. and_then (decode_big_int go jwk.e) λ e.
        fail_if (leb e 1) "invalid rsa exponent"
          (fail_if (ltb (2 ^ 63 - 1) e) "rsa exponent out of range" (ok (record { n = n; e = e }))))

  unfoldable pub import_rsa : JsonWebKey → String → Made
  import_rsa jwk kid = and_then (import_rsa_public jwk) λ pub_.
      and_then (import_rsa_private jwk pub_) λ priv. ok (
        record no_material { rsa = priv; rsa_pub = some pub_ },
        rsa_to_jwk go kid jwk.kty jwk.key_ops pub_,
      )

  unfoldable pub import_ec_private : JsonWebKey → EcdsaPublicKey → Fallible (Option EcdsaPrivateKey)
  import_ec_private jwk pub_ =
      if jwk.d == ""
      then ok none
      else (and_then (decode_big_int go jwk.d) λ d. ok (some (record { public = pub_; d = d })))

  unfoldable pub import_ec : JsonWebKey → String → Made
  import_ec jwk kid = and_then (resolve_curve go jwk.crv) λ (c : Curve × String).
      fail_if (jwk.x == "" || jwk.y == "") "missing ec coordinates" (
        and_then (decode_big_int go jwk.x) λ x. and_then (decode_big_int go jwk.y) λ y.
          let pub_ : EcdsaPublicKey = record { curve = c.0; x = x; y = y } in
          and_then (import_ec_private jwk pub_) λ priv. ok (
            record no_material { ecdsa = priv; ecdsa_pub = some pub_ },
            ecdsa_to_jwk go kid jwk.kty jwk.key_ops c.1 pub_,
          ))

  unfoldable pub import_key : JsonWebKey → String → Made
  import_key jwk kid =
      if is_oct_type jwk.kty
      then import_symmetric jwk kid
      else if is_rsa_type jwk.kty
      then import_rsa jwk kid
      else if is_ec_type jwk.kty
      then import_ec jwk kid
      else err (text_append "unsupported key type " (go.quoted jwk.kty))
