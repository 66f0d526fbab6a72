-- ===== src/Crypto/Keys/Signatures.antt =====
-- Verify of internal/crypto/keys.go answers true to what Sign made with a key of GenerateKey.
use mathlib.Core.Option.{some-injective}
use mathlib.Core.Path.{subst}
use text.Mathlib.Text.{starts_with}
use azure_keyvault_emulator.Prelude.{
  ℕ, ◌*◌, ◌^◌, ◌<◌, String, Bool, true, false, ◌≡◌, refl, sym, ap, ◌∙◌, none, some, List, ◌++◌,
  arith, eqb, length, length-append, take, drop, Bool-cases, Option-cases, inl, inr,
}
use azure_keyvault_emulator.Prelude.Outcome.{ok, ok-injective}
use azure_keyvault_emulator.Prelude.Text.Decimal.{ℤ}
use azure_keyvault_emulator.Prelude.Text.Hex.{AreBytes}
use azure_keyvault_emulator.Model.{JsonWebKey}
use azure_keyvault_emulator.Crypto.Interface.{Bytes}
use azure_keyvault_emulator.Crypto.Blocks.{AreBytes-append, take-append, drop-append}
use azure_keyvault_emulator.Crypto.KeyWrap.{and_then, and_then-ok}
use azure_keyvault_emulator.Crypto.Keys.{
  Packages, KeyMaterial, no_material, RsaPrivateKey, EcdsaPrivateKey, Curve, Hash, coordinate_size,
  int_bytes, pad_bytes, resolve_curve, ecdsa_to_jwk, rsa_to_jwk, symmetric_to_jwk,
}
use azure_keyvault_emulator.Crypto.Keys.Generation.{
  generate_key, size_or, is_rsa_type, is_ec_type, is_oct_type, random_key,
}
use azure_keyvault_emulator.Crypto.Keys.Numbers.{
  set_bytes-pad_bytes, length-pad_bytes, pad_bytes-AreBytes,
}
use azure_keyvault_emulator.Crypto.Keys.Operations.{
  sign, sign_rsa, signature_bytes, verify, verify_rsa, verify_ecdsa, rsa_hash, public_rsa,
  public_ecdsa,
}

-- `crypto/rsa` and `crypto/ecdsa`: the public key of a key pair that they have generated verifies what
-- its private key signs. The two numbers of an ECDSA signature are below the order of the curve,
-- which fits a coordinate.
pub record IsSigner (go : Packages) : Type 0 where
  pub pss :
      (entropy : Bytes) (size : ℤ) (priv : RsaPrivateKey)
      → go.rsa_generate_key entropy size ≡ ok priv
      → (random : Bytes) (hash : Hash) (digest sig : Bytes)
      → go.sign_pss random priv hash digest ≡ ok sig
      → AreBytes sig × (go.verify_pss priv.public hash digest sig ≡ true)
  pub pkcs1v15 :
      (entropy : Bytes) (size : ℤ) (priv : RsaPrivateKey)
      → go.rsa_generate_key entropy size ≡ ok priv
      → (hash : Hash) (digest sig : Bytes) → go.sign_pkcs1v15 priv hash digest ≡ ok sig
      → AreBytes sig × (go.verify_pkcs1v15 priv.public hash digest sig ≡ true)
  pub ecdsa :
      (entropy : Bytes) (curve : Curve) (priv : EcdsaPrivateKey)
      → go.ecdsa_generate_key entropy curve ≡ ok priv
      → (random digest : Bytes) (r s : ℕ) → go.ecdsa_sign random priv digest ≡ ok (r, s)
      → (r < 256 ^ coordinate_size priv.public.curve)
        × (s < 256 ^ coordinate_size priv.public.curve)
        × (go.ecdsa_verify priv.public digest r s ≡ true)

-- The private keys of a material come from the generators of Go's packages.
pub record IsGenerated (go : Packages) (m : KeyMaterial) : Type 0 where
  pub rsa_made :
      (priv : RsaPrivateKey)
      → m.rsa ≡ some priv
      → (entropy : Bytes) × (size : ℤ) × (go.rsa_generate_key entropy size ≡ ok priv)
  pub ecdsa_made :
      (priv : EcdsaPrivateKey)
      → m.ecdsa ≡ some priv
      → (entropy : Bytes) × (curve : Curve) × (go.ecdsa_generate_key entropy curve ≡ ok priv)

module _ (go : Packages) where
  rsa_pair-IsGenerated :
      (entropy : Bytes) (size : ℤ) (priv : RsaPrivateKey)
      → go.rsa_generate_key entropy size ≡ ok priv
      → IsGenerated go (record no_material { rsa = some priv; rsa_pub = some priv.public })
  rsa_pair-IsGenerated entropy size priv made = record {
    rsa_made = λ p same. (entropy, size, made ∙ ap ok (some-injective _ _ same));
    ecdsa_made = λ p same. absurd (cc same);
  }

  ecdsa_pair-IsGenerated :
      (entropy : Bytes) (curve : Curve) (priv : EcdsaPrivateKey)
      → go.ecdsa_generate_key entropy curve ≡ ok priv
      → IsGenerated go (record no_material { ecdsa = some priv; ecdsa_pub = some priv.public })
  ecdsa_pair-IsGenerated entropy curve priv made = record {
    rsa_made = λ p same. absurd (cc same);
    ecdsa_made = λ p same. (entropy, curve, made ∙ ap ok (some-injective _ _ same));
  }

  symmetric-IsGenerated : (key : Bytes) → IsGenerated go (record no_material { aes = key })
  symmetric-IsGenerated key = record {
    rsa_made = λ p same. absurd (cc same);
    ecdsa_made = λ p same. absurd (cc same);
  }

  abbrev MadeGenerated : KeyMaterial × JsonWebKey → Type 0
  MadeGenerated made = IsGenerated go made.0

  pub generate_key-IsGenerated :
      (entropy : Bytes) (kty : String) (size : ℤ) (crv kid : String) (ops : List String)
      (made : KeyMaterial × JsonWebKey)
      → generate_key go entropy kty size crv kid ops ≡ ok made
      → IsGenerated go made.0
  unfolding generate_key
  generate_key-IsGenerated entropy kty size crv kid ops made h =
      elim (Bool-cases (is_rsa_type kty)) [
        | inl rsa ↦
            let (priv, made_, e) =
              and_then-ok (go.rsa_generate_key entropy (size_or 2048 size))
                (λ priv. ok (
                  record no_material { rsa = some priv; rsa_pub = some priv.public },
                  rsa_to_jwk go kid kty ops priv.public,
                ))
                (rw rsa at h) in
            subst MadeGenerated (ok-injective e)
              (rsa_pair-IsGenerated entropy (size_or 2048 size) priv made_)
        | inr not_rsa ↦ elim (Bool-cases (is_ec_type kty)) [
          | inl ec ↦
              let (c, resolved, f) =
                and_then-ok (resolve_curve go crv)
                  (λ (c : Curve × String). and_then (go.ecdsa_generate_key entropy c.0) λ priv. ok (
                    record no_material { ecdsa = some priv; ecdsa_pub = some priv.public },
                    ecdsa_to_jwk go kid kty ops c.1 priv.public,
                  ))
                  (rw (not_rsa, ec) at h) in
              let (priv, made_, e) = and_then-ok _ _ f in
              subst MadeGenerated (ok-injective e) (ecdsa_pair-IsGenerated entropy c.0 priv made_)
          | inr not_ec ↦ elim (Bool-cases (is_oct_type kty)) [
            | inl oct ↦
                let (buf, filled, e) =
                  and_then-ok (random_key entropy (size_or 256 size))
                    (λ buf.
                      ok (record no_material { aes = buf }, symmetric_to_jwk go kid kty ops none))
                    (rw (not_rsa, not_ec, oct) at h) in
                subst MadeGenerated (ok-injective e) (symmetric-IsGenerated buf)
            | inr unknown ↦ absurd (cc (rw (not_rsa, not_ec, unknown) at h))
          ]
        ]
      ]

  -- A signature of the two numbers, as wide as two coordinates, is read back as the numbers.
  verify_ecdsa-signature_bytes :
      (priv : EcdsaPrivateKey) (digest : Bytes) (r s : ℕ)
      → r < 256 ^ coordinate_size priv.public.curve
      → s < 256 ^ coordinate_size priv.public.curve
      → verify_ecdsa go priv.public digest (signature_bytes go priv (r, s))
        ≡ go.ecdsa_verify priv.public digest r s
  unfolding verify_ecdsa signature_bytes
  verify_ecdsa-signature_bytes priv digest r s hr hs =
      let size = coordinate_size priv.public.curve in
      let front = pad_bytes (int_bytes r) size in
      let back = pad_bytes (int_bytes s) size in
      let first : take size (front ++ back) ≡ front =
        ap (λ k. take k (front ++ back)) (sym (length-pad_bytes r size hr))
        ∙ take-append front back in
      let second : drop size (front ++ back) ≡ back =
        ap (λ k. drop k (front ++ back)) (sym (length-pad_bytes r size hr))
        ∙ drop-append front back in
      let whole : eqb (length (front ++ back)) (size * 2) ≡ true =
        ground (
          arith,
          length-append front back,
          length-pad_bytes r size hr,
          length-pad_bytes s size hs,
        ) in
      rw (whole, first, second, set_bytes-pad_bytes r size hr, set_bytes-pad_bytes s size hs) refl

  signature_bytes-AreBytes :
      (priv : EcdsaPrivateKey) (r s : ℕ)
      → r < 256 ^ coordinate_size priv.public.curve
      → s < 256 ^ coordinate_size priv.public.curve
      → AreBytes (signature_bytes go priv (r, s))
  unfolding signature_bytes
  signature_bytes-AreBytes priv r s hr hs =
      let size = coordinate_size priv.public.curve in
      AreBytes-append (pad_bytes (int_bytes r) size) (pad_bytes (int_bytes s) size)
        (pad_bytes-AreBytes r size hr) (pad_bytes-AreBytes s size hs)

  module _ (signer : IsSigner go) (m : KeyMaterial) (generated : IsGenerated go m) (random : Bytes)
      (kty alg : String) (digest sig : Bytes) where
    verify_rsa-sign_rsa :
        (priv : RsaPrivateKey) (hash : Hash × Bool)
        → m.rsa ≡ some priv
        → sign_rsa go random priv hash digest ≡ ok sig
        → AreBytes sig × (verify_rsa go priv.public hash digest sig ≡ true)
    unfolding sign_rsa verify_rsa
    verify_rsa-sign_rsa priv (hash, true) h signed =
        let (entropy, size, made) = generated.rsa_made priv h in
        signer.pss entropy size priv made random hash digest sig signed
    verify_rsa-sign_rsa priv (hash, false) h signed =
        let (entropy, size, made) = generated.rsa_made priv h in
        signer.pkcs1v15 entropy size priv made hash digest sig signed

    verify_ecdsa-sign :
        (priv : EcdsaPrivateKey) (rs : ℕ × ℕ)
        → m.ecdsa ≡ some priv
        → go.ecdsa_sign random priv digest ≡ ok rs
        → signature_bytes go priv rs ≡ sig
        → AreBytes sig × (verify_ecdsa go priv.public digest sig ≡ true)
    verify_ecdsa-sign priv (r, s) h signed same =
        let (entropy, curve, made) = generated.ecdsa_made priv h in
        let (hr, hs, verified) = signer.ecdsa entropy curve priv made random digest r s signed in
        subst (λ x. AreBytes x × (verify_ecdsa go priv.public digest x ≡ true)) same
          (
            signature_bytes-AreBytes priv r s hr hs,
            verify_ecdsa-signature_bytes priv digest r s hr hs ∙ verified,
          )

    pub verify-sign :
        sign go random m kty alg digest ≡ ok sig
        → AreBytes sig × (verify go m kty alg digest sig ≡ ok true)
    unfolding sign verify public_rsa public_ecdsa
    verify-sign h = elim (Bool-cases (starts_with kty "RSA")) [
      | inl rsa ↦ elim (Option-cases m.rsa) [
        | inl missing ↦ absurd (cc (rw (rsa, missing) at h))
        | inr (priv, found) ↦
            let (hash, hashed, signed) =
              and_then-ok (rsa_hash go.quoted alg) (λ hash. sign_rsa go random priv hash digest)
                (rw (rsa, found) at h) in
            let (bytes, verified) = verify_rsa-sign_rsa priv hash found signed in
            (bytes, rw (rsa, found, hashed, verified) refl)
      ]
      | inr not_rsa ↦ elim (Bool-cases (starts_with kty "EC")) [
        | inl ec ↦ elim (Option-cases m.ecdsa) [
          | inl missing ↦ absurd (cc (rw (not_rsa, ec, missing) at h))
          | inr (priv, found) ↦
              let (rs, signed, same) =
                and_then-ok (go.ecdsa_sign random priv digest)
                  (λ rs. ok (signature_bytes go priv rs)) (rw (not_rsa, ec, found) at h) in
              let (bytes, verified) = verify_ecdsa-sign priv rs found signed (ok-injective same) in
              (bytes, rw (not_rsa, ec, found, verified) refl)
        ]
        | inr other ↦ absurd (cc (rw (not_rsa, other) at h))
      ]
    ]
