-- ===== src/Store/Keys/Crypto/RoundTrips.antt =====
-- What Decrypt, Verify and UnwrapKey of internal/store/keys.go answer to what Encrypt, Sign and
-- WrapKey have answered, given that the key's cryptography is sound.
use azure_keyvault_emulator.Prelude.{
  String, ◌≡◌, refl, inl, inr, some, true, [], ◌∷◌, arith, ◌==◌, eq_iff, Bool-cases,
}
use mathlib.Core.Path.{subst}
use azure_keyvault_emulator.Prelude.Outcome.{
  Outcome, ok, err, panic, pure, lift, continue-ok, ok-injective, ◌>>=◌,
}
use azure_keyvault_emulator.Prelude.Text.Hex.{AreBytes}
use azure_keyvault_emulator.Model.{EncryptRequest, SignRequest}
use azure_keyvault_emulator.Crypto.Interface.{KeyCrypto, Bytes, Fallible}
use azure_keyvault_emulator.Store.Errors.{Error}
use azure_keyvault_emulator.Store.{Store, Call, KeyVersion}
use azure_keyvault_emulator.Store.Keys.Records.{or_bad_request}
use azure_keyvault_emulator.Store.Keys.Crypto.{
  key_material, decoded, decoded_iv, encoded_iv, encrypt, decrypt, sign, verify, wrap_key,
  unwrap_key,
}

module _ {M : Type 0} (crypto : KeyCrypto M) where
  -- `encoding/base64`: what is encoded is decoded, the empty text is no bytes, and a decoded text is
  -- made of bytes.
  pub record Base64Law : Type 0 where
    pub decode-encode :
        (b : Bytes) → AreBytes b → crypto.decode_base64_url (crypto.encode_base64_url b) ≡ some b
    pub decode-empty : crypto.decode_base64_url "" ≡ some []
    pub decode-AreBytes :
        (text : String) (b : Bytes) → crypto.decode_base64_url text ≡ some b → AreBytes b

  -- A version's material and key type for which decryption undoes encryption, and so on.
  abbrev pub Decrypts : M → String → Type 0
  Decrypts m kty =
      (entropy : Bytes) (alg : String) (p iv c iv' : Bytes)
      → AreBytes entropy
      → AreBytes p
      → AreBytes iv
      → crypto.encrypt entropy m kty alg p iv ≡ ok (c, iv')
      → AreBytes c × AreBytes iv' × (crypto.decrypt m kty alg c iv' ≡ ok (p, iv'))

  abbrev pub Unwraps : M → String → Type 0
  Unwraps m kty =
      (entropy : Bytes) (alg : String) (p c : Bytes)
      → AreBytes entropy
      → AreBytes p
      → crypto.wrap entropy m kty alg p ≡ ok c
      → AreBytes c × (crypto.unwrap m kty alg c ≡ ok p)

  abbrev pub Verifies : M → String → Type 0
  Verifies m kty =
      (entropy : Bytes) (alg : String) (d sig : Bytes)
      → crypto.sign entropy m kty alg d ≡ ok sig
      → AreBytes sig × (crypto.verify m kty alg d sig ≡ ok true)

  module _ (law : Base64Law) (s : Store M) where
    decoded_iv-encoded :
        (iv : Bytes) → AreBytes iv → decoded_iv crypto (encoded_iv crypto iv) s ≡ (ok iv, s)
    unfolding decoded_iv decoded encoded_iv
    decoded_iv-encoded [] h = refl
    decoded_iv-encoded (b ∷ bs) h = ground (
      arith,
      law.decode-encode (b ∷ bs) h,
      law.decode-empty,
      eq_iff (crypto.encode_base64_url (b ∷ bs)) "",
    )

    decoded-AreBytes :
        (message text : String) (b : Bytes) → (decoded crypto message text s).0 ≡ ok b → AreBytes b
    unfolding decoded
    decoded-AreBytes message text b h = law.decode-AreBytes text b (ground arith)

    decoded_iv-AreBytes :
        (text : String) (iv : Bytes) → (decoded_iv crypto text s).0 ≡ ok iv → AreBytes iv
    unfolding decoded_iv
    decoded_iv-AreBytes text iv h = elim (Bool-cases (text == "")) [
      | inl empty ↦ subst AreBytes (ok-injective (rw empty at h)) tt
      | inr given ↦ decoded-AreBytes _ text iv (rw given at h)
    ]

  -- What `or_bad_request` answers is right when the step is.
  pub or_bad_request-ok :
      {A : Type 0} (code : String) (r : Fallible A) {a : A}
      → or_bad_request code r ≡ ok a
      → r ≡ ok a
  unfolding or_bad_request
  or_bad_request-ok code (ok a) h = cc
  or_bad_request-ok code (err t) h = cc
  or_bad_request-ok code panic h = cc

  -- The last steps of Encrypt, and of Sign and WrapKey.
  abbrev answer_of : Bytes × Bytes → Call M (String × String)
  answer_of (c, iv) = pure (crypto.encode_base64_url c, encoded_iv crypto iv)

  abbrev encoded : Bytes → Call M String
  encoded b = pure (crypto.encode_base64_url b)

  module _ (law : Base64Law) (name version : String) (s : Store M) {ver : KeyVersion M}
      (found : key_material name version s ≡ (ok ver, s)) where
    abbrev encrypted : Bytes → String → Bytes → Bytes → Outcome Error (Bytes × Bytes)
    encrypted entropy alg b iv =
        or_bad_request "InvalidOperation"
          (crypto.encrypt entropy ver.material ver.record_.key.kty alg b iv)

    decrypt-eq :
        (alg : String) (c iv p : Bytes)
        → AreBytes c
        → AreBytes iv
        → crypto.decrypt ver.material ver.record_.key.kty alg c iv ≡ ok (p, iv)
        → decrypt crypto name version
            (record { alg = alg; value = crypto.encode_base64_url c; iv = encoded_iv crypto iv })
            s
          ≡ (ok (crypto.encode_base64_url p, encoded_iv crypto iv), s)
    unfolding decrypt decoded or_bad_request
    decrypt-eq alg c iv p bc biv h =
        rw (found, law.decode-encode c bc, decoded_iv-encoded law s iv biv, h)

    -- What Decrypt is to answer to an answer of Encrypt.
    abbrev pub IsDecrypted : String → Bytes → Outcome Error (String × String) → Type 0
    IsDecrypted alg b (ok (c, iv)) =
        decrypt crypto name version (record { alg = alg; value = c; iv = iv }) s
        ≡ (ok (crypto.encode_base64_url b, iv), s)
    IsDecrypted alg b (err e) = Unit
    IsDecrypted alg b panic = Unit

    -- Decrypt, given what Encrypt answered as its value and vector, answers the bytes that were
    -- encrypted and the same vector: of a version that is found, if base64 is undone by its inverse
    -- and, for the version's key, internal/crypto's encryption by its decryption.
    pub decrypt-encrypt :
        Decrypts ver.material ver.record_.key.kty
        → (entropy b : Bytes) (req : EncryptRequest) (c iv : String) → AreBytes entropy
        → crypto.decode_base64_url req.value ≡ some b
        → (encrypt crypto entropy name version req s).0 ≡ ok (c, iv)
        → decrypt crypto name version (record { alg = req.alg; value = c; iv = iv }) s
          ≡ (ok (crypto.encode_base64_url b, iv), s)
    unfolding encrypt decoded
    decrypt-encrypt sound entropy b req c iv random decodes done =
        let (iv_bytes, t) = decoded_iv crypto req.iv s in
        let bytes = law.decode-AreBytes req.value b decodes in
        let (v, read, rest) =
          continue-ok iv_bytes (λ v. lift (encrypted entropy req.alg b v) >>= answer_of) t
            (rw (found, decodes) at done) in
        let (x, e, answer) = continue-ok (encrypted entropy req.alg b v) answer_of t rest in
        let (bc, biv, h) =
          sound entropy req.alg b v x.0 x.1 random bytes (decoded_iv-AreBytes law s req.iv v read)
            (or_bad_request-ok "InvalidOperation" _ e) in
        subst (IsDecrypted req.alg b) answer (decrypt-eq req.alg x.0 x.1 b bc biv h)

    -- UnwrapKey, given what WrapKey answered, answers the bytes that were wrapped: of a version that
    -- is found, if base64 is undone by its inverse and, for the version's key, internal/crypto's
    -- wrapping by its unwrapping.
    pub unwrap_key-wrap_key :
        Unwraps ver.material ver.record_.key.kty
        → (entropy b : Bytes) (req : EncryptRequest) (c iv : String) → AreBytes entropy
        → crypto.decode_base64_url req.value ≡ some b
        → (wrap_key crypto entropy name version req s).0 ≡ ok c
        → unwrap_key crypto name version (record { alg = req.alg; value = c; iv = iv }) s
          ≡ (ok (crypto.encode_base64_url b), s)
    unfolding wrap_key unwrap_key decoded or_bad_request
    unwrap_key-wrap_key sound entropy b req c iv random decodes done =
        let (x, e, answer) =
          continue-ok
            (or_bad_request "InvalidOperation"
              (crypto.wrap entropy ver.material ver.record_.key.kty req.alg b))
            encoded s (rw (found, decodes) at done) in
        let (bytes, h) =
          sound entropy req.alg b x random (law.decode-AreBytes req.value b decodes)
            (or_bad_request-ok "InvalidOperation" _ e) in
        rw (found, ← ok-injective answer, law.decode-encode x bytes, h)

    pub verify-sign :
        Verifies ver.material ver.record_.key.kty
        → (entropy b : Bytes) (req : SignRequest) (sig : String)
        → crypto.decode_base64_url req.value ≡ some b
        → (sign crypto entropy name version req s).0 ≡ ok sig
        → verify crypto name version (record { alg = req.alg; digest = req.value; value = sig }) s
          ≡ (ok true, s)
    unfolding sign verify decoded or_bad_request
    verify-sign sound entropy b req sig decodes done =
        let (x, e, answer) =
          continue-ok
            (or_bad_request "InvalidOperation"
              (crypto.sign entropy ver.material ver.record_.key.kty req.alg b))
            encoded s (rw (found, decodes) at done) in
        let (bytes, h) = sound entropy req.alg b x (or_bad_request-ok "InvalidOperation" _ e) in
        rw (found, decodes, ← ok-injective answer, law.decode-encode x bytes, h)
