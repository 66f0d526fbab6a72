-- ===== src/Crypto/KeyWrap.antt =====
-- The AES key wrap of internal/crypto/keys.go: selectAESKey, mapKWAlg, xor64, aesKeyWrap and
-- aesKeyUnwrap. `new_cipher` is `aes.NewCipher`.
pub mod RoundTrip
use Prim.Native.String.{String, ◌++◌ as text_append}
use azure_keyvault_emulator.Prelude.{
  ℕ, zero, suc, true, false, ◌&&◌, ◌+◌, ◌-◌, ◌*◌, ◌/◌, ◌%◌, Bool, not, ◌||◌, Option, none, some,
  List, [], ◌∷◌, ◌++◌, eqb, ltb, ◌==◌, if◌then◌else◌, length, take, drop, ◌≡◌, refl,
}
use azure_keyvault_emulator.Prelude.Outcome.{Outcome, ok, err, panic}
use azure_keyvault_emulator.Prelude.Text.Decimal.{itoa}
use azure_keyvault_emulator.Crypto.Interface.{Bytes, Fallible}
use azure_keyvault_emulator.Crypto.Blocks.{BlockCipher, xor_bytes, big_endian}

-- What follows a step of a function that returns an error text.
abbrev pub and_then : {A B : Type 0} → Fallible A → (A → Fallible B) → Fallible B
and_then (ok a) f = f a
and_then (err e) f = err e
and_then panic f = panic

abbrev pub fail_if : {A : Type 0} → Bool → String → Fallible A → Fallible A
fail_if b message rest = if b then err message else rest

-- A function that has ended well has had steps that ended well.
pub and_then-ok :
    {A B : Type 0} (r : Fallible A) (f : A → Fallible B) {b : B}
    → and_then r f ≡ ok b
    → (a : A) × (r ≡ ok a) × (f a ≡ ok b)
and_then-ok (ok a) f h = (a, refl, h)
and_then-ok (err e) f h = cc
and_then-ok panic f h = cc

pub fail_if-ok :
    {A : Type 0} (b : Bool) (message : String) (r : Fallible A) {a : A}
    → fail_if b message r ≡ ok a
    → (b ≡ false) × (r ≡ ok a)
fail_if-ok true message r h = cc
fail_if-ok false message r h = (refl, h)

unfoldable pub aes_key_size : String → Option ℕ
aes_key_size alg =
    if alg == "A128CBC"
    then some 16
    else if alg == "A128CBCPAD"
    then some 16
    else if alg == "A128KW"
    then some 16
    else if alg == "A192KW"
    then some 24
    else if alg == "A256CBC"
    then some 32
    else if alg == "A256CBCPAD"
    then some 32
    else if alg == "A256KW"
    then some 32
    else none

-- `quoted` is the verb %q of `fmt`.
module _ (quoted : String → String) where
  unfoldable pub key_of_size : Bytes → String → Option ℕ → Fallible Bytes
  key_of_size key alg none = err (text_append "unsupported symmetric algorithm " (quoted alg))
  key_of_size key alg (some size) =
      fail_if (not (eqb (length key) size))
        (text_append "algorithm "
          (text_append alg (text_append " requires a " (text_append (itoa size) "-byte key"))))
        (ok key)

  unfoldable pub select_aes_key : Bytes → String → Fallible Bytes
  select_aes_key key alg = key_of_size key alg (aes_key_size alg)

unfoldable pub map_kw_alg : ℕ → String
map_kw_alg key_len =
    if eqb key_len 16 then "A128KW" else if eqb key_len 24 then "A192KW" else "A256KW"

-- The eight bytes of a `uint64`, the highest first, against those of `in`.
unfoldable pub xor64 : Bytes → ℕ → Bytes
xor64 in_ t = xor_bytes in_ (big_endian 8 t)

-- 0xa6, eight times.
abbrev pub initial_value : Bytes
initial_value = 166 ∷ 166 ∷ 166 ∷ 166 ∷ 166 ∷ 166 ∷ 166 ∷ 166 ∷ []

-- `data[i*8:(i+1)*8]` for each `i` below `n`.
unfoldable pub chunks : ℕ → Bytes → List Bytes
chunks zero data_ = []
chunks (suc n) data_ = take 8 data_ ∷ chunks n (drop 8 data_)

unfoldable pub joined : List Bytes → Bytes
joined [] = []
joined (r ∷ rs) = r ++ joined rs

module _ (cipher : BlockCipher) where
  -- The loop on `i`, from the half block whose count is `t`.
  unfoldable pub wrap_round : ℕ → Bytes → List Bytes → Bytes × List Bytes
  wrap_round t a [] = (a, [])
  wrap_round t a (r ∷ rs) =
      let buf = cipher.encrypt_block (a ++ r) in
      let (a', rs') = wrap_round (t + 1) (xor64 (take 8 buf) t) rs in (a', drop 8 buf ∷ rs')

  -- The loop on `j`: the first `j` rounds.
  unfoldable pub wrap_rounds : ℕ → ℕ → Bytes × List Bytes → Bytes × List Bytes
  wrap_rounds n zero s = s
  wrap_rounds n (suc j) s = let (a, rs) = wrap_rounds n j s in wrap_round (n * j + 1) a rs

  -- The loop on `i` of the unwrapping, which comes from the end.
  unfoldable pub unwrap_round : ℕ → Bytes → List Bytes → Bytes × List Bytes
  unwrap_round t a [] = (a, [])
  unwrap_round t a (r ∷ rs) =
      let (a', rs') = unwrap_round (t + 1) a rs in
      let buf = cipher.decrypt_block (xor64 a' t ++ r) in (take 8 buf, drop 8 buf ∷ rs')

  -- Its loop on `j`, from `j - 1` down.
  unfoldable pub unwrap_rounds : ℕ → ℕ → Bytes × List Bytes → Bytes × List Bytes
  unwrap_rounds n zero s = s
  unwrap_rounds n (suc j) (a, rs) = unwrap_rounds n j (unwrap_round (n * j + 1) a rs)

  unfoldable pub wrapped : Bytes → Bytes
  wrapped plaintext =
      let n = length plaintext / 8 in
      let (a, rs) = wrap_rounds n 6 (initial_value, chunks n plaintext) in a ++ joined rs

  unfoldable pub unwrapped : Bytes → Bytes × List Bytes
  unwrapped ciphertext =
      let n = length ciphertext / 8 - 1 in
      unwrap_rounds n 6 (take 8 ciphertext, chunks n (drop 8 ciphertext))

-- `bytes.Equal`
unfoldable pub same_bytes : Bytes → Bytes → Bool
same_bytes [] [] = true
same_bytes [] (b ∷ bs) = false
same_bytes (a ∷ rest) [] = false
same_bytes (a ∷ rest) (b ∷ bs) = eqb a b && same_bytes rest bs

-- The integrity check at the end of aesKeyUnwrap.
unfoldable pub checked : Bytes × List Bytes → Fallible Bytes
checked (a, rs) =
    fail_if (not (same_bytes a initial_value)) "integrity check failed" (ok (joined rs))

module _ (quoted : String → String) (new_cipher : Bytes → Fallible BlockCipher) where
  unfoldable pub aes_key_wrap : Bytes → Bytes → Fallible Bytes
  aes_key_wrap kek plaintext = and_then (select_aes_key quoted kek (map_kw_alg (length kek))) λ _.
      fail_if (eqb (length plaintext) 0 || not (eqb (length plaintext % 8) 0))
        "plaintext must be a non-empty multiple of 8 bytes"
        (and_then (new_cipher kek) λ block. ok (wrapped block plaintext))

  unfoldable pub aes_key_unwrap : Bytes → Bytes → Fallible Bytes
  aes_key_unwrap kek ciphertext =
      and_then (select_aes_key quoted kek (map_kw_alg (length kek))) λ _.
        fail_if (ltb (length ciphertext) 16 || not (eqb (length ciphertext % 8) 0))
          "ciphertext must be at least 16 bytes and a multiple of 8"
          (and_then (new_cipher kek) λ block. checked (unwrapped block ciphertext))
