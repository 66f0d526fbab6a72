-- ===== src/Crypto/Keys/Numbers.antt =====
-- The bytes of a number, as internal/crypto/keys.go writes them with `big.Int.Bytes` and padBytes and
-- reads them with `big.Int.SetBytes`.
use azure_keyvault_emulator.Prelude.{
  ℕ, zero, suc, ◌+◌, ◌-◌, ◌/◌, ◌%◌, ◌^◌, ◌≤◌, ◌<◌, ◌≡◌, refl, ap, ◌∙◌, [], ◌∷◌, ◌++◌, arith, leb,
  length, length-append, replicate, Bool-cases, inl, inr,
}
use azure_keyvault_emulator.Prelude.Text.Hex.{AreBytes}
use azure_keyvault_emulator.Crypto.Interface.{Bytes}
use azure_keyvault_emulator.Crypto.Blocks.{AreBytes-append}
use azure_keyvault_emulator.Crypto.Keys.{set_bytes, int_bytes, int_bytes_onto, pad_bytes}

set_bytes-int_bytes_onto :
    (fuel n : ℕ) (out : Bytes)
    → n ≤ fuel
    → set_bytes 0 (int_bytes_onto fuel n out) ≡ set_bytes n out
unfolding set_bytes int_bytes_onto
set_bytes-int_bytes_onto zero zero out h = refl
set_bytes-int_bytes_onto zero (suc n) out h = absurd (omega arith)
set_bytes-int_bytes_onto (suc fuel) zero out h = refl
set_bytes-int_bytes_onto (suc fuel) (suc n) out h =
    set_bytes-int_bytes_onto fuel (suc n / 256) (suc n % 256 ∷ out) (omega arith)
    ∙ ap (λ m. set_bytes m out) (omega arith)

int_bytes_onto-AreBytes :
    (fuel n : ℕ) (out : Bytes) → AreBytes out → AreBytes (int_bytes_onto fuel n out)
unfolding int_bytes_onto
int_bytes_onto-AreBytes zero n out h = h
int_bytes_onto-AreBytes (suc fuel) zero out h = h
int_bytes_onto-AreBytes (suc fuel) (suc n) out h =
    int_bytes_onto-AreBytes fuel (suc n / 256) (suc n % 256 ∷ out) (omega arith, h)

length-int_bytes_onto :
    (fuel n k : ℕ) (out : Bytes) → n < 256 ^ k → length (int_bytes_onto fuel n out) ≤ k + length out
unfolding int_bytes_onto
length-int_bytes_onto zero n k out h = omega arith
length-int_bytes_onto (suc fuel) zero k out h = omega arith
length-int_bytes_onto (suc fuel) (suc n) zero out h = absurd (omega arith)
length-int_bytes_onto (suc fuel) (suc n) (suc k) out h =
    omega (arith, length-int_bytes_onto fuel (suc n / 256) k (suc n % 256 ∷ out) (omega arith))

set_bytes-zeros : (k : ℕ) (b : Bytes) → set_bytes 0 (replicate k 0 ++ b) ≡ set_bytes 0 b
unfolding set_bytes
set_bytes-zeros zero b = refl
set_bytes-zeros (suc k) b = set_bytes-zeros k b

zeros-AreBytes : (k : ℕ) → AreBytes (replicate k 0)
zeros-AreBytes zero = tt
zeros-AreBytes (suc k) = (omega arith, zeros-AreBytes k)

length-zeros : (k : ℕ) → length {A = ℕ} (replicate k 0) ≡ k
length-zeros zero = refl
length-zeros (suc k) = ap suc (length-zeros k)

-- A number that fits `size` bytes is written in as many, and read back.
module _ (n size : ℕ) (fits : n < 256 ^ size) where
  written : length (int_bytes n) ≤ size
  unfolding int_bytes
  written = omega (arith, length-int_bytes_onto n n size [] fits)

  pub set_bytes-pad_bytes : set_bytes 0 (pad_bytes (int_bytes n) size) ≡ n
  unfolding pad_bytes int_bytes set_bytes
  set_bytes-pad_bytes = elim (Bool-cases (leb size (length (int_bytes n)))) [
    | inl full ↦ rw full (set_bytes-int_bytes_onto n n [] (omega arith))
    | inr short ↦ rw short (
        set_bytes-zeros (size - length (int_bytes n)) (int_bytes n)
        ∙ set_bytes-int_bytes_onto n n [] (omega arith))
  ]

  pub length-pad_bytes : length (pad_bytes (int_bytes n) size) ≡ size
  unfolding pad_bytes
  length-pad_bytes = ground (
    arith,
    written,
    length-append (replicate (size - length (int_bytes n)) 0) (int_bytes n),
    length-zeros (size - length (int_bytes n)),
  )

  pub pad_bytes-AreBytes : AreBytes (pad_bytes (int_bytes n) size)
  unfolding pad_bytes int_bytes
  pad_bytes-AreBytes =
      let bytes = int_bytes_onto-AreBytes n n [] tt in
      elim (Bool-cases (leb size (length (int_bytes n)))) [
        | inl full ↦ rw full bytes
        | inr short ↦ rw short (
            AreBytes-append (replicate (size - length (int_bytes n)) 0) (int_bytes n)
              (zeros-AreBytes (size - length (int_bytes n))) bytes)
      ]
