-- ===== src/Crypto/Cbc/Padding.antt =====
-- pkcs7Unpad of internal/crypto/keys.go takes pkcs7Pad back.
use azure_keyvault_emulator.Prelude.{
  ℕ, zero, suc, true, false, ◌+◌, ◌-◌, ◌%◌, ◌<◌, ◌≡◌, refl, ap, ◌∙◌, not, ◌||◌, some, [], ◌∷◌, ◌++◌,
  eqb, ltb, arith, length, last?, replicate, length-append,
}
use azure_keyvault_emulator.Prelude.Outcome.{ok}
use azure_keyvault_emulator.Prelude.Text.Hex.{AreBytes}
use azure_keyvault_emulator.Crypto.Interface.{Bytes}
use azure_keyvault_emulator.Crypto.Blocks.{AreBytes-append, take-append, drop-append}
use azure_keyvault_emulator.Crypto.Cbc.{pkcs7_pad, pkcs7_unpad, all_are, last_byte}

length-replicate : (n b : ℕ) → length (replicate n b) ≡ n
length-replicate zero b = refl
length-replicate (suc n) b = ap suc (length-replicate n b)

AreBytes-replicate : (n b : ℕ) → b < 256 → AreBytes (replicate n b)
AreBytes-replicate zero b h = tt
AreBytes-replicate (suc n) b h = (h, AreBytes-replicate n b h)

all_are-replicate : (n b : ℕ) → all_are b (replicate n b) ≡ true
unfolding all_are
all_are-replicate zero b = refl
all_are-replicate (suc n) b = ground (arith, all_are-replicate n b)

last?-replicate : (d : Bytes) (n b : ℕ) → last? (d ++ replicate (suc n) b) ≡ some b
last?-replicate [] zero b = refl
last?-replicate [] (suc n) b = last?-replicate [] n b
last?-replicate (x ∷ []) n b = last?-replicate [] n b
last?-replicate (x ∷ y ∷ d) n b = last?-replicate (y ∷ d) n b

-- The padding of a text, whose length is between one and sixteen.
module _ (d : Bytes) where
  abbrev pad_len : ℕ
  pad_len = 16 - length d % 16

  pad-eq : pkcs7_pad d 16 ≡ d ++ replicate pad_len pad_len
  unfolding pkcs7_pad
  pad-eq = let e : (16 - length d % 16) % 256 ≡ 16 - length d % 16 = omega arith in rw e

  pub length-pkcs7_pad : length (pkcs7_pad d 16) ≡ length d + (16 - length d % 16)
  length-pkcs7_pad = rw (pad-eq, length-append, length-replicate)

  pub pkcs7_pad-AreBytes : AreBytes d → AreBytes (pkcs7_pad d 16)
  pkcs7_pad-AreBytes h =
      rw pad-eq (AreBytes-append d _ h (AreBytes-replicate pad_len pad_len (omega arith)))

  last-pad : last_byte (last? (d ++ replicate pad_len pad_len)) ≡ pad_len
  unfolding last_byte
  last-pad =
      let e : pad_len ≡ suc (15 - length d % 16) = omega arith in
      ap (λ n. last_byte (last? (d ++ replicate n pad_len))) e
      ∙ ap last_byte (last?-replicate d (15 - length d % 16) pad_len)

  -- pkcs7Unpad of a padded text answers the text.
  pub pkcs7_unpad-pkcs7_pad : pkcs7_unpad (pkcs7_pad d 16) 16 ≡ ok d
  unfolding pkcs7_unpad
  pkcs7_unpad-pkcs7_pad =
      let size : length (d ++ replicate pad_len pad_len) ≡ length d + pad_len =
        rw (length-append, length-replicate) in
      let whole : (eqb (length d + pad_len) 0 || not (eqb ((length d + pad_len) % 16) 0)) ≡ false =
        ground arith in
      let fits : (eqb pad_len 0 || (ltb 16 pad_len || ltb (length d + pad_len) pad_len)) ≡ false =
        ground arith in
      let kept : length d + pad_len - pad_len ≡ length d = omega arith in
      rw (
        pad-eq,
        last-pad,
        size,
        whole,
        fits,
        kept,
        drop-append d (replicate pad_len pad_len),
        take-append d (replicate pad_len pad_len),
        all_are-replicate pad_len pad_len,
      )
