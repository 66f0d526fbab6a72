-- ===== src/Crypto/Blocks.antt =====
-- Bytes and blocks, as internal/crypto/keys.go cuts, joins and xors them; and what it uses of a
-- block cipher of `crypto/aes`.
use azure_keyvault_emulator.Prelude.{
  ℕ, zero, suc, ◌+◌, ◌*◌, ◌/◌, ◌%◌, ◌^◌, ◌<◌, ◌≡◌, refl, sym, ap, ◌∙◌, [], ◌∷◌, ◌++◌, arith, length,
  take, drop, length-append, length-take, length-drop,
}
use azure_keyvault_emulator.Prelude.Text.Hex.{AreBytes}
use azure_keyvault_emulator.Crypto.Interface.{Bytes}

-- The exclusive or of the lowest `k` binary digits.
unfoldable pub xor_digits : ℕ → ℕ → ℕ → ℕ
xor_digits zero a b = 0
xor_digits (suc k) a b = (a + b) % 2 + 2 * xor_digits k (a / 2) (b / 2)

-- `a ^ b` of two bytes.
unfoldable pub xor_byte : ℕ → ℕ → ℕ
xor_byte a b = xor_digits 8 a b

unfoldable pub xor_bytes : Bytes → Bytes → Bytes
xor_bytes [] bs = []
xor_bytes (a ∷ rest) [] = a ∷ rest
xor_bytes (a ∷ rest) (b ∷ bs) = xor_byte a b ∷ xor_bytes rest bs

-- The lowest `k` bytes of a number, the highest of them first.
unfoldable pub big_endian : ℕ → ℕ → Bytes
big_endian zero t = []
big_endian (suc k) t = big_endian k (t / 256) ++ (t % 256) ∷ []

abbrev pub IsBlock : ℕ → Bytes → Type 0
IsBlock n b = AreBytes b × (length b ≡ n)

pub xor_digits-lt : (k a b : ℕ) → xor_digits k a b < 2 ^ k
unfolding xor_digits
xor_digits-lt zero a b = omega arith
xor_digits-lt (suc k) a b = let h = xor_digits-lt k (a / 2) (b / 2) in omega arith

pub xor_digits-xor_digits : (k a b : ℕ) → a < 2 ^ k → xor_digits k (xor_digits k a b) b ≡ a
unfolding xor_digits
xor_digits-xor_digits zero a b h = omega arith
xor_digits-xor_digits (suc k) a b h =
    let m = xor_digits k (a / 2) (b / 2) in
    let halved : ((a + b) % 2 + 2 * m) / 2 ≡ m = omega arith in
    let ih = xor_digits-xor_digits k (a / 2) (b / 2) (omega arith) in rw (halved, ih) (omega arith)

pub xor_byte-lt : (a b : ℕ) → xor_byte a b < 256
unfolding xor_byte
xor_byte-lt a b = let h = xor_digits-lt 8 a b in omega arith

-- The second exclusive or with the same mask takes the first one back.
pub xor_bytes-xor_bytes : (b mask : Bytes) → AreBytes b → xor_bytes (xor_bytes b mask) mask ≡ b
unfolding xor_bytes xor_byte
xor_bytes-xor_bytes [] mask h = refl
xor_bytes-xor_bytes (b ∷ bs) [] h = refl
xor_bytes-xor_bytes (b ∷ bs) (m ∷ ms) h =
    rw (xor_digits-xor_digits 8 b m (let p = h.0 in omega arith), xor_bytes-xor_bytes bs ms h.1)

pub xor_bytes-IsBlock : (n : ℕ) (b mask : Bytes) → IsBlock n b → IsBlock n (xor_bytes b mask)
unfolding xor_bytes
xor_bytes-IsBlock n b mask h = (bytes b mask h.0, same_length b mask ∙ h.1)
  where
    bytes : (b mask : Bytes) → AreBytes b → AreBytes (xor_bytes b mask)
    bytes [] mask h = tt
    bytes (b ∷ bs) [] h = h
    bytes (b ∷ bs) (m ∷ ms) h = (xor_byte-lt b m, bytes bs ms h.1)

    same_length : (b mask : Bytes) → length (xor_bytes b mask) ≡ length b
    same_length [] mask = refl
    same_length (b ∷ bs) [] = refl
    same_length (b ∷ bs) (m ∷ ms) = ap suc (same_length bs ms)

pub AreBytes-append : (a b : Bytes) → AreBytes a → AreBytes b → AreBytes (a ++ b)
AreBytes-append [] b ha hb = hb
AreBytes-append (x ∷ a) b ha hb = (ha.0, AreBytes-append a b ha.1 hb)

pub AreBytes-take : (n : ℕ) (b : Bytes) → AreBytes b → AreBytes (take n b)
AreBytes-take zero b h = tt
AreBytes-take (suc n) [] h = tt
AreBytes-take (suc n) (x ∷ b) h = (h.0, AreBytes-take n b h.1)

pub AreBytes-drop : (n : ℕ) (b : Bytes) → AreBytes b → AreBytes (drop n b)
AreBytes-drop zero b h = h
AreBytes-drop (suc n) [] h = tt
AreBytes-drop (suc n) (x ∷ b) h = AreBytes-drop n b h.1

pub take-append : (a b : Bytes) → take (length a) (a ++ b) ≡ a
take-append [] b = refl
take-append (x ∷ a) b = ap (λ r. x ∷ r) (take-append a b)

pub drop-append : (a b : Bytes) → drop (length a) (a ++ b) ≡ b
drop-append [] b = refl
drop-append (x ∷ a) b = drop-append a b

pub take-block : (n : ℕ) (a r : Bytes) → IsBlock n a → take n (a ++ r) ≡ a
take-block n a r h = ap (λ k. take k (a ++ r)) (sym h.1) ∙ take-append a r

pub drop-block : (n : ℕ) (a r : Bytes) → IsBlock n a → drop n (a ++ r) ≡ r
drop-block n a r h = ap (λ k. drop k (a ++ r)) (sym h.1) ∙ drop-append a r

-- A block that is made of two, and the two that a block is made of.
module _ (m n : ℕ) where
  pub append-IsBlock : (a b : Bytes) → IsBlock m a → IsBlock n b → IsBlock (m + n) (a ++ b)
  append-IsBlock a b ha hb = (AreBytes-append a b ha.0 hb.0, rw (length-append a b, ha.1, hb.1))

  pub take-IsBlock : (b : Bytes) → IsBlock (m + n) b → IsBlock m (take m b)
  take-IsBlock b h = (AreBytes-take m b h.0, length-take m b (let e = h.1 in omega arith))

  pub drop-IsBlock : (b : Bytes) → IsBlock (m + n) b → IsBlock n (drop m b)
  drop-IsBlock b h = (AreBytes-drop m b h.0, rw length-drop (let e = h.1 in omega arith))

-- `cipher.Block` of a key: `Encrypt` and `Decrypt` of one block of sixteen bytes.
pub record BlockCipher : Type 0 where
  pub encrypt_block : Bytes → Bytes
  pub decrypt_block : Bytes → Bytes

pub record IsPermutation (c : BlockCipher) : Type 0 where
  pub encrypt-IsBlock : (b : Bytes) → IsBlock 16 b → IsBlock 16 (c.encrypt_block b)
  pub decrypt-encrypt : (b : Bytes) → IsBlock 16 b → c.decrypt_block (c.encrypt_block b) ≡ b
