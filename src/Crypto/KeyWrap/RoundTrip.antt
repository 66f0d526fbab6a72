-- ===== src/Crypto/KeyWrap/RoundTrip.antt =====
-- aesKeyUnwrap of internal/crypto/keys.go takes aesKeyWrap back.
use azure_keyvault_emulator.Prelude.{
  ℕ, zero, suc, ◌+◌, ◌-◌, ◌*◌, ◌/◌, ◌%◌, ◌<◌, ◌≡◌, refl, ap, ◌∙◌, String, List, [], ◌∷◌, ◌++◌,
  arith, length, take, drop, true, false, not, ◌||◌, eqb, ltb, length-drop, take-append-drop,
}
use mathlib.Core.Path.{subst}
use azure_keyvault_emulator.Prelude.Outcome.{ok, ok-injective}
use azure_keyvault_emulator.Prelude.Text.Hex.{AreBytes}
use azure_keyvault_emulator.Crypto.Interface.{Bytes, Fallible}
use azure_keyvault_emulator.Crypto.Blocks.{
  BlockCipher, IsPermutation, IsBlock, big_endian, xor_bytes-xor_bytes, xor_bytes-IsBlock,
  take-block, drop-block, append-IsBlock, take-IsBlock, drop-IsBlock,
}
use azure_keyvault_emulator.Crypto.KeyWrap.{
  and_then, and_then-ok, fail_if, fail_if-ok, select_aes_key, map_kw_alg, xor64, initial_value,
  chunks, joined, wrap_round, wrap_rounds, unwrap_round, unwrap_rounds, wrapped, unwrapped,
  same_bytes, checked, aes_key_wrap, aes_key_unwrap,
}

-- Each half block is eight bytes.
abbrev pub AreHalves : List Bytes → Type 0
AreHalves [] = Unit
AreHalves (r ∷ rs) = IsBlock 8 r × AreHalves rs

abbrev pub count : List Bytes → ℕ
count [] = 0
count (r ∷ rs) = suc (count rs)

xor64-xor64 : (a : Bytes) (t : ℕ) → AreBytes a → xor64 (xor64 a t) t ≡ a
unfolding xor64
xor64-xor64 a t h = xor_bytes-xor_bytes a (big_endian 8 t) h

xor64-IsBlock : (a : Bytes) (t : ℕ) → IsBlock 8 a → IsBlock 8 (xor64 a t)
unfolding xor64
xor64-IsBlock a t h = xor_bytes-IsBlock 8 a (big_endian 8 t) h

module _ (c : BlockCipher) (p : IsPermutation c) where
  block : (a r : Bytes) → IsBlock 8 a → IsBlock 8 r → IsBlock 16 (c.encrypt_block (a ++ r))
  block a r ha hr = p.encrypt-IsBlock (a ++ r) (append-IsBlock 8 8 a r ha hr)

  -- A round keeps the sizes.
  wrap_round-AreHalves :
      (t : ℕ) (a : Bytes) (rs : List Bytes)
      → IsBlock 8 a
      → AreHalves rs
      → IsBlock 8 (wrap_round c t a rs).0
        × AreHalves (wrap_round c t a rs).1
        × (count (wrap_round c t a rs).1 ≡ count rs)
  unfolding wrap_round
  wrap_round-AreHalves t a [] ha h = (ha, tt, refl)
  wrap_round-AreHalves t a (r ∷ rs) ha h =
      let b = block a r ha h.0 in
      let (x, y, z) =
        wrap_round-AreHalves (t + 1) (xor64 (take 8 (c.encrypt_block (a ++ r))) t) rs
          (xor64-IsBlock _ t (take-IsBlock 8 8 _ b)) h.1 in
      (x, (drop-IsBlock 8 8 _ b, y), ap suc z)

  unwrap_round-wrap_round :
      (t : ℕ) (a : Bytes) (rs : List Bytes)
      → IsBlock 8 a
      → AreHalves rs
      → unwrap_round c t (wrap_round c t a rs).0 (wrap_round c t a rs).1 ≡ (a, rs)
  unfolding wrap_round unwrap_round
  unwrap_round-wrap_round t a [] ha h = refl
  unwrap_round-wrap_round t a (r ∷ rs) ha h =
      let buf = c.encrypt_block (a ++ r) in
      let b = block a r ha h.0 in
      let half = take-IsBlock 8 8 buf b in
      rw (
        unwrap_round-wrap_round (t + 1) (xor64 (take 8 buf) t) rs (xor64-IsBlock _ t half) h.1,
        xor64-xor64 (take 8 buf) t half.0,
        take-append-drop 8 buf,
        p.decrypt-encrypt (a ++ r) (append-IsBlock 8 8 a r ha h.0),
        take-block 8 a r ha,
        drop-block 8 a r ha,
      )

  wrap_rounds-AreHalves :
      (n j : ℕ) (a : Bytes) (rs : List Bytes)
      → IsBlock 8 a
      → AreHalves rs
      → IsBlock 8 (wrap_rounds c n j (a, rs)).0
        × AreHalves (wrap_rounds c n j (a, rs)).1
        × (count (wrap_rounds c n j (a, rs)).1 ≡ count rs)
  unfolding wrap_rounds
  wrap_rounds-AreHalves n zero a rs ha h = (ha, h, refl)
  wrap_rounds-AreHalves n (suc j) a rs ha h =
      let (x, y, z) = wrap_rounds-AreHalves n j a rs ha h in
      let (x', y', z') = wrap_round-AreHalves (n * j + 1) _ _ x y in (x', y', z' ∙ z)

  unwrap_rounds-wrap_rounds :
      (n j : ℕ) (a : Bytes) (rs : List Bytes)
      → IsBlock 8 a
      → AreHalves rs
      → unwrap_rounds c n j (wrap_rounds c n j (a, rs)) ≡ (a, rs)
  unfolding wrap_rounds unwrap_rounds
  unwrap_rounds-wrap_rounds n zero a rs ha h = refl
  unwrap_rounds-wrap_rounds n (suc j) a rs ha h =
      let (x, y, z) = wrap_rounds-AreHalves n j a rs ha h in
      ap (unwrap_rounds c n j) (unwrap_round-wrap_round (n * j + 1) _ _ x y)
      ∙ unwrap_rounds-wrap_rounds n j a rs ha h

-- The half blocks of a text whose length is a multiple of eight.
chunks-AreHalves :
    (n : ℕ) (b : Bytes)
    → AreBytes b
    → length b ≡ n * 8
    → AreHalves (chunks n b) × (count (chunks n b) ≡ n)
unfolding chunks
chunks-AreHalves zero b h e = (tt, refl)
chunks-AreHalves (suc n) b h e =
    let size : length b ≡ 8 + n * 8 = omega arith in
    let rest = drop-IsBlock 8 (n * 8) b (h, size) in
    let (x, y) = chunks-AreHalves n (drop 8 b) rest.0 rest.1 in
    ((take-IsBlock 8 (n * 8) b (h, size), x), ap suc y)

joined-chunks : (n : ℕ) (b : Bytes) → length b ≡ n * 8 → joined (chunks n b) ≡ b
unfolding chunks joined
joined-chunks zero [] e = refl
joined-chunks zero (x ∷ b) e = absurd (omega arith)
joined-chunks (suc n) b e =
    ap (λ t. take 8 b ++ t) (joined-chunks n (drop 8 b) (rw length-drop (omega arith)))
    ∙ take-append-drop 8 b

chunks-joined : (rs : List Bytes) → AreHalves rs → chunks (count rs) (joined rs) ≡ rs
unfolding chunks joined
chunks-joined [] h = refl
chunks-joined (r ∷ rs) h =
    rw (take-block 8 r (joined rs) h.0, drop-block 8 r (joined rs) h.0, chunks-joined rs h.1)

joined-IsBlock : (rs : List Bytes) → AreHalves rs → IsBlock (count rs * 8) (joined rs)
unfolding joined
joined-IsBlock [] h = (tt, refl)
joined-IsBlock (r ∷ rs) h =
    let (x, y) = append-IsBlock 8 (count rs * 8) r (joined rs) h.0 (joined-IsBlock rs h.1) in
    (x, y ∙ omega arith)

initial : IsBlock 8 initial_value
initial = let b : 166 < 256 = omega arith in ((b, (b, (b, (b, (b, (b, (b, (b, tt)))))))), refl)

-- What aesKeyUnwrap makes of the text that aesKeyWrap has joined.
unwrapped-joined :
    (c : BlockCipher) (a : Bytes) (rs : List Bytes)
    → IsBlock 8 a
    → AreHalves rs
    → unwrapped c (a ++ joined rs) ≡ unwrap_rounds c (count rs) 6 (a, rs)
unfolding unwrapped
unwrapped-joined c a rs ha h =
    let (_, size) = append-IsBlock 8 (count rs * 8) a (joined rs) ha (joined-IsBlock rs h) in
    let n : length (a ++ joined rs) / 8 - 1 ≡ count rs = omega arith in
    rw (n, take-block 8 a (joined rs) ha, drop-block 8 a (joined rs) ha, chunks-joined rs h)

module _ (c : BlockCipher) (p : IsPermutation c) (plaintext : Bytes) (n : ℕ)
    (bytes : AreBytes plaintext) (size : length plaintext ≡ n * 8) where
  abbrev rounds : Bytes × List Bytes
  rounds = wrap_rounds c n 6 (initial_value, chunks n plaintext)

  wrapped-eq : wrapped c plaintext ≡ rounds.0 ++ joined rounds.1
  unfolding wrapped
  wrapped-eq = let e : length plaintext / 8 ≡ n = omega arith in rw e

  rounds-AreHalves : IsBlock 8 rounds.0 × AreHalves rounds.1 × (count rounds.1 ≡ n)
  rounds-AreHalves =
      let (h, same) = chunks-AreHalves n plaintext bytes size in
      let (x, y, z) = wrap_rounds-AreHalves c p n 6 initial_value (chunks n plaintext) initial h in
      (x, y, z ∙ same)

  pub wrapped-IsBlock : IsBlock (8 + n * 8) (wrapped c plaintext)
  wrapped-IsBlock =
      let (x, y, z) = rounds-AreHalves in
      let (b, l) =
        append-IsBlock 8 (count rounds.1 * 8) rounds.0 (joined rounds.1) x
          (joined-IsBlock rounds.1 y) in
      rw wrapped-eq (b, rw z at l)

  pub unwrapped-wrapped : unwrapped c (wrapped c plaintext) ≡ (initial_value, chunks n plaintext)
  unwrapped-wrapped =
      let (x, y, z) = rounds-AreHalves in
      ap (unwrapped c) wrapped-eq
      ∙ unwrapped-joined c rounds.0 rounds.1 x y
      ∙ ap (λ k. unwrap_rounds c k 6 rounds) z
      ∙ unwrap_rounds-wrap_rounds c p n 6 initial_value (chunks n plaintext) initial
          (chunks-AreHalves n plaintext bytes size).0

multiple :
    (b : Bytes)
    → (eqb (length b) 0 || not (eqb (length b % 8) 0)) ≡ false
    → length b ≡ suc (length b / 8 - 1) * 8
multiple b guard = ground arith

module _ (quoted : String → String) (new_cipher : Bytes → Fallible BlockCipher)
    (sound : (kek : Bytes) (c : BlockCipher) → new_cipher kek ≡ ok c → IsPermutation c) where
  unwrap-eq :
      (kek plaintext : Bytes) (c : BlockCipher) {key : Bytes}
      → AreBytes plaintext
      → select_aes_key quoted kek (map_kw_alg (length kek)) ≡ ok key
      → new_cipher kek ≡ ok c
      → (n : ℕ) → length plaintext ≡ suc n * 8
      → aes_key_unwrap quoted new_cipher kek (wrapped c plaintext) ≡ ok plaintext
  unfolding aes_key_unwrap checked same_bytes
  unwrap-eq kek plaintext c bytes selected made n size =
      let (_, l) = wrapped-IsBlock c (sound kek c made) plaintext (suc n) bytes size in
      let long : ltb (length (wrapped c plaintext)) 16 ≡ false = ground arith in
      let whole : eqb (length (wrapped c plaintext) % 8) 0 ≡ true = ground arith in
      rw (
        selected,
        long,
        whole,
        made,
        unwrapped-wrapped c (sound kek c made) plaintext (suc n) bytes size,
        joined-chunks (suc n) plaintext size,
      )

  -- The steps of aesKeyWrap behind the choice of the key, and behind that of the cipher.
  abbrev cipher_rest : Bytes → BlockCipher → Fallible Bytes
  cipher_rest plaintext block = ok (wrapped block plaintext)

  abbrev wrap_rest : Bytes → Bytes → Fallible Bytes
  wrap_rest kek plaintext =
      fail_if (eqb (length plaintext) 0 || not (eqb (length plaintext % 8) 0))
        "plaintext must be a non-empty multiple of 8 bytes"
        (and_then (new_cipher kek) (cipher_rest plaintext))

  -- What aesKeyWrap answers for a key and a text of bytes is made of bytes, eight more than the
  -- text has, and aesKeyUnwrap with the same key answers the text, if the block cipher's decryption
  -- undoes its encryption.
  pub aes_key_unwrap-aes_key_wrap :
      (kek plaintext w : Bytes)
      → AreBytes plaintext
      → aes_key_wrap quoted new_cipher kek plaintext ≡ ok w
      → AreBytes w
        × (length w ≡ length plaintext + 8)
        × (aes_key_unwrap quoted new_cipher kek w ≡ ok plaintext)
  unfolding aes_key_wrap
  aes_key_unwrap-aes_key_wrap kek plaintext w bytes done =
      let rest = wrap_rest kek plaintext in
      let (key, selected, e) =
        and_then-ok (select_aes_key quoted kek (map_kw_alg (length kek))) (λ _. rest) done in
      let (guard, e') =
        fail_if-ok (eqb (length plaintext) 0 || not (eqb (length plaintext % 8) 0)) _
          (and_then (new_cipher kek) (cipher_rest plaintext)) e in
      let (c, made, e'') = and_then-ok (new_cipher kek) (cipher_rest plaintext) e' in
      let n = length plaintext / 8 - 1 in
      let size : length plaintext ≡ suc n * 8 = multiple plaintext guard in
      let (b, l) = wrapped-IsBlock c (sound kek c made) plaintext (suc n) bytes size in
      subst
        (λ w.
          AreBytes w
          × (length w ≡ length plaintext + 8)
          × (aes_key_unwrap quoted new_cipher kek w ≡ ok plaintext))
        (ok-injective e'') (b, omega arith, unwrap-eq kek plaintext c bytes selected made n size)
