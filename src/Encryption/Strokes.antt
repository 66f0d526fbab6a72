-- ===== src/Encryption/Strokes.antt =====
-- Stand-ins for the packages that internal/encryption/encryption.go uses, which satisfy what it relies
-- on. A number is sealed as so many ones before a zero, and a text is the codes of its characters.
use Prim.Native.Nat.{Ordering, compare}
use Prim.Native.Char.{Char, char, code, nul, IsLt, IsScalar}
use mathlib.Core.Path.{subst}
use azure_keyvault_emulator.Prelude.{
  ℕ, zero, suc, ◌+◌, String, ◌≡◌, refl, ◌∙◌, ap, none, some, Option, [], ◌∷◌, ◌++◌, arith,
}
use azure_keyvault_emulator.Prelude.Outcome.{ok, ok-injective}
use azure_keyvault_emulator.Prelude.Text.Hex.{AreBytes}
use azure_keyvault_emulator.Crypto.Interface.{Bytes}
use azure_keyvault_emulator.Encryption.{Ciphers, Aead}
use azure_keyvault_emulator.Encryption.RoundTrip.{AreSound}

-- The comparisons that make a number the code of a character.
abbrev Between : Ordering → Ordering → Type 0
Between Ordering.lt above = IsLt above
Between Ordering.eq above = ⊥
Between Ordering.gt above = ⊥

abbrev Allowed : Ordering → Ordering → Ordering → Type 0
Allowed Ordering.lt low high = Unit
Allowed Ordering.eq low high = Between low high
Allowed Ordering.gt low high = Between low high

less : (o : Ordering) → Option (IsLt o)
less Ordering.lt = some tt
less Ordering.eq = none
less Ordering.gt = none

between : (low high : Ordering) → Option (Between low high)
between Ordering.lt high = less high
between Ordering.eq high = none
between Ordering.gt high = none

allowed : (o low high : Ordering) → Option (Allowed o low high)
allowed Ordering.lt low high = some tt
allowed Ordering.eq low high = between low high
allowed Ordering.gt low high = between low high

less-some : (o : Ordering) (p : IsLt o) → less o ≡ some p
unfolding less
less-some Ordering.lt p = refl
less-some Ordering.eq p = absurd p
less-some Ordering.gt p = absurd p

between-some : (low high : Ordering) (p : Between low high) → between low high ≡ some p
unfolding between
between-some Ordering.lt high p = less-some high p
between-some Ordering.eq high p = absurd p
between-some Ordering.gt high p = absurd p

allowed-some : (o low high : Ordering) (p : Allowed o low high) → allowed o low high ≡ some p
unfolding allowed
allowed-some Ordering.lt low high p = refl
allowed-some Ordering.eq low high p = between-some low high p
allowed-some Ordering.gt low high p = between-some low high p

pub scalar : (n : ℕ) → Option (IsScalar n)
scalar n = allowed (compare n 55296) (compare 57343 n) (compare n 1114112)

scalar-some : (n : ℕ) (p : IsScalar n) → scalar n ≡ some p
unfolding scalar
scalar-some n p = allowed-some (compare n 55296) (compare 57343 n) (compare n 1114112) p

abbrev char_or_nul : (n : ℕ) → Option (IsScalar n) → Char
char_or_nul n none = nul
char_or_nul n (some p) = char n p

abbrev codes : String → Bytes
codes String.[] = []
codes (String.◌∷◌ c s) = code c ∷ codes s

abbrev of_codes : Bytes → String
of_codes [] = String.[]
of_codes (n ∷ ns) = String.◌∷◌ (char_or_nul n (scalar n)) (of_codes ns)

of_codes-codes : (s : String) → of_codes (codes s) ≡ s
of_codes-codes String.[] = refl
of_codes-codes (String.◌∷◌ (char n p) s) = rw (scalar-some n p, of_codes-codes s)

-- The cipher.
abbrev strokes : ℕ → Bytes → Bytes
strokes zero rest = 0 ∷ rest
strokes (suc n) rest = 1 ∷ strokes n rest

abbrev in_strokes : Bytes → Bytes
in_strokes [] = []
in_strokes (n ∷ ns) = strokes n (in_strokes ns)

abbrev counted : ℕ → Bytes → Bytes
counted n [] = []
counted n (zero ∷ bs) = n ∷ counted 0 bs
counted n (suc b ∷ bs) = counted (suc n) bs

counted-strokes : (n m : ℕ) (rest : Bytes) → counted m (strokes n rest) ≡ (n + m) ∷ counted 0 rest
counted-strokes zero m rest = ap (λ k. k ∷ counted 0 rest) (omega arith)
counted-strokes (suc n) m rest =
    counted-strokes n (suc m) rest ∙ ap (λ k. k ∷ counted 0 rest) (omega arith)

counted-in_strokes : (ns : Bytes) → counted 0 (in_strokes ns) ≡ ns
counted-in_strokes [] = refl
counted-in_strokes (n ∷ ns) =
    counted-strokes n 0 (in_strokes ns)
    ∙ (rw (counted-in_strokes ns) (ap (λ k. k ∷ ns) (omega arith)))

strokes-AreBytes : (n : ℕ) (rest : Bytes) → AreBytes rest → AreBytes (strokes n rest)
strokes-AreBytes zero rest h = (omega arith, h)
strokes-AreBytes (suc n) rest h = (omega arith, strokes-AreBytes n rest h)

in_strokes-AreBytes : (ns : Bytes) → AreBytes (in_strokes ns)
in_strokes-AreBytes [] = tt
in_strokes-AreBytes (n ∷ ns) = strokes-AreBytes n (in_strokes ns) (in_strokes-AreBytes ns)

abbrev stroke_cipher : Aead
stroke_cipher = record { seal = λ nonce p. in_strokes p; open_ = λ nonce c. ok (counted 0 c) }

abbrev pub stroke_ciphers : Ciphers
stroke_ciphers = record {
  aead = λ key. ok stroke_cipher;
  bytes_of = codes;
  text_of = of_codes;
  hex_error = λ s. "invalid byte";
  pbkdf2 = λ passphrase salt iterations size. salt ++ salt;
}

pub stroke_ciphers-AreSound : AreSound stroke_ciphers
stroke_ciphers-AreSound = record {
  seal-AreBytes = λ key a nonce p e.
      subst (λ (a : Aead). AreBytes (a.seal nonce p)) (ok-injective e) (in_strokes-AreBytes p);
  open-seal = λ key a nonce p e fresh.
      subst (λ (a : Aead). a.open_ nonce (a.seal nonce p) ≡ ok p) (ok-injective e)
        (ap (λ ns. ok ns) (counted-in_strokes p));
  text_of-bytes_of = of_codes-codes;
}
