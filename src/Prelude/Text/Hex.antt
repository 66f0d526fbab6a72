-- ===== src/Prelude/Text/Hex.antt =====
-- `hex.EncodeToString` and `hex.DecodeString` of Go's `encoding/hex`.
use Prim.Native.Nat.{ℕ, zero, suc, ◌+◌, ◌-◌, ◌*◌, ◌/◌, ◌%◌, ◌<◌}
use Prim.Native.Char.{Char, code}
use Prim.Native.String.{String}
use mathlib.Core.Path.{◌≡◌, refl, subst}
use mathlib.Core.Bool.{◌&&◌}
use mathlib.Core.Logic.{◌≢◌}
use mathlib.Core.Option.{Option, none, some, some-injective}
use mathlib.Core.List.{List, [], ◌∷◌}
use native.Mathlib.Omega.{arith}
use azure_keyvault_emulator.Prelude.Tests.{leb, if◌then◌else◌}

abbrev hex_table : List Char
hex_table =
    "0" ∷ "1" ∷ "2" ∷ "3" ∷ "4" ∷ "5" ∷ "6" ∷ "7" ∷ "8" ∷ "9" ∷ "a" ∷ "b" ∷ "c" ∷ "d" ∷ "e" ∷ "f"
    ∷ []

char_or : List Char → ℕ → Char
char_or [] n = "0"
char_or (c ∷ cs) zero = c
char_or (c ∷ cs) (suc n) = char_or cs n

unfoldable pub hex_digit : ℕ → Char
unfolding char_or
hex_digit n = char_or hex_table n

unfoldable pub hex_value : Char → Option ℕ
hex_value c =
    let n = code c in
    if leb b'0' n && leb n b'9'
    then some (n - b'0')
    else if leb b'a' n && leb n b'f'
    then some (n - b'a' + 10)
    else if leb b'A' n && leb n b'F'
    then some (n - b'A' + 10)
    else none

unfoldable pub hex_encode : List ℕ → String
hex_encode [] = String.[]
hex_encode (b ∷ bs) =
    String.◌∷◌ (hex_digit (b / 16)) (String.◌∷◌ (hex_digit (b % 16)) (hex_encode bs))

abbrev joined : Option ℕ → Option ℕ → Option (List ℕ) → Option (List ℕ)
joined (some a) (some b) (some bs) = some ((a * 16 + b) ∷ bs)
joined _ _ _ = none

-- An odd number of digits is an error.
unfoldable pub hex_decode : String → Option (List ℕ)
hex_decode String.[] = some []
hex_decode (String.◌∷◌ c String.[]) = none
hex_decode (String.◌∷◌ c (String.◌∷◌ d s)) = joined (hex_value c) (hex_value d) (hex_decode s)

-- Each of the sixteen digits is read back.
hex_value-hex_digit : (n : ℕ) → n < 16 → hex_value (hex_digit n) ≡ some n
unfolding hex_value hex_digit
hex_value-hex_digit zero h = refl
hex_value-hex_digit (suc zero) h = refl
hex_value-hex_digit (suc (suc zero)) h = refl
hex_value-hex_digit (suc (suc (suc zero))) h = refl
hex_value-hex_digit (suc (suc (suc (suc zero)))) h = refl
hex_value-hex_digit (suc (suc (suc (suc (suc zero))))) h = refl
hex_value-hex_digit (suc (suc (suc (suc (suc (suc zero)))))) h = refl
hex_value-hex_digit (suc (suc (suc (suc (suc (suc (suc zero))))))) h = refl
hex_value-hex_digit (suc (suc (suc (suc (suc (suc (suc (suc zero)))))))) h = refl
hex_value-hex_digit (suc (suc (suc (suc (suc (suc (suc (suc (suc zero))))))))) h = refl
hex_value-hex_digit (suc (suc (suc (suc (suc (suc (suc (suc (suc (suc zero)))))))))) h = refl
hex_value-hex_digit (suc (suc (suc (suc (suc (suc (suc (suc (suc (suc (suc zero))))))))))) h = refl
hex_value-hex_digit (suc (suc (suc (suc (suc (suc (suc (suc (suc (suc (suc (suc zero)))))))))))) h =
    refl
hex_value-hex_digit
      (suc (suc (suc (suc (suc (suc (suc (suc (suc (suc (suc (suc (suc zero))))))))))))) h =
    refl
hex_value-hex_digit
      (suc (suc (suc (suc (suc (suc (suc (suc (suc (suc (suc (suc (suc (suc zero)))))))))))))) h =
    refl
hex_value-hex_digit
      (suc (suc (suc (suc (suc (suc (suc (suc (suc (suc (suc (suc (suc (suc (suc zero)))))))))))))))
      h =
    refl
hex_value-hex_digit
      (suc
        (suc (suc (suc (suc (suc (suc (suc (suc (suc (suc (suc (suc (suc (suc (suc n))))))))))))))))
      h =
    absurd (omega arith)

abbrev pub AreBytes : List ℕ → Type 0
AreBytes [] = Unit
AreBytes (b ∷ bs) = (b < 256) × AreBytes bs

pub hex_decode-hex_encode : (bs : List ℕ) → AreBytes bs → hex_decode (hex_encode bs) ≡ some bs
unfolding hex_encode hex_decode
hex_decode-hex_encode [] h = refl
hex_decode-hex_encode (b ∷ bs) h = ground (
  arith,
  hex_value-hex_digit (b / 16),
  hex_value-hex_digit (b % 16),
  hex_decode-hex_encode bs h.1,
)

hex_value-lt : (c : Char) (n : ℕ) → hex_value c ≡ some n → n < 16
unfolding hex_value
hex_value-lt c n h = ground arith

joined-AreBytes :
    (a b : Option ℕ) (bs : Option (List ℕ)) (r : List ℕ)
    → ((n : ℕ) → a ≡ some n → n < 16)
    → ((n : ℕ) → b ≡ some n → n < 16)
    → ((rest : List ℕ) → bs ≡ some rest → AreBytes rest)
    → joined a b bs ≡ some r
    → AreBytes r
joined-AreBytes none b bs r ha hb hbs h = cc
joined-AreBytes (some a) none bs r ha hb hbs h = cc
joined-AreBytes (some a) (some b) none r ha hb hbs h = cc
joined-AreBytes (some a) (some b) (some bs) r ha hb hbs h =
    subst AreBytes (some-injective _ _ h)
      (let p = ha a refl in let q = hb b refl in omega arith, hbs bs refl)

pub hex_decode-AreBytes : (s : String) (bs : List ℕ) → hex_decode s ≡ some bs → AreBytes bs
unfolding hex_decode
hex_decode-AreBytes String.[] bs h = subst AreBytes (some-injective _ _ h) tt
hex_decode-AreBytes (String.◌∷◌ c String.[]) bs h = cc
hex_decode-AreBytes (String.◌∷◌ c (String.◌∷◌ d s)) bs h =
    joined-AreBytes (hex_value c) (hex_value d) (hex_decode s) bs (hex_value-lt c) (hex_value-lt d)
      (hex_decode-AreBytes s) h

abbrev EachCode : (ℕ → Type 0) → List Char → Type 0
EachCode P [] = Unit
EachCode P (c ∷ cs) = P (code c) × EachCode P cs

char_or-code :
    (P : ℕ → Type 0) (cs : List Char) (n : ℕ)
    → P (code "0")
    → EachCode P cs
    → P (code (char_or cs n))
unfolding char_or
char_or-code P [] n z h = z
char_or-code P (c ∷ cs) zero z h = h.0
char_or-code P (c ∷ cs) (suc n) z h = char_or-code P cs n z h.1

-- A digit is neither a slash nor the letter v.
pub hex_digit-code : (n : ℕ) → (code (hex_digit n) ≢ b'/') × (code (hex_digit n) ≢ b'v')
unfolding hex_digit
hex_digit-code n =
    char_or-code (λ k. (k ≢ b'/') × (k ≢ b'v')) hex_table n (omega arith, omega arith)
      (ground arith)
