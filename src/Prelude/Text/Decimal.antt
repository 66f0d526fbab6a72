-- ===== src/Prelude/Text/Decimal.antt =====
-- `strconv.Itoa` on what is not negative, and `strconv.Atoi`.
use Prim.Native.Nat.{ℕ, zero, suc, ◌+◌, ◌-◌, ◌*◌, ◌/◌, ◌%◌, ◌^◌, ◌≤◌, ◌<◌}
use Prim.Native.Char.{Char, code}
use Prim.Native.String.{String}
use mathlib.Core.Path.{◌≡◌, refl}
use mathlib.Core.Bool.{Bool, true, ◌&&◌}
use mathlib.Core.Option.{Option, none, some}
use native.Mathlib.Omega.{arith}
use native.Mathlib.Decide.{dec_lt}
use mathlib.Core.Logic.{◌≢◌}
use azure_keyvault_emulator.Prelude.Tests.{ltb, leb, eqb, if◌then◌else◌}

-- A signed machine integer: `negsuc n` is -(n + 1).
pub data ℤ : Type 0 where
  pos : ℕ → ℤ
  negsuc : ℕ → ℤ

unfoldable pub digit : ℕ → Char
digit zero = "0"
digit (suc zero) = "1"
digit (suc (suc zero)) = "2"
digit (suc (suc (suc zero))) = "3"
digit (suc (suc (suc (suc zero)))) = "4"
digit (suc (suc (suc (suc (suc zero))))) = "5"
digit (suc (suc (suc (suc (suc (suc zero)))))) = "6"
digit (suc (suc (suc (suc (suc (suc (suc zero))))))) = "7"
digit (suc (suc (suc (suc (suc (suc (suc (suc zero)))))))) = "8"
digit _ = "9"

-- The digits of `n` in front of `out`, the last one first; `n + 1` rounds are enough.
unfoldable pub itoa_onto : ℕ → ℕ → String → String
itoa_onto zero n out = out
itoa_onto (suc fuel) n out =
    let more = itoa_onto fuel (n / 10) (String.◌∷◌ (digit (n % 10)) out) in
    if ltb n 10 then String.◌∷◌ (digit n) out else more

unfoldable pub itoa : ℕ → String
itoa n = itoa_onto (suc n) n ""

unfoldable pub is_digit : Char → Bool
is_digit c = leb b'0' (code c) && leb (code c) b'9'

-- The number that a run of digits has, after digits that make `acc`.
unfoldable pub digits_from : ℕ → String → Option ℕ
digits_from acc String.[] = some acc
digits_from acc (String.◌∷◌ c s) =
    let rest = digits_from (acc * 10 + (code c - b'0')) s in if is_digit c then rest else none

unfoldable pub magnitude : String → Option ℕ
magnitude String.[] = none
magnitude (String.◌∷◌ c s) = digits_from 0 (String.◌∷◌ c s)

-- The range of a 64-bit `int`.
abbrev pub max_int : ℕ
max_int = 2 ^ 63 - 1

unfoldable pub positive : Option ℕ → Option ℤ
positive none = none
positive (some n) = if leb n max_int then some (pos n) else none

unfoldable pub negative : Option ℕ → Option ℤ
negative none = none
negative (some zero) = some (pos 0)
negative (some (suc n)) = if leb n max_int then some (negsuc n) else none

unfoldable pub signed : Char → String → Option ℤ
signed c s =
    if eqb (code c) b'-'
    then negative (magnitude s)
    else if eqb (code c) b'+'
    then positive (magnitude s)
    else positive (digits_from 0 (String.◌∷◌ c s))

-- `none` is a syntax or range error.
unfoldable pub atoi : String → Option ℤ
atoi String.[] = none
atoi (String.◌∷◌ c s) = signed c s

-- The code of a digit.
code-digit : (n : ℕ) → n < 10 → code (digit n) ≡ 48 + n
unfolding digit
code-digit zero h = refl
code-digit (suc zero) h = refl
code-digit (suc (suc zero)) h = refl
code-digit (suc (suc (suc zero))) h = refl
code-digit (suc (suc (suc (suc zero)))) h = refl
code-digit (suc (suc (suc (suc (suc zero))))) h = refl
code-digit (suc (suc (suc (suc (suc (suc zero)))))) h = refl
code-digit (suc (suc (suc (suc (suc (suc (suc zero))))))) h = refl
code-digit (suc (suc (suc (suc (suc (suc (suc (suc zero)))))))) h = refl
code-digit (suc (suc (suc (suc (suc (suc (suc (suc (suc zero))))))))) h = refl
code-digit (suc (suc (suc (suc (suc (suc (suc (suc (suc (suc n)))))))))) h = absurd (omega arith)

digits_from-itoa_onto :
    (fuel n : ℕ) (out : String)
    → n < fuel
    → digits_from 0 (itoa_onto fuel n out) ≡ digits_from n out
unfolding digits_from itoa_onto is_digit
digits_from-itoa_onto zero n out h = absurd (omega arith)
digits_from-itoa_onto (suc fuel) n out h = ground (
  arith,
  digits_from-itoa_onto fuel (n / 10) (String.◌∷◌ (digit (n % 10)) out),
  code-digit n,
  code-digit (n % 10),
)

-- What `itoa_onto` writes begins with a digit.
itoa_onto_head :
    (fuel n : ℕ) (out : String)
    → n < fuel
    → (c : Char) × (s : String) × (itoa_onto fuel n out ≡ String.◌∷◌ c s) × (is_digit c ≡ true)
unfolding itoa_onto is_digit
itoa_onto_head zero n out h = absurd (omega arith)
itoa_onto_head (suc fuel) n out h = elim (dec_lt n 10) [
  | yes p ↦ (digit n, out, ground arith, ground (arith, code-digit n))
  | no p ↦
      let (c, s, e, d) =
        itoa_onto_head fuel (n / 10) (String.◌∷◌ (digit (n % 10)) out) (omega arith) in
      (c, s, ground arith, d)
]

signed_digit :
    (c : Char) (s : String)
    → is_digit c ≡ true
    → signed c s ≡ positive (digits_from 0 (String.◌∷◌ c s))
unfolding signed is_digit
signed_digit c s h = ground arith

digits_from-nil : (n : ℕ) → digits_from n "" ≡ some n
unfolding digits_from
digits_from-nil n = refl

-- A number that fits an `int` is read back.
pub atoi-itoa : (n : ℕ) → n ≤ max_int → atoi (itoa n) ≡ some (pos n)
unfolding atoi itoa positive
atoi-itoa n h =
    let (c, s, e, d) = itoa_onto_head (suc n) n "" (omega arith) in
    ground (arith, e, signed_digit c s d, digits_from-itoa_onto (suc n) n "", digits_from-nil n)

pub itoa-ne-empty : (n : ℕ) → itoa n ≢ ""
unfolding itoa
itoa-ne-empty n h = let (c, s, e, d) = itoa_onto_head (suc n) n "" (omega arith) in cc
