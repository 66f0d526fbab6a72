-- ===== src/Prelude/Text/Slashes.antt =====
-- `TrimPrefix`, `HasPrefix`, `Contains`, `Trim(s, "/")` and `Split(s, "/")` of Go's `strings`.
use Prim.Native.Char.{Char, code}
use Prim.Native.String.{String, ◌++◌}
use mathlib.Core.Path.{◌≡◌, refl}
use mathlib.Core.Bool.{Bool, true, false, ◌&&◌, ◌||◌}
use mathlib.Core.Logic.{◌≢◌}
use mathlib.Core.Option.{Option, none, some}
use mathlib.Core.List.{List, [], ◌∷◌}
use native.Mathlib.Omega.{arith}
use text.Mathlib.Text.{◌==◌}
use text.Mathlib.TextEquality.{eq_iff}
use text.Mathlib.TextLemmas.{nil-append, cons-append, append-ne-nil_of_right_ne-nil}
use azure_keyvault_emulator.Prelude.Tests.{eqb, if◌then◌else◌}

abbrev pub is_slash : Char → Bool
is_slash c = eqb (code c) b'/'

-- What is behind a prefix.
unfoldable pub behind : String → String → Option String
behind String.[] s = some s
behind (String.◌∷◌ p ps) String.[] = none
behind (String.◌∷◌ p ps) (String.◌∷◌ c s) =
    let rest = behind ps s in if eqb (code p) (code c) then rest else none

unfoldable pub trim_prefix : String → String → String
trim_prefix s prefix = elim (behind prefix s) [ none ↦ s | some rest ↦ rest ]

abbrev pub has_prefix : String → String → Bool
has_prefix s prefix = elim (behind prefix s) [ none ↦ false | some rest ↦ true ]

unfoldable pub contains_text : String → String → Bool
contains_text String.[] t = has_prefix "" t
contains_text (String.◌∷◌ c s) t =
    let rest = contains_text s t in has_prefix (String.◌∷◌ c s) t || rest

unfoldable pub trim_left : String → String
trim_left String.[] = ""
trim_left (String.◌∷◌ c s) = let rest = trim_left s in if is_slash c then rest else String.◌∷◌ c s

unfoldable pub trim_right : String → String
trim_right String.[] = ""
trim_right (String.◌∷◌ c s) =
    let rest = trim_right s in if is_slash c && rest == "" then "" else String.◌∷◌ c rest

unfoldable pub trim_slashes : String → String
trim_slashes s = trim_right (trim_left s)

-- A character in front of the first part.
unfoldable pub onto_first : Char → List String → List String
onto_first c [] = String.◌∷◌ c "" ∷ []
onto_first c (part ∷ parts) = String.◌∷◌ c part ∷ parts

unfoldable pub split_slashes : String → List String
split_slashes String.[] = "" ∷ []
split_slashes (String.◌∷◌ c s) =
    let rest = split_slashes s in if is_slash c then "" ∷ rest else onto_first c rest

-- A part of a path: it has no slash.
unfoldable pub has_slash : String → Bool
has_slash String.[] = false
has_slash (String.◌∷◌ c s) = let rest = has_slash s in is_slash c || rest

pub behind-append : (p s : String) → behind p (p ++ s) ≡ some s
unfolding behind
behind-append String.[] s = rw (nil-append s) refl
behind-append (String.◌∷◌ c p) s = rw (cons-append c p s) (ground (arith, behind-append p s))

pub split_slashes-part : (s : String) → has_slash s ≡ false → split_slashes s ≡ s ∷ []
unfolding split_slashes onto_first has_slash
split_slashes-part String.[] h = refl
split_slashes-part (String.◌∷◌ c s) h = ground (arith, split_slashes-part s)

pub split_slashes-append :
    (s t : String) → has_slash s ≡ false → split_slashes (s ++ ("/" ++ t)) ≡ s ∷ split_slashes t
unfolding split_slashes onto_first has_slash
split_slashes-append String.[] t h =
    rw (nil-append ("/" ++ t), cons-append "/" "" t, nil-append t) refl
split_slashes-append (String.◌∷◌ c s) t h =
    rw (cons-append c s ("/" ++ t)) (ground (arith, split_slashes-append s t))

pub trim_right-part : (s : String) → has_slash s ≡ false → trim_right s ≡ s
unfolding trim_right has_slash
trim_right-part String.[] h = refl
trim_right-part (String.◌∷◌ c s) h = ground (arith, trim_right-part s)

pub trim_right-append : (s t : String) → has_slash t ≡ false → t ≢ "" → trim_right (s ++ t) ≡ s ++ t
unfolding trim_right
trim_right-append String.[] t h given = rw (nil-append t) (trim_right-part t h)
trim_right-append (String.◌∷◌ c s) t h given =
    rw (cons-append c s t, trim_right-append s t h given)
      (ground (arith, eq_iff (s ++ t) "", append-ne-nil_of_right_ne-nil s given))

pub trim_left-part : (s t : String) → has_slash s ≡ false → s ≢ "" → trim_left (s ++ t) ≡ s ++ t
unfolding trim_left has_slash
trim_left-part String.[] t h given = absurd (given refl)
trim_left-part (String.◌∷◌ c s) t h given = rw (cons-append c s t) (ground arith)
