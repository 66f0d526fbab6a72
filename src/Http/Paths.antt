-- ===== src/Http/Paths.antt =====
-- The path of an object, and splitPath of internal/handler/handler.go.
use Prim.Native.Char.{code}
use Prim.Native.String.{◌++◌}
use text.Mathlib.TextLemmas.{
  head-eq_of_cons-eq, append-ne-nil_of_right_ne-nil, append_assoc, append-nil,
}
use azure_keyvault_emulator.Prelude.{
  ℕ, ◌/◌, ◌%◌, eq-false, arith, String, ◌≡◌, refl, sym, ap, ◌∙◌, ◌≢◌, false, List, [], ◌∷◌, ◌==◌,
  eq_iff,
}
use azure_keyvault_emulator.Prelude.Text.Slashes.{
  has_slash, behind-append, trim_prefix, trim_left, trim_right, trim_slashes, split_slashes-part,
  split_slashes-append, trim_left-part, trim_right-part, trim_right-append,
}
use azure_keyvault_emulator.Prelude.Text.Hex.{hex_encode, hex_digit-code}
use azure_keyvault_emulator.Store.Metadata.{new_version}
use azure_keyvault_emulator.Http.{split_path}

-- A segment of a path.
abbrev pub IsPart : String → Type 0
IsPart s = (has_slash s ≡ false) × (s ≢ "")

pub trim_prefix-append : (p s : String) → trim_prefix (p ++ s) p ≡ s
unfolding trim_prefix
trim_prefix-append p s = ground (arith, behind-append p s)

trim_slashes-part : (s : String) → IsPart s → trim_slashes s ≡ s
unfolding trim_slashes
trim_slashes-part s h =
    ap trim_right (ap trim_left (sym (append-nil s)) ∙ trim_left-part s "" h.0 h.1 ∙ append-nil s)
    ∙ trim_right-part s h.0

trim_slashes-parts :
    (s t : String) → IsPart s → IsPart t → trim_slashes (s ++ ("/" ++ t)) ≡ s ++ ("/" ++ t)
unfolding trim_slashes
trim_slashes-parts s t h k =
    ap trim_right (trim_left-part s ("/" ++ t) h.0 h.1)
    ∙ (rw (← append_assoc s "/" t) (trim_right-append (s ++ "/") t k.0 k.1))

pub split_path-part : (p s : String) → IsPart s → split_path (p ++ s) p ≡ s ∷ []
unfolding split_path
split_path-part p s h =
    rw (trim_prefix-append p s, trim_slashes-part s h)
      (ground (arith, eq_iff s "", split_slashes-part s h.0, h.1))

pub split_path-parts :
    (p s t : String) → IsPart s → IsPart t → split_path (p ++ (s ++ ("/" ++ t))) p ≡ s ∷ t ∷ []
unfolding split_path
split_path-parts p s t h k =
    rw (trim_prefix-append p (s ++ ("/" ++ t)), trim_slashes-parts s t h k)
      (ground (
        arith,
        eq_iff (s ++ ("/" ++ t)) "",
        append-ne-nil_of_right_ne-nil s {t = "/" ++ t}
            (append-ne-nil_of_right_ne-nil "/" {t = t} k.1),
        split_slashes-append s t h.0,
        split_slashes-part t k.0,
      ))

-- A version is a part of a path, and is not the word that lists them.
hex_encode-has_slash : (bs : List ℕ) → has_slash (hex_encode bs) ≡ false
unfolding hex_encode has_slash
hex_encode-has_slash [] = refl
hex_encode-has_slash (b ∷ bs) =
    let (first, _) = hex_digit-code (b / 16) in
    let (second, _) = hex_digit-code (b % 16) in ground (arith, hex_encode-has_slash bs)

pub new_version-IsPart : (buf : List ℕ) → new_version buf ≢ "" → IsPart (new_version buf)
unfolding new_version
new_version-IsPart buf given = (hex_encode-has_slash buf, given)

pub new_version-not_versions : (buf : List ℕ) → (new_version buf == "versions") ≡ false
unfolding new_version hex_encode
new_version-not_versions [] = refl
new_version-not_versions (b ∷ bs) =
    let (_, other) = hex_digit-code (b / 16) in
    eq-false _ _ (λ e. other (ap code (head-eq_of_cons-eq e)))
