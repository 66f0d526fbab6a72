-- ===== src/Store/Secrets/Listing.antt =====
-- A client that follows the continuation tokens of ListSecrets, in internal/store/secrets.go.
use mathlib.Core.Option
use mathlib.Core.Path.{subst}
use mathlib.Core.List.{Perm}
use azure_keyvault_emulator.Prelude.{
  ℕ, zero, suc, ◌≤◌, String, ◌≡◌, refl, sym, ◌≢◌, ap, ◌∙◌, inl, inr, Option, none, some, List, [],
  ◌∷◌, ◌++◌, map, arith, length, Option-cases,
}
use azure_keyvault_emulator.Prelude.Dict.{Dict, lookup, keys}
use azure_keyvault_emulator.Prelude.Dict.Keys.{keys-IsOnce}
use azure_keyvault_emulator.Prelude.Sort.Same.{IsSorted, sort_strings-IsSorted}
use azure_keyvault_emulator.Prelude.Outcome.{Outcome, ok, err, panic}
use azure_keyvault_emulator.Prelude.Sort.{sort_strings, sort_strings-perm, length-sort_strings}
use azure_keyvault_emulator.Prelude.Text.Decimal.{ℤ, max_int}
use azure_keyvault_emulator.Store.{Store, SecretRecord, SecretEntry}
use azure_keyvault_emulator.Store.Errors.{Error}
use azure_keyvault_emulator.Store.Pagination.{Page, paginate_names}
use azure_keyvault_emulator.Store.Pagination.Complete.{
  gathered, walk, walk_all, paginate_cases, token-ne-empty,
}
use azure_keyvault_emulator.Store.Entries.Versions.{All, All-keys, All-sort_strings, All-last?}
use azure_keyvault_emulator.Store.Entries.WellFormed.{last?-IsEntry}
use azure_keyvault_emulator.Store.Secrets.{list_secrets}
use azure_keyvault_emulator.Store.Secrets.Records.{
  listed_secrets, latest_of, latest_secret, without_value, clone_secret_record,
}
use azure_keyvault_emulator.Store.Secrets.Safety.{AreSecretsWellFormed, name_of}

listed-append :
    (secrets : Dict SecretEntry) (xs ys : List String)
    → listed_secrets secrets (xs ++ ys) ≡ listed_secrets secrets xs ++ listed_secrets secrets ys
unfolding listed_secrets
listed-append secrets [] ys = refl
listed-append secrets (x ∷ xs) ys = ground (arith, listed-append secrets xs ys)

-- The answer of ListSecrets for a page of names.
abbrev listed_page :
    Dict SecretEntry → Outcome Error (Page String) → Outcome Error (Page SecretRecord)
listed_page secrets (ok (names, next)) = ok (listed_secrets secrets names, next)
listed_page secrets (err e) = err e
listed_page secrets panic = panic

list_secrets-eq :
    {M : Type 0} (m : ℤ) (token : String) (s : Store M)
    → list_secrets m token s
      ≡ (listed_page s.secrets (paginate_names (sort_strings (keys s.secrets)) token m), s)
unfolding list_secrets
list_secrets-eq m token s = elim (paginate_cases (sort_strings (keys s.secrets)) token m) [
  | inl refused ↦ rw refused
  | inr (k, e) ↦ rw e
]

gathered-listed_page :
    (secrets : Dict SecretEntry) (r : Outcome Error (Page String))
    (next : String → Option (List String)) (next' : String → Option (List SecretRecord))
    → ((t : String) → next' t ≡ Option.map (listed_secrets secrets) (next t))
    → gathered (listed_page secrets r) next' ≡ Option.map (listed_secrets secrets) (gathered r next)
gathered-listed_page secrets (ok (names, none)) next next' h = refl
gathered-listed_page secrets (ok (names, some t)) next next' h = rw (h t) (both (next t))
  where
    both :
        (o : Option (List String))
        → Option.map
            (λ rest. listed_secrets secrets names ++ rest)
            (Option.map (listed_secrets secrets) o)
          ≡ Option.map (listed_secrets secrets) (Option.map (λ rest. names ++ rest) o)
    both none = refl
    both (some rest) = ap some (sym (listed-append secrets names rest))
gathered-listed_page secrets (err e) next next' h = refl
gathered-listed_page secrets panic next next' h = refl

page_token :
    (secrets : Dict SecretEntry) (r : Outcome Error (Page String))
    → ((names : List String) (t : String) → r ≡ ok (names, some t) → t ≢ "")
    → {page : List SecretRecord} {next : String} → listed_page secrets r ≡ ok (page, some next)
    → next ≢ ""
page_token secrets (ok (names, none)) given e = ground arith
page_token secrets (ok (names, some t)) given {next = next} e =
    let same : t ≡ next = ground arith in subst (λ x. x ≢ "") same (given names t refl)
page_token secrets (err x) given e = ground arith
page_token secrets panic given e = ground arith

-- A token of ListSecrets is never empty.
pub list_secrets-token :
    {M : Type 0} (m : ℤ) (token : String) (s : Store M) {page : List SecretRecord} {next : String}
    → (list_secrets m token s).0 ≡ ok (page, some next)
    → next ≢ ""
list_secrets-token m token s h =
    page_token s.secrets (paginate_names (sort_strings (keys s.secrets)) token m)
      (λ names t. token-ne-empty (sort_strings (keys s.secrets)) token m {page = names} {next = t})
      (sym (ap (λ x. x.0) (list_secrets-eq m token s)) ∙ h)

module _ {M : Type 0} (m : ℤ) (s : Store M) where
  -- A client asks ListSecrets for the page of a token, and goes on as long as there is a next one.
  unfoldable pub walk_secrets : ℕ → String → Option (List SecretRecord)
  walk_secrets zero token = none
  walk_secrets (suc fuel) token = gathered (list_secrets m token s).0 (walk_secrets fuel)

  walk_secrets-eq :
      (fuel : ℕ) (token : String)
      → walk_secrets fuel token
        ≡ Option.map (listed_secrets s.secrets) (walk fuel (sort_strings (keys s.secrets)) m token)
  unfolding walk_secrets walk
  walk_secrets-eq zero token = refl
  walk_secrets-eq (suc fuel) token =
      rw (list_secrets-eq m token s) (gathered-listed_page s.secrets _ _ _ (walk_secrets-eq fuel))

-- An item shows the latest version of the name that it bears, without the value.
pub record ShowsLatest {M : Type 0} (s : Store M) (item : SecretRecord) : Type 0 where
  pub latest : SecretRecord
  pub is_latest : latest_of (lookup item.name s.secrets) ≡ some latest
  pub shown : item ≡ record (clone_secret_record latest) { value = "" }

module _ {M : Type 0} (s : Store M) (w : AreSecretsWellFormed s) where
  listed_item :
      (name : String)
      → lookup name s.secrets ≢ none
      → (v : SecretRecord) × (latest_of (lookup name s.secrets) ≡ some v) × (v.name ≡ name)
  unfolding latest_of latest_secret
  listed_item name found = elim (Option-cases (lookup name s.secrets)) [
    | inl missing ↦ absurd (found missing)
    | inr (entry, e) ↦
        let h = w.live_entry name entry e in
        let (v, newest) = last?-IsEntry entry h in
        (v, rw e newest, All-last? (λ r. name_of r ≡ name) entry.versions h.named newest)
  ]

  listed_names :
      (names : List String)
      → All (λ k. lookup k s.secrets ≢ none) names
      → (map name_of (listed_secrets s.secrets names) ≡ names)
        × All (ShowsLatest s) (listed_secrets s.secrets names)
  unfolding listed_secrets without_value clone_secret_record
  listed_names [] h = (refl, tt)
  listed_names (name ∷ names) h =
      let (v, e, same) = listed_item name h.0 in
      let (rest, items) = listed_names names h.1 in
      rw e (cc, (record { latest = v; is_latest = rw same e; shown = refl }, items))

walk_sorted :
    (names : List String) (m : ℤ)
    → length names ≤ max_int
    → walk (suc (length names)) (sort_strings names) m "" ≡ some (sort_strings names)
walk_sorted names m fits =
    subst (λ n. walk (suc n) (sort_strings names) m "" ≡ some (sort_strings names))
      (length-sort_strings names)
      (walk_all (sort_strings names) m (omega (arith, length-sort_strings names)))

-- In a well-formed store whose number of live secrets is an `int`, a client that follows the tokens
-- of ListSecrets, with any page size, ends with one item for each live name, in the order of the
-- names, and every item shows the latest version of its name without the value.
pub list_secrets_complete :
    {M : Type 0} (m : ℤ) (s : Store M)
    → AreSecretsWellFormed s
    → length (keys s.secrets) ≤ max_int
    → (items : List SecretRecord) × (walk_secrets m s (suc (length (keys s.secrets))) ""
        ≡ some items)
      × Perm (map name_of items) (keys s.secrets)
      × IsSorted (map name_of items)
      × All (ShowsLatest s) items
list_secrets_complete m s w fits =
    let names = sort_strings (keys s.secrets) in
    let (bear, items) =
      listed_names s w names
        (All-sort_strings (λ k. lookup k s.secrets ≢ none) _ (All-keys s.secrets)) in
    (
      listed_secrets s.secrets names,
      walk_secrets-eq m s (suc (length (keys s.secrets))) ""
          ∙ ap (Option.map (listed_secrets s.secrets)) (walk_sorted (keys s.secrets) m fits),
      rw bear (sort_strings-perm (keys s.secrets)),
      rw bear (sort_strings-IsSorted (keys s.secrets) (keys-IsOnce s.secrets w.live_unique)),
      items,
    )
