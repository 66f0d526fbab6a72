-- ===== src/Store/Keys/Safety/Deleted.antt =====
-- The key operations of internal/store/keys.go that read or write the map of deleted keys.
use azure_keyvault_emulator.Prelude.{
  ℕ, String, ◌≡◌, refl, ◌≢◌, inl, inr, none, List, [], ◌∷◌, arith, Option-cases,
}
use azure_keyvault_emulator.Prelude.Dict.{lookup, keys}
use azure_keyvault_emulator.Prelude.Sort.{sort_strings}
use azure_keyvault_emulator.Store.Pagination.{page_size}
use azure_keyvault_emulator.Store.Pagination.Complete.{paginate_cases}
use azure_keyvault_emulator.Prelude.Outcome.{ok, Ends}
use azure_keyvault_emulator.Prelude.Text.Decimal.{ℤ}
use azure_keyvault_emulator.Store.{Store, DeletedKeyRecord}
use azure_keyvault_emulator.Store.Entries.Versions.{
  All, All-take, All-drop, All-keys, All-sort_strings,
}
use azure_keyvault_emulator.Store.Entries.WellFormed.{
  delete-IsWellFormed, recover-IsWellFormed, erase_deleted-IsWellFormed, last?-IsEntry,
}
use azure_keyvault_emulator.Store.Keys.{
  key_item_with, delete_key, list_deleted_keys, get_deleted_key, purge_deleted_key,
  recover_deleted_key, deleted_key, latest_key, clone_of, listed_deleted_keys, deleted_key_item,
}
use azure_keyvault_emulator.Store.Keys.Records.{deleted_key_record}
use azure_keyvault_emulator.Store.Keys.Safety.{AreKeysWellFormed, key_name_of}

module _ {M : Type 0} where
  pub delete_key-Ends :
      (now : ℕ) (buf : List ℕ) (name : String) (s : Store M)
      → AreKeysWellFormed s
      → Ends AreKeysWellFormed (delete_key now buf name s)
  unfolding delete_key latest_key deleted_key
  delete_key-Ends now buf name s w = elim (Option-cases (lookup name s.keys)) [
    | inl missing ↦ rw missing w
    | inr (entry, found) ↦
        let (latest, e) = last?-IsEntry entry (w.live_entry name entry found) in
        ground (
          arith,
          found,
          e,
          delete-IsWellFormed {name_of = key_name_of} name (deleted_key now buf name entry) s.keys
              s.deleted_keys found w,
        )
  ]

  -- Every name of a page of deleted names has an entry with a version.
  listed_deleted_keys_ok :
      (s : Store M)
      → AreKeysWellFormed s
      → (names : List String) → All (λ k. lookup k s.deleted_keys ≢ none) names
      → (items : List DeletedKeyRecord) × (listed_deleted_keys s.deleted_keys names ≡ ok items)
  unfolding listed_deleted_keys deleted_key_item key_item_with latest_key
  listed_deleted_keys_ok s w [] h = ([], refl)
  listed_deleted_keys_ok s w (name ∷ names) h = elim (Option-cases (lookup name s.deleted_keys)) [
    | inl missing ↦ absurd (h.0 missing)
    | inr (d, found) ↦
        let (latest, e) = last?-IsEntry d.entry (w.deleted_entry name d found) in
        let (items, rest) = listed_deleted_keys_ok s w names h.1 in
        (deleted_key_record d (clone_of latest) ∷ items, rw (found, e, rest))
  ]

  pub list_deleted_keys-Ends :
      (m : ℤ) (token : String) (s : Store M)
      → AreKeysWellFormed s
      → Ends AreKeysWellFormed (list_deleted_keys m token s)
  unfolding list_deleted_keys
  list_deleted_keys-Ends m token s w =
      elim (paginate_cases (sort_strings (keys s.deleted_keys)) token m) [
        | inl refused ↦ rw refused w
        | inr (k, e) ↦
            let found = λ (j : String). lookup j s.deleted_keys ≢ none in
            let (items, all) = listed_deleted_keys_ok s w _ (
              All-take found (page_size m) _
                (All-drop found k _ (All-sort_strings found _ (All-keys s.deleted_keys)))) in
            rw (e, all) w
      ]

  pub get_deleted_key-Ends :
      (name : String) (s : Store M)
      → AreKeysWellFormed s
      → Ends AreKeysWellFormed (get_deleted_key name s)
  unfolding get_deleted_key latest_key
  get_deleted_key-Ends name s w = elim (Option-cases (lookup name s.deleted_keys)) [
    | inl missing ↦ rw missing w
    | inr (d, found) ↦
        let (latest, e) = last?-IsEntry d.entry (w.deleted_entry name d found) in rw (found, e) w
  ]

  pub purge_deleted_key-Ends :
      (name : String) (s : Store M)
      → AreKeysWellFormed s
      → Ends AreKeysWellFormed (purge_deleted_key name s)
  unfolding purge_deleted_key
  purge_deleted_key-Ends name s w =
      ground
        (arith, erase_deleted-IsWellFormed {name_of = key_name_of} name s.keys s.deleted_keys w)

  pub recover_deleted_key-Ends :
      (name : String) (s : Store M)
      → AreKeysWellFormed s
      → Ends AreKeysWellFormed (recover_deleted_key name s)
  unfolding recover_deleted_key latest_key
  recover_deleted_key-Ends name s w = elim (Option-cases (lookup name s.deleted_keys)) [
    | inl missing ↦ ground arith
    | inr (d, found) ↦
        let h = w.deleted_entry name d found in
        let (latest, e) = last?-IsEntry d.entry h in
        ground (
          arith,
          found,
          e,
          recover-IsWellFormed {name_of = key_name_of} name d.entry s.keys s.deleted_keys h w,
        )
  ]
