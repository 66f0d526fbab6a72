-- ===== src/Store/Entries/Appended.antt =====
-- The version that an operation appends to an entry, found by its id and as the latest.
use azure_keyvault_emulator.Prelude.{
  String, ◌≡◌, refl, ◌≢◌, Option, none, some, List, [], ◌∷◌, ◌++◌, arith, eq_iff, last?,
  last?-append,
}
use azure_keyvault_emulator.Store.Entries.{Entry, appended, find_id}

pub find_id-append_other :
    {V : Type 0} (id_of : V → String) (id : String) (xs : List V) (v : V)
    → id_of v ≢ id
    → find_id id_of id (xs ++ v ∷ []) ≡ find_id id_of id xs
unfolding find_id
find_id-append_other id_of id [] v h = ground (arith, eq_iff (id_of v) id)
find_id-append_other id_of id (x ∷ xs) v h = ground (arith, find_id-append_other id_of id xs v h)

pub find_id-append_fresh :
    {V : Type 0} (id_of : V → String) (id : String) (xs : List V) (v : V)
    → id_of v ≡ id
    → find_id id_of id xs ≡ none
    → find_id id_of id (xs ++ v ∷ []) ≡ some v
unfolding find_id
find_id-append_fresh id_of id [] v h e = ground (arith, eq_iff (id_of v) id)
find_id-append_fresh id_of id (x ∷ xs) v h e = ground (arith, find_id-append_fresh id_of id xs v h)

pub last?-appended :
    {V : Type 0} (o : Option (Entry V)) (v : V) → last? ((appended o v).versions) ≡ some v
unfolding appended
last?-appended none v = refl
last?-appended (some e) v = last?-append e.versions v
