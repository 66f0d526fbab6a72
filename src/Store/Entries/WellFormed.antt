-- ===== src/Store/Entries/WellFormed.antt =====
-- The invariant of a map of live entries and its map of deleted ones, and the updates that the
-- operations make to the two. Secrets, keys and certificates share it.
use azure_keyvault_emulator.Prelude.{
  String, ◌≡◌, refl, ◌≢◌, Option, none, some, [], arith, eq_iff, last?, last?-some,
}
use azure_keyvault_emulator.Prelude.Dict.{Dict, lookup, insert, erase, lookup-insert, lookup-erase}
use azure_keyvault_emulator.Prelude.Dict.Every.{Every, insert-Every, erase-Every}
use azure_keyvault_emulator.Prelude.Dict.Unique.{IsUnique, insert-IsUnique, erase-IsUnique}
use azure_keyvault_emulator.Store.Entries.{Entry, DeletedEntry, appended, put_version}
use azure_keyvault_emulator.Store.Entries.Versions.{All, All-append, append-ne-nil}

module _ {V : Type 0} (name_of : V → String) where
  -- An entry under a name has a version, and every version bears the name.
  pub record IsEntry (name : String) (entry : Entry V) : Type 0 where
    pub filled : entry.versions ≢ []
    pub named : All (λ v. name_of v ≡ name) entry.versions

  -- No name is both live and deleted.
  pub record IsWellFormed (live : Dict (Entry V)) (deleted : Dict (DeletedEntry V)) : Type 0 where
    pub live_entry : Every IsEntry live
    pub deleted_entry : Every (λ k d. IsEntry k d.entry) deleted
    pub disjoint : Every (λ k e. lookup k deleted ≡ none) live
    pub live_unique : IsUnique live
    pub deleted_unique : IsUnique deleted

module _ {V : Type 0} {name_of : V → String} where
  -- A live entry takes the place of what the name had, if the name is not deleted.
  pub insert-IsWellFormed :
      (name : String) (entry : Entry V) (live : Dict (Entry V)) (deleted : Dict (DeletedEntry V))
      → IsEntry name_of name entry
      → lookup name deleted ≡ none
      → IsWellFormed name_of live deleted
      → IsWellFormed name_of (insert name entry live) deleted
  insert-IsWellFormed name entry live deleted good absent w = record {
    live_entry =
        insert-Every (IsEntry name_of) name entry live good (λ k e _ h. w.live_entry k e h);
    deleted_entry = w.deleted_entry;
    disjoint =
        insert-Every (λ k _. lookup k deleted ≡ none) name entry live absent
          (λ k e _ h. w.disjoint k e h);
    live_unique = insert-IsUnique name entry live w.live_unique;
    deleted_unique = w.deleted_unique;
  }

  pub erase_deleted-IsWellFormed :
      (name : String) (live : Dict (Entry V)) (deleted : Dict (DeletedEntry V))
      → IsWellFormed name_of live deleted
      → IsWellFormed name_of live (erase name deleted)
  erase_deleted-IsWellFormed name live deleted w = record {
    live_entry = w.live_entry;
    deleted_entry =
        erase-Every (λ k d. IsEntry name_of k d.entry) name deleted
          (λ k d _ h. w.deleted_entry k d h);
    disjoint = λ k e h. ground (arith, lookup-erase name k deleted, w.disjoint k e h);
    live_unique = w.live_unique;
    deleted_unique = erase-IsUnique name deleted w.deleted_unique;
  }

  -- A deletion moves an entry from the one map to the other.
  pub delete-IsWellFormed :
      (name : String) (d : DeletedEntry V) (live : Dict (Entry V)) (deleted : Dict (DeletedEntry V))
      → lookup name live ≡ some d.entry
      → IsWellFormed name_of live deleted
      → IsWellFormed name_of (erase name live) (insert name d deleted)
  delete-IsWellFormed name d live deleted found w = record {
    live_entry = erase-Every (IsEntry name_of) name live (λ k e _ h. w.live_entry k e h);
    deleted_entry =
        insert-Every (λ k d. IsEntry name_of k d.entry) name d deleted
          (w.live_entry name d.entry found) (λ k d _ h. w.deleted_entry k d h);
    disjoint =
        erase-Every (λ k _. lookup k (insert name d deleted) ≡ none) name live
          (λ k e differ h.
            ground (arith, lookup-insert name k d deleted, eq_iff name k, w.disjoint k e h));
    live_unique = erase-IsUnique name live w.live_unique;
    deleted_unique = insert-IsUnique name d deleted w.deleted_unique;
  }

  -- A recovery or a restore puts a live entry under a name, which is deleted no longer.
  pub recover-IsWellFormed :
      (name : String) (entry : Entry V) (live : Dict (Entry V)) (deleted : Dict (DeletedEntry V))
      → IsEntry name_of name entry
      → IsWellFormed name_of live deleted
      → IsWellFormed name_of (insert name entry live) (erase name deleted)
  recover-IsWellFormed name entry live deleted good w =
      insert-IsWellFormed name entry live (erase name deleted) good
        (ground (arith, lookup-erase name name deleted, eq_iff name name))
        (erase_deleted-IsWellFormed name live deleted w)

  -- A version more, under a name that is not deleted.
  pub put_version-IsWellFormed :
      (name : String) (v : V) (live : Dict (Entry V)) (deleted : Dict (DeletedEntry V))
      → name_of v ≡ name
      → lookup name deleted ≡ none
      → IsWellFormed name_of live deleted
      → IsWellFormed name_of (put_version name v live) deleted
  unfolding put_version
  put_version-IsWellFormed name v live deleted named absent w =
      insert-IsWellFormed name (appended (lookup name live) v) live deleted
        (appended-IsEntry (lookup name live) (λ e h. w.live_entry name e h)) absent w
    where
      appended-IsEntry :
          (o : Option (Entry V))
          → ((e : Entry V) → o ≡ some e → IsEntry name_of name e)
          → IsEntry name_of name (appended o v)
      appended-IsEntry none h = record { filled = λ e. cc; named = (named, tt) }
      appended-IsEntry (some e) h = record {
        filled = append-ne-nil e.versions v;
        named = All-append (λ x. name_of x ≡ name) e.versions v (h e refl).named named;
      }

  -- The latest version of an entry is there.
  pub last?-IsEntry :
      {name : String} (entry : Entry V)
      → IsEntry name_of name entry
      → (v : V) × (last? entry.versions ≡ some v)
  last?-IsEntry entry h = last?-some entry.versions h.filled
