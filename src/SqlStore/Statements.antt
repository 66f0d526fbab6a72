-- ===== src/SqlStore/Statements.antt =====
-- Laws of the statements of internal/store/sqlstore/sqlstore.go: what `WHERE` and `COUNT` see after
-- an insertion and a deletion, and `ORDER BY created_at` on rows that came in time order.
use mathlib.Core.List.{reverse-cons}
use azure_keyvault_emulator.Prelude.{
  ◌||◌, ℕ, ◌<◌, String, Bool, true, false, ◌≡◌, refl, ap, ◌∙◌, none, some, List, [], ◌∷◌, ◌++◌,
  arith, ◌==◌, not, eq_iff, last?, reverse, if◌then◌else◌, map, Bool-cases, inl, inr,
}
use azure_keyvault_emulator.Prelude.Sort.Same.{has, IsOnce}
use azure_keyvault_emulator.SqlStore.{
  SecretRow, DeletedSecretRow, is_deleted, where_, any, first, insert_by_time, oldest_first,
  newest_first, is_named, is_version,
}
use azure_keyvault_emulator.Store.Entries.Versions.{All}

module _ {A : Type 0} where
  pub where_-append :
      (p : A → Bool) (rows : List A) (row : A)
      → where_ p (rows ++ row ∷ []) ≡ (if p row then where_ p rows ++ row ∷ [] else where_ p rows)
  unfolding where_
  where_-append p [] row = ground arith
  where_-append p (r ∷ rows) row = ground (arith, where_-append p rows row)

  -- The rows of a name after a deletion of the rows of a name.
  pub where_-deleted :
      (name_of : A → String) (name j : String) (rows : List A)
      → where_ (λ a. name_of a == j) (where_ (λ a. not (name_of a == name)) rows)
        ≡ (if name == j then [] else where_ (λ a. name_of a == j) rows)
  unfolding where_
  where_-deleted name_of name j [] = ground arith
  where_-deleted name_of name j (r ∷ rows) = ground (
    arith,
    eq_iff (name_of r) j,
    eq_iff (name_of r) name,
    eq_iff name j,
    where_-deleted name_of name j rows,
  )

  pub any-append :
      (p : A → Bool) (rows : List A) (row : A) → any p (rows ++ row ∷ []) ≡ (any p rows || p row)
  unfolding any
  any-append p [] row = ground arith
  any-append p (r ∷ rows) row = ground (arith, any-append p rows row)

  pub any-first :
      (p : A → Bool) (rows : List A)
      → any p rows ≡ (elim (first (where_ p rows)) [ none ↦ false | some _ ↦ true ])
  unfolding any where_
  any-first p [] = refl
  any-first p (r ∷ rows) = ground (arith, any-first p rows)

  first-append : (xs : List A) (y z : A) → first ((xs ++ y ∷ []) ++ z ∷ []) ≡ first (xs ++ y ∷ [])
  first-append [] y z = refl
  first-append (x ∷ xs) y z = refl

  first-append_reverse :
      (x y : A) (xs : List A) → first (reverse (y ∷ xs) ++ x ∷ []) ≡ first (reverse (y ∷ xs))
  first-append_reverse x y xs = rw (reverse-cons y xs) (first-append (reverse xs) y x)

  pub first-reverse : (xs : List A) → first (reverse xs) ≡ last? xs
  first-reverse [] = refl
  first-reverse (x ∷ []) = refl
  first-reverse (x ∷ y ∷ xs) =
      ap first (reverse-cons x (y ∷ xs)) ∙ first-append_reverse x y xs ∙ first-reverse (y ∷ xs)

pub where_version :
    (name version : String) (rows : List SecretRow)
    → where_ (is_version name version) rows
      ≡ where_ (λ row. row.version == version) (where_ (is_named name) rows)
unfolding where_
where_version name version [] = refl
where_version name version (r ∷ rows) = ground (arith, where_version name version rows)

-- Every row was made after the one before it.
abbrev pub IsRising : List SecretRow → Type 0
IsRising [] = Unit
IsRising (r ∷ []) = Unit
IsRising (r ∷ next ∷ rows) = (r.created_at < next.created_at) × IsRising (next ∷ rows)

abbrev pub AreBefore : ℕ → List SecretRow → Type 0
AreBefore ts rows = All (λ row. row.created_at < ts) rows

pub append-IsRising :
    (rows : List SecretRow) (row : SecretRow)
    → IsRising rows
    → AreBefore row.created_at rows
    → IsRising (rows ++ row ∷ [])
append-IsRising [] row h b = tt
append-IsRising (r ∷ []) row h b = (b.0, tt)
append-IsRising (r ∷ next ∷ rows) row h b = (h.0, append-IsRising (next ∷ rows) row h.1 b.1)

pub oldest_first-IsRising : (rows : List SecretRow) → IsRising rows → oldest_first rows ≡ rows
unfolding oldest_first insert_by_time
oldest_first-IsRising [] h = refl
oldest_first-IsRising (r ∷ []) h = refl
oldest_first-IsRising (r ∷ next ∷ rows) h =
    rw (oldest_first-IsRising (next ∷ rows) h.1) (ground (arith, h.0))

-- No two rows have the same version.
abbrev pub AreDistinct : List SecretRow → Type 0
AreDistinct [] = Unit
AreDistinct (r ∷ rows) = (any (λ x. x.version == r.version) rows ≡ false) × AreDistinct rows

pub append-AreDistinct :
    (rows : List SecretRow) (row : SecretRow)
    → AreDistinct rows
    → any (λ x. x.version == row.version) rows ≡ false
    → AreDistinct (rows ++ row ∷ [])
unfolding any
append-AreDistinct [] row h fresh = (refl, tt)
append-AreDistinct (r ∷ rows) row h fresh = (
  ground (
    arith,
    any-append (λ (x : SecretRow). x.version == r.version) rows row,
    eq_iff r.version row.version,
    eq_iff row.version r.version,
    h.0,
  ),
  append-AreDistinct rows row h.1 (ground arith),
)

pub any-is_version :
    (name version : String) (rows : List SecretRow)
    → any (is_version name version) rows
      ≡ any (λ row. row.version == version) (where_ (is_named name) rows)
unfolding any where_
any-is_version name version [] = refl
any-is_version name version (r ∷ rows) = ground (arith, any-is_version name version rows)

-- The first of the newest is the last row.
pub first-newest_first :
    (rows : List SecretRow) → IsRising rows → first (newest_first rows) ≡ last? rows
unfolding newest_first
first-newest_first rows h = rw (oldest_first-IsRising rows h) (first-reverse rows)

-- What holds of the rows of a name, when those of one name are changed.
pub if-kept :
    (P : List SecretRow → Type 0) (b : Bool) {rows rows' : List SecretRow}
    → P rows
    → (b ≡ true → P rows')
    → P (if b then rows' else rows)
if-kept P true h k = k refl
if-kept P false h k = h

-- The names of the deleted secrets, of which the table has each at most once.
abbrev pub deleted_names : List DeletedSecretRow → List String
deleted_names rows = map (λ (row : DeletedSecretRow). row.name) rows

pub has-deleted_names :
    (k : String) (rows : List DeletedSecretRow)
    → has k (deleted_names rows) ≡ any (is_deleted k) rows
unfolding has any
has-deleted_names k [] = refl
has-deleted_names k (row ∷ rows) = ap (λ b. row.name == k || b) (has-deleted_names k rows)

has-append :
    (k : String) (rows : List DeletedSecretRow) (row : DeletedSecretRow)
    → has k (deleted_names (rows ++ row ∷ [])) ≡ (has k (deleted_names rows) || row.name == k)
unfolding has
has-append k [] row = ground arith
has-append k (r ∷ rows) row = ground (arith, has-append k rows row)

pub append-IsOnce :
    (rows : List DeletedSecretRow) (row : DeletedSecretRow)
    → IsOnce (deleted_names rows)
    → any (is_deleted row.name) rows ≡ false
    → IsOnce (deleted_names (rows ++ row ∷ []))
unfolding any has
append-IsOnce [] row h free = (refl, tt)
append-IsOnce (r ∷ rows) row h free = (
  ground (arith, has-append r.name rows row, eq_iff row.name r.name, eq_iff r.name row.name, h.0),
  append-IsOnce rows row h.1 (ground arith),
)

has-where_ :
    (k : String) (p : DeletedSecretRow → Bool) (rows : List DeletedSecretRow)
    → has k (deleted_names rows) ≡ false
    → has k (deleted_names (where_ p rows)) ≡ false
unfolding has where_
has-where_ k p [] h = refl
has-where_ k p (row ∷ rows) h = ground (arith, has-where_ k p rows)

pub where_-IsOnce :
    (p : DeletedSecretRow → Bool) (rows : List DeletedSecretRow)
    → IsOnce (deleted_names rows)
    → IsOnce (deleted_names (where_ p rows))
unfolding where_
where_-IsOnce p [] h = tt
where_-IsOnce p (row ∷ rows) h = elim (Bool-cases (p row)) [
  | inl kept ↦ rw kept (has-where_ row.name p rows h.0, where_-IsOnce p rows h.1)
  | inr dropped ↦ rw dropped (where_-IsOnce p rows h.1)
]
