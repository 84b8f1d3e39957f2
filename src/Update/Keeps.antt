-- ===== src/Update/Keeps.antt =====
-- What an update leaves: everything that `src` asks for, and what only `dst` has.
use vitess_operator.Prelude.{
  ◌≡◌, refl, String, Bool, Option, none, some, List, [], ◌∷◌, Map, lookup, insert, lookup-insert,
  UniqueKeys, eq_iff, string_eq, arith, if◌then◌else◌, ◌==◌,
}
use vitess_operator.Update.Merge.{Named, update_entry, update_entries, replace, env, string_map}
use vitess_operator.Update.Container.{or_saved}

module _ {A : Type 0} (key : A → String) where
  abbrev pub same_key : A → A → Bool
  same_key d s = key d == key s

  -- The first and the last entry of a name.
  abbrev pub first_entry : String → List A → Option A
  first_entry k [] = none
  first_entry k (x ∷ xs) = if key x == k then some x else first_entry k xs

  abbrev pub last_entry : String → List A → Option A
  last_entry k [] = none
  last_entry k (x ∷ xs) = elim (last_entry k xs) [
    | some y ↦ some y
    | none ↦ if key x == k then some x else none
  ]

  first_entry-update_entry :
      (k : String) (s : A) (dst : List A)
      → first_entry k (update_entry same_key replace s dst)
        ≡ (if key s == k then some s else first_entry k dst)
  unfolding update_entry
  first_entry-update_entry k s [] = refl
  first_entry-update_entry k s (d ∷ dst) = ground (
    arith,
    first_entry-update_entry k s dst,
    eq_iff (key d) (key s),
    eq_iff (key d) k,
    eq_iff (key s) k,
  )

  -- An update leaves for each name the last entry of `src`, and where `src` has none the first
  -- entry that `dst` had.
  pub first_entry-update_entries :
      (k : String) (dst src : List A)
      → first_entry k (update_entries same_key replace dst src)
        ≡ or_saved (last_entry k src) (first_entry k dst)
  unfolding update_entries
  first_entry-update_entries k dst [] = refl
  first_entry-update_entries k dst (s ∷ src) = ground (
    arith,
    first_entry-update_entries k (update_entry same_key replace s dst) src,
    first_entry-update_entry k s dst,
  )

-- `Env` leaves for each name what `src` says last of it, and else what `dst` had.
pub first_entry-env :
    {V : Type 0} (k : String) (dst src : List (Named V))
    → first_entry (λ e. e.name) k (env dst src)
      ≡ or_saved (last_entry (λ e. e.name) k src) (first_entry (λ e. e.name) k dst)
unfolding env
first_entry-env k dst src = first_entry-update_entries (λ e. e.name) k dst src

-- `StringMap`, by which labels and annotations are updated, leaves for each key the value of `src`,
-- and where `src` has none the value that `dst` had.
pub lookup-string_map :
    {V : Type 0} (k : String) (dst src : Map String V)
    → UniqueKeys src
    → lookup k (string_map dst src) ≡ or_saved (lookup k src) (lookup k dst)
unfolding string_map lookup
lookup-string_map k dst [] u = refl
lookup-string_map k dst ((j, v) ∷ src) u =
    ground
      (arith, lookup-string_map k (insert j v dst) src u.1, lookup-insert k j v dst, eq_iff j k)
