-- ===== src/Prelude/Maps.antt =====
-- Go's maps as association lists. The order of the entries is the order in which a `range` loop
-- meets them, which Go leaves open: what is proved of every list holds for every such order.
use mathlib.Core.Path.{◌≡◌, refl}
use mathlib.Core.Logic.{◌↔◌}
use mathlib.Core.Bool.{true}
use mathlib.Core.Option.{Option, none, some}
use mathlib.Core.List.{List, [], ◌∷◌}
use native.Mathlib.Omega.{arith}
use vitess_operator.Prelude.Tests.{Comparable, ◌==◌, if◌then◌else◌, is_some}
use vitess_operator.Prelude.Lists.{In}

abbrev pub Map {ℓ κ} : Type ℓ → Type κ → Type (ℓ ⊔ κ)
Map K V = List (K × V)

module _ {ℓ κ} {K : Type ℓ} {V : Type κ} where
  abbrev pub keys : Map K V → List K
  keys [] = []
  keys ((k, v) ∷ m) = k ∷ keys m

module _ {ℓ κ} {K : Type ℓ} ⦃e : Comparable K⦄ {V : Type κ} where
  -- `v, ok := m[k]`
  unfoldable pub lookup : K → Map K V → Option V
  lookup k [] = none
  lookup k ((key, value) ∷ rest) = if key == k then some value else lookup k rest

  -- `m[k] = v`
  unfoldable pub insert : K → V → Map K V → Map K V
  insert k v [] = (k, v) ∷ []
  insert k v ((key, value) ∷ rest) =
      if key == k then (k, v) ∷ rest else (key, value) ∷ insert k v rest

  -- `delete(m, k)`
  unfoldable pub delete : K → Map K V → Map K V
  delete k [] = []
  delete k ((j, w) ∷ m) = if j == k then delete k m else (j, w) ∷ delete k m

  pub lookup-insert :
      (j k : K) (v : V) (m : Map K V)
      → lookup j (insert k v m) ≡ (if k == j then some v else lookup j m)
  unfolding lookup insert
  lookup-insert j k v [] = refl
  lookup-insert j k v ((i, w) ∷ m) =
      ground (arith, e.same_iff k j, e.same_iff i k, e.same_iff i j, lookup-insert j k v m)

  pub lookup-delete :
      (j k : K) (m : Map K V) → lookup j (delete k m) ≡ (if k == j then none else lookup j m)
  unfolding lookup delete
  lookup-delete j k [] = ground arith
  lookup-delete j k ((i, w) ∷ m) =
      ground (arith, e.same_iff k j, e.same_iff i k, e.same_iff i j, lookup-delete j k m)

  -- No key stands twice: every value that Go calls a map is of this form.
  abbrev pub UniqueKeys : Map K V → Type κ
  UniqueKeys [] = Unit
  UniqueKeys ((k, v) ∷ m) = (lookup k m ≡ none) × UniqueKeys m

  pub insert-UniqueKeys : (k : K) (v : V) (m : Map K V) → UniqueKeys m → UniqueKeys (insert k v m)
  unfolding insert lookup
  insert-UniqueKeys k v [] h = (refl, tt)
  insert-UniqueKeys k v ((j, w) ∷ m) h =
      ground (arith, insert-UniqueKeys k v m, lookup-insert j k v m, e.same_iff j k, e.same_iff k j)

  pub delete-UniqueKeys : (k : K) (m : Map K V) → UniqueKeys m → UniqueKeys (delete k m)
  unfolding delete lookup
  delete-UniqueKeys k [] h = tt
  delete-UniqueKeys k ((j, w) ∷ m) h =
      ground (arith, delete-UniqueKeys k m, lookup-delete j k m, e.same_iff j k)

module _ {κ} {K : Type 0} ⦃e : Comparable K⦄ {V : Type κ} where
  pub In-keys_iff : (k : K) (m : Map K V) → In k (keys m) ↔ (is_some (lookup k m) ≡ true)
  unfolding lookup
  In-keys_iff k [] = ((λ h. elim h [ ]), λ h. cc)
  In-keys_iff k ((j, v) ∷ m) = ground (arith, In-keys_iff k m, e.same_iff j k)
