-- ===== src/Update/Merge.antt =====
-- podspec.go and metadata.go: the loops that update a list or a map entry by entry.
use vitess_operator.Prelude.{
  String, Bool, Option, or_zero, List, [], ◌∷◌, Map, insert, if◌then◌else◌, string_eq, ◌==◌,
}

-- A list entry that is known by its name (`Volume`, `EnvVar`, `LocalObjectReference`).
pub record Named (V : Type 0) : Type 0 where
  pub name : String
  pub value : V

-- `VolumeMount` is known by its path.
pub record VolumeMount (V : Type 0) : Type 0 where
  pub mount_path : String
  pub value : V

-- The two nested loops that these functions share: the first entry of `dst` that is the same item
-- is merged with `src`, and where there is none `src` is appended.
module _ {A : Type 0} (same : A → A → Bool) (merge : A → A → A) where
  unfoldable pub update_entry : A → List A → List A
  update_entry src [] = src ∷ []
  update_entry src (d ∷ dst) = if same d src then merge d src ∷ dst else d ∷ update_entry src dst

  unfoldable pub update_entries : List A → List A → List A
  unfolding update_entry
  update_entries dst [] = dst
  update_entries dst (s ∷ src) = update_entries (update_entry s dst) src

abbrev pub replace : {A : Type 0} → A → A → A
replace d s = s

abbrev same_name : {V : Type 0} → Named V → Named V → Bool
same_name d s = d.name == s.name

abbrev same_path : {V : Type 0} → VolumeMount V → VolumeMount V → Bool
same_path d s = d.mount_path == s.mount_path

module _ {V : Type 0} where
  unfoldable pub volumes : List (Named V) → List (Named V) → List (Named V)
  unfolding update_entries
  volumes = update_entries same_name replace

  unfoldable pub volume_mounts : List (VolumeMount V) → List (VolumeMount V) → List (VolumeMount V)
  unfolding update_entries
  volume_mounts = update_entries same_path replace

  unfoldable pub local_object_references : List (Named V) → List (Named V) → List (Named V)
  unfolding update_entries
  local_object_references = update_entries same_name replace

  unfoldable pub env : List (Named V) → List (Named V) → List (Named V)
  unfolding update_entries
  env = update_entries same_name replace

  -- `MatchToleration` is the argument.
  unfoldable tolerations : (V → V → Bool) → List V → List V → List V
  unfolding update_entries
  tolerations match_toleration = update_entries match_toleration replace

  -- `metav1.LabelSelectorAsMap` (`none` is its error), `reflect.DeepEqual` and the empty map are the
  -- arguments.
  unfoldable topology_spread_constraints :
      {M : Type 0} → (V → Option M) → (M → M → Bool) → M → List V → List V → List V
  unfolding update_entries
  topology_spread_constraints as_map equal empty =
      update_entries (λ d s. equal (or_zero empty (as_map d)) (or_zero empty (as_map s))) replace

  -- `StringMap`, and `ResourceList`, which is the same loop over another type of values.
  unfoldable pub string_map : Map String V → Map String V → Map String V
  string_map dst [] = dst
  string_map dst ((k, v) ∷ src) = string_map (insert k v dst) src

unfoldable pub labels : Map String String → Map String String → Map String String
unfolding string_map
labels dst src = string_map dst src

unfoldable pub annotations : Map String String → Map String String → Map String String
unfolding string_map
annotations dst src = string_map dst src

unfoldable pub resource_list : {V : Type 0} → Map String V → Map String V → Map String V
unfolding string_map
resource_list dst src = string_map dst src
