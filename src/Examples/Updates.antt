-- ===== src/Examples/Updates.antt =====
-- pkg/operator/update at concrete inputs.
use vitess_operator.Prelude.{◌≡◌, refl, ℕ, String, List, [], ◌∷◌, Map, some, lookup, string_eq}
use vitess_operator.Update.{
  Named, VolumeMount, env, volumes, volume_mounts, local_object_references, string_map,
}
use vitess_operator.Update.Keeps.{first_entry, first_entry-env, lookup-string_map}
use vitess_operator.Update.Idempotent.{updates_idem}

abbrev old_vars : List (Named ℕ)
old_vars = record { name = "A"; value = 1 } ∷ record { name = "INJECTED"; value = 2 } ∷ []

abbrev new_vars : List (Named ℕ)
new_vars = record { name = "B"; value = 3 } ∷ record { name = "A"; value = 4 } ∷ []

first_entry-env_example :
    first_entry (λ (e : Named ℕ). e.name) "A" (env old_vars new_vars)
    ≡ some (record { name = "A"; value = 4 })
first_entry-env_example = first_entry-env "A" old_vars new_vars

abbrev old_labels : Map String ℕ
old_labels = ("app", 1) ∷ ("mesh", 2) ∷ []

abbrev new_labels : Map String ℕ
new_labels = ("app", 3) ∷ []

lookup-string_map_example : lookup "mesh" (string_map old_labels new_labels) ≡ some 2
unfolding lookup
lookup-string_map_example = lookup-string_map "mesh" old_labels new_labels (refl, tt)

abbrev no_mounts : List (VolumeMount ℕ)
no_mounts = []

abbrev a_mount : List (VolumeMount ℕ)
a_mount = record { mount_path = "/vt"; value = 1 } ∷ []

updates_idem_example :
    (env (env old_vars new_vars) new_vars ≡ env old_vars new_vars)
    × (volumes (volumes old_vars new_vars) new_vars ≡ volumes old_vars new_vars)
    × (local_object_references (local_object_references old_vars new_vars) new_vars
        ≡ local_object_references old_vars new_vars)
    × (volume_mounts (volume_mounts no_mounts a_mount) a_mount ≡ volume_mounts no_mounts a_mount)
updates_idem_example = updates_idem old_vars new_vars no_mounts a_mount
