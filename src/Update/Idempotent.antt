-- ===== src/Update/Idempotent.antt =====
-- A second update by the same values changes nothing, so a reconciler that updates an object in
-- place comes to rest.
use vitess_operator.Prelude.{
  ◌≡◌, refl, ◌∙◌, sym, ap, inl, inr, String, true, false, some, List, [], ◌∷◌, eq_iff, string_eq,
  arith, Bool-cases, Option-cases, ◌==◌, is_some,
}
use vitess_operator.Update.Merge.{
  Named, VolumeMount, update_entry, update_entries, replace, env, volumes, volume_mounts,
  local_object_references,
}
use vitess_operator.Update.Container.{or_saved}
use vitess_operator.Update.Keeps.{same_key, first_entry, last_entry, first_entry-update_entries}

module _ {A : Type 0} (key : A → String) where
  abbrev put : A → List A → List A
  put = update_entry (same_key key) replace

  put_again : (s t : A) (x : List A) → key t ≡ key s → put t (put s x) ≡ put t x
  unfolding update_entry
  put_again s t [] e = ground (arith, eq_iff (key s) (key t))
  put_again s t (d ∷ x) e =
      ground (arith, put_again s t x e, eq_iff (key s) (key t), eq_iff (key d) (key t))

  put_comm :
      (s t : A) (x : List A)
      → (key s == key t) ≡ false
      → is_some (first_entry key (key s) x) ≡ true
      → put t (put s x) ≡ put s (put t x)
  unfolding update_entry
  put_comm s t [] e h = cc
  put_comm s t (d ∷ x) e h = ground (
    arith,
    put_comm s t x e,
    eq_iff (key s) (key t),
    eq_iff (key t) (key s),
    eq_iff (key d) (key t),
    eq_iff (key d) (key s),
  )

  put_fixed : (s : A) (x : List A) → first_entry key (key s) x ≡ some s → put s x ≡ x
  unfolding update_entry
  put_fixed s [] h = cc
  put_fixed s (d ∷ x) h = ground (arith, put_fixed s x)

  put-present :
      (k : String) (t : A) (x : List A)
      → is_some (first_entry key k x) ≡ true
      → is_some (first_entry key k (put t x)) ≡ true
  unfolding update_entry
  put-present k t [] h = cc
  put-present k t (d ∷ x) h =
      ground (arith, put-present k t x, eq_iff (key d) (key t), eq_iff (key t) k, eq_iff (key d) k)

  -- What is overwritten later need not be written.
  put_overwritten :
      (s : A) (x src : List A)
      → is_some (last_entry key (key s) src) ≡ true
      → is_some (first_entry key (key s) x) ≡ true
      → update_entries (same_key key) replace (put s x) src
        ≡ update_entries (same_key key) replace x src
  unfolding update_entries
  put_overwritten s x [] h k = cc
  put_overwritten s x (t ∷ src) h k = elim (Bool-cases (key s == key t)) [
    | inl e ↦
        ap (λ z. update_entries (same_key key) replace z src)
          (put_again s t x (sym ((eq_iff (key s) (key t)).0 e)))
    | inr e ↦
        ap (λ z. update_entries (same_key key) replace z src) (put_comm s t x e k)
        ∙ put_overwritten s (put t x) src
            (ground (arith, eq_iff (key s) (key t), eq_iff (key t) (key s)))
            (put-present (key s) t x k)
  ]

  put-first : (s : A) (x : List A) → first_entry key (key s) (put s x) ≡ some s
  unfolding update_entry
  put-first s [] = ground (arith, eq_iff (key s) (key s))
  put-first s (d ∷ x) =
      ground (arith, put-first s x, eq_iff (key s) (key s), eq_iff (key d) (key s))

  abbrev put_all : List A → List A → List A
  put_all = update_entries (same_key key) replace

  put_all_again :
      (s : A) (x src : List A)
      → put_all (put_all (put s x) src) src ≡ put_all (put s x) src
      → first_entry key (key s) (put_all (put s x) src)
        ≡ or_saved (last_entry key (key s) src) (some s)
      → put_all (put s (put_all (put s x) src)) src ≡ put_all (put s x) src
  put_all_again s x src again at =
      let y = put_all (put s x) src in
      elim (Option-cases (last_entry key (key s) src)) [
        | inl e ↦
            ap (λ z. put_all z src) (put_fixed s y (at ∙ ap (λ o. or_saved o (some s)) e)) ∙ again
        | inr (last, e) ↦
            put_overwritten s y src (ap is_some e)
              (ap is_some (at ∙ ap (λ o. or_saved o (some s)) e))
            ∙ again
      ]

  update_entries_idem : (dst src : List A) → put_all (put_all dst src) src ≡ put_all dst src
  unfolding update_entries
  update_entries_idem dst [] = refl
  update_entries_idem dst (s ∷ src) =
      put_all_again s dst src (update_entries_idem (put s dst) src) (
        first_entry-update_entries key (key s) (put s dst) src
        ∙ ap (or_saved (last_entry key (key s) src)) (put-first s dst))

-- `Env`, `Volumes`, `LocalObjectReferences` and `VolumeMounts` change nothing when they are called
-- again with the same values.
pub updates_idem :
    {V : Type 0} (dst src : List (Named V)) (mounts mounts' : List (VolumeMount V))
    → (env (env dst src) src ≡ env dst src)
      × (volumes (volumes dst src) src ≡ volumes dst src)
      × (local_object_references (local_object_references dst src) src
          ≡ local_object_references dst src)
      × (volume_mounts (volume_mounts mounts mounts') mounts' ≡ volume_mounts mounts mounts')
unfolding env volumes local_object_references volume_mounts
updates_idem dst src mounts mounts' = (
  update_entries_idem (λ e. e.name) dst src,
  update_entries_idem (λ e. e.name) dst src,
  update_entries_idem (λ e. e.name) dst src,
  update_entries_idem (λ e. e.mount_path) mounts mounts',
)
