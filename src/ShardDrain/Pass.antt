-- ===== src/ShardDrain/Pass.antt =====
-- A drain pass returns: no Pod is missing, and no Pod is set to a state that it panics on.
use vitess_operator.Prelude.{
  ◌≡◌, refl, inl, inr, sym, subst, ap, String, Bool, true, false, ◌&&◌, ◌||◌, Option, none, some,
  [], ◌∷◌, Map, lookup, insert, keys, lookup-insert, All, In-All, In, In-keys_iff, arith, string_eq,
  ◌==◌, Bool-cases, Option-cases, Answer-cases, is_some, if◌then◌else◌,
}
use vitess_operator.Meta.{ObjectMeta}
use vitess_operator.Drain
use vitess_operator.Drain.{
  State, not_draining, draining, acknowledged_state, finished_state, state_transitions,
}
use vitess_operator.ShardDrain.Inputs.{Pod, Tablet, Env}
use vitess_operator.ShardDrain.Status.{touch}
use vitess_operator.ShardDrain.Writable.{
  HasPod, is_draining, IsWritable, IsCovered, All-map, All-insert, touch-is_some,
  state_transitions-IsWritable,
}
use vitess_operator.ShardDrain.Loops.{
  Progress, sent, index_pods, update_drain_status, load_drain, load_drains, apply_transition,
  apply_transitions, advance_drains, is_finished, is_acknowledged, after_load, idle, drain_tablets,
  reconcile_drain,
}

module _ {P E : Type 0} (env : Env P E) where
  -- A step that returns, loses no Pod, and leaves the drains covered by Pods.
  abbrev Keeps : Progress E → Option (Progress E) → Type 0
  Keeps p none = ⊥
  Keeps p (some p') =
      ((k : String) → HasPod p.pods k → HasPod p'.pods k)
      × (All (IsCovered p.pods) p.drains → All (IsCovered p'.pods) p'.drains)

  grow :
      (pods pods' : Map String Pod) (drains : Map String State)
      → ((k : String) → HasPod pods k → HasPod pods' k)
      → All (IsCovered pods) drains
      → All (IsCovered pods') drains
  grow pods pods' drains f h = All-map (IsCovered pods) (IsCovered pods') drains (λ e c. f e.0 c) h

  HasPod-insert :
      (pods : Map String Pod) (alias : String) (pod : Pod) (k : String)
      → HasPod pods k
      → HasPod (insert alias pod pods) k
  HasPod-insert pods alias pod k h = ground (arith, lookup-insert k alias pod pods)

  update_drain_status-Keeps :
      (alias : String) (pod : Pod) (s : State) (p : Progress E)
      → is_draining s ≡ false
      → Keeps p (update_drain_status env alias pod s p)
  unfolding update_drain_status
  update_drain_status-Keeps alias pod s p h =
      of_touch (touch env.now s pod.meta) (touch-is_some env.now s pod.meta h)
    where
      of_touch :
          (r : Option (ObjectMeta × Bool))
          → is_some r ≡ true
          → Keeps p (elim r [
            | none ↦ none
            | some (meta, changed) ↦
                some (if changed then sent env alias (record pod { meta = meta }) p else p)
          ])
      of_touch none e = cc
      of_touch (some (meta, true)) e =
          let pod' = record pod { meta = meta } in
          let f = HasPod-insert p.pods alias pod' in
          (f, grow p.pods (insert alias pod' p.pods) p.drains f)
      of_touch (some (meta, false)) e = ((λ k g. g), λ g. g)

  load_drain-Keeps :
      (alias : String) (pod : Pod) (p : Progress E)
      → HasPod p.pods alias
      → Keeps p (load_drain env alias pod p)
  unfolding load_drain
  load_drain-Keeps alias pod p h = elim (Bool-cases (Drain.started pod.meta)) [
    | inl e ↦ rw e (
      (λ k g. g),
      λ g. All-insert (IsCovered p.pods) alias (Drain.get_state pod.meta).0 p.drains h g,
    )
    | inr e ↦
        let p' = record p {
          aborting = p.aborting || Drain.acknowledged pod.meta || Drain.finished pod.meta;
        } in
        rw e (update_drain_status-Keeps alias pod not_draining p' refl)
  ]

  abbrev IsLoaded : Option (Progress E) → Type 0
  IsLoaded none = ⊥
  IsLoaded (some p) = All (IsCovered p.pods) p.drains

  load_drains-IsLoaded :
      (pods : Map String Pod) (p : Progress E)
      → All (λ e. HasPod p.pods e.0) pods
      → All (IsCovered p.pods) p.drains
      → IsLoaded (load_drains env pods p)
  unfolding load_drains
  load_drains-IsLoaded [] p h c = c
  load_drains-IsLoaded ((alias, pod) ∷ pods) p h c =
      elim (Option-cases (load_drain env alias pod p)) [
        | inl e ↦ absurd (subst (Keeps p) e (load_drain-Keeps alias pod p h.0))
        | inr (p', e) ↦
            let (f, g) : Keeps p (some p') = subst (Keeps p) e (load_drain-Keeps alias pod p h.0) in
            let rest : IsLoaded (load_drains env pods p') =
              load_drains-IsLoaded pods p'
                (All-map (λ x. HasPod p.pods x.0) (λ x. HasPod p'.pods x.0) pods (λ x i. f x.0 i)
                  h.1)
                (g c) in
            let go : load_drains env ((alias, pod) ∷ pods) p ≡ load_drains env pods p' =
              ground arith in
            subst IsLoaded (sym go) rest
      ]

  apply_transition-Keeps :
      (primary_alias alias : String) (s : State) (p : Progress E)
      → IsWritable p.pods (alias, s)
      → Keeps p (apply_transition env primary_alias alias s p)
  unfolding apply_transition
  apply_transition-Keeps primary_alias alias s p h =
      elim (Bool-cases (is_finished s && alias == primary_alias)) [
        | inl e ↦ rw e ((λ k g. g), λ g. g)
        | inr e ↦ elim (Option-cases (lookup alias p.pods)) [
          | inl n ↦ absurd (ground (arith, h.0))
          | inr (pod, found) ↦
              let p' = record p { acknowledged = p.acknowledged || is_acknowledged s } in
              let step : Keeps p (update_drain_status env alias pod s p') =
                update_drain_status-Keeps alias pod s p' h.1 in
              rw (e, found) step
        ]
      ]

  apply_transitions-returns :
      (primary_alias : String) (transitions : Map String State) (p : Progress E)
      → All (IsWritable p.pods) transitions
      → is_some (apply_transitions env primary_alias transitions p) ≡ true
  unfolding apply_transitions
  apply_transitions-returns primary_alias [] p h = refl
  apply_transitions-returns primary_alias ((alias, s) ∷ transitions) p h =
      elim (Option-cases (apply_transition env primary_alias alias s p)) [
        | inl e ↦ absurd (subst (Keeps p) e (apply_transition-Keeps primary_alias alias s p h.0))
        | inr (p', e) ↦
            let (f, g) : Keeps p (some p') =
              subst (Keeps p) e (apply_transition-Keeps primary_alias alias s p h.0) in
            let rest : is_some (apply_transitions env primary_alias transitions p') ≡ true =
              apply_transitions-returns primary_alias transitions p' (
                All-map (IsWritable p.pods) (IsWritable p'.pods) transitions
                  (λ x w. (f x.0 w.0, w.1)) h.1) in
            ground (arith, rest)
      ]

  advance_drains-returns :
      (primary_alias : String) (tablets : Map String Tablet) (p : Progress E)
      → All (IsCovered p.pods) p.drains
      → is_some (advance_drains env primary_alias tablets p) ≡ true
  unfolding advance_drains
  advance_drains-returns primary_alias tablets p h =
      let transitions = state_transitions p.drains in
      let some_p =
        apply_transitions-returns primary_alias transitions p
          (state_transitions-IsWritable p.pods p.drains h) in
      elim (Option-cases (apply_transitions env primary_alias transitions p)) [
        | inl e ↦ absurd (ground (arith, some_p))
        | inr (p', e) ↦ ground arith
      ]

  own_keys : (pods : Map String Pod) → All (λ e. HasPod pods e.0) pods
  own_keys pods =
      In-All (λ e. HasPod pods e.0) pods (λ e i. (In-keys_iff e.0 pods).0 (In-keys e pods i))
    where
      In-keys : (e : String × Pod) (m : Map String Pod) → In e m → In e.0 (keys m)
      In-keys e ((k, v) ∷ m) (inl same) = inl (ap (λ x. x.0) same)
      In-keys e ((k, v) ∷ m) (inr i) = inr (In-keys e m i)
      In-keys e [] i = elim i [ ]

  drain_tablets-returns :
      (primary_alias : String) (pods : Map String Pod) (tablets : Map String Tablet)
      → is_some (drain_tablets env primary_alias pods tablets) ≡ true
  unfolding drain_tablets
  drain_tablets-returns primary_alias pods tablets =
      let loaded : IsLoaded (load_drains env pods (idle env pods)) =
        load_drains-IsLoaded pods (idle env pods) (own_keys pods) tt in
      elim (Option-cases (load_drains env pods (idle env pods))) [
        | inl e ↦ absurd (subst IsLoaded e loaded)
        | inr (p, e) ↦
            let covered : IsLoaded (some p) = subst IsLoaded e loaded in
            let done = advance_drains-returns primary_alias tablets p covered in
            ground (arith, after_load-returns primary_alias tablets p done)
      ]
    where
      after_load-returns :
          (primary_alias : String) (tablets : Map String Tablet) (p : Progress E)
          → is_some (advance_drains env primary_alias tablets p) ≡ true
          → is_some (after_load env primary_alias tablets p) ≡ true
      after_load-returns primary_alias tablets p done = ground (arith, done)

  -- `reconcileDrain` does not panic: it reads no Pod that is missing, and sets no Pod to a state that
  -- `updateDrainStatus` panics on, whatever the server, the topology server and the tablets answer.
  pub reconcile_drain-is_some : is_some (reconcile_drain env) ≡ true
  unfolding reconcile_drain
  reconcile_drain-is_some = elim (Answer-cases env.list_pods) [
    | inr (x, e) ↦ ground (arith, e)
    | inl (pod_list, e) ↦ elim (Answer-cases env.get_shard) [
      | inr (x, e') ↦ ground (arith, e, e')
      | inl (primary_alias, e') ↦ elim (Answer-cases env.get_tablets) [
        | inr (x, e'') ↦ ground (arith, e, e', e'')
        | inl (tablets, e'') ↦ elim (Option-cases primary_alias) [
          | inl n ↦ ground (arith, e, e', e'', n)
          | inr (alias, a) ↦
              ground
                (arith, e, e', e'', a, drain_tablets-returns alias (index_pods pod_list []) tablets)
        ]
      ]
    ]
  ]
