-- ===== src/ShardDrain/Opening.antt =====
-- The loops of a drain pass over the Pods keep a primary that is not finished so.
use vitess_operator.Prelude.{
  ◌≡◌, refl, inl, inr, sym, subst, String, Bool, true, false, ◌&&◌, ◌||◌, Option, none, some, [],
  ◌∷◌, Map, lookup, All, All-append, arith, eq_iff, string_eq, ◌==◌, Bool-cases, Option-cases,
  if◌then◌else◌,
}
use vitess_operator.Meta.{ObjectMeta}
use vitess_operator.Drain
use vitess_operator.Drain.{
  State, not_draining, draining, acknowledged_state, finished_state, state_transitions,
}
use vitess_operator.Drain.Annotations as Asks
use vitess_operator.ShardDrain.Inputs.{Pod, Env, Action, updated}
use vitess_operator.ShardDrain.Status.{touch}
use vitess_operator.ShardDrain.Writable.{All-insert}
use vitess_operator.ShardDrain.Loops.{
  Progress, sent, update_drain_status, load_drain, load_drains, apply_transition, apply_transitions,
  is_finished, is_acknowledged,
}

-- No write marks the primary as finished.
abbrev pub IsSafe : String → Action → Type 0
IsSafe primary (updated alias m) = alias ≡ primary → Drain.finished m ≡ false
IsSafe primary _ = Unit

abbrev pub IsOpenAt : String → String × Pod → Type 0
IsOpenAt primary (alias, pod) = alias ≡ primary → Drain.finished pod.meta ≡ false

touch-finished :
    (now : String) (s : State) (m m' : ObjectMeta) (changed : Bool)
    → is_finished s ≡ false
    → Drain.finished m ≡ false
    → touch now s m ≡ some (m', changed)
    → Drain.finished m' ≡ false
unfolding touch Asks.reads
touch-finished now not_draining m m' changed e f t = ground (arith, Asks.reads-unacknowledge m)
touch-finished now draining m m' changed e f t = cc
touch-finished now acknowledged_state m m' changed e f t =
    ground (arith, Asks.reads-acknowledge m now)
touch-finished now finished_state m m' changed e f t = cc

module _ {P E : Type 0} (env : Env P E) (primary : String) where
  abbrev pub Inv : Progress E → Type 0
  Inv p = All (IsOpenAt primary) p.pods × All (IsSafe primary) p.actions

  abbrev pub After : Option (Progress E) → Type 0
  After none = Unit
  After (some p) = Inv p

  lookup-IsOpenAt :
      (alias : String) (pods : Map String Pod) (pod : Pod)
      → All (IsOpenAt primary) pods
      → lookup alias pods ≡ some pod
      → IsOpenAt primary (alias, pod)
  unfolding lookup
  lookup-IsOpenAt alias [] pod h e p = cc
  lookup-IsOpenAt alias ((k, v) ∷ pods) pod h e p =
      ground (arith, lookup-IsOpenAt alias pods pod h.1, eq_iff k alias, h.0)

  update_drain_status-Inv :
      (alias : String) (pod : Pod) (s : State) (p : Progress E)
      → Inv p
      → IsOpenAt primary (alias, pod)
      → (alias ≡ primary → is_finished s ≡ false)
      → After (update_drain_status env alias pod s p)
  unfolding update_drain_status
  update_drain_status-Inv alias pod s p i o f = of_touch (touch env.now s pod.meta) refl
    where
      of_touch :
          (r : Option (ObjectMeta × Bool))
          → touch env.now s pod.meta ≡ r
          → After (elim r [
            | none ↦ none
            | some (meta, changed) ↦
                some (if changed then sent env alias (record pod { meta = meta }) p else p)
          ])
      of_touch none e = tt
      of_touch (some (meta, true)) e =
          let pod' = record pod { meta = meta } in
          let open_ : IsOpenAt primary (alias, pod') =
            λ q. touch-finished env.now s pod.meta meta true (f q) (o q) e in
          (
            All-insert (IsOpenAt primary) alias pod' p.pods open_ i.0,
            All-append (IsSafe primary) p.actions (updated alias meta ∷ []) i.1 (open_, tt),
          )
      of_touch (some (meta, false)) e = i

  load_drain-Inv :
      (alias : String) (pod : Pod) (p : Progress E)
      → Inv p
      → IsOpenAt primary (alias, pod)
      → After (load_drain env alias pod p)
  unfolding load_drain
  load_drain-Inv alias pod p i o = elim (Bool-cases (Drain.started pod.meta)) [
    | inl e ↦ rw e i
    | inr e ↦
        let p' = record p {
          aborting = p.aborting || Drain.acknowledged pod.meta || Drain.finished pod.meta;
        } in
        rw e (update_drain_status-Inv alias pod not_draining p' i o (λ q. refl))
  ]

  pub load_drains-Inv :
      (pods : Map String Pod) (p : Progress E)
      → All (IsOpenAt primary) pods
      → Inv p
      → After (load_drains env pods p)
  unfolding load_drains
  load_drains-Inv [] p h i = i
  load_drains-Inv ((alias, pod) ∷ pods) p h i = elim (Option-cases (load_drain env alias pod p)) [
    | inl e ↦
        let stop : load_drains env ((alias, pod) ∷ pods) p ≡ none = ground arith in
        subst After (sym stop) tt
    | inr (p', e) ↦
        let i' : Inv p' = subst After e (load_drain-Inv alias pod p i h.0) in
        let go : load_drains env ((alias, pod) ∷ pods) p ≡ load_drains env pods p' = ground arith in
        subst After (sym go) (load_drains-Inv pods p' h.1 i')
  ]

  apply_transition-Inv :
      (alias : String) (s : State) (p : Progress E)
      → Inv p
      → After (apply_transition env primary alias s p)
  unfolding apply_transition
  apply_transition-Inv alias s p i = elim (Bool-cases (is_finished s && alias == primary)) [
    | inl e ↦ rw e i
    | inr e ↦ elim (Option-cases (lookup alias p.pods)) [
      | inl n ↦ rw (e, n) tt
      | inr (pod, found) ↦
          let p' = record p { acknowledged = p.acknowledged || is_acknowledged s } in
          let step : After (update_drain_status env alias pod s p') =
            update_drain_status-Inv alias pod s p' i (lookup-IsOpenAt alias p.pods pod i.0 found)
              (λ q. ground (arith, eq_iff alias primary)) in
          rw (e, found) step
    ]
  ]

  pub apply_transitions-Inv :
      (transitions : Map String State) (p : Progress E)
      → Inv p
      → After (apply_transitions env primary transitions p)
  unfolding apply_transitions
  apply_transitions-Inv [] p i = i
  apply_transitions-Inv ((alias, s) ∷ transitions) p i =
      elim (Option-cases (apply_transition env primary alias s p)) [
        | inl e ↦
            let stop : apply_transitions env primary ((alias, s) ∷ transitions) p ≡ none =
              ground arith in
            subst After (sym stop) tt
        | inr (p', e) ↦
            let i' : Inv p' = subst After e (apply_transition-Inv alias s p i) in
            let go : apply_transitions env primary ((alias, s) ∷ transitions) p
                ≡ apply_transitions env primary transitions p' =
              ground arith in
            subst After (sym go) (apply_transitions-Inv transitions p' i')
      ]
