-- ===== src/DrainProtocol/Plan.antt =====
-- What a pass may write, in terms of how far the drains were when it read the Pods.
use vitess_operator.Prelude.{
  ◌≡◌, ◌⊎◌, inl, inr, String, true, false, some, List, [], ◌∷◌, Map, lookup, In, UniqueKeys,
  insert-UniqueKeys, lookup-insert, eq_iff, string_eq, arith, Bool-cases, str_lt,
}
use vitess_operator.Drain.{
  State, draining, acknowledged_state, finished_state, state_transitions, started, get_state,
}
use vitess_operator.Drain.Transitions.{IsNext, state_transitions-IsTransition}
use vitess_operator.DrainProtocol.{Pods, drains_of}
use vitess_operator.DrainProtocol.Phases.{phase, phase-get_state, phase-not_started}

drains_of-UniqueKeys : (names : List String) (pods : Pods) → UniqueKeys (drains_of names pods)
unfolding drains_of
drains_of-UniqueKeys [] pods = tt
drains_of-UniqueKeys (n ∷ ns) pods = ground (
  arith,
  drains_of-UniqueKeys ns pods,
  insert-UniqueKeys n (get_state (pods n)).0 (drains_of ns pods),
)

module _ (pods : Pods) (n : String) where
  -- An entry of `drains` is the state of a listed Pod with a request.
  lookup_sound-drains_of :
      (names : List String) (s : State)
      → lookup n (drains_of names pods) ≡ some s
      → In n names × (started (pods n) ≡ true) × (s ≡ (get_state (pods n)).0)
  unfolding drains_of lookup
  lookup_sound-drains_of [] s h = cc
  lookup_sound-drains_of (k ∷ ks) s h = ground (
    arith,
    lookup_sound-drains_of ks s,
    lookup-insert n k (get_state (pods k)).0 (drains_of ks pods),
    eq_iff k n,
  )

  lookup-drains_of_complete :
      (names : List String)
      → In n names
      → started (pods n) ≡ true
      → lookup n (drains_of names pods) ≡ some (get_state (pods n)).0
  unfolding drains_of
  lookup-drains_of_complete [] i e = elim i [ ]
  lookup-drains_of_complete (k ∷ ks) i e = ground (
    arith,
    lookup-drains_of_complete ks,
    lookup-insert n k (get_state (pods k)).0 (drains_of ks pods),
    eq_iff k n,
  )

module _ (names : List String) (pods : Pods) (n : String) where
  abbrev plan : Map String State
  plan = state_transitions (drains_of names pods)

  pub plan-acknowledges :
      lookup n plan ≡ some acknowledged_state → In n names × (phase (pods n) ≡ 1)
  plan-acknowledges h =
      let asked =
        ((state_transitions-IsTransition _ (drains_of-UniqueKeys names pods)).acknowledges n).0 h in
      let (listed, requested, s) = lookup_sound-drains_of pods n names draining asked in
      (listed, ground (arith, phase-get_state (pods n) requested))

  -- The Pod is acknowledged, and every other one is acknowledged too, with no smaller alias, or has
  -- no drain.
  pub plan-finishes :
      lookup n plan ≡ some finished_state
      → In n names
        × (phase (pods n) ≡ 2)
        × ((b : String)
            → In b names
            → (phase (pods b) ≡ 0) ⊎ (phase (pods b) ≡ 2) × (str_lt b n ≡ false))
  plan-finishes h =
      let (own, calm, open_, least) : IsNext (drains_of names pods) n =
        ((state_transitions-IsTransition _ (drains_of-UniqueKeys names pods)).finishes n).0 h in
      let (listed, requested, s) = lookup_sound-drains_of pods n names acknowledged_state own in
      (
        listed,
        ground (arith, phase-get_state (pods n) requested),
        λ b i. elim (Bool-cases (started (pods b))) [
          | inr e ↦ inl (phase-not_started (pods b) e)
          | inl e ↦ ground (
            arith,
            lookup-drains_of_complete pods b names i e,
            phase-get_state (pods b) e,
            calm b,
            open_ b,
            least b,
          )
        ],
      )

  pub plan-only :
      (s : State) → lookup n plan ≡ some s → (s ≡ acknowledged_state) ⊎ (s ≡ finished_state)
  plan-only s h = (state_transitions-IsTransition _ (drains_of-UniqueKeys names pods)).only n s h
