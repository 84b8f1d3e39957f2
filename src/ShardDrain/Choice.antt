-- ===== src/ShardDrain/Choice.antt =====
-- `candidatePrimary` of reconcile_drain.go: the tablet that takes over from the primary.
use vitess_operator.Prelude.{
  String, Bool, false, ◌&&◌, ◌||◌, not, Option, none, some, List, [], ◌∷◌, Map, ok, err, lookup,
  map, arrive, or_zero, if◌then◌else◌, string_eq, ◌==◌,
}
use vitess_operator.Drain
use vitess_operator.Drain.{
  State, not_draining, draining, acknowledged_state, finished_state, state_transitions,
}
use vitess_operator.ShardDrain.Inputs.{
  Pod, TabletType, primary, replica, spare, other_type, Tablet, CandidateInfo, Env,
  tablet_type_label, external_master,
}

module _ {P E : Type 0} (env : Env P E) (primary_alias : String) (pods : Map String Pod) where
  abbrev pub type_fits : TabletType → Pod → Bool
  type_fits spare pod =
      env.using_external
      && (or_zero "" (lookup tablet_type_label pod.meta.labels) == external_master)
  type_fits primary pod =
      env.using_external
      && (or_zero "" (lookup tablet_type_label pod.meta.labels) == external_master)
  type_fits replica pod = not env.using_external
  type_fits other_type pod = false

  abbrev pub pod_fits : TabletType → Option Pod → Bool
  pod_fits t none = false
  pod_fits t (some pod) =
      type_fits t pod
      && pod.ready
      && not (Drain.started pod.meta || Drain.acknowledged pod.meta || Drain.finished pod.meta)

  -- The tests of the first loop of `candidatePrimary`.
  unfoldable pub is_candidate : String → Tablet → Bool
  is_candidate alias tablet =
      not (tablet.alias == primary_alias) && pod_fits tablet.tablet_type (lookup alias pods)

  unfoldable pub candidates : Map String Tablet → List Tablet
  unfolding is_candidate
  candidates [] = []
  candidates ((alias, tablet) ∷ tablets) =
      if is_candidate alias tablet then tablet ∷ candidates tablets else candidates tablets

  -- The second loop: the high point so far, and its tablet.
  unfoldable pub best_of : List (CandidateInfo P E) → Option Tablet → P → Option Tablet
  best_of [] best highest = best
  best_of (info ∷ infos) best highest = elim info.position [
    | err e ↦ best_of infos best highest
    | ok position ↦
        if env.is_zero highest || not (env.at_least highest position)
        then best_of infos (some info.tablet) position
        else best_of infos best highest
  ]

  -- What the goroutine of a candidate sends.
  abbrev pub ask : Tablet → CandidateInfo P E
  ask tablet = record { tablet = tablet; position = env.position_of tablet }

  abbrev pub ask_all : List Tablet → List (CandidateInfo P E)
  ask_all tablets = arrive env.arrival (map ask tablets)

  abbrev pub choose : List Tablet → Option Tablet
  choose [] = none
  choose (c ∷ cs) = elim (best_of (ask_all (c ∷ cs)) none env.zero_position) [
    | none ↦ some c
    | some best ↦ some best
  ]

  unfoldable pub candidate_primary : Map String Tablet → Option Tablet
  unfolding candidates best_of
  candidate_primary tablets = choose (candidates tablets)
