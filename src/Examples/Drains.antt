-- ===== src/Examples/Drains.antt =====
-- pkg/operator/drain and pkg/operator/results at concrete inputs.
use vitess_operator.Prelude.{
  ◌≡◌, refl, arith, eq_iff, String, List, [], ◌∷◌, Map, some, false, lookup, insert, sort_by,
  string_eq,
}
use vitess_operator.Drain.{State, acknowledged_state, finished_state, state_transitions}
use vitess_operator.Drain.Transitions.{
  IsTransition, state_transitions-IsTransition, state_transitions_unique, state_transitions_order,
}
use vitess_operator.Results.{new, result}
use vitess_operator.Results.Totals.{Call, fail, after, also, run, run-new_lem}

-- Two tablets are acknowledged: the smaller name is finished.
abbrev two_acknowledged : Map String State
two_acknowledged = ("zone1-102", acknowledged_state) ∷ ("zone1-101", acknowledged_state) ∷ []

abbrev reordered : Map String State
reordered = ("zone1-101", acknowledged_state) ∷ ("zone1-102", acknowledged_state) ∷ []

same_reads : (k : String) → lookup k two_acknowledged ≡ lookup k reordered
unfolding lookup
same_reads k = ground (arith, eq_iff "zone1-101" k, eq_iff "zone1-102" k)

finishes_smaller : lookup "zone1-101" (state_transitions two_acknowledged) ≡ some finished_state
unfolding state_transitions lookup sort_by insert
finishes_smaller = refl

state_transitions-IsTransition_example :
    IsTransition two_acknowledged (state_transitions two_acknowledged)
unfolding lookup
state_transitions-IsTransition_example =
    state_transitions-IsTransition two_acknowledged (refl, (refl, tt))

state_transitions_unique_example : ◌≡◌ {A = String} "zone1-101" "zone1-101"
unfolding lookup
state_transitions_unique_example =
    state_transitions_unique two_acknowledged "zone1-101" "zone1-101" (refl, (refl, tt))
      finishes_smaller finishes_smaller

state_transitions_order_example :
    lookup "zone1-101" (state_transitions two_acknowledged)
    ≡ lookup "zone1-101" (state_transitions reordered)
unfolding lookup
state_transitions_order_example =
    state_transitions_order two_acknowledged reordered (refl, (refl, tt)) (refl, (refl, tt))
      same_reads "zone1-101"

abbrev calls : List (Call String)
calls =
    after 5
    ∷ also (record { requeue = false; requeue_after = 3 }) (some "timeout")
    ∷ fail "later"
    ∷ []

run-new_lem_example :
    result (run calls new) ≡ (record { requeue = false; requeue_after = 3 }, some "timeout")
run-new_lem_example = run-new_lem calls (omega arith, (tt, (tt, tt)))
