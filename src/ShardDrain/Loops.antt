-- ===== src/ShardDrain/Loops.antt =====
-- `reconcileDrain` of reconcile_drain.go: its loops, and the pass that is made of them.
use vitess_operator.Prelude.{
  String, Bool, true, false, ◌&&◌, ◌||◌, not, Option, none, some, List, [], ◌∷◌, ◌++◌, Map, Answer,
  ok, err, lookup, insert, or_zero, if◌then◌else◌, string_eq, ◌==◌,
}
use vitess_operator.Drain
use vitess_operator.Drain.{
  State, not_draining, draining, acknowledged_state, finished_state, state_transitions,
}
use vitess_operator.Results.{Builder, new, error, requeue_after}
use vitess_operator.ShardDrain.Inputs.{
  Container, Pod, Tablet, Env, Action, updated, fetched, reparented, reparented_externally,
  made_spare, mysqld_container, replication_requeue_delay,
}
use vitess_operator.ShardDrain.Choice.{candidate_primary}
use vitess_operator.ShardDrain.Status.{touch, is_shard_healthy}

-- What a pass has done so far.
pub record Progress (E : Type 0) : Type 0 where
  pub pods : Map String Pod
  pub drains : Map String State
  pub aborting : Bool
  pub acknowledged : Bool
  pub actions : List Action
  pub results : Builder E

-- The map from tablet alias to Pod.
unfoldable pub index_pods : List Pod → Map String Pod → Map String Pod
index_pods [] m = m
index_pods (pod ∷ pods) m = index_pods pods (insert pod.alias pod m)

abbrev pub is_finished : State → Bool
is_finished finished_state = true
is_finished _ = false

abbrev pub is_acknowledged : State → Bool
is_acknowledged acknowledged_state = true
is_acknowledged _ = false

-- `drains[alias] == drain.FinishedState`
abbrev pub finished_in : String → Map String State → Bool
finished_in alias states = is_finished (or_zero not_draining (lookup alias states))

module _ {P E : Type 0} (env : Env P E) where
  abbrev note_error : Option E → Builder E → Builder E
  note_error none results = results
  note_error (some e) results = error e results

  abbrev pub sent : String → Pod → Progress E → Progress E
  sent alias pod p = record p {
    pods = insert alias pod p.pods;
    actions = p.actions ++ updated alias pod.meta ∷ [];
    results = note_error (env.update pod) p.results;
  }

  -- `updateDrainStatus`, with the error noted by the caller. The panic is `none`.
  unfoldable pub update_drain_status : String → Pod → State → Progress E → Option (Progress E)
  unfolding touch
  update_drain_status alias pod state p = elim (touch env.now state pod.meta) [
    | none ↦ none
    | some (meta, changed) ↦ some (if changed then sent alias (record pod { meta = meta }) p else p)
  ]

  -- One round of the loop that loads the drain state.
  unfoldable pub load_drain : String → Pod → Progress E → Option (Progress E)
  unfolding update_drain_status
  load_drain alias pod p =
      if Drain.started pod.meta
      then some (record p { drains = insert alias (Drain.get_state pod.meta).0 p.drains })
      else update_drain_status alias pod not_draining (record p {
        aborting = p.aborting || Drain.acknowledged pod.meta || Drain.finished pod.meta;
      })

  unfoldable pub load_drains : Map String Pod → Progress E → Option (Progress E)
  load_drains [] p = some p
  load_drains ((alias, pod) ∷ pods) p = elim (load_drain alias pod p) [
    | none ↦ none
    | some p' ↦ load_drains pods p'
  ]

  -- One round of the loop over the transitions. A missing Pod is the panic of a nil pointer.
  unfoldable pub apply_transition : String → String → State → Progress E → Option (Progress E)
  unfolding update_drain_status
  apply_transition primary_alias alias state p =
      let p' = record p { acknowledged = p.acknowledged || is_acknowledged state } in
      if is_finished state && alias == primary_alias then some p else elim (lookup alias p.pods) [
        | none ↦ none
        | some pod ↦ update_drain_status alias pod state p'
      ]

  unfoldable pub apply_transitions : String → Map String State → Progress E → Option (Progress E)
  apply_transitions primary_alias [] p = some p
  apply_transitions primary_alias ((alias, state) ∷ transitions) p =
      elim (apply_transition primary_alias alias state p) [
        | none ↦ none
        | some p' ↦ apply_transitions primary_alias transitions p'
      ]

  abbrev pub current_image : List Container → String
  current_image [] = ""
  current_image (c ∷ cs) = if c.name == mysqld_container then c.image else current_image cs

  abbrev pub shut_down_slowly : Answer Bool E → Tablet → List Action × Option E
  shut_down_slowly (err e) tablet = ([], some e)
  shut_down_slowly (ok false) tablet = ([], none)
  shut_down_slowly (ok true) tablet = (fetched tablet ∷ [], env.execute_fetch tablet)

  abbrev pub and_then : List Action × Option E → List Action × Option E → List Action × Option E
  and_then (actions, some e) rest = (actions, some e)
  and_then (actions, none) (more, e) = (actions ++ more, e)

  unfoldable pub disable_fast_shutdown : Map String Pod → Map String Tablet → List Action × Option E
  disable_fast_shutdown [] tablets = ([], none)
  disable_fast_shutdown ((alias, pod) ∷ pods) tablets =
      let rest = disable_fast_shutdown pods tablets in
      elim (lookup alias tablets) [
        | none ↦ rest
        | some tablet ↦
            and_then
              (shut_down_slowly (env.safe_upgrade (current_image pod.containers) env.desired_image)
                tablet)
              rest
      ]

  abbrev pub spare_after : Option E → String → List Action
  spare_after none old = made_spare old ∷ []
  spare_after (some e) old = []

  -- The reparent itself. Its error is an event and a metric, and not an error of the pass.
  unfoldable pub reparent : String → Tablet → List Action
  reparent primary_alias new =
      if env.using_external
      then reparented_externally new ∷ spare_after (env.externally_reparented new) primary_alias
      else reparented new ∷ []

  abbrev pub requeue_later : Progress E → Progress E
  requeue_later p = record p { results = requeue_after replication_requeue_delay p.results }

  -- Part 5: whether the primary is reparented, and to which tablet.
  unfoldable pub settle_primary :
      String → Map String Tablet → Map String State → Progress E → Progress E
  unfolding reparent
  settle_primary primary_alias tablets transitions p =
      if p.acknowledged && not (finished_in primary_alias p.drains)
      then p
      else if not (finished_in primary_alias p.drains)
          && not (finished_in primary_alias transitions)
      then p
      else elim (candidate_primary env primary_alias p.pods tablets) [
        | none ↦ requeue_later p
        | some new ↦ record p { actions = p.actions ++ reparent primary_alias new }
      ]

  abbrev pub after_shutdown :
      String
      → Map String Tablet
      → Map String State
      → Progress E
      → List Action × Option E
      → Progress E
  after_shutdown primary_alias tablets transitions p (actions, none) =
      settle_primary primary_alias tablets transitions (record p { actions = p.actions ++ actions })
  after_shutdown primary_alias tablets transitions p (actions, some e) = record p {
    actions = p.actions ++ actions;
    results = error e p.results;
  }

  -- Parts 3 to 5, on the drains that were loaded.
  unfoldable pub advance_drains : String → Map String Tablet → Progress E → Option (Progress E)
  unfolding apply_transitions disable_fast_shutdown settle_primary
  advance_drains primary_alias tablets p =
      let transitions = state_transitions p.drains in
      elim (apply_transitions primary_alias transitions p) [
        | none ↦ none
        | some p' ↦ some (
            after_shutdown primary_alias tablets transitions p'
              (disable_fast_shutdown p'.pods tablets))
      ]

  abbrev pub is_empty : Map String State → Bool
  is_empty [] = true
  is_empty (entry ∷ m) = false

  -- Part 2: nothing more is done without a drain, or while one is being aborted.
  abbrev pub after_load : String → Map String Tablet → Progress E → Option (Progress E)
  after_load primary_alias tablets p =
      if is_empty p.drains
      then some p
      else if p.aborting
      then some p
      else advance_drains primary_alias tablets p

  abbrev pub idle : Map String Pod → Progress E
  idle pods = record {
    pods = pods;
    drains = [];
    aborting = false;
    acknowledged = false;
    actions = [];
    results = new;
  }

  unfoldable pub drain_tablets : String → Map String Pod → Map String Tablet → Option (Progress E)
  unfolding load_drains advance_drains
  drain_tablets primary_alias pods tablets = elim (load_drains pods (idle pods)) [
    | none ↦ none
    | some p ↦ after_load primary_alias tablets p
  ]

  -- `reconcileDrain`. A panic is `none`.
  unfoldable pub reconcile_drain : Option (Progress E)
  unfolding index_pods is_shard_healthy drain_tablets
  reconcile_drain = elim env.list_pods [
    | err e ↦ some (record (idle []) { results = error e new })
    | ok pod_list ↦ elim env.get_shard [
      | err e ↦ some (requeue_later (idle []))
      | ok primary_alias ↦ elim env.get_tablets [
        | err e ↦ some (requeue_later (idle []))
        | ok tablets ↦
            let pods = index_pods pod_list [] in
            if not (is_shard_healthy env.available) then some (idle pods) else elim primary_alias [
              | none ↦ some (idle pods)
              | some alias ↦ drain_tablets alias pods tablets
            ]
      ]
    ]
  ]
