-- ===== src/BackupController/Loop.antt =====
-- vitessbackupschedule_controller.go: all strategies of a schedule, and the whole pass.
use vitess_operator.Prelude.{
  Bool, true, false, String, Option, none, some, List, [], ◌∷◌, ◌++◌, Map, lookup, insert, ok, err,
  if◌then◌else◌, or_zero, string_eq,
}
use vitess_operator.Results.{new, merge, result}
use vitess_operator.BackupSchedule.{Strategy, validate_schedule_config, validate_strategies}
use vitess_operator.BackupController.Targets.{
  ExpansionContext, Schedule, schedule_suspended, expand_strategy,
  validate_no_duplicate_expanded_shard_targets, build_strategy_expansion_context,
}
use vitess_operator.BackupController.Pass.{
  PassError, config_problem, target_problem, Env, Settings, Status, Outcome, add_error,
  reconcile_strategy,
}

-- The strategies seen, as a Go map, and what has been done.
pub record Progress : Type 0 where
  pub active_names : Map String Bool
  pub outcome : Outcome

abbrev pub add_outcome : Outcome → Outcome → Outcome
add_outcome r out = record {
  status = r.status;
  calls = out.calls ++ r.calls;
  results = merge (result r.results).0 (result r.results).1 out.results;
}

-- Keeps the entries of the strategies that were seen.
unfoldable pub keep_active : {V : Type 0} → Map String Bool → Map String V → Map String V
keep_active active [] = []
keep_active active ((name, v) ∷ m) =
    let rest = keep_active active m in
    if or_zero false (lookup name active) then (name, v) ∷ rest else rest

unfoldable pub keep_active_status : Map String Bool → Status → Status
unfolding keep_active
keep_active_status active status = record {
  last_scheduled_times = keep_active active status.last_scheduled_times;
  generated_schedules = keep_active active status.generated_schedules;
  next_scheduled_times = keep_active active status.next_scheduled_times;
}

module _ (env : Env) (cfg : Settings) (s : Schedule) where
  unfoldable pub reconcile_expanded : List Strategy → Progress → Option Progress
  unfolding reconcile_strategy
  reconcile_expanded [] p = some p
  reconcile_expanded (es ∷ expanded) p = elim (reconcile_strategy env cfg s es p.outcome.status) [
    | none ↦ none
    | some r ↦ reconcile_expanded expanded (record {
      active_names = insert es.name true p.active_names;
      outcome = add_outcome r p.outcome;
    })
  ]

  unfoldable pub reconcile_all : ExpansionContext → List Strategy → Progress → Option Progress
  unfolding expand_strategy reconcile_expanded
  reconcile_all ctx [] p = some p
  reconcile_all ctx (strategy ∷ strategies) p = elim (expand_strategy ctx strategy) [
    | err e ↦
        reconcile_all ctx strategies (record p { outcome = add_error (config_problem e) p.outcome })
    | ok expanded ↦ elim (reconcile_expanded expanded p) [
      | none ↦ none
      | some p' ↦ reconcile_all ctx strategies p'
    ]
  ]

  abbrev pub start_progress : Status → Progress
  start_progress status =
      let out : Outcome = record { status = status; calls = []; results = new } in
      record { active_names = []; outcome = out }

  abbrev pub finish_pass : Progress → Outcome
  unfolding keep_active_status
  finish_pass p = record p.outcome { status = keep_active_status p.active_names p.outcome.status }

  -- The part of `reconcileStrategies` after the checks.
  unfoldable pub reconcile_in : ExpansionContext → Status → Option Outcome
  unfolding reconcile_all keep_active_status
  reconcile_in ctx status = elim (reconcile_all ctx s.strategies (start_progress status)) [
    | none ↦ none
    | some p ↦ some (finish_pass p)
  ]

  -- The check for duplicates lists the keyspaces and the schedules by itself.
  unfoldable pub validate_no_duplicate_effective_shard_targets : Option PassError
  unfolding validate_no_duplicate_expanded_shard_targets build_strategy_expansion_context
  validate_no_duplicate_effective_shard_targets =
      elim (build_strategy_expansion_context env.parse_duration env.check_keyspaces s
        env.check_schedules) [
          | err e ↦ some e
          | ok ctx ↦ elim (validate_no_duplicate_expanded_shard_targets ctx s.strategies) [
            | some problem ↦ some (target_problem problem)
            | none ↦ none
          ]
        ]

  unfoldable pub reconcile_strategies : Status → Option Outcome
  unfolding validate_schedule_config validate_strategies
      validate_no_duplicate_effective_shard_targets build_strategy_expansion_context reconcile_in
  reconcile_strategies status =
      let out : Outcome = record { status = status; calls = []; results = new } in
      elim (validate_schedule_config env.parse_duration s.schedule s.frequency) [
        | some problem ↦ some (add_error (config_problem problem) out)
        | none ↦ elim (validate_strategies s.strategies) [
          | some problem ↦ some (add_error (config_problem problem) out)
          | none ↦ elim (validate_no_duplicate_effective_shard_targets) [
            | some e ↦ some (add_error e out)
            | none ↦
                elim (build_strategy_expansion_context env.parse_duration env.list_keyspaces s
                  env.list_schedules) [
                    | err e ↦ some (add_error e out)
                    | ok ctx ↦ reconcile_in ctx status
                  ]
          ]
        ]
      ]

  -- The status is written in any case: the source compares it with a copy of the whole object.
  abbrev pub write_status : Outcome → Outcome
  write_status r =
      let out = record r { results = merge (result r.results).0 (result r.results).1 new } in
      elim (env.update_status r.status) [ none ↦ out | some e ↦ add_error e out ]

  -- `Reconcile`, for a schedule that was found.
  unfoldable pub reconcile : Status → Option Outcome
  unfolding reconcile_strategies
  reconcile status =
      if schedule_suspended s
      then some (record { status = status; calls = []; results = new })
      else elim (reconcile_strategies status) [ none ↦ none | some r ↦ some (write_status r) ]
