-- ===== src/BackupController/Guards.antt =====
-- vitessbackupschedule_controller.go, `Reconcile` and `reconcileStrategies`: the checks before the
-- first strategy.
use vitess_operator.Prelude.{
  ◌≡◌, refl, sym, ap, subst, ◌∙◌, inl, inr, true, false, none, some, List, In, ok, arith,
  Bool-cases, Option-cases, Answer-cases,
}
use vitess_operator.BackupSchedule.{Strategy, validate_schedule_config, validate_strategies}
use vitess_operator.BackupController.Targets.{
  ExpansionContext, Schedule, schedule_suspended, validate_no_duplicate_expanded_shard_targets,
  build_strategy_expansion_context,
}
use vitess_operator.BackupController.Duplicates.{
  expand_all, IsDistinct, validate_no_duplicate_expanded_shard_targets-none_iff,
}
use vitess_operator.BackupController.Pass.{Env, Settings, Status, PassCall, Outcome}
use vitess_operator.BackupController.Loop.{
  validate_no_duplicate_effective_shard_targets, reconcile_strategies, write_status, reconcile,
}

module _ (env : Env) (cfg : Settings) (s : Schedule) where
  -- The targets of the strategies, with the keyspaces and schedules that the check lists.
  abbrev HasDistinctTargets : Type 0
  HasDistinctTargets =
      (ctx : ExpansionContext) × (build_strategy_expansion_context env.parse_duration
          env.check_keyspaces s env.check_schedules
        ≡ ok ctx)
      × (all : List Strategy) × (expand_all ctx s.strategies ≡ ok all)
      × IsDistinct all

  -- The schedule is on and valid, and its targets differ.
  pub record IsChecked : Type 0 where
    pub on : s.suspend ≡ some true → ⊥
    pub valid : validate_schedule_config env.parse_duration s.schedule s.frequency ≡ none
    pub valid_strategies : validate_strategies s.strategies ≡ none
    pub distinct : HasDistinctTargets

  distinct_targets :
      validate_no_duplicate_effective_shard_targets env cfg s ≡ none → HasDistinctTargets
  unfolding validate_no_duplicate_effective_shard_targets
  distinct_targets e =
      elim (Answer-cases (
        build_strategy_expansion_context env.parse_duration env.check_keyspaces s
          env.check_schedules)) [
            | inr (problem, b) ↦ absurd (ground arith)
            | inl (ctx, b) ↦
                elim (Option-cases
                  (validate_no_duplicate_expanded_shard_targets ctx s.strategies)) [
                    | inr (problem, d) ↦ absurd (ground arith)
                    | inl d ↦
                        let (all, expands, differ) =
                          (validate_no_duplicate_expanded_shard_targets-none_iff ctx s.strategies).0
                            d in
                        (ctx, b, all, expands, differ)
                  ]
          ]

  write_status-calls : (r : Outcome) → (write_status env cfg s r).calls ≡ r.calls
  write_status-calls r = elim (Option-cases (env.update_status r.status)) [
    | inl e ↦ rw (e, write_status) refl
    | inr (x, e) ↦ rw (e, write_status) refl
  ]

  on_if : schedule_suspended s ≡ false → s.suspend ≡ some true → ⊥
  on_if h e = ground arith

  strategies_checked :
      (status : Status) (out : Outcome) (call : PassCall)
      → schedule_suspended s ≡ false
      → reconcile_strategies env cfg s status ≡ some out
      → In call out.calls
      → IsChecked
  unfolding reconcile_strategies
  strategies_checked status out call on e i =
      elim (Option-cases (validate_schedule_config env.parse_duration s.schedule s.frequency)) [
        | inr (p, v) ↦ absurd (ground arith)
        | inl v ↦ elim (Option-cases (validate_strategies s.strategies)) [
          | inr (p, w) ↦ absurd (ground arith)
          | inl w ↦ elim (Option-cases (validate_no_duplicate_effective_shard_targets env cfg s)) [
            | inr (p, d) ↦ absurd (ground arith)
            | inl d ↦ record {
              on = on_if on;
              valid = v;
              valid_strategies = w;
              distinct = distinct_targets d;
            }
          ]
        ]
      ]

  -- If a pass over a schedule creates or deletes a job: the schedule is not suspended, its
  -- configuration and its strategies are valid, and the strategies expand, over the keyspaces and
  -- schedules that the check listed, to targets that all differ.
  pub reconcile-IsChecked :
      (status : Status) (out : Outcome) (call : PassCall)
      → reconcile env cfg s status ≡ some out
      → In call out.calls
      → IsChecked
  unfolding reconcile
  reconcile-IsChecked status out call e i = elim (Bool-cases (schedule_suspended s)) [
    | inl on ↦ absurd (ground arith)
    | inr off ↦ elim (Option-cases (reconcile_strategies env cfg s status)) [
      | inl n ↦ absurd (ground arith)
      | inr (r, f) ↦
          let same : write_status env cfg s r ≡ out = ground arith in
          let calls : r.calls ≡ out.calls =
            sym (write_status-calls r) ∙ ap (λ (o : Outcome). o.calls) same in
          strategies_checked status r call off f (subst (In call) (sym calls) i)
    ]
  ]
