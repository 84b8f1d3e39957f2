-- ===== src/BackupController/Started.antt =====
-- About `reconcileStrategy`: when a pass over a strategy creates a job.
use vitess_operator.Prelude.{
  ◌≡◌, ◌⊎◌, refl, sym, subst, inl, inr, ℕ, String, Option, none, some, List, [], Map, insert,
  Answer, ok, err, Option-cases, Bool-cases, string_eq,
}
use vitess_operator.Results.{new}
use vitess_operator.KeyRanges.{cut_dash, safe_name}
use vitess_operator.BackupSchedule.{
  Strategy, Problem, CronExpr, is_set, generate_cron_from_frequency,
}
use vitess_operator.BackupController.{
  Failure, Job, JobCall, JobsList, get_jobs_list, cleanup_jobs_with_limit, remove_timeout_jobs,
  get_next_schedule,
}
use vitess_operator.BackupController.Targets.{Schedule}
use vitess_operator.BackupController.Pass.{
  PassError, job_failure, config_problem, invalid_shard, EffectiveSchedule, generated, Env,
  Settings, Status, Outcome, add_error, start_run, search_run, effective_schedule, add_calls,
  run_strategy, reconcile_strategy,
}
use vitess_operator.BackupController.Runs.{
  IsStarted, idle, IsQuiet, add_calls-IsQuiet, start_run-IsStarted,
}

module _ (env : Env) (cfg : Settings) (strategy : Strategy) where
  module _ (active : List Job) (recent : Option ℕ) (before : Map String ℕ) where
    abbrev IsStartedIf : Option Outcome → Type 0
    IsStartedIf none = Unit
    IsStartedIf (some out) = IsStarted env cfg strategy active recent before out

    search_run-IsStarted :
        (effective : EffectiveSchedule) (jobs : JobsList) (out : Outcome)
        → jobs.active ≡ active
        → IsQuiet env cfg strategy before out
        → IsStartedIf (search_run env cfg strategy effective jobs recent out)
    unfolding search_run
    search_run-IsStarted effective jobs out same quiet =
        of_search
          (get_next_schedule (env.parse_standard effective) cfg.starting_deadline_seconds
            cfg.allowed_missed_runs cfg.creation env.search_now recent)
          refl
      where
        of_search :
            (r : Option (Answer (ℕ × ℕ) Failure))
            → get_next_schedule
                (env.parse_standard effective)
                cfg.starting_deadline_seconds
                cfg.allowed_missed_runs
                cfg.creation
                env.search_now
                recent
              ≡ r
            → IsStartedIf (elim r [
              | none ↦ none
              | some (err e) ↦ some (add_error (job_failure e) out)
              | some (ok (missed_run, next_run)) ↦
                  some (start_run env cfg strategy jobs.active missed_run next_run out)
            ])
        of_search none e = tt
        of_search (some (err x)) e = idle quiet.0 quiet.1
        of_search (some (ok (run, next_run))) e =
            subst
              (λ l.
                IsStarted env cfg strategy active recent before
                  (start_run env cfg strategy l run next_run out))
              (sym same)
              (start_run-IsStarted env cfg strategy active recent before out quiet effective run
                next_run e)

    abbrev IsQuietIf : Answer (EffectiveSchedule × Outcome) PassError → Type 0
    IsQuietIf (err e) = Unit
    IsQuietIf (ok (effective, out)) = IsQuiet env cfg strategy before out

    abbrev generated_answer :
        Outcome → Answer CronExpr Problem → Answer (EffectiveSchedule × Outcome) PassError
    generated_answer out (err e) = err (config_problem e)
    generated_answer out (ok expr) = ok (
      generated expr,
      record out {
        status = record out.status {
          generated_schedules = insert strategy.name expr out.status.generated_schedules;
        };
      },
    )

    generated_answer-IsQuietIf :
        (out : Outcome) (r : Answer CronExpr Problem)
        → IsQuiet env cfg strategy before out
        → IsQuietIf (generated_answer out r)
    generated_answer-IsQuietIf out (err e) quiet = tt
    generated_answer-IsQuietIf out (ok expr) quiet = quiet

    effective_schedule-IsQuietIf :
        (s : Schedule) (out : Outcome)
        → IsQuiet env cfg strategy before out
        → IsQuietIf (effective_schedule env cfg s strategy out)
    unfolding effective_schedule
    effective_schedule-IsQuietIf s out quiet = elim (Bool-cases (is_set s.frequency)) [
      | inr n ↦ rw n quiet
      | inl n ↦ elim (Option-cases (env.parse_duration s.frequency)) [
        | inl p ↦ rw (n, p) tt
        | inr (frequency, p) ↦
            let r = generate_cron_from_frequency env.parses frequency (env.hash_of strategy) in
            rw (n, p) (generated_answer-IsQuietIf out r quiet)
      ]
    ]

    of_effective :
        (jobs : JobsList) (out : Outcome)
        → jobs.active ≡ active
        → IsQuiet env cfg strategy before out
        → (r : Answer (EffectiveSchedule × Outcome) PassError) → IsQuietIf r
        → IsStartedIf (elim r [
          | err e ↦ some (add_error e out)
          | ok (effective, out') ↦ search_run env cfg strategy effective jobs recent out'
        ])
    of_effective jobs out same quiet (err e) h = idle quiet.0 quiet.1
    of_effective jobs out same quiet (ok (effective, out')) h =
        search_run-IsStarted effective jobs out' same h

    run_strategy-IsStarted :
        (s : Schedule) (jobs : JobsList) (out : Outcome)
        → jobs.active ≡ active
        → IsQuiet env cfg strategy before out
        → IsStartedIf (run_strategy env cfg s strategy jobs recent out)
    unfolding run_strategy
    run_strategy-IsStarted s jobs out same quiet =
        let failed =
          cleanup_jobs_with_limit env.pvc_missing cfg.failed_jobs_history_limit jobs.failed in
        let successful =
          cleanup_jobs_with_limit env.pvc_missing cfg.successful_jobs_history_limit
            jobs.successful in
        let first = add_calls-IsQuiet env cfg strategy before failed out quiet in
        let second =
          add_calls-IsQuiet env cfg strategy before successful (add_calls env cfg failed out)
            first in
        of_timeout (add_calls env cfg successful (add_calls env cfg failed out)) second (
          remove_timeout_jobs env.parse_time env.pvc_missing env.timeout_now cfg.job_timeout_minutes
            jobs.active)
      where
        of_timeout :
            (cleaned : Outcome)
            → IsQuiet env cfg strategy before cleaned
            → (r : Option (List JobCall × Option Failure))
            → IsStartedIf (elim r [
              | none ↦ none
              | some (calls, some e) ↦
                  some (add_error (job_failure e) (add_calls env cfg calls cleaned))
              | some (calls, none) ↦
                  elim (effective_schedule env cfg s strategy (add_calls env cfg calls cleaned)) [
                    | err e ↦ some (add_error e (add_calls env cfg calls cleaned))
                    | ok (effective, out') ↦ search_run env cfg strategy effective jobs recent out'
                  ]
            ])
        of_timeout cleaned h none = tt
        of_timeout cleaned h (some (calls, some e)) =
            let q = add_calls-IsQuiet env cfg strategy before calls cleaned h in idle q.0 q.1
        of_timeout cleaned h (some (calls, none)) =
            let q = add_calls-IsQuiet env cfg strategy before calls cleaned h in
            let out1 = add_calls env cfg calls cleaned in
            of_effective jobs out1 same q (effective_schedule env cfg s strategy out1)
              (effective_schedule-IsQuietIf s out1 q)

  -- The jobs that are listed for the strategy's shard, and the last time for which one was scheduled.
  abbrev pub FindsJobs : JobsList → Option ℕ → Type 0
  FindsJobs jobs recent =
      (start end : String) × (cut_dash strategy.shard ≡ some (start, end))
      × (get_jobs_list env.parse_time
            (env.list_jobs strategy.keyspace (safe_name (record { start = start; end = end })))
          ≡ ok (jobs, recent))

  abbrev pub IsPass : Map String ℕ → Outcome → Type 0
  IsPass before out =
      IsQuiet env cfg strategy before out
      ⊎ ((jobs : JobsList) × (recent : Option ℕ) × FindsJobs jobs recent
          × IsStarted env cfg strategy jobs.active recent before out)

  abbrev IsPassIf : Map String ℕ → Option Outcome → Type 0
  IsPassIf before none = Unit
  IsPassIf before (some out) = IsPass before out

  to_pass :
      (before : Map String ℕ) (jobs : JobsList) (recent : Option ℕ) (r : Option Outcome)
      → FindsJobs jobs recent
      → IsStartedIf jobs.active recent before r
      → IsPassIf before r
  to_pass before jobs recent none f h = tt
  to_pass before jobs recent (some out) f h = inr (jobs, recent, f, h)

  reconcile_strategy-IsPassIf :
      (s : Schedule) (status : Status)
      → IsPassIf status.last_scheduled_times (reconcile_strategy env cfg s strategy status)
  unfolding reconcile_strategy
  reconcile_strategy-IsPassIf s status = of_cut (cut_dash strategy.shard) refl
    where
      before : Map String ℕ
      before = status.last_scheduled_times

      out : Outcome
      out = record { status = status; calls = []; results = new }

      of_jobs :
          (start end : String) (r : Answer (JobsList × Option ℕ) Failure)
          → cut_dash strategy.shard ≡ some (start, end)
          → get_jobs_list env.parse_time
              (env.list_jobs strategy.keyspace (safe_name (record { start = start; end = end })))
            ≡ r
          → IsPassIf before (elim r [
            | err e ↦ some (add_error (job_failure e) out)
            | ok (jobs, most_recent) ↦ run_strategy env cfg s strategy jobs most_recent out
          ])
      of_jobs start end (err e) c l = inl (refl, refl)
      of_jobs start end (ok (jobs, recent)) c l =
          to_pass before jobs recent (run_strategy env cfg s strategy jobs recent out)
            (start, end, c, l)
            (run_strategy-IsStarted jobs.active recent before s jobs out refl (refl, refl))

      of_cut :
          (r : Option (String × String))
          → cut_dash strategy.shard ≡ r
          → IsPassIf before (elim r [
            | none ↦ some (add_error invalid_shard out)
            | some (start, end) ↦
                elim (get_jobs_list env.parse_time (
                  env.list_jobs strategy.keyspace
                    (safe_name (record { start = start; end = end })))) [
                      | err e ↦ some (add_error (job_failure e) out)
                      | ok (jobs, most_recent) ↦
                          run_strategy env cfg s strategy jobs most_recent out
                    ]
          ])
      of_cut none c = inl (refl, refl)
      of_cut (some (start, end)) c =
          of_jobs start end
            (get_jobs_list env.parse_time
              (env.list_jobs strategy.keyspace (safe_name (record { start = start; end = end }))))
            c refl

  -- A pass over a strategy that ends creates no job and keeps the last run that the status shows, or
  -- it creates one job: for the missed run that the search answers, if that is not later than the
  -- deadline allows and no other job of the shard is active where that is forbidden; and the status
  -- shows the run exactly if the job was created.
  pub reconcile_strategy-IsPass :
      (s : Schedule) (status : Status) (out : Outcome)
      → reconcile_strategy env cfg s strategy status ≡ some out
      → IsPass status.last_scheduled_times out
  reconcile_strategy-IsPass s status out e =
      subst (IsPassIf status.last_scheduled_times) e (reconcile_strategy-IsPassIf s status)
