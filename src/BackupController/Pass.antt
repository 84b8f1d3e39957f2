-- ===== src/BackupController/Pass.antt =====
-- vitessbackupschedule_controller.go: the pass over the strategies of a schedule.
--
-- What the pass reads is a record of answers; each reading of the clock is a field of its own. The
-- object that `createJob` builds, with what it reads and creates for it, is such an answer too. What
-- comes back is the status, the calls and the results. A Go panic is `none`.
--
-- Times count whole seconds, and the delay that goes to the builder counts nanoseconds. When the next
-- run is already past, the source passes a negative delay, where the model passes 0: the results are
-- merged into the builder of the whole pass, which takes a delay over only if it is greater than 0.
use vitess_operator.Prelude.{
  ℕ, ◌+◌, ◌-◌, ◌*◌, Bool, false, String, Option, none, some, List, [], ◌∷◌, ◌++◌, map, Map, insert,
  delete, Answer, ok, err, ltb, nat_beq, string_eq, if◌then◌else◌,
}
use vitess_operator.Results.{Builder, new, error, requeue_after}
use vitess_operator.KeyRanges.{cut_dash, safe_name}
use vitess_operator.BackupSchedule.{
  Strategy, Problem, CronExpr, is_set, generate_cron_from_frequency,
}
use vitess_operator.BackupController.{
  Failure, Job, JobCall, JobsList, get_jobs_list, cleanup_jobs_with_limit, remove_timeout_jobs,
  get_next_schedule,
}
use vitess_operator.BackupController.Targets.{Keyspace, TargetProblem, Schedule}

pub data PassError : Type 0 where
  invalid_shard invalid_frequency not_listed not_created not_written : PassError
  job_failure : Failure → PassError
  config_problem : Problem → PassError
  target_problem : TargetProblem → PassError
  not_built : PassError

-- The schedule that counts: what the user wrote, or what was generated.
pub data EffectiveSchedule : Type 0 where
  written : String → EffectiveSchedule
  generated : CronExpr → EffectiveSchedule

pub data BuildAnswer : Type 0 where
  built waiting_for_bootstrap build_failed : BuildAnswer

pub data CreateAnswer : Type 0 where
  created already_exists create_failed : CreateAnswer

pub record Status : Type 0 where
  pub last_scheduled_times : Map String ℕ
  pub generated_schedules : Map String CronExpr
  pub next_scheduled_times : Map String ℕ

pub record Env : Type 0 where
  pub list_jobs : String → String → Answer (List Job) Failure
  -- The check for duplicate targets lists the keyspaces and the schedules; the pass lists them again.
  pub check_keyspaces : String → Answer (List Keyspace) PassError
  pub check_schedules : Answer (List Schedule) PassError
  pub list_keyspaces : String → Answer (List Keyspace) PassError
  pub list_schedules : Answer (List Schedule) PassError
  pub pvc_missing : Job → Bool
  pub timeout_now : ℕ
  pub search_now : ℕ
  pub requeue_now : ℕ
  pub deadline_now : ℕ
  pub parse_time : String → Option ℕ
  pub parse_duration : String → Option ℕ
  pub parse_standard : EffectiveSchedule → Option (ℕ → ℕ)
  pub parses : CronExpr → Bool
  pub hash_of : Strategy → ℕ
  pub build_job : Strategy → ℕ → BuildAnswer
  pub create_job : Strategy → ℕ → CreateAnswer
  pub update_status : Status → Option PassError

pub record Settings : Type 0 where
  pub creation : ℕ
  pub starting_deadline_seconds : Option ℕ
  pub allowed_missed_runs : Option ℕ
  pub failed_jobs_history_limit : Option ℕ
  pub successful_jobs_history_limit : Option ℕ
  pub job_timeout_minutes : Option ℕ
  pub forbid_concurrent : Bool

pub data PassCall : Type 0 where
  job_call : JobCall → PassCall
  -- Creates the job of a strategy for the run at a time.
  create_call : Strategy → ℕ → PassCall

pub record Outcome : Type 0 where
  pub status : Status
  pub calls : List PassCall
  pub results : Builder PassError

abbrev pub add_error : PassError → Outcome → Outcome
add_error e out = record out { results = error e out.results }

abbrev pub set_next : Strategy → ℕ → Outcome → Outcome
set_next strategy next_run out = record out {
  status = record out.status {
    next_scheduled_times = insert strategy.name next_run out.status.next_scheduled_times;
  };
}

abbrev pub set_last : Strategy → ℕ → Outcome → Outcome
set_last strategy run out = record out {
  status = record out.status {
    last_scheduled_times = insert strategy.name run out.status.last_scheduled_times;
  };
}

-- `time.Second`
abbrev pub second : ℕ
second = 1000000000

abbrev pub is_too_late : Option ℕ → ℕ → ℕ → Bool
is_too_late none missed_run now = false
is_too_late (some seconds) missed_run now = ltb (missed_run + seconds) now

abbrev pub is_blocked : Bool → List Job → Bool
is_blocked forbid_concurrent [] = false
is_blocked forbid_concurrent (job ∷ active) = forbid_concurrent

-- What is remembered after the call that creates the job.
abbrev pub after_create : Strategy → ℕ → ℕ → CreateAnswer → Outcome → Outcome
after_create strategy missed_run next_run already_exists out = out
after_create strategy missed_run next_run create_failed out = add_error not_created out
after_create strategy missed_run next_run created out =
    set_next strategy next_run (set_last strategy missed_run out)

-- The part after the job was built.
abbrev pub after_build : Strategy → ℕ → ℕ → BuildAnswer → CreateAnswer → Outcome → Outcome
after_build strategy missed_run next_run waiting_for_bootstrap a out =
    set_next strategy next_run out
after_build strategy missed_run next_run build_failed a out = add_error not_built out
after_build strategy missed_run next_run built a out =
    after_create strategy missed_run next_run a
      (record out { calls = out.calls ++ create_call strategy missed_run ∷ [] })

module _ (env : Env) (cfg : Settings) where
  -- The part after the checks.
  unfoldable pub create_run : Strategy → ℕ → ℕ → Outcome → Outcome
  create_run strategy missed_run next_run out =
      after_build strategy missed_run next_run (env.build_job strategy missed_run)
        (env.create_job strategy missed_run) out

  -- The part after the search for missed runs.
  unfoldable pub start_run : Strategy → List Job → ℕ → ℕ → Outcome → Outcome
  unfolding create_run
  start_run strategy active missed_run next_run out =
      let delayed = record out {
        results = requeue_after (second * (next_run - env.requeue_now)) out.results;
      } in
      if nat_beq missed_run 0
      then set_next strategy next_run out
      else if is_too_late cfg.starting_deadline_seconds missed_run env.deadline_now
      then set_next strategy next_run delayed
      else if is_blocked cfg.forbid_concurrent active
      then set_next strategy next_run delayed
      else create_run strategy missed_run next_run delayed

  unfoldable pub search_run :
      Strategy → EffectiveSchedule → JobsList → Option ℕ → Outcome → Option Outcome
  unfolding start_run get_next_schedule
  search_run strategy effective jobs most_recent out =
      elim (get_next_schedule (env.parse_standard effective) cfg.starting_deadline_seconds
        cfg.allowed_missed_runs cfg.creation env.search_now most_recent) [
          | none ↦ none
          | some (err e) ↦ some (add_error (job_failure e) out)
          | some (ok (missed_run, next_run)) ↦
              some (start_run strategy jobs.active missed_run next_run out)
        ]

  -- The schedule that counts for the strategy, which the status shows if it was generated.
  unfoldable pub effective_schedule :
      Schedule → Strategy → Outcome → Answer (EffectiveSchedule × Outcome) PassError
  unfolding generate_cron_from_frequency
  effective_schedule s strategy out =
      if is_set s.frequency
      then elim (env.parse_duration s.frequency) [
        | none ↦ err invalid_frequency
        | some frequency ↦
            elim (generate_cron_from_frequency env.parses frequency (env.hash_of strategy)) [
              | err e ↦ err (config_problem e)
              | ok expr ↦ ok (
                generated expr,
                record out {
                  status = record out.status {
                    generated_schedules = insert strategy.name expr out.status.generated_schedules;
                  };
                },
              )
            ]
      ]
      else ok (
        written s.schedule,
        record out {
          status = record out.status {
            generated_schedules = delete strategy.name out.status.generated_schedules;
          };
        },
      )

  abbrev pub add_calls : List JobCall → Outcome → Outcome
  add_calls calls out = record out { calls = out.calls ++ map job_call calls }

  -- The part after the listing of the jobs.
  unfoldable pub run_strategy : Schedule → Strategy → JobsList → Option ℕ → Outcome → Option Outcome
  unfolding cleanup_jobs_with_limit remove_timeout_jobs effective_schedule search_run
  run_strategy s strategy jobs most_recent out =
      let cleaned =
        add_calls
          (cleanup_jobs_with_limit env.pvc_missing cfg.successful_jobs_history_limit
            jobs.successful)
          (add_calls
            (cleanup_jobs_with_limit env.pvc_missing cfg.failed_jobs_history_limit jobs.failed)
            out) in
      elim (remove_timeout_jobs env.parse_time env.pvc_missing env.timeout_now
        cfg.job_timeout_minutes jobs.active) [
          | none ↦ none
          | some (calls, some e) ↦ some (add_error (job_failure e) (add_calls calls cleaned))
          | some (calls, none) ↦ elim (effective_schedule s strategy (add_calls calls cleaned)) [
            | err e ↦ some (add_error e (add_calls calls cleaned))
            | ok (effective, out') ↦ search_run strategy effective jobs most_recent out'
          ]
        ]

  -- `reconcileStrategy`. `none` is a panic of `removeTimeoutJobs`.
  unfoldable pub reconcile_strategy : Schedule → Strategy → Status → Option Outcome
  unfolding cut_dash safe_name get_jobs_list run_strategy
  reconcile_strategy s strategy status =
      let out : Outcome = record { status = status; calls = []; results = new } in
      elim (cut_dash strategy.shard) [
        | none ↦ some (add_error invalid_shard out)
        | some (start, end) ↦
            elim (get_jobs_list env.parse_time
              (env.list_jobs strategy.keyspace (safe_name (record { start = start; end = end })))) [
                | err e ↦ some (add_error (job_failure e) out)
                | ok (jobs, most_recent) ↦ run_strategy s strategy jobs most_recent out
              ]
      ]
