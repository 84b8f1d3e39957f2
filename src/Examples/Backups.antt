-- ===== src/Examples/Backups.antt =====
-- Backup schedules, their jobs and their targets at concrete inputs.
use mathlib.Core.List.{Perm}
use vitess_operator.Prelude.{
  ◌≡◌, ◌⊎◌, ◌↔◌, refl, sym, ap, if◌then◌else◌, ◌==◌, inl, inr, ℕ, ◌+◌, ◌-◌, true, false, String,
  Option, none, some, List, [], ◌∷◌, ◌++◌, lookup, insert, delete, In, length, Answer, ok, is_some,
  arith, string_eq, sort_by,
}
use vitess_operator.Results.{requeue_after, merge, result}
use vitess_operator.KeyRanges.{KeyRange, safe_name, cut_dash}
use vitess_operator.KeyRanges.Identity.{safe_name_injective, IsBound}
use vitess_operator.BackupSchedule.{
  Strategy, validate_schedule_config, validate_strategies, validate_strategy,
}
use vitess_operator.BackupController.{
  Failure, Job, JobCall, get_next_schedule, search_start, get_missed_runs_limit, started_before,
  cleanup_jobs_with_limit, remove_timeout_jobs, get_scheduled_time_for_job, collect_jobs,
  get_jobs_list, find_missed, remove_overdue, remove_oldest,
}
use vitess_operator.BackupController.Schedule.{
  IsNextRun, get_next_schedule-IsNextRun, get_next_schedule-is_some,
}
use vitess_operator.BackupController.Jobs.{
  deleted_jobs, cleanup_jobs_with_limit-Perm, AllScheduled, filter_overdue,
  remove_timeout_jobs-calls,
}
use vitess_operator.BackupController.Targets.{
  ExpansionContext, Schedule, expand_strategy, expand_scope, with_shards, get_all_shards_in_cluster,
  shard_safe_name, expand_to_shards, index_shards, new_strategy_expansion_context, expand_cluster,
  see_targets, see_strategies, exclude_keyspaces, exclude_peers, get_excluded_keyspaces,
  build_strategy_expansion_context, validate_no_duplicate_expanded_shard_targets,
}
use vitess_operator.BackupController.Guards.{IsChecked, reconcile-IsChecked}
use vitess_operator.BackupController.Coverage.{Covers, IsCovered, expand_strategy-Covers}
use vitess_operator.BackupController.Duplicates.{
  expand_all, IsDistinct, validate_no_duplicate_expanded_shard_targets-none_iff,
}
use vitess_operator.BackupController.Pass.{
  Env, Settings, create_call, Status, Outcome, created, built, reconcile_strategy, run_strategy,
  effective_schedule, search_run, start_run, create_run,
}
use vitess_operator.BackupController.Started.{IsPass, reconcile_strategy-IsPass}
use vitess_operator.BackupController.Loop.{
  reconcile, reconcile_strategies, validate_no_duplicate_effective_shard_targets, reconcile_in,
  reconcile_all, reconcile_expanded, keep_active_status, keep_active,
}
use vitess_operator.BackupController.Stale.{IsNamed, reconcile_in-IsNamed}

-- Every 60 seconds, not aligned; at 250, with the last run at 100.
get_next_schedule-is_some_example :
    is_some (get_next_schedule (some (λ t. t)) none (some 3) 0 250 (some 100)) ≡ true
get_next_schedule-is_some_example =
    get_next_schedule-is_some (some (λ t. t)) none (some 3) 0 250 (some 100)

get_next_schedule-IsNextRun_example :
    (r : Answer (ℕ × ℕ) Failure) × (get_next_schedule
        (some (λ t. t + 60))
        none
        (some 3)
        0
        250
        (some 100)
      ≡ some r)
    × IsNextRun
        (λ t. t + 60)
        250
        (search_start none 0 250 (some 100))
        (get_missed_runs_limit (some 3))
        r
get_next_schedule-IsNextRun_example =
    get_next_schedule-IsNextRun (λ t. t + 60) (λ t. omega arith) none (some 3) 0 250 (some 100)

abbrev job_at : String → String → Option ℕ → Job
job_at name at start = record {
  name = name;
  scheduled_at = at;
  backup_method = "vtbackup";
  start_time = start;
  conditions = [];
}

abbrev three_jobs : List Job
three_jobs = job_at "b" "2" (some 20) ∷ job_at "a" "1" (some 10) ∷ job_at "c" "3" none ∷ []

cleanup_jobs_with_limit-Perm_example :
    (old kept : List Job) × Perm (old ++ kept) three_jobs
    × (deleted_jobs (cleanup_jobs_with_limit (λ job. false) (some 1) three_jobs) ≡ old)
    × (length old ≡ length three_jobs - 1)
    × ((a b : Job) → In a old → In b kept → started_before b a ≡ false)
cleanup_jobs_with_limit-Perm_example = cleanup_jobs_with_limit-Perm (λ job. false) 1 three_jobs

abbrev parse_digit : String → Option ℕ
parse_digit s = if◌then◌else◌ (s == "1") (some 100) (if◌then◌else◌ (s == "2") (some 2000) none)

abbrev two_jobs : List Job
two_jobs = job_at "a" "1" none ∷ job_at "b" "2" none ∷ []

two_jobs-AllScheduled : AllScheduled parse_digit (λ job. false) 1000 10 two_jobs
unfolding get_scheduled_time_for_job
two_jobs-AllScheduled job (inl e) = (100, ap (get_scheduled_time_for_job parse_digit) (sym e))
two_jobs-AllScheduled job (inr (inl e)) =
    (2000, ap (get_scheduled_time_for_job parse_digit) (sym e))
two_jobs-AllScheduled job (inr (inr i)) = absurd i

remove_timeout_jobs-calls_example :
    (calls : List JobCall) × (remove_timeout_jobs parse_digit (λ job. false) 1000 (some 10) two_jobs
      ≡ some (calls, none))
    × (deleted_jobs calls ≡ filter_overdue parse_digit (λ job. false) 1000 10 two_jobs)
remove_timeout_jobs-calls_example =
    remove_timeout_jobs-calls parse_digit (λ job. false) 1000 10 two_jobs two_jobs-AllScheduled

abbrev whole_cluster : Strategy
whole_cluster = record {
  name = "all";
  scope = "Cluster";
  keyspace = "";
  shard = "";
  extra_flags = [];
}

abbrev one_shard : Strategy
one_shard = record {
  name = "one";
  scope = "Shard";
  keyspace = "users";
  shard = "-80";
  extra_flags = [];
}

abbrev two_keyspaces : ExpansionContext
two_keyspaces = record {
  all_keyspaces =
      record { name = "orders"; shards = "-" ∷ [] }
      ∷ record { name = "users"; shards = "-80" ∷ "80-" ∷ [] }
      ∷ [];
  excluded_keyspaces = ("orders", true) ∷ [];
  shards_by_keyspace = ("orders", "-" ∷ []) ∷ ("users", "-80" ∷ "80-" ∷ []) ∷ [];
}

expand_strategy-Covers_example :
    (expanded : List Strategy) × (expand_strategy two_keyspaces whole_cluster ≡ ok expanded)
    × ((ks_name shard : String)
        → Covers expanded ks_name shard
          ↔ IsCovered two_keyspaces.excluded_keyspaces two_keyspaces.all_keyspaces ks_name shard)
expand_strategy-Covers_example = expand_strategy-Covers two_keyspaces whole_cluster refl

validate_no_duplicate_expanded_shard_targets-none_iff_example :
    (validate_no_duplicate_expanded_shard_targets two_keyspaces (whole_cluster ∷ one_shard ∷ [])
      ≡ none)
    ↔ ((all : List Strategy) × (expand_all two_keyspaces (whole_cluster ∷ one_shard ∷ []) ≡ ok all)
        × IsDistinct all)
validate_no_duplicate_expanded_shard_targets-none_iff_example =
    validate_no_duplicate_expanded_shard_targets-none_iff two_keyspaces
      (whole_cluster ∷ one_shard ∷ [])

abbrev left_half : KeyRange
left_half = record { start = ""; end = "80" }

left_half-IsBound : IsBound "" × IsBound "80"
left_half-IsBound = (
  (refl, λ e. ground (arith, (string_eq.same_iff "" "x").1 e)),
  (refl, λ e. ground (arith, (string_eq.same_iff "80" "x").1 e)),
)

safe_name_injective_example : left_half ≡ left_half
safe_name_injective_example =
    safe_name_injective left_half left_half left_half-IsBound.0 left_half-IsBound.1
      left_half-IsBound.0 left_half-IsBound.1 refl

abbrev quiet_env : Env
quiet_env = record {
  list_jobs = λ keyspace shard. ok [];
  check_keyspaces = λ cluster. ok two_keyspaces.all_keyspaces;
  check_schedules = ok [];
  list_keyspaces = λ cluster. ok two_keyspaces.all_keyspaces;
  list_schedules = ok [];
  pvc_missing = λ job. false;
  timeout_now = 250;
  search_now = 250;
  requeue_now = 250;
  deadline_now = 250;
  parse_time = parse_digit;
  parse_duration = λ s. none;
  parse_standard = λ schedule. some (λ t. t + 60);
  parses = λ expr. true;
  hash_of = λ strategy. 0;
  build_job = λ strategy run. built;
  create_job = λ strategy run. created;
  update_status = λ status. none;
}

abbrev minutely : Settings
minutely = record {
  creation = 100;
  starting_deadline_seconds = none;
  allowed_missed_runs = none;
  failed_jobs_history_limit = some 1;
  successful_jobs_history_limit = none;
  job_timeout_minutes = some 10;
  forbid_concurrent = true;
}

abbrev by_shard : Schedule
by_shard = record {
  name = "nightly";
  cluster = "main";
  suspend = none;
  schedule = "* * * * *";
  frequency = "";
  strategies = one_shard ∷ [];
}

abbrev old_status : Status
old_status = record {
  last_scheduled_times = ("gone", 7) ∷ [];
  generated_schedules = [];
  next_scheduled_times = [];
}

abbrev first_pass : Outcome
first_pass = record {
  status = record {
    last_scheduled_times = ("gone", 7) ∷ ("one", 220) ∷ [];
    generated_schedules = [];
    next_scheduled_times = ("one", 310) ∷ [];
  };
  calls = create_call one_shard 220 ∷ [];
  results = record {
    total = record { requeue = false; requeue_after = 60000000000 };
    first_err = none;
  };
}

first_pass_run :
    reconcile_strategy quiet_env minutely by_shard one_shard old_status ≡ some first_pass
unfolding reconcile_strategy cut_dash safe_name get_jobs_list collect_jobs run_strategy
    cleanup_jobs_with_limit remove_oldest remove_timeout_jobs remove_overdue effective_schedule
    search_run get_next_schedule find_missed start_run create_run requeue_after insert delete
    sort_by
first_pass_run = refl

reconcile_strategy-IsPass_example :
    IsPass quiet_env minutely one_shard old_status.last_scheduled_times first_pass
reconcile_strategy-IsPass_example =
    reconcile_strategy-IsPass quiet_env minutely one_shard by_shard old_status first_pass
      first_pass_run

abbrev whole_pass : Outcome
whole_pass = record first_pass {
  status = record first_pass.status { last_scheduled_times = ("one", 220) ∷ [] };
}

whole_pass_run : reconcile_in quiet_env minutely by_shard two_keyspaces old_status ≡ some whole_pass
unfolding reconcile_in reconcile_all reconcile_expanded keep_active_status keep_active
    expand_strategy expand_scope reconcile_strategy cut_dash safe_name get_jobs_list collect_jobs
    run_strategy cleanup_jobs_with_limit remove_oldest remove_timeout_jobs remove_overdue
    effective_schedule search_run get_next_schedule find_missed start_run create_run requeue_after
    insert delete sort_by lookup merge result
whole_pass_run = refl

whole_pass-one :
    (is_some (lookup "one" whole_pass.status.last_scheduled_times) ≡ true)
    ⊎ (is_some (lookup "one" whole_pass.status.next_scheduled_times) ≡ true)
    ⊎ (is_some (lookup "one" whole_pass.status.generated_schedules) ≡ true)
unfolding lookup
whole_pass-one = inl refl

reconcile_in-IsNamed_example : IsNamed two_keyspaces by_shard.strategies "one"
reconcile_in-IsNamed_example =
    reconcile_in-IsNamed quiet_env minutely by_shard two_keyspaces old_status whole_pass
      whole_pass_run "one" whole_pass-one

reconcile_run : reconcile quiet_env minutely by_shard old_status ≡ some whole_pass
unfolding reconcile reconcile_strategies validate_schedule_config validate_strategies
    validate_strategy validate_no_duplicate_effective_shard_targets
    validate_no_duplicate_expanded_shard_targets build_strategy_expansion_context
    get_all_shards_in_cluster get_excluded_keyspaces new_strategy_expansion_context
    exclude_keyspaces exclude_peers with_shards shard_safe_name expand_to_shards index_shards
    expand_cluster see_targets see_strategies reconcile_in reconcile_all reconcile_expanded
    keep_active_status keep_active expand_strategy expand_scope reconcile_strategy cut_dash
    safe_name get_jobs_list collect_jobs run_strategy cleanup_jobs_with_limit remove_oldest
    remove_timeout_jobs remove_overdue effective_schedule search_run get_next_schedule find_missed
    start_run create_run requeue_after insert delete sort_by lookup merge result
reconcile_run = refl

reconcile-IsChecked_example : IsChecked quiet_env minutely by_shard
reconcile-IsChecked_example =
    reconcile-IsChecked quiet_env minutely by_shard old_status whole_pass
      (create_call one_shard 220) reconcile_run (inl refl)
