-- ===== src/BackupController.antt =====
-- pkg/controller/vitessbackupschedule/vitessbackupschedule_controller.go, with the limits of
-- pkg/apis/planetscale/v2/vitessbackupschedule_methods.go: which backup runs are due, and which jobs
-- are removed.
--
-- A time is a number of seconds after Go's zero time, which is 0. `sched.Next` of the cron library
-- and `time.Parse` are arguments. A limit that was not set is `none`, for which the source has -1;
-- the API server refuses negative limits. What a pass does to the cluster is a list of calls.
pub mod Jobs
pub mod Schedule
pub mod Targets
pub mod Coverage
pub mod Pass
pub mod Runs
pub mod Started
pub mod Guards
pub mod Loop
pub mod Stale
pub mod Duplicates
use vitess_operator.Prelude.{
  ℕ, zero, suc, ◌+◌, ◌-◌, ◌*◌, String, Bool, true, false, ◌&&◌, ◌||◌, not, Option, none, some, List,
  [], ◌∷◌, ◌++◌, Answer, ok, err, ltb, leb, ◌==◌, string_eq, if◌then◌else◌, or_zero, length,
  sort_by,
}

abbrev pub default_allowed_missed_runs : ℕ
default_allowed_missed_runs = 100

abbrev pub get_missed_runs_limit : Option ℕ → ℕ
get_missed_runs_limit allowed_missed_runs = or_zero default_allowed_missed_runs allowed_missed_runs

pub data Failure : Type 0 where
  unparsable_schedule too_many_missed unparsable_time unknown_job_type : Failure

-- The loop of `getNextSchedule`: the last missed run. `none` is a loop that has not ended after
-- `fuel` rounds.
unfoldable pub find_missed : (ℕ → ℕ) → ℕ → ℕ → ℕ → ℕ → ℕ → ℕ → Option (Answer ℕ Failure)
find_missed next now limit zero missed_runs last_missed t = none
find_missed next now limit (suc fuel) missed_runs last_missed t =
    let rest = find_missed next now limit fuel (suc missed_runs) t (next t) in
    if ltb now t
    then some (ok last_missed)
    else if ltb limit (suc missed_runs)
    then some (err too_many_missed)
    else rest

-- Where the search for runs starts: the last run, or the creation of the schedule, but not earlier
-- than the deadline.
abbrev pub search_start : Option ℕ → ℕ → ℕ → Option ℕ → ℕ
search_start none creation now most_recent = or_zero creation most_recent
search_start (some deadline_seconds) creation now most_recent =
    let start = or_zero creation most_recent in
    let deadline = now - deadline_seconds in if ltb start deadline then deadline else start

abbrev pub with_next : ℕ → Option (Answer ℕ Failure) → Option (Answer (ℕ × ℕ) Failure)
with_next next_run none = none
with_next next_run (some (ok last_missed)) = some (ok (last_missed, next_run))
with_next next_run (some (err e)) = some (err e)

-- `getNextSchedule`: the last missed run, which is 0 if there is none, and the next run.
unfoldable pub get_next_schedule :
    Option (ℕ → ℕ) → Option ℕ → Option ℕ → ℕ → ℕ → Option ℕ → Option (Answer (ℕ × ℕ) Failure)
unfolding find_missed
get_next_schedule none starting_deadline allowed_missed_runs creation now most_recent =
    some (err unparsable_schedule)
get_next_schedule (some next) starting_deadline allowed_missed_runs creation now most_recent =
    let start = search_start starting_deadline creation now most_recent in
    let limit = get_missed_runs_limit allowed_missed_runs in
    if ltb now start
    then some (ok (0, next now))
    else with_next (next now) (find_missed next now limit (suc limit) 0 0 (next start))

pub record JobCondition : Type 0 where
  pub kind : String
  pub is_true : Bool

pub record Job : Type 0 where
  pub name : String
  -- The annotation with the time for which it was scheduled, and the label with the backup method.
  pub scheduled_at : String
  pub backup_method : String
  pub start_time : Option ℕ
  pub conditions : List JobCondition

abbrev pub job_complete : String
job_complete = "Complete"

abbrev pub job_failed : String
job_failed = "Failed"

unfoldable pub is_job_finished : List JobCondition → Bool × String
is_job_finished [] = (false, "")
is_job_finished (c ∷ conditions) =
    if (c.kind == job_complete || c.kind == job_failed) && c.is_true
    then (true, c.kind)
    else is_job_finished conditions

unfoldable pub get_scheduled_time_for_job : (String → Option ℕ) → Job → Answer (Option ℕ) Failure
get_scheduled_time_for_job parse_time job =
    if job.scheduled_at == "" then ok none else elim (parse_time job.scheduled_at) [
      | none ↦ err unparsable_time
      | some time ↦ ok (some time)
    ]

pub record JobsList : Type 0 where
  pub active : List Job
  pub successful : List Job
  pub failed : List Job

abbrev no_jobs : JobsList
no_jobs = record { active = []; successful = []; failed = [] }

-- The switch on the job's type.
abbrev pub classify : Job → JobsList → Answer JobsList Failure
unfolding is_job_finished
classify job jobs =
    let job_type = (is_job_finished job.conditions).1 in
    if job_type == job_failed || job_type == "FailureTarget"
    then ok (record jobs { failed = jobs.failed ++ job ∷ [] })
    else if job_type == job_complete
    then ok (record jobs { successful = jobs.successful ++ job ∷ [] })
    else if job_type == "Suspended" || job_type == ""
    then ok (record jobs { active = jobs.active ++ job ∷ [] })
    else err unknown_job_type

-- A time that does not parse is passed over.
abbrev pub later_time : Answer (Option ℕ) Failure → Option ℕ → Option ℕ
later_time (err e) most_recent = most_recent
later_time (ok none) most_recent = most_recent
later_time (ok (some time)) none = some time
later_time (ok (some time)) (some recent) = if ltb recent time then some time else some recent

-- `getJobsList`, on the jobs that were listed.
unfoldable pub collect_jobs :
    (String → Option ℕ) → List Job → JobsList → Option ℕ → Answer (JobsList × Option ℕ) Failure
unfolding get_scheduled_time_for_job
collect_jobs parse_time [] jobs most_recent = ok (jobs, most_recent)
collect_jobs parse_time (job ∷ items) jobs most_recent = elim (classify job jobs) [
  | err e ↦ err e
  | ok jobs' ↦
      collect_jobs parse_time items jobs'
        (later_time (get_scheduled_time_for_job parse_time job) most_recent)
]

unfoldable pub get_jobs_list :
    (String → Option ℕ) → Answer (List Job) Failure → Answer (JobsList × Option ℕ) Failure
unfolding collect_jobs
get_jobs_list parse_time (err e) = err e
get_jobs_list parse_time (ok items) = collect_jobs parse_time items no_jobs none

pub data JobCall : Type 0 where
  delete_job get_pvc delete_pvc : Job → JobCall

abbrev method_vtctldclient : String
method_vtctldclient = "vtctldclient"

-- Removes a job and the volume claim of its Pod. `pvc_missing` is whether the claim is not found.
unfoldable pub remove_job : (Job → Bool) → Job → List JobCall
remove_job pvc_missing job =
    if job.backup_method == method_vtctldclient
    then delete_job job ∷ []
    else if pvc_missing job
    then delete_job job ∷ get_pvc job ∷ []
    else delete_job job ∷ get_pvc job ∷ delete_pvc job ∷ []

-- The `less` of the sort: a job that has not started is the oldest.
abbrev pub started_before : Job → Job → Bool
started_before a b = elim a.start_time [
  | none ↦ elim b.start_time [ none ↦ false | some t ↦ true ]
  | some s ↦ elim b.start_time [ none ↦ false | some t ↦ ltb s t ]
]

unfoldable pub remove_oldest : (Job → Bool) → ℕ → ℕ → ℕ → List Job → List JobCall
unfolding remove_job
remove_oldest pvc_missing size limit i [] = []
remove_oldest pvc_missing size limit i (job ∷ jobs) =
    let rest = remove_oldest pvc_missing size limit (suc i) jobs in
    if leb size (i + limit) then [] else remove_job pvc_missing job ++ rest

unfoldable pub cleanup_jobs_with_limit : (Job → Bool) → Option ℕ → List Job → List JobCall
unfolding remove_oldest sort_by
cleanup_jobs_with_limit pvc_missing none jobs = []
cleanup_jobs_with_limit pvc_missing (some limit) jobs =
    remove_oldest pvc_missing (length jobs) limit 0 (sort_by started_before jobs)

-- The loop of `removeTimeoutJobs`: its calls and its error. A panic is `none`: a job without the
-- annotation has no time to read.
abbrev pub after_calls :
    List JobCall → Option (List JobCall × Option Failure) → Option (List JobCall × Option Failure)
after_calls calls none = none
after_calls calls (some (more, e)) = some (calls ++ more, e)

unfoldable pub remove_overdue :
    (String → Option ℕ) → (Job → Bool) → ℕ → ℕ → List Job → Option (List JobCall × Option Failure)
unfolding get_scheduled_time_for_job remove_job
remove_overdue parse_time pvc_missing now timeout [] = some ([], none)
remove_overdue parse_time pvc_missing now timeout (job ∷ jobs) =
    elim (get_scheduled_time_for_job parse_time job) [
      | err e ↦ some ([], some e)
      | ok none ↦ none
      | ok (some time) ↦
          after_calls (if ltb (time + 60 * timeout) now then remove_job pvc_missing job else [])
            (remove_overdue parse_time pvc_missing now timeout jobs)
    ]

unfoldable pub remove_timeout_jobs :
    (String → Option ℕ)
    → (Job → Bool)
    → ℕ
    → Option ℕ
    → List Job
    → Option (List JobCall × Option Failure)
unfolding remove_overdue
remove_timeout_jobs parse_time pvc_missing now none jobs = some ([], none)
remove_timeout_jobs parse_time pvc_missing now (some timeout) jobs =
    remove_overdue parse_time pvc_missing now timeout jobs
