-- ===== src/BackupController/Jobs.antt =====
-- About `cleanupJobsWithLimit` and `removeTimeoutJobs`: which jobs are removed.
use vitess_operator.Prelude.{
  ◌≡◌, refl, sym, subst, ◌∙◌, ap, inl, inr, ℕ, zero, suc, ◌+◌, ◌-◌, ◌*◌, String, Bool, false,
  Option, none, some, List, [], ◌∷◌, ◌++◌, ok, ltb, leb, arith, if◌then◌else◌, string_eq,
  Bool-cases, In, length, take, drop, take-drop, length-take, sort_by, IsSorted, sort_by-perm,
  length-sort_by, sort_by-IsSorted_weak, append_ordered, IsWeakOrder,
}
use mathlib.Core.List.{Perm}
use vitess_operator.BackupController.{
  Job, JobCall, delete_job, get_pvc, delete_pvc, remove_job, started_before, remove_oldest,
  cleanup_jobs_with_limit, get_scheduled_time_for_job, remove_overdue, remove_timeout_jobs,
}

-- The jobs that the calls delete.
abbrev pub deleted_jobs : List JobCall → List Job
deleted_jobs [] = []
deleted_jobs (delete_job job ∷ calls) = job ∷ deleted_jobs calls
deleted_jobs (get_pvc job ∷ calls) = deleted_jobs calls
deleted_jobs (delete_pvc job ∷ calls) = deleted_jobs calls

deleted_jobs-remove_job :
    (pvc_missing : Job → Bool) (job : Job) (calls : List JobCall)
    → deleted_jobs (remove_job pvc_missing job ++ calls) ≡ job ∷ deleted_jobs calls
unfolding remove_job
deleted_jobs-remove_job pvc_missing job calls = ground arith

started_before-IsWeakOrder : IsWeakOrder started_before
started_before-IsWeakOrder = record {
  asymm = λ a b h. ground arith;
  false_trans = λ a b c h k. ground arith;
}

take_nil : {A : Type 0} (n : ℕ) → take {A = A} n [] ≡ []
take_nil zero = refl
take_nil (suc n) = refl

deleted_jobs-remove_oldest :
    (pvc_missing : Job → Bool) (size limit i : ℕ) (jobs : List Job)
    → deleted_jobs (remove_oldest pvc_missing size limit i jobs) ≡ take (size - limit - i) jobs
unfolding remove_oldest
deleted_jobs-remove_oldest pvc_missing size limit i [] = sym (take_nil (size - limit - i))
deleted_jobs-remove_oldest pvc_missing size limit i (job ∷ jobs) =
    let rest = deleted_jobs-remove_oldest pvc_missing size limit (suc i) jobs in
    elim (Bool-cases (leb size (i + limit))) [
      | inl b ↦
          let n : zero ≡ size - limit - i = ground arith in
          let go : remove_oldest pvc_missing size limit i (job ∷ jobs) ≡ [] = ground arith in
          ap deleted_jobs go ∙ ap (λ k. take k (job ∷ jobs)) n
      | inr b ↦
          let n : suc (size - limit - suc i) ≡ size - limit - i = ground arith in
          let go : remove_oldest pvc_missing size limit i (job ∷ jobs)
              ≡ remove_job pvc_missing job ++ remove_oldest pvc_missing size limit (suc i) jobs =
            ground arith in
          ap deleted_jobs go
          ∙ deleted_jobs-remove_job pvc_missing job
              (remove_oldest pvc_missing size limit (suc i) jobs)
          ∙ ap (λ l. job ∷ l) rest
          ∙ ap (λ k. take k (job ∷ jobs)) n
    ]

-- With a limit, the jobs fall into two parts: all of the first, and none of the others, are deleted.
-- As many are kept as the limit says, or all if there are no more. None that is kept started before
-- one that is deleted.
pub cleanup_jobs_with_limit-Perm :
    (pvc_missing : Job → Bool) (limit : ℕ) (jobs : List Job)
    → (old kept : List Job) × Perm (old ++ kept) jobs
      × (deleted_jobs (cleanup_jobs_with_limit pvc_missing (some limit) jobs) ≡ old)
      × (length old ≡ length jobs - limit)
      × ((a b : Job) → In a old → In b kept → started_before b a ≡ false)
unfolding cleanup_jobs_with_limit
cleanup_jobs_with_limit-Perm pvc_missing limit jobs =
    let sorted = sort_by started_before jobs in
    let n = length jobs - limit in
    let joined = take-drop n sorted in
    (
      take n sorted,
      drop n sorted,
      subst (λ l. Perm l jobs) (sym joined) (sort_by-perm started_before jobs),
      deleted_jobs-remove_oldest pvc_missing (length jobs) limit 0 sorted
          ∙ ap (λ k. take k sorted) (omega arith),
      length-take n sorted (omega (arith, length-sort_by started_before jobs)),
      append_ordered started_before started_before-IsWeakOrder (take n sorted) (drop n sorted) (
          subst (IsSorted started_before) (sym joined)
            (sort_by-IsSorted_weak started_before started_before-IsWeakOrder jobs)),
    )

module _ (parse_time : String → Option ℕ) (pvc_missing : Job → Bool) (now timeout : ℕ) where
  -- The job's annotation says for which time it was scheduled.
  abbrev pub IsScheduled : Job → ℕ → Type 0
  IsScheduled job time = get_scheduled_time_for_job parse_time job ≡ ok (some time)

  abbrev pub AllScheduled : List Job → Type 0
  AllScheduled jobs = (job : Job) → In job jobs → (time : ℕ) × IsScheduled job time

  -- The time of a job, and whether it is over.
  abbrev pub is_overdue : Job → Bool
  unfolding get_scheduled_time_for_job
  is_overdue job = elim (get_scheduled_time_for_job parse_time job) [
    | ok (some time) ↦ ltb (time + 60 * timeout) now
    | _ ↦ false
  ]

  abbrev pub filter_overdue : List Job → List Job
  filter_overdue [] = []
  filter_overdue (job ∷ jobs) =
      if is_overdue job then job ∷ filter_overdue jobs else filter_overdue jobs

  remove_overdue-calls :
      (jobs : List Job)
      → AllScheduled jobs
      → (calls : List JobCall) × (remove_overdue parse_time pvc_missing now timeout jobs
          ≡ some (calls, none))
        × (deleted_jobs calls ≡ filter_overdue jobs)
  unfolding remove_overdue
  remove_overdue-calls [] h = ([], refl, refl)
  remove_overdue-calls (job ∷ jobs) h =
      let (time, e) = h job (inl refl) in
      let (calls, run, deleted) = remove_overdue-calls jobs (λ j i. h j (inr i)) in
      elim (Bool-cases (ltb (time + 60 * timeout) now)) [
        | inl b ↦ (
          remove_job pvc_missing job ++ calls,
          ground arith,
          ground (arith, deleted_jobs-remove_job pvc_missing job calls),
        )
        | inr b ↦ (calls, ground arith, ground arith)
      ]

  -- If the annotation of each job says for which time it was scheduled: removeTimeoutJobs ends without
  -- an error, and deletes exactly the jobs whose time and the timeout are over.
  pub remove_timeout_jobs-calls :
      (jobs : List Job)
      → AllScheduled jobs
      → (calls : List JobCall) × (remove_timeout_jobs parse_time pvc_missing now (some timeout) jobs
          ≡ some (calls, none))
        × (deleted_jobs calls ≡ filter_overdue jobs)
  unfolding remove_timeout_jobs
  remove_timeout_jobs-calls jobs h = remove_overdue-calls jobs h

  untimed :
      (job : Job) → job.scheduled_at ≡ "" → get_scheduled_time_for_job parse_time job ≡ ok none
  unfolding get_scheduled_time_for_job
  untimed job e = ground (arith, string_eq.same_iff job.scheduled_at "")

  remove_overdue-none :
      (xs : List Job) (job : Job) (ys : List Job)
      → AllScheduled xs
      → job.scheduled_at ≡ ""
      → remove_overdue parse_time pvc_missing now timeout (xs ++ job ∷ ys) ≡ none
  unfolding remove_overdue
  remove_overdue-none [] job ys h e = ground (arith, untimed job e)
  remove_overdue-none (x ∷ xs) job ys h e =
      let (time, t) = h x (inl refl) in
      let rest = remove_overdue-none xs job ys (λ j i. h j (inr i)) e in ground (arith, t, rest)

  -- If a job has no annotation and those before it say for which time they were scheduled,
  -- removeTimeoutJobs panics, whether or not the job is overdue.
  pub remove_timeout_jobs-none :
      (xs : List Job) (job : Job) (ys : List Job)
      → AllScheduled xs
      → job.scheduled_at ≡ ""
      → remove_timeout_jobs parse_time pvc_missing now (some timeout) (xs ++ job ∷ ys) ≡ none
  unfolding remove_timeout_jobs
  remove_timeout_jobs-none = remove_overdue-none
