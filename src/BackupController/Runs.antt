-- ===== src/BackupController/Runs.antt =====
-- About the last part of `reconcileStrategy`: what it does with a run that was found.
use vitess_operator.Prelude.{
  ◌≡◌, refl, ◌∙◌, ap, inl, inr, ℕ, ◌-◌, ◌*◌, ◌+◌, ◌≤◌, ◌<◌, Bool, true, none, arith, nat_beq_iff,
  false, String, Option, some, List, [], ◌∷◌, ◌++◌, map, Map, insert, ok, Bool-cases, nat_beq,
  string_eq,
}
use vitess_operator.Results.{requeue_after}
use vitess_operator.BackupSchedule.{Strategy}
use vitess_operator.BackupController.{Job, JobCall, get_next_schedule}
use vitess_operator.BackupController.Pass.{
  EffectiveSchedule, BuildAnswer, built, waiting_for_bootstrap, build_failed, CreateAnswer, created,
  already_exists, create_failed, Env, Settings, PassCall, job_call, create_call, Outcome,
  is_too_late, is_blocked, second, after_create, after_build, create_run, start_run, add_calls,
}

-- The jobs that the calls create.
abbrev pub creations : List PassCall → List (Strategy × ℕ)
creations [] = []
creations (job_call c ∷ calls) = creations calls
creations (create_call strategy run ∷ calls) = (strategy, run) ∷ creations calls

creations-append : (xs ys : List PassCall) → creations (xs ++ ys) ≡ creations xs ++ creations ys
creations-append [] ys = refl
creations-append (job_call c ∷ xs) ys = creations-append xs ys
creations-append (create_call s run ∷ xs) ys = ap (λ l. (s, run) ∷ l) (creations-append xs ys)

creations-map : (calls : List JobCall) → creations (map job_call calls) ≡ []
creations-map [] = refl
creations-map (c ∷ calls) = creations-map calls

-- What the status remembers of a run: it is noted if the job was created.
abbrev pub noted : CreateAnswer → String → ℕ → Map String ℕ → Map String ℕ
noted created name run before = insert name run before
noted already_exists name run before = before
noted create_failed name run before = before

-- No later after the run than the deadline in seconds allows, if there is one.
abbrev pub IsInTime : Option ℕ → ℕ → ℕ → Type 0
IsInTime deadline run now = (seconds : ℕ) → deadline ≡ some seconds → now ≤ run + seconds

in_time :
    (deadline : Option ℕ) (run now : ℕ)
    → is_too_late deadline run now ≡ false
    → IsInTime deadline run now
in_time none run now h seconds e = absurd (ground (arith, e))
in_time (some d) run now h seconds e = let same : d ≡ seconds = ground (arith, e) in ground arith

unblocked :
    (forbid : Bool) (active : List Job)
    → is_blocked forbid active ≡ false
    → forbid ≡ true
    → active ≡ []
unblocked forbid [] h f = refl
unblocked forbid (job ∷ active) h f = absurd (ground (arith, h, f))

module _ (env : Env) (cfg : Settings) (strategy : Strategy) where
  abbrev pub FindsRun : EffectiveSchedule → Option ℕ → ℕ → ℕ → Type 0
  FindsRun effective recent run next_run =
      get_next_schedule (env.parse_standard effective) cfg.starting_deadline_seconds
        cfg.allowed_missed_runs cfg.creation env.search_now recent
      ≡ some (ok (run, next_run))

  -- Either no job is created, or one: for the run that was found, which is not too late, and not
  -- while another job is active if that is forbidden.
  pub data IsStarted (active : List Job) (recent : Option ℕ) (before : Map String ℕ) (out : Outcome)
      : Type 0 where
    idle :
        creations out.calls ≡ []
        → out.status.last_scheduled_times ≡ before
        → IsStarted active recent before out
    started :
        (effective : EffectiveSchedule) (run next_run : ℕ)
        → FindsRun effective recent run next_run
        → 0 < run
        → IsInTime cfg.starting_deadline_seconds run env.deadline_now
        → (cfg.forbid_concurrent ≡ true → active ≡ [])
        → env.build_job strategy run ≡ built
        → creations out.calls ≡ (strategy, run) ∷ []
        → out.status.last_scheduled_times
          ≡ noted (env.create_job strategy run) strategy.name run before
        → IsStarted active recent before out

  abbrev pub IsQuiet : Map String ℕ → Outcome → Type 0
  IsQuiet before out = (creations out.calls ≡ []) × (out.status.last_scheduled_times ≡ before)

  pub add_calls-IsQuiet :
      (before : Map String ℕ) (calls : List JobCall) (out : Outcome)
      → IsQuiet before out
      → IsQuiet before (add_calls env cfg calls out)
  add_calls-IsQuiet before calls out (c, e) = (
    creations-append out.calls (map job_call calls)
        ∙ ap (λ l. l ++ creations (map job_call calls)) c
        ∙ creations-map calls,
    e,
  )

  module _ (active : List Job) (recent : Option ℕ) (before : Map String ℕ) (out : Outcome)
      (quiet : IsQuiet before out) where
    called :
        (run : ℕ) → creations (out.calls ++ create_call strategy run ∷ []) ≡ (strategy, run) ∷ []
    called run =
        creations-append out.calls (create_call strategy run ∷ [])
        ∙ ap (λ l. l ++ (strategy, run) ∷ []) quiet.0

    after_create-last :
        (run next_run : ℕ) (a : CreateAnswer)
        → (after_create strategy run next_run a (record out {
          calls = out.calls ++ create_call strategy run ∷ [];
        })).status.last_scheduled_times
          ≡ noted a strategy.name run out.status.last_scheduled_times
    after_create-last run next_run created = refl
    after_create-last run next_run already_exists = refl
    after_create-last run next_run create_failed = refl

    after_create-calls :
        (run next_run : ℕ) (a : CreateAnswer) (o : Outcome)
        → (after_create strategy run next_run a o).calls ≡ o.calls
    after_create-calls run next_run created o = refl
    after_create-calls run next_run already_exists o = refl
    after_create-calls run next_run create_failed o = refl

    after_build-IsStarted :
        (effective : EffectiveSchedule) (run next_run : ℕ) (a : BuildAnswer)
        → FindsRun effective recent run next_run
        → nat_beq run 0 ≡ false
        → is_too_late cfg.starting_deadline_seconds run env.deadline_now ≡ false
        → is_blocked cfg.forbid_concurrent active ≡ false
        → env.build_job strategy run ≡ a
        → IsStarted active recent before
            (after_build strategy run next_run a (env.create_job strategy run) out)
    after_build-IsStarted effective run next_run waiting_for_bootstrap f z t b e =
        idle quiet.0 quiet.1
    after_build-IsStarted effective run next_run build_failed f z t b e = idle quiet.0 quiet.1
    after_build-IsStarted effective run next_run built f z t b e =
        let answer = env.create_job strategy run in
        started effective run next_run f (ground (arith, z, nat_beq_iff run 0))
          (in_time cfg.starting_deadline_seconds run env.deadline_now t)
          (unblocked cfg.forbid_concurrent active b) e
          (ap creations (
              after_create-calls run next_run answer
                (record out { calls = out.calls ++ create_call strategy run ∷ [] }))
            ∙ called run)
          (after_create-last run next_run answer ∙ ap (noted answer strategy.name run) quiet.1)

  module _ (active : List Job) (recent : Option ℕ) (before : Map String ℕ) where
    pub start_run-IsStarted :
        (out : Outcome)
        → IsQuiet before out
        → (effective : EffectiveSchedule) (run next_run : ℕ)
        → FindsRun effective recent run next_run
        → IsStarted active recent before (start_run env cfg strategy active run next_run out)
    unfolding start_run create_run
    start_run-IsStarted out quiet effective run next_run f = elim (Bool-cases (nat_beq run 0)) [
      | inl z ↦ rw z (idle quiet.0 quiet.1)
      | inr z ↦ elim (Bool-cases (is_too_late cfg.starting_deadline_seconds run env.deadline_now)) [
        | inl t ↦ rw (z, t) (idle quiet.0 quiet.1)
        | inr t ↦ elim (Bool-cases (is_blocked cfg.forbid_concurrent active)) [
          | inl b ↦ rw (z, t, b) (idle quiet.0 quiet.1)
          | inr b ↦
              let delayed : Outcome = record out {
                results = requeue_after (second * (next_run - env.requeue_now)) out.results;
              } in
              rw (z, t, b)
                (after_build-IsStarted active recent before delayed quiet effective run next_run
                  (env.build_job strategy run) f z t b refl)
        ]
      ]
    ]
