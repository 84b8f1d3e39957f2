-- ===== src/BackupController/Schedule.antt =====
-- About `getNextSchedule`: the search for missed runs of a backup schedule.
use vitess_operator.Prelude.{
  ◌≡◌, refl, subst, inl, inr, ℕ, zero, suc, ◌+◌, ◌≤◌, ◌<◌, true, Option, none, some, Answer, ok,
  err, ltb, leb, arith, is_some, Bool-cases, Option-cases,
}
use vitess_operator.BackupController.{
  Failure, too_many_missed, find_missed, search_start, get_next_schedule, with_next,
  get_missed_runs_limit,
}

-- The runs after a time: the first, the second and so on.
abbrev pub nth_run : (ℕ → ℕ) → ℕ → ℕ → ℕ
nth_run next t zero = next t
nth_run next t (suc n) = next (nth_run next t n)

-- What the loop remembers before round `n`.
abbrev last_run : (ℕ → ℕ) → ℕ → ℕ → ℕ
last_run next t zero = 0
last_run next t (suc n) = nth_run next t n

find_missed_total :
    (next : ℕ → ℕ) (now limit fuel missed_runs last t : ℕ)
    → missed_runs ≤ limit
    → limit < missed_runs + fuel
    → is_some (find_missed next now limit fuel missed_runs last t) ≡ true
unfolding find_missed
find_missed_total next now limit zero missed_runs last t h l = absurd (omega arith)
find_missed_total next now limit (suc fuel) missed_runs last t h l =
    ground (arith, find_missed_total next now limit fuel (suc missed_runs) t (next t))

-- The search ends, also for a schedule whose next run is not later than the last one: the loop makes
-- no more rounds than one more than the limit of missed runs.
pub get_next_schedule-is_some :
    (sched : Option (ℕ → ℕ)) (starting_deadline allowed : Option ℕ) (creation now : ℕ)
    (recent : Option ℕ)
    → is_some (get_next_schedule sched starting_deadline allowed creation now recent) ≡ true
unfolding get_next_schedule
get_next_schedule-is_some none starting_deadline allowed creation now recent = refl
get_next_schedule-is_some (some next) starting_deadline allowed creation now recent =
    let limit = get_missed_runs_limit allowed in
    let start = search_start starting_deadline creation now recent in
    let total =
      find_missed_total next now limit (suc limit) 0 0 (next start) (omega arith) (omega arith) in
    elim (Option-cases (find_missed next now limit (suc limit) 0 0 (next start))) [
      | inl e ↦ absurd (ground (arith, total))
      | inr (ok last, e) ↦ ground arith
      | inr (err x, e) ↦ ground arith
    ]

with_next-some : (n : ℕ) (r : Answer ℕ Failure) → with_next n (some r) ≡ none → ⊥
with_next-some n (ok last) e = ground arith
with_next-some n (err x) e = ground arith

module _ (next : ℕ → ℕ) (now start limit : ℕ) where
  data IsSearch : Answer ℕ Failure → Type 0 where
    stopped :
        (n : ℕ)
        → n ≤ limit
        → ((k : ℕ) → k < n → nth_run next start k ≤ now)
        → now < nth_run next start n
        → IsSearch (ok (last_run next start n))
    bailed_out : nth_run next start limit ≤ now → IsSearch (err too_many_missed)

  search :
      (fuel n : ℕ) (r : Answer ℕ Failure)
      → n ≤ limit
      → limit < n + fuel
      → ((k : ℕ) → k < n → nth_run next start k ≤ now)
      → find_missed next now limit fuel n (last_run next start n) (nth_run next start n) ≡ some r
      → IsSearch r
  unfolding find_missed
  search zero n r l m before e = absurd (omega arith)
  search (suc fuel) n r l m before e = elim (Bool-cases (ltb now (nth_run next start n))) [
    | inl b ↦
        let go : ok (last_run next start n) ≡ r = ground arith in
        subst IsSearch go (stopped n l before (ground arith))
    | inr b ↦ elim (Bool-cases (ltb limit (suc n))) [
      | inl c ↦
          let go : err too_many_missed ≡ r = ground arith in
          let at : n ≡ limit = ground arith in
          subst IsSearch go (bailed_out (subst (λ k. nth_run next start k ≤ now) at (ground arith)))
      | inr c ↦
          search fuel (suc n) r (ground arith) (omega arith)
            (λ k k_le. elim (Bool-cases (ltb k n)) [
              | inl d ↦ before k (ground arith)
              | inr d ↦
                  let at : n ≡ k = ground arith in
                  subst (λ j. nth_run next start j ≤ now) at (ground arith)
            ])
            (ground arith)
    ]
  ]

  -- What the search may answer: that no run was missed, the latest run that was missed if there are
  -- no more than the limit, or an error if there are more.
  pub data IsNextRun : Answer (ℕ × ℕ) Failure → Type 0 where
    none_missed : ((k : ℕ) → now < nth_run next start k) → IsNextRun (ok (0, next now))
    missed :
        (n : ℕ)
        → n < limit
        → nth_run next start n ≤ now
        → ((k : ℕ) → n < k → now < nth_run next start k)
        → IsNextRun (ok (nth_run next start n, next now))
    too_many : nth_run next start limit ≤ now → IsNextRun (err too_many_missed)

  module _ (later : (t : ℕ) → t < next t) where
    stays_later : (n k : ℕ) → now < nth_run next start n → n ≤ k → now < nth_run next start k
    stays_later n zero h l = ground arith
    stays_later n (suc k) h l = elim (Bool-cases (leb n k)) [
      | inl e ↦ omega (arith, stays_later n k h (ground arith), later (nth_run next start k))
      | inr e ↦ let at : n ≡ suc k = ground arith in subst (λ j. now < nth_run next start j) at h
    ]

    from_search :
        (r : Answer ℕ Failure)
        → IsSearch r
        → (out : Answer (ℕ × ℕ) Failure) → with_next (next now) (some r) ≡ some out
        → IsNextRun out
    from_search (ok _) (stopped zero l before h) out e =
        let go : ok (0, next now) ≡ out = ground arith in
        subst IsNextRun go (none_missed (λ k. stays_later 0 k h (omega arith)))
    from_search (ok _) (stopped (suc n) l before h) out e =
        let go : ok (nth_run next start n, next now) ≡ out = ground arith in
        subst IsNextRun go (
          missed n (omega arith) (before n (omega arith))
            (λ k m. stays_later (suc n) k h (omega arith)))
    from_search (err _) (bailed_out h) out e =
        let go : err too_many_missed ≡ out = ground arith in subst IsNextRun go (too_many h)

-- If the schedule's next run is always later than the time it is asked for: the answer is that no
-- run after the start of the search was missed, or the latest one that was missed, if there are no
-- more of them than the limit, with the next run after now; and an error if there are more. As many
-- missed runs as the limit are still accepted.
pub get_next_schedule-IsNextRun :
    (next : ℕ → ℕ)
    → ((t : ℕ) → t < next t)
    → (starting_deadline allowed : Option ℕ) (creation now : ℕ) (recent : Option ℕ)
    → (r : Answer (ℕ × ℕ) Failure) × (get_next_schedule
          (some next)
          starting_deadline
          allowed
          creation
          now
          recent
        ≡ some r)
      × IsNextRun next now
          (search_start starting_deadline creation now recent)
          (get_missed_runs_limit allowed)
          r
unfolding get_next_schedule
get_next_schedule-IsNextRun next later starting_deadline allowed creation now recent =
    let limit = get_missed_runs_limit allowed in
    let start = search_start starting_deadline creation now recent in
    elim (Bool-cases (ltb now start)) [
      | inl b ↦ (
        ok (0, next now),
        ground arith,
        none_missed (λ k.
            stays_later next now start limit later 0 k (ground (arith, later start)) (omega arith)),
      )
      | inr b ↦ elim (Option-cases (find_missed next now limit (suc limit) 0 0 (next start))) [
        | inl e ↦ absurd (
            ground (
              arith,
              find_missed_total next now limit (suc limit) 0 0 (next start) (omega arith)
                  (omega arith),
            ))
        | inr (found, e) ↦
            let result =
              search next now start limit (suc limit) 0 found (omega arith) (omega arith)
                (λ k l. absurd (omega arith)) e in
            elim (Option-cases (with_next (next now) (some found))) [
              | inl n ↦ absurd (with_next-some (next now) found n)
              | inr (out, o) ↦
                  (out, ground arith, from_search next now start limit later found result out o)
            ]
      ]
    ]
