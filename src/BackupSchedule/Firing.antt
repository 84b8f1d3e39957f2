-- ===== src/BackupSchedule/Firing.antt =====
-- A generated expression runs once per interval, all day round.
use vitess_operator.Prelude.{
  ◌≡◌, refl, ◌↔◌, ◌⊎◌, inl, inr, sym, subst, ℕ, zero, suc, ◌+◌, ◌-◌, ◌*◌, ◌/◌, ◌%◌, ◌≤◌, ◌<◌, Bool,
  true, false, ◌&&◌, ◌||◌, not, none, List, [], ◌∷◌, ok, ltb, leb, nat_beq, nat_beq_iff, In, arith,
  All, All-In, Bool-cases,
}
use vitess_operator.BackupSchedule.{
  minute, validate_backup_frequency, CronExpr, daily, every_days, hourly, every_hours,
  every_minutes, cron_expr, cron_from_interval, generate_cron_from_frequency,
}

-- What the fields of crontab(5) mean: `a/n` is every n-th value from a on.
unfoldable pub fires : CronExpr → ℕ → ℕ → ℕ → Bool
fires (daily mm hh) day h m = nat_beq m mm && nat_beq h hh
fires (every_days mm hh days) day h m = nat_beq m mm && nat_beq h hh && nat_beq ((day - 1) % days) 0
fires (hourly mm) day h m = nat_beq m mm
fires (every_hours mm start step) day h m =
    nat_beq m mm && leb start h && nat_beq ((h - start) % step) 0
fires (every_minutes start step) day h m = leb start m && nat_beq ((m - start) % step) 0

-- The fields are those of crontab(5): a minute below 60, an hour below 24, and a step of at least 1.
unfoldable pub in_range : CronExpr → Bool
in_range (daily mm hh) = ltb mm 60 && ltb hh 24
in_range (every_days mm hh days) = ltb mm 60 && ltb hh 24 && leb 1 days
in_range (hourly mm) = ltb mm 60
in_range (every_hours mm start step) = ltb mm 60 && ltb start 24 && leb 1 step
in_range (every_minutes start step) = ltb start 60 && leb 1 step

-- A test that holds of every number below a bound.
abbrev holds_below : (ℕ → Bool) → ℕ → Bool
holds_below test zero = true
holds_below test (suc bound) = holds_below test bound && test bound

holds_below_lem :
    (test : ℕ → Bool) (bound : ℕ)
    → holds_below test bound ≡ true
    → (k : ℕ) → k < bound
    → test k ≡ true
holds_below_lem test zero h k l = absurd (omega arith)
holds_below_lem test (suc bound) h k l = elim (Bool-cases (nat_beq k bound)) [
  | inl e ↦ subst (λ x. test x ≡ true) (sym ((nat_beq_iff k bound).0 e)) (ground arith)
  | inr e ↦ holds_below_lem test bound (ground arith) k (ground (arith, nat_beq_iff k bound))
]

abbrev member : ℕ → List ℕ → Bool
member k [] = false
member k (x ∷ xs) = nat_beq x k || member k xs

member-In : (k : ℕ) (xs : List ℕ) → member k xs ≡ true → In k xs
member-In k [] e = cc
member-In k (x ∷ xs) e = ground (arith, member-In k xs)

-- The intervals below an hour, and the hours, that are allowed.
abbrev minute_steps : List ℕ
minute_steps = 1 ∷ 2 ∷ 3 ∷ 4 ∷ 5 ∷ 6 ∷ 10 ∷ 12 ∷ 15 ∷ 20 ∷ 30 ∷ []

abbrev hour_steps : List ℕ
hour_steps = 1 ∷ 2 ∷ 3 ∷ 4 ∷ 6 ∷ 8 ∷ 12 ∷ []

abbrev divides_hour : ℕ → Bool
divides_hour n = nat_beq n 0 || not (nat_beq (60 % n) 0) || member n minute_steps

abbrev divides_day : ℕ → Bool
divides_day n = nat_beq n 0 || not (nat_beq (24 % n) 0) || member n hour_steps

minute_step : (n : ℕ) → n < 60 → 1 ≤ n → 60 % n ≡ 0 → In n minute_steps
minute_step n l p d =
    member-In n minute_steps
      (ground (arith, holds_below_lem divides_hour 60 refl n l, nat_beq_iff (60 % n) 0))

hour_step : (n : ℕ) → n < 24 → 1 ≤ n → 24 % n ≡ 0 → In n hour_steps
hour_step n l p d =
    member-In n hour_steps
      (ground (arith, holds_below_lem divides_day 24 refl n l, nat_beq_iff (24 % n) 0))

-- The times of an interval of `n` minutes at an offset.
abbrev pub IsEvery : ℕ → ℕ → CronExpr → Type 0
IsEvery n offset e =
    (day h m : ℕ) → h < 24 → m < 60 → (fires e day h m ≡ true) ↔ ((60 * h + m) % n ≡ offset)

abbrev Runs : ℕ → Type 0
Runs n = (offset : ℕ) → offset < n → IsEvery n offset (cron_expr n offset)

minute_steps-Runs : All Runs minute_steps
unfolding fires cron_expr
minute_steps-Runs = (
  (λ o l d h m a b. ground arith),
  (
    (λ o l d h m a b. ground arith),
    (
      (λ o l d h m a b. ground arith),
      (
        (λ o l d h m a b. ground arith),
        (
          (λ o l d h m a b. ground arith),
          (
            (λ o l d h m a b. ground arith),
            (
              (λ o l d h m a b. ground arith),
              (
                (λ o l d h m a b. ground arith),
                (
                  (λ o l d h m a b. ground arith),
                  ((λ o l d h m a b. ground arith), ((λ o l d h m a b. ground arith), tt)),
                ),
              ),
            ),
          ),
        ),
      ),
    ),
  ),
)

hour_steps-Runs : All (λ n. Runs (60 * n)) hour_steps
unfolding fires cron_expr
hour_steps-Runs = (
  (λ o l d h m a b. ground arith),
  (
    (λ o l d h m a b. ground arith),
    (
      (λ o l d h m a b. ground arith),
      (
        (λ o l d h m a b. ground arith),
        (
          (λ o l d h m a b. ground arith),
          ((λ o l d h m a b. ground arith), ((λ o l d h m a b. ground arith), tt)),
        ),
      ),
    ),
  ),
)

day-Runs : Runs 1440
unfolding fires cron_expr
day-Runs offset l day h m hl ml = ground arith

-- The intervals that are allowed.
abbrev pub IsInterval : ℕ → Type 0
IsInterval n = In n minute_steps ⊎ ((k : ℕ) × (n ≡ 60 * k) × In k hour_steps) ⊎ (n ≡ 1440)

IsInterval-Runs : (n : ℕ) → IsInterval n → Runs n
IsInterval-Runs n (inl i) = All-In Runs n minute_steps minute_steps-Runs i
IsInterval-Runs n (inr (inl (k, e, i))) =
    subst Runs (sym e) (All-In (λ j. Runs (60 * j)) k hour_steps hour_steps-Runs i)
IsInterval-Runs n (inr (inr e)) = subst Runs (sym e) day-Runs

abbrev IsRanged : ℕ → Type 0
IsRanged n = (offset : ℕ) → offset < n → in_range (cron_expr n offset) ≡ true

minute_steps-IsRanged : All IsRanged minute_steps
unfolding in_range cron_expr
minute_steps-IsRanged = (
  (λ o l. ground arith),
  (
    (λ o l. ground arith),
    (
      (λ o l. ground arith),
      (
        (λ o l. ground arith),
        (
          (λ o l. ground arith),
          (
            (λ o l. ground arith),
            (
              (λ o l. ground arith),
              (
                (λ o l. ground arith),
                ((λ o l. ground arith), ((λ o l. ground arith), ((λ o l. ground arith), tt))),
              ),
            ),
          ),
        ),
      ),
    ),
  ),
)

hour_steps-IsRanged : All (λ n. IsRanged (60 * n)) hour_steps
unfolding in_range cron_expr
hour_steps-IsRanged = (
  (λ o l. ground arith),
  (
    (λ o l. ground arith),
    (
      (λ o l. ground arith),
      (
        (λ o l. ground arith),
        ((λ o l. ground arith), ((λ o l. ground arith), ((λ o l. ground arith), tt))),
      ),
    ),
  ),
)

day-IsRanged : IsRanged 1440
unfolding in_range cron_expr
day-IsRanged offset l = ground arith

IsInterval-IsRanged : (n : ℕ) → IsInterval n → IsRanged n
IsInterval-IsRanged n (inl i) = All-In IsRanged n minute_steps minute_steps-IsRanged i
IsInterval-IsRanged n (inr (inl (k, e, i))) =
    subst IsRanged (sym e) (All-In (λ j. IsRanged (60 * j)) k hour_steps hour_steps-IsRanged i)
IsInterval-IsRanged n (inr (inr e)) = subst IsRanged (sym e) day-IsRanged

whole : (n : ℕ) → (n * minute) / minute ≡ n
whole n = omega arith

valid_minutes : (n : ℕ) → validate_backup_frequency (n * minute) ≡ none → IsInterval n
unfolding validate_backup_frequency
valid_minutes n e = elim (Bool-cases (ltb n 60)) [
  | inl l ↦ inl (minute_step n (ground arith) (ground (arith, whole n)) (ground (arith, whole n)))
  | inr l ↦ elim (Bool-cases (ltb n 1440)) [
    | inl k ↦ inr (
        inl (
          n / 60,
          ground (arith, whole n),
          hour_step (n / 60) (ground arith) (ground arith) (ground (arith, whole n)),
        ))
    | inr k ↦ inr (inr (ground (arith, whole n)))
  ]
]

-- A frequency is accepted exactly if it is a number of minutes that divides an hour, an hour, a
-- number of hours that divides a day, or a day.
pub validate_backup_frequency-none_iff :
    (n : ℕ) → (validate_backup_frequency (n * minute) ≡ none) ↔ IsInterval n
unfolding validate_backup_frequency
validate_backup_frequency-none_iff n = (
  (λ e. valid_minutes n e),
  (λ i. elim i [
    | inl j ↦
        All-In (λ k. validate_backup_frequency (k * minute) ≡ none) n minute_steps
          (refl, (refl, (refl, (refl, (refl, (refl, (refl, (refl, (refl, (refl, (refl, tt)))))))))))
          j
    | inr (inl (k, e, j)) ↦
        subst (λ x. validate_backup_frequency (x * minute) ≡ none) (sym e)
          (All-In (λ h. validate_backup_frequency ((60 * h) * minute) ≡ none) k hour_steps
            (refl, (refl, (refl, (refl, (refl, (refl, (refl, tt))))))) j)
    | inr (inr e) ↦ subst (λ x. validate_backup_frequency (x * minute) ≡ none) (sym e) refl
  ]),
)

positive : (n : ℕ) → IsInterval n → 1 ≤ n
positive n (inl i) = All-In (λ k. 1 ≤ k) n minute_steps (ground arith) i
positive n (inr (inl (k, e, i))) =
    subst (λ x. 1 ≤ x) (sym e) (All-In (λ h. 1 ≤ 60 * h) k hour_steps (ground arith) i)
positive n (inr (inr e)) = omega (arith, e)

-- If the parser accepts the generator's formats with fields in their ranges: for an interval that is
-- accepted, and any hash, an expression is generated, and it fires, on every day, exactly at the minutes of the day that leave
-- the remainder of the hash modulo the interval. So the runs are evenly spaced, and go on evenly
-- from one day to the next.
pub generate_cron_from_frequency-IsEvery :
    (parses : CronExpr → Bool) (n hash_val : ℕ)
    → ((e : CronExpr) → in_range e ≡ true → parses e ≡ true)
    → IsInterval n
    → (e : CronExpr) × (generate_cron_from_frequency parses (n * minute) hash_val ≡ ok e)
      × IsEvery n (hash_val % n) e
unfolding generate_cron_from_frequency cron_from_interval
generate_cron_from_frequency-IsEvery parses n hash_val accepts i =
    let offset = hash_val % n in
    let small : offset < n = ground (arith, positive n i) in
    (
      cron_expr n offset,
      ground (
        arith,
        (validate_backup_frequency-none_iff n).1 i,
        whole n,
        accepts (cron_expr n offset) (IsInterval-IsRanged n i offset small),
        positive n i,
      ),
      IsInterval-Runs n i offset small,
    )
