-- ===== src/BackupSchedule.antt =====
-- pkg/apis/planetscale/v2/vitessbackupschedule_methods.go and
-- pkg/controller/vitessbackupschedule/schedule_generator.go: when backups run.
--
-- A duration is a number of nanoseconds, not negative. `int(frequency.Minutes())` rounds down; where
-- the floating-point quotient is not exact, the test that follows refuses the frequency. A cron
-- expression is one of the formats that the generator prints, with its numbers. `cron.ParseStandard`
-- and `time.ParseDuration` are arguments, and so is the hash of the shard's identity.
pub mod Firing
use vitess_operator.Prelude.{
  ℕ, ◌+◌, ◌-◌, ◌*◌, ◌/◌, ◌%◌, String, Bool, true, false, ◌&&◌, ◌||◌, not, Option, none, some, List,
  [], ◌∷◌, Map, Answer, ok, err, ltb, leb, nat_beq, string_eq, ◌==◌, if◌then◌else◌,
}

abbrev pub minute : ℕ
minute = 60000000000

pub data Problem : Type 0 where
  too_short not_whole_minutes not_dividing_hour not_whole_hours not_dividing_day too_long : Problem
  both_set none_set : Problem
  bad_duration bad_cron : Problem
  offset_range : Problem
  keyspace_missing shard_missing keyspace_set shard_set unknown_scope : Problem

unfoldable pub validate_backup_frequency : ℕ → Option Problem
validate_backup_frequency frequency =
    let total_minutes = frequency / minute in
    if ltb total_minutes 1
    then some too_short
    else if not (nat_beq frequency (total_minutes * minute))
    then some not_whole_minutes
    else if ltb total_minutes 60
    then (if not (nat_beq (60 % total_minutes) 0) then some not_dividing_hour else none)
    else if ltb total_minutes 1440
    then (if not (nat_beq (total_minutes % 60) 0)
        then some not_whole_hours
        else if not (nat_beq (24 % (total_minutes / 60)) 0)
        then some not_dividing_day
        else none)
    else if nat_beq total_minutes 1440
    then none
    else some too_long

-- The formats of `fmt.Sprintf`, in the order of the fields.
pub data CronExpr : Type 0 where
  -- "%d %d * * *" and "%d %d */%d * *"
  daily : ℕ → ℕ → CronExpr
  every_days : ℕ → ℕ → ℕ → CronExpr
  -- "%d * * * *" and "%d %d/%d * * *"
  hourly : ℕ → CronExpr
  every_hours : ℕ → ℕ → ℕ → CronExpr
  -- "%d/%d * * * *"
  every_minutes : ℕ → ℕ → CronExpr

-- The switch of `cronFromInterval`.
unfoldable pub cron_expr : ℕ → ℕ → CronExpr
cron_expr total_minutes offset_minutes =
    if leb 1440 total_minutes && nat_beq (total_minutes % 1440) 0
    then (let day_offset = offset_minutes % 1440 in
        if nat_beq total_minutes 1440
        then daily (day_offset % 60) (day_offset / 60)
        else every_days (day_offset % 60) (day_offset / 60) (total_minutes / 1440))
    else if leb 60 total_minutes && nat_beq (total_minutes % 60) 0
    then (let step_hours = total_minutes / 60 in
        if nat_beq step_hours 1
        then hourly (offset_minutes % 60)
        else every_hours (offset_minutes % 60) ((offset_minutes / 60) % step_hours) step_hours)
    else if ltb total_minutes 60
    then every_minutes (offset_minutes % total_minutes) total_minutes
    else daily (offset_minutes % 60) (offset_minutes / 60)

module _ (parses : CronExpr → Bool) where
  unfoldable pub cron_from_interval : ℕ → ℕ → Answer CronExpr Problem
  unfolding cron_expr
  cron_from_interval total_minutes offset_minutes =
      if ltb total_minutes 1
      then err too_short
      else if leb total_minutes offset_minutes
      then err offset_range
      else (let expr = cron_expr total_minutes offset_minutes in
          if parses expr then ok expr else err bad_cron)

  abbrev cron_of_valid : Option Problem → ℕ → ℕ → Answer CronExpr Problem
  cron_of_valid (some problem) frequency hash_val = err problem
  cron_of_valid none frequency hash_val =
      let total_minutes = frequency / minute in
      cron_from_interval total_minutes (hash_val % total_minutes)

  unfoldable pub generate_cron_from_frequency : ℕ → ℕ → Answer CronExpr Problem
  unfolding validate_backup_frequency cron_from_interval
  generate_cron_from_frequency frequency hash_val =
      cron_of_valid (validate_backup_frequency frequency) frequency hash_val

-- A strategy of a schedule.
pub record Strategy : Type 0 where
  pub name : String
  pub scope : String
  pub keyspace : String
  pub shard : String
  pub extra_flags : Map String String

abbrev pub scope_shard : String
scope_shard = "Shard"

abbrev pub scope_keyspace : String
scope_keyspace = "Keyspace"

abbrev pub scope_cluster : String
scope_cluster = "Cluster"

abbrev pub is_set : String → Bool
is_set s = not (s == "")

unfoldable pub validate_strategy : Strategy → Option Problem
validate_strategy s =
    let scope = if is_set s.scope then s.scope else scope_shard in
    if scope == scope_shard
    then (if not (is_set s.keyspace)
        then some keyspace_missing
        else if not (is_set s.shard)
        then some shard_missing
        else none)
    else if scope == scope_keyspace
    then (if not (is_set s.keyspace)
        then some keyspace_missing
        else if is_set s.shard
        then some shard_set
        else none)
    else if scope == scope_cluster
    then (if is_set s.keyspace
        then some keyspace_set
        else if is_set s.shard
        then some shard_set
        else none)
    else some unknown_scope

unfoldable pub validate_strategies : List Strategy → Option Problem
unfolding validate_strategy
validate_strategies [] = none
validate_strategies (s ∷ strategies) = elim (validate_strategy s) [
  | none ↦ validate_strategies strategies
  | some problem ↦ some problem
]

abbrev validate_parsed : Option ℕ → Option Problem
validate_parsed none = some bad_duration
validate_parsed (some frequency) = validate_backup_frequency frequency

-- `ValidateScheduleConfig` on the fields Schedule and Frequency.
unfoldable pub validate_schedule_config : (String → Option ℕ) → String → String → Option Problem
unfolding validate_backup_frequency
validate_schedule_config parse_duration schedule frequency =
    if is_set schedule && is_set frequency
    then some both_set
    else if not (is_set schedule) && not (is_set frequency)
    then some none_set
    else if is_set frequency
    then validate_parsed (parse_duration frequency)
    else none
