-- ===== src/Examples/Schedules.antt =====
-- Backup schedules at a concrete frequency: every 6 hours.
use vitess_operator.Prelude.{◌≡◌, refl, ◌↔◌, inl, inr, ◌*◌, ◌%◌, none, ok}
use vitess_operator.BackupSchedule.{
  minute, CronExpr, validate_backup_frequency, generate_cron_from_frequency,
}
use vitess_operator.BackupSchedule.Firing.{
  IsInterval, IsEvery, in_range, validate_backup_frequency-none_iff,
  generate_cron_from_frequency-IsEvery,
}

six_hours : IsInterval 360
six_hours = inr (inl (6, refl, inr (inr (inr (inr (inl refl))))))

validate_backup_frequency-none_iff_example :
    (validate_backup_frequency (360 * minute) ≡ none) ↔ IsInterval 360
validate_backup_frequency-none_iff_example = validate_backup_frequency-none_iff 360

generate_cron_from_frequency-IsEvery_example :
    (e : CronExpr) × (generate_cron_from_frequency in_range (360 * minute) 1000 ≡ ok e)
    × IsEvery 360 (1000 % 360) e
generate_cron_from_frequency-IsEvery_example =
    generate_cron_from_frequency-IsEvery in_range 360 1000 (λ e h. h) six_hours
