-- ===== src/Scheduler/Tests.antt =====
-- Rows of settings, and the schedules that they give.
use eve_station_trader.Prelude.{◌≡◌, refl, Bool, true, false, none, some, [], ◌∷◌, ltb, ◌&&◌}
use eve_station_trader.Scheduler.Schedule.{
  JobScheduleConfig, Trigger, interval, cron, SchedulerState, check_config_changes,
}
use eve_station_trader.Scheduler.Changes.{daily, standing, check_config_changes-applied}
use eve_station_trader.Scheduler.Blocked.{check_config_changes-blocked}

abbrev hourly : JobScheduleConfig
hourly = record {
  job_type = "opportunity_rebuild";
  enabled = true;
  trigger_type = "interval";
  interval_minutes = some 60;
  cron_hour = none;
  cron_minute = none;
  updated_at = 5;
}

abbrev daily_row : JobScheduleConfig
daily_row = record {
  job_type = "adam4eve_sync";
  enabled = true;
  trigger_type = "cron";
  interval_minutes = none;
  cron_hour = some 9;
  cron_minute = none;
  updated_at = 6;
}

abbrev start : SchedulerState
start = record { jobs = []; last_config_versions = [] }

-- The ranges of a cron trigger's fields.
unfoldable in_range : Trigger → Bool
in_range (interval n) = true
in_range (cron hour minute) = ltb hour 24 && ltb minute 60

-- No check keeps this hour from being stored.
abbrev late : JobScheduleConfig
late = record {
  job_type = "character_sync";
  enabled = true;
  trigger_type = "cron";
  interval_minutes = none;
  cron_hour = some 25;
  cron_minute = none;
  updated_at = 7;
}

both_scheduled :
    (check_config_changes in_range (hourly ∷ daily_row ∷ []) start).1.jobs
    ≡ ("opportunity_rebuild", interval 60) ∷ ("adam4eve_sync", cron 9 0) ∷ []
unfolding check_config_changes in_range
both_scheduled = refl

check_config_changes-applied_example :
    standing "adam4eve_sync"
      (check_config_changes in_range (hourly ∷ daily_row ∷ late ∷ []) start).1
    ≡ (some (cron 9 0), some 6)
unfolding check_config_changes in_range
check_config_changes-applied_example =
    check_config_changes-applied in_range (hourly ∷ []) (late ∷ []) daily_row (some (cron 9 0))
      start refl (daily 9 refl refl refl) refl refl (refl, tt) (refl, tt) refl

-- The last row is never applied.
check_config_changes-blocked_example :
    let s' = (check_config_changes in_range (hourly ∷ []) start).1 in
    (check_config_changes in_range (hourly ∷ late ∷ daily_row ∷ []) start ≡ (false, s'))
    × (check_config_changes in_range (hourly ∷ late ∷ daily_row ∷ []) s' ≡ (false, s'))
unfolding check_config_changes in_range
check_config_changes-blocked_example =
    check_config_changes-blocked in_range (hourly ∷ []) (daily_row ∷ []) late (some (cron 25 0))
      start refl (daily 25 refl refl refl) refl refl (refl, tt) refl
