-- ===== src/Scheduler/Schedule.antt =====
-- backend/app/workers/tasks/sync_tasks.py: the schedules of the jobs, and the changes of their settings.
use eve_station_trader.Prelude.{
  ℕ, Bool, true, false, not, Option, none, some, List, [], ◌∷◌, String, str_eq, ltb, or_else,
  if◌then◌else◌, delete, any_row,
}

-- A row of job_schedule_configs.
pub record JobScheduleConfig : Type 0 where
  pub job_type : String
  pub enabled : Bool
  pub trigger_type : String
  pub interval_minutes : Option ℕ
  pub cron_hour : Option ℕ
  pub cron_minute : Option ℕ
  pub updated_at : ℕ

pub data Trigger : Type 0 where
  interval : ℕ → Trigger
  cron : ℕ → ℕ → Trigger

-- A dict by job type: jobs of the scheduler, and _last_config_versions.
module _ {V : Type 0} where
  unfoldable pub get_key : String → List (String × V) → Option V
  get_key k [] = none
  get_key k ((j, v) ∷ m) = if str_eq j k then some v else get_key k m

  unfoldable pub put_key : String → V → List (String × V) → List (String × V)
  put_key k v [] = (k, v) ∷ []
  put_key k v ((j, w) ∷ m) = if str_eq j k then (k, v) ∷ m else (j, w) ∷ put_key k v m

-- The scheduler's jobs and the versions of the settings that were applied.
pub record SchedulerState : Type 0 where
  pub jobs : List (String × Trigger)
  pub last_config_versions : List (String × ℕ)

-- The keys of JOB_FUNCTIONS
abbrev pub job_functions : List String
job_functions =
    "esi_market_orders_sync" ∷ "everef_history_sync" ∷ "adam4eve_sync" ∷ "character_sync"
    ∷ "opportunity_rebuild" ∷ []

abbrev pub is_registered : String → Bool
is_registered job_type = any_row (λ name. str_eq name job_type) job_functions

-- The trigger of a configuration, if it is valid: an interval of no minutes is not.
abbrev pub interval_of : Option ℕ → Option Trigger
interval_of none = none
interval_of (some n) = if ltb 0 n then some (interval n) else none

abbrev pub cron_of : Option ℕ → Option ℕ → Option Trigger
cron_of none minute = none
cron_of (some hour) minute = some (cron hour (or_else minute 0))

unfoldable pub trigger_of : JobScheduleConfig → Option Trigger
trigger_of c =
    if str_eq c.trigger_type "interval"
    then interval_of c.interval_minutes
    else if str_eq c.trigger_type "cron"
    then cron_of c.cron_hour c.cron_minute
    else none

abbrev pub is_newer : ℕ → Option ℕ → Bool
is_newer updated none = true
is_newer updated (some seen) = ltb seen updated

-- `accepts` says of a trigger whether the library can build it: for a cron hour or minute that is out of
-- range it raises ValueError, before it touches the job that stands.
module _ (accepts : Trigger → Bool) where
  -- `none` where scheduler.add_job raises.
  unfoldable pub add_job :
      String → Option Trigger → List (String × Trigger) → Option (List (String × Trigger))
  unfolding put_key
  add_job id none jobs = some jobs
  add_job id (some trigger) jobs = if accepts trigger then some (put_key id trigger jobs) else none

  -- `_apply_schedule`; a job that is missing is not removed.
  unfoldable pub apply_schedule :
      JobScheduleConfig → List (String × Trigger) → Option (List (String × Trigger))
  unfolding trigger_of add_job
  apply_schedule c jobs =
      if not (is_registered c.job_type)
      then some jobs
      else if not c.enabled
      then some (delete (λ j. str_eq j.0 c.job_type) jobs)
      else add_job c.job_type (trigger_of c) jobs

  -- After `_apply_schedule`: the version is set unless it raised.
  unfoldable pub applied :
      JobScheduleConfig → Option (List (String × Trigger)) → SchedulerState → Option SchedulerState
  unfolding put_key
  applied c none s = none
  applied c (some jobs) s = some (record {
    jobs = jobs;
    last_config_versions = put_key c.job_type c.updated_at s.last_config_versions;
  })

  -- One round of the loop of `_check_config_changes`.
  unfoldable pub check_config : JobScheduleConfig → SchedulerState → Option SchedulerState
  unfolding apply_schedule applied get_key
  check_config c s =
      if is_newer c.updated_at (get_key c.job_type s.last_config_versions)
      then applied c (apply_schedule c s.jobs) s
      else some s

  -- `_check_config_changes` on the rows that it reads; `false` where the except branch ends it, with the
  -- changes made so far.
  unfoldable pub check_config_changes :
      List JobScheduleConfig → SchedulerState → Bool × SchedulerState
  unfolding check_config
  check_config_changes [] s = (true, s)
  check_config_changes (c ∷ cs) s = elim (check_config c s) [
    | none ↦ (false, s)
    | some s' ↦ check_config_changes cs s'
  ]
