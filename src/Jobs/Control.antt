-- ===== src/Jobs/Control.antt =====
-- Starting, cancelling and watching jobs: `trigger_job`, `enqueue_job`, `cancel_job`, `_mark_job_cancelling`,
-- `_check_for_cancellation` and `_update_job_progress` of backend/app/services/sync/service.py.
use eve_station_trader.Prelude.{
  ℕ, ◌+◌, ◌*◌, Bool, true, false, not, Option, none, some, String, concat, ◌&&◌, ◌||◌, leb, str_eq,
  is_none, if◌then◌else◌,
}
use eve_station_trader.Prelude.Texts.{text_or, decimal}
use eve_station_trader.Jobs.Rows.{
  cancelling, cancelled, is_terminal, SyncJobRun, Store, get_job, set_job, lookup_error,
  job_cancelled_error, Result, return, raise, JobResponse, to_job_response,
}
use eve_station_trader.Jobs.Runs.{
  status_is, create_job_run, get_active_job_run, RunResult, save_job, execute_job,
}
use eve_station_trader.Jobs.Stale.{finalize_stale_cancelling_jobs}

-- OPPORTUNITY_REBUILD_MAX_RUNTIME, in milliseconds.
abbrev pub opportunity_rebuild_max_runtime : ℕ
opportunity_rebuild_max_runtime = 30 * 60 * 1000

-- `trigger_job` after the stale jobs: an active job of the type is answered, else a new one is run.
unfoldable pub trigger_fresh :
    (ℕ → Store → Result RunResult × Store)
    → String
    → ℕ
    → ℕ
    → Option SyncJobRun
    → Store
    → Result JobResponse × Store
unfolding create_job_run execute_job to_job_response
trigger_fresh run_job job_type now finish (some active) s = (return (to_job_response s active), s)
trigger_fresh run_job job_type now finish none s =
    let (job, s') = create_job_run job_type now s in
    execute_job (run_job job.id) job.id job_type now finish s'

-- `trigger_job`, called at `now`; a job that it runs ends at `finish`.
unfoldable pub trigger_job :
    (ℕ → Store → Result RunResult × Store) → String → ℕ → ℕ → Store → Result JobResponse × Store
unfolding finalize_stale_cancelling_jobs get_active_job_run trigger_fresh
trigger_job run_job job_type now finish s =
    let s' = finalize_stale_cancelling_jobs now s in
    trigger_fresh run_job job_type now finish (get_active_job_run job_type s') s'

-- `enqueue_job`: the reply, the job that a new thread will execute, and the store. No other operation
-- runs between its commits here; Jobs.Races has them apart.
unfoldable pub enqueue_fresh :
    String → ℕ → Option SyncJobRun → Store → JobResponse × Option ℕ × Store
unfolding create_job_run to_job_response
enqueue_fresh job_type now (some active) s = (to_job_response s active, none, s)
enqueue_fresh job_type now none s =
    let (job, s') = create_job_run job_type now s in (to_job_response s' job, some job.id, s')

unfoldable pub enqueue_job : String → ℕ → Store → JobResponse × Option ℕ × Store
unfolding finalize_stale_cancelling_jobs get_active_job_run enqueue_fresh
enqueue_job job_type now s =
    let s' = finalize_stale_cancelling_jobs now s in
    enqueue_fresh job_type now (get_active_job_run job_type s') s'

abbrev pub cancelling_job : String → SyncJobRun → SyncJobRun
cancelling_job reason j = record j { status = cancelling; message = some reason }

-- `cancel_job`
unfoldable pub cancel_job : ℕ → ℕ → Store → Result JobResponse × Store
unfolding finalize_stale_cancelling_jobs save_job to_job_response decimal
cancel_job now job_id s =
    let s' = finalize_stale_cancelling_jobs now s in
    elim (get_job job_id s') [
      | none ↦ (
        raise (lookup_error (concat "Sync job " (concat (decimal job_id) " was not found."))),
        s',
      )
      | some job ↦
          if not (is_none job.finished_at) || is_terminal job.status
          then (return (to_job_response s' job), s')
          else save_job job_id (cancelling_job (concat "Cancelling " (concat job.job_type "."))) job
              s'
    ]

-- `_mark_job_cancelling`
unfoldable pub mark_job_cancelling : ℕ → String → Store → Store
mark_job_cancelling job_id reason s = elim (get_job job_id s) [
  | none ↦ s
  | some job ↦ if is_none job.finished_at then set_job job_id (cancelling_job reason) s else s
]

abbrev pub shutdown_message : String
shutdown_message = "Cancelling due to process shutdown signal."

-- The label of the runtime limit is "30 minute", since the limit is a constant of 1800 seconds.
abbrev pub timeout_message : String
timeout_message = "Cancelled opportunity_rebuild after exceeding 30 minute runtime limit."

abbrev pub exceeds_runtime : ℕ → SyncJobRun → Bool
exceeds_runtime now j =
    str_eq j.job_type "opportunity_rebuild"
    && is_none j.finished_at
    && leb (j.started_at + opportunity_rebuild_max_runtime) now

-- `_check_for_cancellation`, where `shutdown` says whether the process was signalled.
unfoldable pub check_for_cancellation : Bool → ℕ → ℕ → Store → Result (Unit {0}) × Store
unfolding mark_job_cancelling text_or
check_for_cancellation true now job_id s = (
  raise (job_cancelled_error "Cancelled due to process shutdown signal."),
  mark_job_cancelling job_id shutdown_message s,
)
check_for_cancellation false now job_id s = elim (get_job job_id s) [
  | none ↦ (return tt, s)
  | some job ↦
      if exceeds_runtime now job
      then (
        raise (job_cancelled_error timeout_message),
        mark_job_cancelling job_id timeout_message s,
      )
      else if status_is job.status cancelling || status_is job.status cancelled
      then (
        raise (
            job_cancelled_error
              (text_or job.message (concat "Cancelled " (concat job.job_type ".")))),
        s,
      )
      else (return tt, s)
]

-- The arguments of `_update_job_progress`.
pub record Progress : Type 0 where
  pub progress_phase : Option String
  pub progress_current : Option ℕ
  pub progress_total : Option ℕ
  pub progress_unit : Option String
  pub message : Option String

abbrev pub progressed_job : Progress → SyncJobRun → SyncJobRun
progressed_job p j = record j {
  progress_phase = p.progress_phase;
  progress_current = p.progress_current;
  progress_total = p.progress_total;
  progress_unit = p.progress_unit;
  message = p.message;
}

-- `_update_job_progress`; the isolated session commits the same assignments.
unfoldable pub update_job_progress : ℕ → Progress → Store → Store
update_job_progress job_id p s = elim (get_job job_id s) [
  | none ↦ s
  | some job ↦ if is_none job.finished_at then set_job job_id (progressed_job p) s else s
]
