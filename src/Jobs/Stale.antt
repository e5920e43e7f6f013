-- ===== src/Jobs/Stale.antt =====
-- The jobs that have not ended in time: `_finalize_stale_cancelling_jobs` and `clear_stale_jobs` of
-- backend/app/services/sync/service.py.
use eve_station_trader.Prelude.{
  ℕ, ◌+◌, ◌-◌, ◌*◌, Bool, some, String, concat, ◌&&◌, leb, is_none, if◌then◌else◌, select,
  update_where, length,
}
use eve_station_trader.Prelude.Texts.{in_lower, text_or}
use eve_station_trader.Jobs.Rows.{cancelling, failed, cancelled, SyncJobRun, Store}
use eve_station_trader.Jobs.Runs.{status_is, status_text, is_running_or_cancelling}

-- STALE_CANCELLING_JOB_MINUTES and STALE_RUNNING_JOB_MINUTES, in milliseconds.
abbrev pub stale_cancelling_age : ℕ
stale_cancelling_age = 2 * 60 * 1000

abbrev pub stale_running_age : ℕ
stale_running_age = 30 * 60 * 1000

-- The assignments of `_finalize_stale_cancelling_jobs` to a stale job.
abbrev pub stale_cancelled_message : SyncJobRun → String
unfolding in_lower text_or
stale_cancelled_message j =
    let text = text_or j.message (concat "Cancelled " (concat j.job_type ".")) in
    if in_lower "stale" text then text else concat text " Finalized stale cancellation request."

abbrev pub is_stale_cancelling : ℕ → SyncJobRun → Bool
is_stale_cancelling now j =
    status_is j.status cancelling
    && is_none j.finished_at
    && leb (j.started_at + stale_cancelling_age) now

abbrev pub stale_cancelled_job : ℕ → SyncJobRun → SyncJobRun
stale_cancelled_job now j = record j {
  status = cancelled;
  finished_at = some now;
  duration_ms = some (now - j.started_at);
  message = some (stale_cancelled_message j);
}

-- `_finalize_stale_cancelling_jobs`, at time `now`.
unfoldable pub finalize_stale_cancelling_jobs : ℕ → Store → Store
unfolding in_lower text_or
finalize_stale_cancelling_jobs now s = record s {
  jobs = update_where (is_stale_cancelling now) (stale_cancelled_job now) s.jobs;
}

abbrev pub is_stale_running : ℕ → SyncJobRun → Bool
is_stale_running now j =
    is_running_or_cancelling j.status
    && is_none j.finished_at
    && leb (j.started_at + stale_running_age) now

-- The message is formatted after the status has been overwritten, so it reads the new status.
abbrev pub force_cleared_job : ℕ → SyncJobRun → SyncJobRun
force_cleared_job now j =
    let j' = record j {
      status = failed;
      finished_at = some now;
      duration_ms = some (now - j.started_at);
    } in
    record j' {
      message = some (
          concat "Force-cleared stale " (
            concat j'.job_type
              (concat " job (was " (concat (status_text j'.status) " for >30m)."))));
    }

-- `clear_stale_jobs`: how many jobs it finished, and the store.
unfoldable pub clear_stale_jobs : ℕ → Store → ℕ × Store
clear_stale_jobs now s = (
  length (select (is_stale_running now) s.jobs),
  record s { jobs = update_where (is_stale_running now) (force_cleared_job now) s.jobs },
)
