-- ===== src/Jobs/Ends.antt =====
-- How `_execute_job` of backend/app/services/sync/service.py leaves the job that it ran.
use eve_station_trader.Prelude.{ℕ, ◌≡◌, false, Option, some, ◌==◌, count_where}
use mathlib.Core.Option
use eve_station_trader.Jobs.Rows.{
  Status, success, SyncJobRun, Store, get_job, Result, return, raise, JobResponse, to_job_response,
}
use eve_station_trader.Jobs.Stages.{is_open_of, error_status}
use eve_station_trader.Jobs.Runs.{RunResult}

-- The status of a job whose body had this outcome.
abbrev pub outcome_status : Result RunResult → Status
outcome_status (return r) = success
outcome_status (raise e) = error_status e

-- The job `i` of the tables `before` has ended at `now` in the tables `after`.
pub record Ended (i now : ℕ) (outcome : Result RunResult) (job : SyncJobRun) (before after : Store)
    (reply : Result JobResponse) : Type 0 where
  pub job' : SyncJobRun
  pub found : get_job i after ≡ some job'
  pub status : job'.status ≡ outcome_status outcome
  pub finished : job'.finished_at ≡ some now
  pub same_job : (job'.job_type ≡ job.job_type) × (job'.started_at ≡ job.started_at)
  pub replied : reply ≡ return (to_job_response after job')
  pub closed : count_where (is_open_of i) after.stages ≡ 0
  pub others : (k : ℕ) → (k == i) ≡ false → get_job k after ≡ get_job k before
