-- ===== src/Jobs/Runs.antt =====
-- The job runs: `_create_job_run`, `_get_active_job_run` and `_execute_job` of
-- backend/app/services/sync/service.py.
use eve_station_trader.Prelude.{
  ℕ, ◌+◌, ◌-◌, Bool, true, false, Option, none, some, List, [], ◌∷◌, ◌++◌, String, concat, ◌&&◌,
  ◌||◌, str_eq, is_none, if◌then◌else◌, select,
}
use eve_station_trader.Prelude.Texts.{decimal}
use eve_station_trader.Jobs.Rows.{
  Status, running, cancelling, success, failed, cancelled, SyncJobRun, Store, get_job, set_job,
  JobError, lookup_error, job_cancelled_error, Result, return, raise, JobResponse, order_by_start,
  to_job_response,
}
use eve_station_trader.Jobs.Stages.{error_text, finalize_open_job_stages}

abbrev pub status_is : Status → Status → Bool
status_is running running = true
status_is cancelling cancelling = true
status_is success success = true
status_is failed failed = true
status_is cancelled cancelled = true
status_is _ _ = false

abbrev pub status_text : Status → String
status_text running = "running"
status_text cancelling = "cancelling"
status_text success = "success"
status_text failed = "failed"
status_text cancelled = "cancelled"

-- status in ("running", "cancelling")
abbrev pub is_running_or_cancelling : Status → Bool
is_running_or_cancelling s = status_is s running || status_is s cancelling

-- The row that `_create_job_run` adds.
abbrev pub fresh_job : ℕ → String → ℕ → SyncJobRun
fresh_job id job_type started_at = record {
  id = id;
  job_type = job_type;
  status = running;
  triggered_by = some "manual";
  started_at = started_at;
  finished_at = none;
  duration_ms = none;
  records_processed = 0;
  target_type = some "manual";
  target_id = none;
  progress_phase = some "Queued";
  progress_current = none;
  progress_total = none;
  progress_unit = none;
  message = some (concat "Running " (concat job_type "."));
  error_details = none;
}

-- `_create_job_run`: the new job, and the store with it.
unfoldable pub create_job_run : String → ℕ → Store → SyncJobRun × Store
create_job_run job_type started_at s =
    let job_run = fresh_job s.next_job job_type started_at in
    (job_run, record s { jobs = s.jobs ++ job_run ∷ []; next_job = s.next_job + 1 })

abbrev pub is_active : String → SyncJobRun → Bool
is_active job_type r =
    str_eq r.job_type job_type && is_none r.finished_at && is_running_or_cancelling r.status

abbrev pub last_row {ℓ} : {A : Type ℓ} → List A → Option A
last_row [] = none
last_row (x ∷ []) = some x
last_row (x ∷ y ∷ ys) = last_row (y ∷ ys)

-- `_get_active_job_run`: ORDER BY started_at DESC, id DESC LIMIT 1.
unfoldable pub get_active_job_run : String → Store → Option SyncJobRun
unfolding order_by_start
get_active_job_run job_type s = last_row (
    order_by_start (λ (r : SyncJobRun). r.started_at) (λ r. r.id)
      (select (is_active job_type) s.jobs))

-- What `_run_job` returns.
pub record RunResult : Type 0 where
  pub records_processed : ℕ
  pub target_type : String
  pub target_id : Option String
  pub message : String

-- `if progress_total is not None and progress_current is None: progress_current = 0`
abbrev pub zero_progress : Option ℕ → Option ℕ → Option ℕ
zero_progress (some total) none = some 0
zero_progress _ current = current

-- `if progress_total is not None: progress_current = progress_total`
abbrev pub full_progress : Option ℕ → Option ℕ → Option ℕ
full_progress (some total) current = some total
full_progress none current = current

-- The assignments of the three ends of `_execute_job`.
abbrev pub cancelled_job : ℕ → ℕ → String → SyncJobRun → SyncJobRun
cancelled_job started_at finished_at reason j = record j {
  status = cancelled;
  finished_at = some finished_at;
  duration_ms = some (finished_at - started_at);
  records_processed = 0;
  target_type = some "manual";
  target_id = none;
  progress_current = zero_progress j.progress_total j.progress_current;
  message = some reason;
}

abbrev pub failed_job : String → ℕ → ℕ → String → SyncJobRun → SyncJobRun
failed_job job_type started_at finished_at reason j = record j {
  status = failed;
  finished_at = some finished_at;
  duration_ms = some (finished_at - started_at);
  records_processed = 0;
  target_type = some "manual";
  target_id = none;
  progress_current = zero_progress j.progress_total j.progress_current;
  message = some (concat "Failed " (concat job_type "."));
  error_details = some reason;
}

abbrev pub succeeded_job : ℕ → ℕ → RunResult → SyncJobRun → SyncJobRun
succeeded_job started_at finished_at result j = record j {
  status = success;
  finished_at = some finished_at;
  duration_ms = some (finished_at - started_at);
  records_processed = result.records_processed;
  target_type = some result.target_type;
  target_id = result.target_id;
  progress_current = full_progress j.progress_total j.progress_current;
  progress_phase = some "Completed";
  message = some result.message;
  error_details = none;
}

abbrev pub is_cancellation : JobError → Bool
is_cancellation (job_cancelled_error m) = true
is_cancellation _ = false

-- The assignments to the row `job` of the key, committed, and the reply.
unfoldable pub save_job :
    ℕ → (SyncJobRun → SyncJobRun) → SyncJobRun → Store → Result JobResponse × Store
unfolding to_job_response
save_job job_id f job s = let s' = set_job job_id f s in (return (to_job_response s' (f job)), s')

-- `_execute_job` after `_run_job`, at time `now`; a failure has rolled back to the committed store.
unfoldable pub end_job : ℕ → String → ℕ → ℕ → Result RunResult → Store → Result JobResponse × Store
unfolding save_job finalize_open_job_stages decimal
end_job job_id job_type started_at now (return result) s = elim (get_job job_id s) [
  | none ↦ (
    raise (
        lookup_error
          (concat "Sync job " (concat (decimal job_id) " disappeared during execution."))),
    s,
  )
  | some job ↦
      save_job job_id (succeeded_job started_at now result) job
        (finalize_open_job_stages now job_id success none s)
]
end_job job_id job_type started_at now (raise e) s = elim (get_job job_id s) [
  | none ↦ (raise e, s)
  | some job ↦
      if is_cancellation e
      then save_job job_id (cancelled_job started_at now (error_text e)) job
          (finalize_open_job_stages now job_id cancelled (some (error_text e)) s)
      else save_job job_id (failed_job job_type started_at now (error_text e)) job
          (finalize_open_job_stages now job_id failed (some (error_text e)) s)
]

-- `_execute_job`. `run_job` stands for `_run_job` on this job's type and id, over the committed
-- store.
unfoldable pub execute_job :
    (Store → Result RunResult × Store) → ℕ → String → ℕ → ℕ → Store → Result JobResponse × Store
unfolding end_job
execute_job run_job job_id job_type started_at now s =
    let (result, s') = run_job s in end_job job_id job_type started_at now result s'
