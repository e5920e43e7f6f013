-- ===== src/Jobs/Stages.antt =====
-- The stages of a job: `_start_job_stage` to `_finalize_open_job_stages` of
-- backend/app/services/sync/service.py.
use eve_station_trader.Prelude.{
  ℕ, ◌+◌, ◌-◌, Bool, Option, none, some, List, [], ◌∷◌, ◌++◌, String, ◌==◌, ◌&&◌, str_eq, is_none,
  if◌then◌else◌, update_where,
}
use eve_station_trader.Jobs.Rows.{
  Status, running, success, failed, cancelled, SyncJobStageRun, Metric, Metrics, Store, get_stage,
  set_stage, JobError, lookup_error, job_cancelled_error, runtime_error, Result, return, raise,
}

-- `_sanitize_stage_metrics`: the entries whose value is not None.
unfoldable pub sanitize_stage_metrics : List (String × Option Metric) → Metrics
sanitize_stage_metrics [] = []
sanitize_stage_metrics ((k, none) ∷ m) = sanitize_stage_metrics m
sanitize_stage_metrics ((k, some v) ∷ m) = (k, v) ∷ sanitize_stage_metrics m

-- d[k] = v
unfoldable pub put_metric : String → Metric → Metrics → Metrics
put_metric k v [] = (k, v) ∷ []
put_metric k v ((j, w) ∷ m) = if str_eq j k then (k, v) ∷ m else (j, w) ∷ put_metric k v m

-- d.update(m)
unfoldable pub update_metrics : Metrics → Metrics → Metrics
unfolding put_metric
update_metrics d [] = d
update_metrics d ((k, v) ∷ m) = update_metrics (put_metric k v d) m

-- The row that `_start_job_stage` adds.
abbrev pub fresh_stage : ℕ → ℕ → ℕ → String → List (String × Option Metric) → SyncJobStageRun
fresh_stage id now job_id stage_key metrics = record {
  id = id;
  job_run_id = job_id;
  stage_key = stage_key;
  status = running;
  started_at = now;
  finished_at = none;
  duration_ms = none;
  metrics = sanitize_stage_metrics metrics;
  error_details = none;
}

-- `_start_job_stage`, at time `now`: the new stage's id, and the store with it.
unfoldable pub start_job_stage : ℕ → ℕ → String → List (String × Option Metric) → Store → ℕ × Store
unfolding sanitize_stage_metrics
start_job_stage now job_id stage_key metrics s = (
  s.next_stage,
  record s {
    stages = s.stages ++ fresh_stage s.next_stage now job_id stage_key metrics ∷ [];
    next_stage = s.next_stage + 1;
  },
)

-- `if metrics: ...`
abbrev pub merged_metrics : List (String × Option Metric) → Metrics → Metrics
merged_metrics [] old = old
merged_metrics (m ∷ ms) old = update_metrics old (sanitize_stage_metrics (m ∷ ms))

-- `if error_details is not None: ...`
abbrev pub or_old : Option String → Option String → Option String
or_old none old = old
or_old (some e) old = some e

-- The assignments of `_finish_job_stage`.
abbrev pub finished_stage :
    ℕ
    → ℕ
    → Status
    → List (String × Option Metric)
    → Option String
    → SyncJobStageRun
    → SyncJobStageRun
finished_stage now elapsed status metrics error_details r = record r {
  status = status;
  finished_at = some now;
  duration_ms = some elapsed;
  metrics = merged_metrics metrics r.metrics;
  error_details = or_old error_details r.error_details;
}

-- `_finish_job_stage`; `elapsed` is the time on the performance counter since the stage began.
unfoldable pub finish_job_stage :
    ℕ → ℕ → ℕ → Status → List (String × Option Metric) → Option String → Store → Store
unfolding update_metrics sanitize_stage_metrics
finish_job_stage now elapsed stage_run_id status metrics error_details s =
    elim (get_stage stage_run_id s) [
      | none ↦ s
      | some stage_run ↦
          if is_none stage_run.finished_at
          then set_stage stage_run_id (finished_stage now elapsed status metrics error_details) s
          else s
    ]

-- `_record_completed_job_stage`
unfoldable pub record_completed_job_stage :
    ℕ → ℕ → ℕ → ℕ → String → List (String × Option Metric) → Status → Option String → Store → Store
unfolding start_job_stage finish_job_stage
record_completed_job_stage begin now elapsed job_id stage_key metrics status error_details s =
    let (stage_run_id, s') = start_job_stage begin job_id stage_key [] s in
    finish_job_stage now elapsed stage_run_id status metrics error_details s'

-- str(exc)
abbrev pub error_text : JobError → String
error_text (lookup_error m) = m
error_text (job_cancelled_error m) = m
error_text (runtime_error m) = m

-- `except JobCancelledError` stands before `except Exception`.
abbrev pub error_status : JobError → Status
error_status (job_cancelled_error m) = cancelled
error_status _ = failed

module _ {T : Type 0} (success_metrics : T → List (String × Option Metric)) where
  -- What `_run_job_stage` does with the outcome of `func`; the store is the one that `func` has
  -- committed, since a failure rolls back first.
  unfoldable pub close_job_stage : ℕ → ℕ → ℕ → Result T → Store → Result T × Store
  unfolding finish_job_stage
  close_job_stage now elapsed stage_run_id (return result) s = (
    return result,
    finish_job_stage now elapsed stage_run_id success (success_metrics result) none s,
  )
  close_job_stage now elapsed stage_run_id (raise e) s = (
    raise e,
    finish_job_stage now elapsed stage_run_id (error_status e) [] (some (error_text e)) s,
  )

  -- `_run_job_stage`, begun at `begin` and ended at `now`.
  unfoldable pub run_job_stage :
      ℕ
      → ℕ
      → ℕ
      → ℕ
      → String
      → List (String × Option Metric)
      → (Store → Result T × Store)
      → Store
      → Result T × Store
  unfolding start_job_stage close_job_stage
  run_job_stage begin now elapsed job_id stage_key initial_metrics func s =
      let (stage_run_id, s₁) = start_job_stage begin job_id stage_key initial_metrics s in
      let (result, s₂) = func s₁ in close_job_stage now elapsed stage_run_id result s₂

abbrev pub is_open_of : ℕ → SyncJobStageRun → Bool
is_open_of job_id r = r.job_run_id == job_id && is_none r.finished_at

abbrev pub if_none {ℓ} : {A : Type ℓ} → Option A → Option A → Option A
if_none none d = d
if_none (some a) d = some a

-- The assignments to one open stage.
abbrev pub finalized_stage : ℕ → Status → Option String → SyncJobStageRun → SyncJobStageRun
finalized_stage finished_at status error_details r = record r {
  status = status;
  finished_at = some finished_at;
  error_details = if_none r.error_details error_details;
  duration_ms = if_none r.duration_ms (some (finished_at - r.started_at));
}

-- `_finalize_open_job_stages`
unfoldable pub finalize_open_job_stages : ℕ → ℕ → Status → Option String → Store → Store
finalize_open_job_stages now job_id status error_details s = record s {
  stages = update_where (is_open_of job_id) (finalized_stage now status error_details) s.stages;
}
