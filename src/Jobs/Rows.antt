-- ===== src/Jobs/Rows.antt =====
-- The rows of sync_job_runs and sync_job_stage_runs (backend/app/models/all_models.py), the store that
-- holds them, and the replies that backend/app/services/sync/service.py builds from them.
use eve_station_trader.Prelude.{
  ℕ, Bool, true, false, Option, List, [], ◌∷◌, String, ◌==◌, ltb, ◌&&◌, ◌||◌, if◌then◌else◌, select,
}
use eve_station_trader.Prelude.Ids.{get, set_row}

-- The texts that the service writes into `status`.
pub data Status : Type 0 where
  running : Status
  cancelling : Status
  success : Status
  failed : Status
  cancelled : Status

-- status in {"success", "failed", "cancelled"}
abbrev pub is_terminal : Status → Bool
is_terminal running = false
is_terminal cancelling = false
is_terminal _ = true

-- A time is a number of milliseconds.
pub record SyncJobRun : Type 0 where
  pub id : ℕ
  pub job_type : String
  pub status : Status
  pub triggered_by : Option String
  pub started_at : ℕ
  pub finished_at : Option ℕ
  pub duration_ms : Option ℕ
  pub records_processed : ℕ
  pub target_type : Option String
  pub target_id : Option String
  pub progress_phase : Option String
  pub progress_current : Option ℕ
  pub progress_total : Option ℕ
  pub progress_unit : Option String
  pub message : Option String
  pub error_details : Option String

-- A JSON value of a stage's metrics.
pub data Metric : Type 0 where
  count : ℕ → Metric
  flag : Bool → Metric
  label : String → Metric

abbrev pub Metrics : Type 0
Metrics = List (String × Metric)

pub record SyncJobStageRun : Type 0 where
  pub id : ℕ
  pub job_run_id : ℕ
  pub stage_key : String
  pub status : Status
  pub started_at : ℕ
  pub finished_at : Option ℕ
  pub duration_ms : Option ℕ
  pub metrics : Metrics
  pub error_details : Option String

-- The two tables, with the next values of their key sequences. It is the committed state: a
-- rollback drops what an operation has not committed.
pub record Store : Type 0 where
  pub jobs : List SyncJobRun
  pub stages : List SyncJobStageRun
  pub next_job : ℕ
  pub next_stage : ℕ

abbrev pub get_job : ℕ → Store → Option SyncJobRun
get_job i s = get (λ (r : SyncJobRun). r.id) i s.jobs

-- Assignments to the fields of the job with the key `i`, committed.
abbrev pub set_job : ℕ → (SyncJobRun → SyncJobRun) → Store → Store
set_job i f s = record s { jobs = set_row (λ (r : SyncJobRun). r.id) i f s.jobs }

abbrev pub get_stage : ℕ → Store → Option SyncJobStageRun
get_stage i s = get (λ (r : SyncJobStageRun). r.id) i s.stages

abbrev pub set_stage : ℕ → (SyncJobStageRun → SyncJobStageRun) → Store → Store
set_stage i f s = record s { stages = set_row (λ (r : SyncJobStageRun). r.id) i f s.stages }

-- The exceptions that leave the operations.
pub data JobError : Type 0 where
  lookup_error : String → JobError
  job_cancelled_error : String → JobError
  runtime_error : String → JobError

pub data Result {ℓ} (A : Type ℓ) : Type ℓ where
  return : A → Result A
  raise : JobError → Result A

-- SyncJobStageRunResponse and SyncJobRunResponse
pub record StageResponse : Type 0 where
  pub id : ℕ
  pub stage_key : String
  pub status : Status
  pub started_at : ℕ
  pub finished_at : Option ℕ
  pub duration_ms : Option ℕ
  pub metrics : Metrics
  pub error_details : Option String

pub record JobResponse : Type 0 where
  pub id : ℕ
  pub started_at : ℕ
  pub finished_at : Option ℕ
  pub job_type : String
  pub status : Status
  pub duration_ms : Option ℕ
  pub records_processed : ℕ
  pub target_type : Option String
  pub target_id : Option String
  pub progress_phase : Option String
  pub progress_current : Option ℕ
  pub progress_total : Option ℕ
  pub progress_unit : Option String
  pub message : Option String
  pub error_details : Option String
  pub stages : List StageResponse

-- ORDER BY started_at, id
module _ {R : Type 0} (started ident : R → ℕ) where
  unfoldable pub starts_before : R → R → Bool
  starts_before a b =
      ltb (started a) (started b) || (started a == started b && ltb (ident a) (ident b))

  unfoldable pub insert_by_start : R → List R → List R
  unfolding starts_before
  insert_by_start r [] = r ∷ []
  insert_by_start r (x ∷ xs) = if starts_before x r then x ∷ insert_by_start r xs else r ∷ x ∷ xs

  unfoldable pub order_by_start : List R → List R
  unfolding insert_by_start
  order_by_start [] = []
  order_by_start (x ∷ xs) = insert_by_start x (order_by_start xs)

-- `_job_stage_rows`
unfoldable pub job_stage_rows : ℕ → Store → List SyncJobStageRun
unfolding order_by_start
job_stage_rows job_id s =
    order_by_start (λ (r : SyncJobStageRun). r.started_at) (λ r. r.id)
      (select (λ r. r.job_run_id == job_id) s.stages)

-- `_stage_response`
abbrev pub stage_response : SyncJobStageRun → StageResponse
stage_response r = record {
  id = r.id;
  stage_key = r.stage_key;
  status = r.status;
  started_at = r.started_at;
  finished_at = r.finished_at;
  duration_ms = r.duration_ms;
  metrics = r.metrics;
  error_details = r.error_details;
}

abbrev pub stage_responses : List SyncJobStageRun → List StageResponse
stage_responses [] = []
stage_responses (r ∷ rs) = stage_response r ∷ stage_responses rs

-- `_to_job_response`
unfoldable pub to_job_response : Store → SyncJobRun → JobResponse
unfolding job_stage_rows
to_job_response s j = record {
  id = j.id;
  started_at = j.started_at;
  finished_at = j.finished_at;
  job_type = j.job_type;
  status = j.status;
  duration_ms = j.duration_ms;
  records_processed = j.records_processed;
  target_type = j.target_type;
  target_id = j.target_id;
  progress_phase = j.progress_phase;
  progress_current = j.progress_current;
  progress_total = j.progress_total;
  progress_unit = j.progress_unit;
  message = j.message;
  error_details = j.error_details;
  stages = stage_responses (job_stage_rows j.id s);
}
