-- ===== src/Trade/Rebuild.antt =====
-- `refresh_opportunities`, `_create_target_rebuild_job`, `_update_target_rebuild_job` and
-- `_finish_target_rebuild_job` of backend/app/repositories/trade_repository.py: a rebuild of the
-- opportunities of a target, shown as a job.
use eve_station_trader.Prelude.{
  ℕ, ◌+◌, ◌-◌, ◌==◌, Bool, true, false, ◌&&◌, Option, none, some, List, [], ◌∷◌, ◌++◌, String,
  concat, any_row, is_none, if◌then◌else◌,
}
use eve_station_trader.Prelude.Texts.{decimal}
use eve_station_trader.Ingest.Rows.{Location}
use eve_station_trader.Jobs.Rows.{
  running, success, failed, SyncJobRun, Store, get_job, set_job, JobError, lookup_error, Result,
  return, raise,
}
use eve_station_trader.Jobs.Stages.{error_text}
use eve_station_trader.Trade.Rows.{PeriodKey, resolve_location_id}

-- What the rebuild reads besides the jobs.
pub record TradeTables : Type 0 where
  pub locations : List Location
  pub price_periods : List PeriodKey
  pub demands : List PeriodKey

abbrev pub rebuild_job : ℕ → ℕ → ℕ → SyncJobRun
rebuild_job id target_location_id started_at = record {
  id = id;
  job_type = "target_rebuild";
  status = running;
  triggered_by = some "manual";
  started_at = started_at;
  finished_at = none;
  duration_ms = none;
  records_processed = 0;
  target_type = some "location";
  target_id = some (decimal target_location_id);
  progress_phase = some "Starting";
  progress_current = none;
  progress_total = none;
  progress_unit = none;
  message = some "Rebuilding opportunities for target.";
  error_details = none;
}

-- The id of the new job, and the store with it.
unfoldable pub create_target_rebuild_job : ℕ → ℕ → Store → ℕ × Store
create_target_rebuild_job target_location_id started_at s = (
  s.next_job,
  record s {
    jobs = s.jobs ++ rebuild_job s.next_job target_location_id started_at ∷ [];
    next_job = s.next_job + 1;
  },
)

abbrev pub progressed : String → String → ℕ → ℕ → SyncJobRun → SyncJobRun
progressed phase message current total j = record j {
  progress_phase = some phase;
  message = some message;
  progress_current = some current;
  progress_total = some total;
}

-- A job that is gone or has ended stays as it is. All callers give both numbers.
unfoldable pub update_found : ℕ → String → String → ℕ → ℕ → Option SyncJobRun → Store → Store
update_found job_id phase message current total none s = s
update_found job_id phase message current total (some j) s =
    if is_none j.finished_at then set_job job_id (progressed phase message current total) s else s

unfoldable pub update_target_rebuild_job : ℕ → String → String → ℕ → ℕ → Store → Store
unfolding update_found
update_target_rebuild_job job_id phase message current total s =
    update_found job_id phase message current total (get_job job_id s) s

abbrev pub rebuilt_job : ℕ → ℕ → Option JobError → SyncJobRun → SyncJobRun
rebuilt_job started_at finished_at none j = record j {
  finished_at = some finished_at;
  duration_ms = some (finished_at - started_at);
  status = success;
  progress_phase = some "Completed";
  message = some "Rebuild complete.";
}
rebuilt_job started_at finished_at (some error) j = record j {
  finished_at = some finished_at;
  duration_ms = some (finished_at - started_at);
  status = failed;
  progress_phase = some "Failed";
  message = some (concat "Rebuild failed: " (error_text error));
  error_details = some (error_text error);
}

unfoldable pub finish_found : ℕ → ℕ → ℕ → Option JobError → Option SyncJobRun → Store → Store
finish_found job_id started_at finished_at error none s = s
finish_found job_id started_at finished_at error (some j) s =
    set_job job_id (rebuilt_job started_at finished_at error) s

unfoldable pub finish_target_rebuild_job : ℕ → ℕ → ℕ → Option JobError → Store → Store
unfolding finish_found
finish_target_rebuild_job job_id started_at finished_at error s =
    finish_found job_id started_at finished_at error (get_job job_id s) s

unfoldable pub has_period : ℕ → ℕ → List PeriodKey → Bool
has_period location_id period_days rows =
    any_row (λ (r : PeriodKey). r.location_id == location_id && r.period_days == period_days) rows

abbrev pub RebuildOutcome : Type 0
RebuildOutcome = Result (Unit {0}) × Store × TradeTables

-- `existing` and `prepare` are SyncService's refresh_trade_scope_from_existing_rows and
-- prepare_trade_period, the latter with refresh_inputs; they get the keys of the target and of the
-- source, and the tables other than those of the jobs.
module _ (existing : ℕ → Option ℕ → TradeTables → Result Bool × TradeTables)
    (prepare : Bool → ℕ → Option ℕ → TradeTables → Result (Unit {0}) × TradeTables) where
  unfoldable pub finalizing : ℕ → Store → Store
  unfolding update_target_rebuild_job
  finalizing job_id s = update_target_rebuild_job job_id "Finalizing" "Committing results." 5 5 s

  unfoldable pub prepared : ℕ → Result (Unit {0}) × TradeTables → Store → RebuildOutcome
  unfolding finalizing
  prepared job_id (raise e, t) s = (raise e, s, t)
  prepared job_id (return u, t) s = (return u, finalizing job_id s, t)

  -- Steps 3 to 5 on the slow path.
  unfoldable pub slow_path : ℕ → Bool → ℕ → Option ℕ → Store → TradeTables → RebuildOutcome
  unfolding prepared update_target_rebuild_job
  slow_path job_id needs_refresh target source s t =
      let s1 =
        if needs_refresh
        then update_target_rebuild_job job_id "Refreshing market prices"
            "Fetching latest price periods and demand data." 2 5 s
        else s in
      let s2 =
        update_target_rebuild_job job_id "Generating opportunities"
          "Computing opportunity items and source summaries." 3 5 s1 in
      prepared job_id (prepare needs_refresh target source t) s2

  -- What the call on the fast path gives: done, or on to the slow path.
  unfoldable pub fast_done : ℕ → ℕ → Option ℕ → Result Bool × TradeTables → Store → RebuildOutcome
  unfolding finalizing slow_path
  fast_done job_id target source (raise e, t) s = (raise e, s, t)
  fast_done job_id target source (return true, t) s = (return tt, finalizing job_id s, t)
  fast_done job_id target source (return false, t) s = slow_path job_id false target source s t

  -- Steps 2 and 3, with both locations.
  unfoldable pub checked : ℕ → ℕ → ℕ → Option ℕ → Store → TradeTables → RebuildOutcome
  unfolding update_target_rebuild_job has_period fast_done slow_path
  checked job_id period_days target source s t =
      let s1 =
        update_target_rebuild_job job_id "Checking existing market data"
          "Checking for existing price and demand data." 1 5 s in
      let present =
        has_period target period_days t.price_periods && has_period target period_days t.demands in
      if present
      then fast_done job_id target source (existing target source t) (
          update_target_rebuild_job job_id "Rebuilding opportunities"
            "Generating opportunities from existing market data." 3 5 s1)
      else slow_path job_id true target source s1 t

  unfoldable pub with_source : ℕ → ℕ → ℕ → ℕ → Option ℕ → Store → TradeTables → RebuildOutcome
  unfolding checked
  with_source job_id period_days target reference none s t = (
    raise (lookup_error (concat "Source location " (concat (decimal reference) " was not found."))),
    s,
    t,
  )
  with_source job_id period_days target reference (some source) s t =
      checked job_id period_days target (some source) s t

  unfoldable pub with_target :
      ℕ → ℕ → ℕ → Option ℕ → Option ℕ → Store → TradeTables → RebuildOutcome
  unfolding with_source checked resolve_location_id
  with_target job_id period_days reference source none s t = (
    raise (lookup_error (concat "Target location " (concat (decimal reference) " was not found."))),
    s,
    t,
  )
  with_target job_id period_days reference none (some target) s t =
      checked job_id period_days target none s t
  with_target job_id period_days reference (some source) (some target) s t =
      with_source job_id period_days target source (resolve_location_id source t.locations) s t

  -- `except Exception`: the job fails, and the exception goes on; otherwise it has succeeded.
  unfoldable pub ended : ℕ → ℕ → ℕ → RebuildOutcome → RebuildOutcome
  unfolding finish_target_rebuild_job
  ended job_id started_at finished_at (return u, s, t) =
      (return u, finish_target_rebuild_job job_id started_at finished_at none s, t)
  ended job_id started_at finished_at (raise e, s, t) =
      (raise e, finish_target_rebuild_job job_id started_at finished_at (some e) s, t)

  unfoldable pub refresh_opportunities :
      ℕ → ℕ → ℕ → ℕ → Option ℕ → Store → TradeTables → RebuildOutcome
  unfolding create_target_rebuild_job update_target_rebuild_job resolve_location_id with_target
      ended
  refresh_opportunities started_at finished_at target_location_id period_days source_location_id s
        t =
      let (job_id, s1) = create_target_rebuild_job target_location_id started_at s in
      let s2 =
        update_target_rebuild_job job_id "Resolving location" "Resolving target location." 0 5 s1 in
      ended job_id started_at finished_at (
        with_target job_id period_days target_location_id source_location_id
          (resolve_location_id target_location_id t.locations) s2 t)
