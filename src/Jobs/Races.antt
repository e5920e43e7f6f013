-- ===== src/Jobs/Races.antt =====
-- All interleavings on the job tables: the requests for jobs of backend/app/services/sync/service.py, whose
-- look for an active job and whose new row are two commits, and the rebuilds of targets by
-- backend/app/repositories/trade_repository.py, which look for no active job.
use eve_station_trader.Prelude.{ℕ, ◌+◌, str_eq, if◌then◌else◌, String, Option}
use eve_station_trader.Jobs.Rows.{Store, JobError}
use eve_station_trader.Jobs.Runs.{create_job_run}
use eve_station_trader.Jobs.Stale.{finalize_stale_cancelling_jobs}
use eve_station_trader.Jobs.Reach.{Step}
use eve_station_trader.Trade.Rebuild.{
  create_target_rebuild_job, update_target_rebuild_job, finish_target_rebuild_job,
}

-- A request that starts a job ends the stale ones (`finalize`) and later adds a row (`insert`), after a
-- look that may be out of date by then.
pub data Race (s : Store) : Store → Type 0 where
  whole : {u : Store} → Step s u → Race s u
  finalize : (now : ℕ) → Race s (finalize_stale_cancelling_jobs now s)
  insert : (t : String) (now : ℕ) → Race s (create_job_run t now s).1
  create_rebuild : (target now : ℕ) → Race s (create_target_rebuild_job target now s).1
  update_rebuild :
      (i : ℕ) (phase message : String) (current total : ℕ)
      → Race s (update_target_rebuild_job i phase message current total s)
  finish_rebuild :
      (i started finished : ℕ) (error : Option JobError)
      → Race s (finish_target_rebuild_job i started finished error s)

pub data Races (s : Store) : Store → Type 0 where
  none_yet : Races s s
  then_race : {t u : Store} → Races s t → Race t u → Races s u

-- The rows of a type that are added without a look for an active job at that moment.
abbrev pub one_of : String → String → ℕ
one_of t t' = if str_eq t t' then 1 else 0

unfoldable pub added : {s u : Store} → Race s u → String → ℕ
added (insert t now) t' = one_of t t'
added (create_rebuild target now) t' = one_of "target_rebuild" t'
added _ t' = 0

unfoldable pub all_added : {s u : Store} → Races s u → String → ℕ
unfolding added
all_added none_yet t = 0
all_added (then_race r st) t = all_added r t + added st t
