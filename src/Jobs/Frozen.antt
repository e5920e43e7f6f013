-- ===== src/Jobs/Frozen.antt =====
-- A job that has ended is changed by nothing but the end of its own thread
-- (backend/app/services/sync/service.py).
use eve_station_trader.Prelude.{ℕ, ◌≡◌, Bool, false, some, is_none}
use eve_station_trader.Jobs.Rows.{SyncJobRun, Store, get_job}
use eve_station_trader.Jobs.Reach.{Control}

module _ (k : ℕ) (j : SyncJobRun) (done : is_none j.finished_at ≡ false) where
  -- The job stands in the store as it is.
  abbrev Holds : Store → Type 0
  Holds s = get_job k s ≡ some j
