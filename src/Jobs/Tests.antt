-- ===== src/Jobs/Tests.antt =====
-- Small inputs for the job operations of backend/app/services/sync/service.py, and what they do there.
use eve_station_trader.Prelude.{ℕ, ◌≡◌, refl, none, some, [], ◌∷◌, arith, count_where}
use eve_station_trader.Jobs.Rows.{success, SyncJobRun, Store, get_job, Result, return}
use eve_station_trader.Jobs.Runs.{RunResult, is_active, fresh_job, create_job_run}
use eve_station_trader.Jobs.Control.{enqueue_job, cancel_job, trigger_job}
use eve_station_trader.Jobs.Invariant.{IsValid}
use eve_station_trader.Jobs.Reach.{
  enqueue, control, Reach, here, next, empty_store, Reach-IsValid, trigger_job-IsValid,
}
use eve_station_trader.Jobs.Races.{Races, none_yet, then_race, whole, insert}
use eve_station_trader.Trade.Rebuild.{create_target_rebuild_job}
use eve_station_trader.Jobs.Overlap.{enqueue_job-cancel_job}

-- Character sync enqueued at 1000.
abbrev one_job : Store
one_job = (enqueue_job "character_sync" 1000 empty_store).2

abbrev first_job : SyncJobRun
first_job = fresh_job 1 "character_sync" 1000

one_job-Reach : Reach empty_store one_job
one_job-Reach = next here (control (enqueue "character_sync" 1000))

one_job-found : get_job 1 one_job ≡ some first_job
unfolding enqueue_job
one_job-found = refl

-- A second request for the same type is answered by the active job.
enqueue_again : (enqueue_job "character_sync" 2000 one_job).1 ≡ none
unfolding enqueue_job
enqueue_again = refl

-- Two requests that look before either adds its row, and two rebuilds: each adds a second active job.
abbrev raced : Store
raced = (create_job_run "character_sync" 1001 one_job).1

abbrev raced-Races : Races empty_store raced
raced-Races =
    then_race (then_race none_yet (whole (control (enqueue "character_sync" 1000))))
      (insert "character_sync" 1001)

two_active : count_where (is_active "character_sync") raced.jobs ≡ 2
unfolding enqueue_job create_job_run
two_active = refl

two_rebuilds :
    count_where
      (is_active "target_rebuild")
      (create_target_rebuild_job 7 2 (create_target_rebuild_job 7 1 empty_store).1).1.jobs
    ≡ 2
unfolding create_target_rebuild_job
two_rebuilds = refl

abbrev idle_body : ℕ → Store → Result RunResult × Store
idle_body i s = (
  return (record {
    records_processed = 3;
    target_type = "manual";
    target_id = none;
    message = "Done.";
  }),
  s,
)

trigger_job-IsValid_example : IsValid (trigger_job idle_body "adam4eve_sync" 2000 3000 one_job).1
trigger_job-IsValid_example =
    trigger_job-IsValid idle_body "adam4eve_sync" 2000 3000 one_job (λ i u v. v)
      (Reach-IsValid one_job-Reach)

abbrev ended_first : SyncJobRun
ended_first = record first_job { status = success; finished_at = some 1500; duration_ms = some 500 }

abbrev ended_store : Store
ended_store = record empty_store { jobs = ended_first ∷ []; next_job = 2 }

enqueue_job-cancel_job_example :
    (enqueue_job "character_sync" 121000 (cancel_job 121000 1 one_job).1).1 ≡ some one_job.next_job
enqueue_job-cancel_job_example =
    enqueue_job-cancel_job one_job 1 first_job 121000 one_job-found refl refl (omega arith)
      (Reach-IsValid one_job-Reach)
