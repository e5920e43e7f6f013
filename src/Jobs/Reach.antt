-- ===== src/Jobs/Reach.antt =====
-- Requests, job threads and the worker on the job tables of backend/app/services/sync/service.py, where
-- each operation is one step, also a request for a job with its look for an active one (Jobs.Races has
-- them apart); a job thread ends its job at any later step, with any outcome.
use eve_station_trader.Prelude.{
  ℕ, ◌≡◌, ◌≤◌, Bool, Option, List, String, Option-cases, inl, inr, true, [], arith,
}
use eve_station_trader.Jobs.Rows.{Status, is_terminal, Metric, Store, Result}
use eve_station_trader.Jobs.Stages.{start_job_stage, finish_job_stage}
use eve_station_trader.Jobs.Runs.{
  RunResult, get_active_job_run, create_job_run, execute_job, end_job,
}
use eve_station_trader.Jobs.Stale.{finalize_stale_cancelling_jobs, clear_stale_jobs}
use eve_station_trader.Jobs.Control.{
  Progress, trigger_fresh, trigger_job, enqueue_fresh, enqueue_job, cancel_job,
  check_for_cancellation, update_job_progress,
}
use eve_station_trader.Jobs.Invariant.{IsBounded, IsValid, create_job_run-IsBounded}
use eve_station_trader.Jobs.Steps.{
  finalize_stale_cancelling_jobs-IsBounded, clear_stale_jobs-IsBounded, cancel_job-IsBounded,
  check_for_cancellation-IsBounded, update_job_progress-IsBounded, start_job_stage-IsBounded,
  finish_job_stage-IsBounded, end_job-IsBounded,
}

-- The steps that do not end a job from its own thread.
pub data Control (s : Store) : Store → Type 0 where
  enqueue : (t : String) (now : ℕ) → Control s (enqueue_job t now s).2
  cancel : (now i : ℕ) → Control s (cancel_job now i s).1
  clear_stale : (now : ℕ) → Control s (clear_stale_jobs now s).1
  check : (shutdown : Bool) (now i : ℕ) → Control s (check_for_cancellation shutdown now i s).1
  progress : (i : ℕ) (p : Progress) → Control s (update_job_progress i p s)
  begin_stage :
      (now i : ℕ) (key : String) (m : List (String × Option Metric))
      → Control s (start_job_stage now i key m s).1
  end_stage :
      (now elapsed i : ℕ) (status : Status) (m : List (String × Option Metric))
      (details : Option String)
      → is_terminal status ≡ true
      → Control s (finish_job_stage now elapsed i status m details s)

pub data Step (s : Store) : Store → Type 0 where
  control : {t : Store} → Control s t → Step s t
  end :
      (i : ℕ) (t : String) (started now : ℕ) (result : Result RunResult)
      → Step s (end_job i t started now result s).1

pub data Reach (s : Store) : Store → Type 0 where
  here : Reach s s
  next : {t u : Store} → Reach s t → Step t u → Reach s u

abbrev pub empty_store : Store
empty_store = record { jobs = []; stages = []; next_job = 1; next_stage = 1 }

pub empty_store-IsValid : IsValid empty_store
empty_store-IsValid = record {
  unique_jobs = tt;
  below_jobs = tt;
  unique_stages = tt;
  below_stages = tt;
  jobs_ended = tt;
  stages_ended = tt;
  one_active = λ t. omega arith;
}

enqueue_job-IsBounded :
    {n : String → ℕ} (t : String) (now : ℕ) (s : Store)
    → ((t' : String) → 1 ≤ n t')
    → IsBounded n s
    → IsBounded n (enqueue_job t now s).2
unfolding enqueue_job enqueue_fresh
enqueue_job-IsBounded t now s one v =
    let s' = finalize_stale_cancelling_jobs now s in
    let v' = finalize_stale_cancelling_jobs-IsBounded now s v in
    elim (Option-cases (get_active_job_run t s')) [
      | inl e ↦ rw (e, enqueue_fresh) (create_job_run-IsBounded t now e one v')
      | inr (j, e) ↦ rw (e, enqueue_fresh) v'
    ]

Control-IsBounded :
    {n : String → ℕ} {s u : Store}
    → ((t : String) → 1 ≤ n t)
    → Control s u
    → IsBounded n s
    → IsBounded n u
Control-IsBounded {n} {s} one (enqueue t now) v = enqueue_job-IsBounded t now s one v
Control-IsBounded {n} {s} one (cancel now i) v = cancel_job-IsBounded now i s v
Control-IsBounded {n} {s} one (clear_stale now) v = clear_stale_jobs-IsBounded now s v
Control-IsBounded {n} {s} one (check shutdown now i) v =
    check_for_cancellation-IsBounded shutdown now i s v
Control-IsBounded {n} {s} one (progress i p) v = update_job_progress-IsBounded i p s v
Control-IsBounded {n} {s} one (begin_stage now i key m) v =
    start_job_stage-IsBounded now i key m s v
Control-IsBounded {n} {s} one (end_stage now elapsed i status m details e) v =
    finish_job_stage-IsBounded now elapsed i status m details s e v

pub Step-IsBounded :
    {n : String → ℕ} {s u : Store}
    → ((t : String) → 1 ≤ n t)
    → Step s u
    → IsBounded n s
    → IsBounded n u
Step-IsBounded one (control c) v = Control-IsBounded one c v
Step-IsBounded {n} {s} one (end i t started now result) v =
    end_job-IsBounded i t started now result s v

-- Let the operations of SyncService run on empty tables, in any order and with any outcomes of the
-- jobs, where a request for a job looks for an active one and adds its row before any other operation
-- runs, and the trade page rebuilds no target. Then the keys of jobs and stages are unique and lie below
-- the next key, a job or a stage has an end time exactly if its status is terminal, and no job type has
-- more than one active job.
pub Reach-IsValid : {s : Store} → Reach empty_store s → IsValid s
Reach-IsValid here = empty_store-IsValid
Reach-IsValid (next r st) = Step-IsBounded (λ t. omega arith) st (Reach-IsValid r)

-- Where the job's own body leaves valid tables valid, so does triggering the job and running it to
-- its end, whether the body returns or raises.
pub trigger_job-IsValid :
    (run_job : ℕ → Store → Result RunResult × Store) (t : String) (now finish : ℕ) (s : Store)
    → ((i : ℕ) (u : Store) → IsValid u → IsValid (run_job i u).1)
    → IsValid s
    → IsValid (trigger_job run_job t now finish s).1
unfolding trigger_job trigger_fresh execute_job
trigger_job-IsValid run_job t now finish s keeps v =
    let s' = finalize_stale_cancelling_jobs now s in
    let v' = finalize_stale_cancelling_jobs-IsBounded now s v in
    elim (Option-cases (get_active_job_run t s')) [
      | inl e ↦
          let (job, made) = create_job_run t now s' in
          let (result, ran) = run_job job.id made in
          rw (e, trigger_fresh)
            (end_job-IsBounded job.id t now finish result ran
              (keeps job.id made (create_job_run-IsBounded t now e (λ x. omega arith) v')))
      | inr (j, e) ↦ rw (e, trigger_fresh) v'
    ]
