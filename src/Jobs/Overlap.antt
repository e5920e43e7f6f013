-- ===== src/Jobs/Overlap.antt =====
-- Cancelling a job that has run for two minutes frees its type at once, while the thread of the job
-- is still running (backend/app/services/sync/service.py).
use eve_station_trader.Prelude.{
  ℕ, ◌+◌, ◌≤◌, ◌≡◌, refl, ap, ◌∙◌, true, false, not, none, some, String, arith, concat, is_none,
  eq_iff, count_where, ◌||◌,
}
use mathlib.Core.Option
use eve_station_trader.Prelude.Ids.{
  get-update_where_fails, get-set_row, select-count_zero, count-update_where_lt,
}
use eve_station_trader.Jobs.Rows.{running, is_terminal, SyncJobRun, Store, get_job}
use eve_station_trader.Jobs.Runs.{is_active, get_active_job_run, create_job_run, save_job}
use eve_station_trader.Jobs.Stale.{
  stale_cancelling_age, is_stale_cancelling, stale_cancelled_job, finalize_stale_cancelling_jobs,
}
use eve_station_trader.Jobs.Control.{enqueue_fresh, enqueue_job, cancel_job, cancelling_job}
use eve_station_trader.Jobs.Invariant.{job_id, IsValid}
use eve_station_trader.Jobs.Steps.{cancel_job-IsBounded}

get_active_job_run-absent :
    (t : String) (s : Store) → count_where (is_active t) s.jobs ≡ 0 → get_active_job_run t s ≡ none
unfolding get_active_job_run
get_active_job_run-absent t s h = rw (select-count_zero (is_active t) s.jobs h) refl

module _ (s : Store) (i : ℕ) (j : SyncJobRun) (now : ℕ) (found : get_job i s ≡ some j)
    (runs : j.status ≡ running) (going : is_none j.finished_at ≡ true)
    (old : j.started_at + stale_cancelling_age ≤ now) where
  asked : SyncJobRun
  asked = cancelling_job (concat "Cancelling " (concat j.job_type ".")) j

  not_stale : is_stale_cancelling now j ≡ false
  not_stale = ground arith

  found' : get_job i (finalize_stale_cancelling_jobs now s) ≡ some j
  unfolding finalize_stale_cancelling_jobs
  found' =
      get-update_where_fails job_id (stale_cancelled_job now) (λ r. refl) (is_stale_cancelling now)
        i j s.jobs found not_stale

  cancel_job-found : get_job i (cancel_job now i s).1 ≡ some asked
  unfolding cancel_job save_job asked
  cancel_job-found =
      let unended : (not (is_none j.finished_at) || is_terminal j.status) ≡ false = ground arith in
      rw (found', unended, cancel_job)
        (get-set_row job_id (cancelling_job (concat "Cancelling " (concat j.job_type ".")))
            (λ r. refl) i (finalize_stale_cancelling_jobs now s).jobs
          ∙ ap (Option.map (cancelling_job (concat "Cancelling " (concat j.job_type ".")))) found')

  cancel_job-next : (cancel_job now i s).1.next_job ≡ s.next_job
  unfolding cancel_job save_job finalize_stale_cancelling_jobs
  cancel_job-next =
      let unended : (not (is_none j.finished_at) || is_terminal j.status) ≡ false = ground arith in
      rw (found', unended, cancel_job)

  none_active :
      IsValid s
      → get_active_job_run j.job_type (finalize_stale_cancelling_jobs now (cancel_job now i s).1)
        ≡ none
  unfolding finalize_stale_cancelling_jobs asked
  none_active v =
      let s' = (cancel_job now i s).1 in
      let fewer =
        count-update_where_lt job_id (is_active j.job_type) (is_stale_cancelling now)
          (stale_cancelled_job now) i asked s'.jobs (λ r. ground arith) cancel_job-found
          (ground (arith, eq_iff j.job_type j.job_type)) (ground arith) in
      get_active_job_run-absent j.job_type (finalize_stale_cancelling_jobs now s')
        (omega (arith, fewer, (cancel_job-IsBounded now i s v).one_active j.job_type))

-- In valid tables, if a job has been running for two minutes or more, then cancelling it and at once
-- enqueueing its type starts a second thread, for a new job, though the thread of the first job has
-- not looked for the cancellation yet: the request is taken as stale by the age of the job.
pub enqueue_job-cancel_job :
    (s : Store) (i : ℕ) (j : SyncJobRun) (now : ℕ)
    → get_job i s ≡ some j
    → j.status ≡ running
    → is_none j.finished_at ≡ true
    → j.started_at + stale_cancelling_age ≤ now
    → IsValid s
    → (enqueue_job j.job_type now (cancel_job now i s).1).1 ≡ some s.next_job
unfolding enqueue_job enqueue_fresh create_job_run
enqueue_job-cancel_job s i j now found runs going old v =
    rw (none_active s i j now found runs going old v, enqueue_fresh)
      (ap some (cancel_job-next s i j now found runs going old))
