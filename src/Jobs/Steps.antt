-- ===== src/Jobs/Steps.antt =====
-- Each operation on the job tables of backend/app/services/sync/service.py keeps them valid.
use eve_station_trader.Prelude.{
  ℕ, ◌≡◌, refl, sym, ◌∙◌, Bool, true, false, not, Option, none, some, List, [], ◌∷◌, String, arith,
  ◌==◌, is_none, All-append, All-update_where, inl, inr, Bool-cases, ◌||◌, Option-cases,
}
use mathlib.Core.Bool.{false≢true}
use eve_station_trader.Prelude.Ids.{
  All-get, update_where-IsUnique, update_where-IsBelow, IsBelow-append, append-IsUnique,
}
use eve_station_trader.Jobs.Rows.{
  Status, success, failed, cancelled, cancelling, is_terminal, SyncJobRun, Metric, Store, get_job,
  set_job, get_stage, Result, return, raise,
}
use eve_station_trader.Jobs.Stages.{
  fresh_stage, finished_stage, start_job_stage, finish_job_stage, finalize_open_job_stages,
  is_open_of, finalized_stage, error_text,
}
use eve_station_trader.Jobs.Runs.{
  status_is, is_active, is_cancellation, RunResult, save_job, end_job, succeeded_job, cancelled_job,
  failed_job,
}
use eve_station_trader.Jobs.Stale.{
  is_stale_cancelling, stale_cancelled_job, is_stale_running, force_cleared_job,
  finalize_stale_cancelling_jobs, clear_stale_jobs,
}
use eve_station_trader.Jobs.Control.{
  cancel_job, cancelling_job, mark_job_cancelling, check_for_cancellation, update_job_progress,
  Progress, progressed_job, exceeds_runtime, timeout_message,
}
use eve_station_trader.Jobs.Invariant.{
  job_id, stage_id, HasEnded, StageHasEnded, IsBounded, set_job-IsBounded, end_jobs-IsBounded,
}

pub finalize_stale_cancelling_jobs-IsBounded :
    (now : ℕ) (s : Store)
    → {n : String → ℕ} → IsBounded n s
    → IsBounded n (finalize_stale_cancelling_jobs now s)
unfolding finalize_stale_cancelling_jobs
finalize_stale_cancelling_jobs-IsBounded now s v =
    end_jobs-IsBounded (is_stale_cancelling now) (stale_cancelled_job now) (λ r. refl) (λ r. refl)
      (λ t r. ground arith) v

pub clear_stale_jobs-IsBounded :
    (now : ℕ) (s : Store)
    → {n : String → ℕ} → IsBounded n s
    → IsBounded n (clear_stale_jobs now s).1
unfolding clear_stale_jobs
clear_stale_jobs-IsBounded now s v =
    end_jobs-IsBounded (is_stale_running now) (force_cleared_job now) (λ r. refl) (λ r. refl)
      (λ t r. ground arith) v

-- Every job of a valid store that is found has ended as its status says.
pub found-HasEnded :
    (i : ℕ) (j : SyncJobRun) (s : Store)
    → get_job i s ≡ some j
    → {n : String → ℕ} → IsBounded n s
    → HasEnded j
found-HasEnded i j s found v = All-get job_id HasEnded i j s.jobs found v.jobs_ended

active_of_going :
    (t : String) (reason : String) (j : SyncJobRun)
    → is_none j.finished_at ≡ true
    → HasEnded j
    → is_active t (cancelling_job reason j) ≡ true
    → is_active t j ≡ true
active_of_going t reason j going ended a = ground arith

-- A job that has not ended may be marked.
marked-IsBounded :
    (i : ℕ) (reason : String) (j : SyncJobRun) (s : Store)
    → get_job i s ≡ some j
    → is_none j.finished_at ≡ true
    → {n : String → ℕ} → IsBounded n s
    → IsBounded n (set_job i (cancelling_job reason) s)
marked-IsBounded i reason j s found going v =
    set_job-IsBounded i (cancelling_job reason) j (λ r. refl) found going
      (λ t. active_of_going t reason j going (found-HasEnded i j s found v)) v

pub mark_job_cancelling-IsBounded :
    (i : ℕ) (reason : String) (s : Store)
    → {n : String → ℕ} → IsBounded n s
    → IsBounded n (mark_job_cancelling i reason s)
unfolding mark_job_cancelling
mark_job_cancelling-IsBounded i reason s v = elim (Option-cases (get_job i s)) [
  | inl e ↦ rw (e, mark_job_cancelling) v
  | inr (j, e) ↦ elim (Bool-cases (is_none j.finished_at)) [
    | inl going ↦ rw (e, going, mark_job_cancelling) (marked-IsBounded i reason j s e going v)
    | inr done ↦ rw (e, done, mark_job_cancelling) v
  ]
]

pub update_job_progress-IsBounded :
    (i : ℕ) (p : Progress) (s : Store)
    → {n : String → ℕ} → IsBounded n s
    → IsBounded n (update_job_progress i p s)
unfolding update_job_progress
update_job_progress-IsBounded i p s v = elim (Option-cases (get_job i s)) [
  | inl e ↦ rw (e, update_job_progress) v
  | inr (j, e) ↦ elim (Bool-cases (is_none j.finished_at)) [
    | inl going ↦
        rw (e, going, update_job_progress)
          (set_job-IsBounded i (progressed_job p) j (λ r. refl) e (found-HasEnded i j s e v)
            (λ t a. a) v)
    | inr done ↦ rw (e, done, update_job_progress) v
  ]
]

pub cancel_job-IsBounded :
    (now i : ℕ) (s : Store) → {n : String → ℕ} → IsBounded n s → IsBounded n (cancel_job now i s).1
unfolding cancel_job save_job
cancel_job-IsBounded now i s v =
    let s' = finalize_stale_cancelling_jobs now s in
    let v' = finalize_stale_cancelling_jobs-IsBounded now s v in
    elim (Option-cases (get_job i s')) [
      | inl e ↦ rw (e, cancel_job) v'
      | inr (j, e) ↦ elim (Bool-cases (not (is_none j.finished_at) || is_terminal j.status)) [
        | inl done ↦ rw (e, done, cancel_job) v'
        | inr going ↦ rw (e, going, cancel_job) (marked-IsBounded i _ j s' e (ground arith) v')
      ]
    ]

pub check_for_cancellation-IsBounded :
    (shutdown : Bool) (now i : ℕ) (s : Store)
    → {n : String → ℕ} → IsBounded n s
    → IsBounded n (check_for_cancellation shutdown now i s).1
unfolding check_for_cancellation
check_for_cancellation-IsBounded true now i s v = mark_job_cancelling-IsBounded i _ s v
check_for_cancellation-IsBounded false now i s v = elim (Option-cases (get_job i s)) [
  | inl e ↦ rw (e, check_for_cancellation) v
  | inr (j, e) ↦ elim (Bool-cases (exceeds_runtime now j)) [
    | inl late ↦
        rw (e, late, check_for_cancellation) (mark_job_cancelling-IsBounded i timeout_message s v)
    | inr soon ↦ elim (Bool-cases (status_is j.status cancelling || status_is j.status cancelled)) [
      | inl asked ↦ rw (e, soon, asked, check_for_cancellation) v
      | inr calm ↦ rw (e, soon, calm, check_for_cancellation) v
    ]
  ]
]

pub finalize_open_job_stages-IsBounded :
    (now i : ℕ) (status : Status) (details : Option String) (s : Store)
    → is_terminal status ≡ true
    → {n : String → ℕ} → IsBounded n s
    → IsBounded n (finalize_open_job_stages now i status details s)
unfolding finalize_open_job_stages
finalize_open_job_stages-IsBounded now i status details s terminal v =
    let f = finalized_stage now status details in
    record {
      unique_jobs = v.unique_jobs;
      below_jobs = v.below_jobs;
      unique_stages =
          update_where-IsUnique stage_id f (λ r. refl) (is_open_of i) s.stages v.unique_stages;
      below_stages =
          update_where-IsBelow stage_id f (λ r. refl) (is_open_of i) s.next_stage s.stages
            v.below_stages;
      jobs_ended = v.jobs_ended;
      stages_ended =
          All-update_where StageHasEnded (is_open_of i) f s.stages (λ r _. rw terminal)
            v.stages_ended;
      one_active = v.one_active;
    }

-- A job that is found may be ended, whatever it was.
pub ended-IsBounded :
    (i : ℕ) (f : SyncJobRun → SyncJobRun) (j : SyncJobRun) (s : Store)
    → get_job i s ≡ some j
    → ((r : SyncJobRun) → (f r).id ≡ r.id)
    → HasEnded (f j)
    → ((t : String) → is_active t (f j) ≡ false)
    → {n : String → ℕ} → IsBounded n s
    → IsBounded n (set_job i f s)
ended-IsBounded i f j s found keeps ended calm v =
    set_job-IsBounded i f j keeps found ended (λ t a. absurd (false≢true (sym (calm t) ∙ a))) v

pub end_job-IsBounded :
    (i : ℕ) (t : String) (started now : ℕ) (result : Result RunResult) (s : Store)
    → {n : String → ℕ} → IsBounded n s
    → IsBounded n (end_job i t started now result s).1
unfolding end_job save_job
end_job-IsBounded i t started now (return r) s v = elim (Option-cases (get_job i s)) [
  | inl e ↦ rw (e, end_job) v
  | inr (j, e) ↦
      rw (e, end_job)
        (ended-IsBounded i (succeeded_job started now r) j
          (finalize_open_job_stages now i success none s) e (λ x. refl) refl (λ x. ground arith)
          (finalize_open_job_stages-IsBounded now i success none s refl v))
]
end_job-IsBounded i t started now (raise x) s v = elim (Option-cases (get_job i s)) [
  | inl e ↦ rw (e, end_job) v
  | inr (j, e) ↦ elim (Bool-cases (is_cancellation x)) [
    | inl c ↦
        rw (e, c, end_job)
          (ended-IsBounded i (cancelled_job started now (error_text x)) j
            (finalize_open_job_stages now i cancelled (some (error_text x)) s) e (λ x. refl) refl
            (λ x. ground arith)
            (finalize_open_job_stages-IsBounded now i cancelled (some (error_text x)) s refl v))
    | inr c ↦
        rw (e, c, end_job)
          (ended-IsBounded i (failed_job t started now (error_text x)) j
            (finalize_open_job_stages now i failed (some (error_text x)) s) e (λ x. refl) refl
            (λ x. ground arith)
            (finalize_open_job_stages-IsBounded now i failed (some (error_text x)) s refl v))
  ]
]

pub start_job_stage-IsBounded :
    (now i : ℕ) (key : String) (m : List (String × Option Metric)) (s : Store)
    → {n : String → ℕ} → IsBounded n s
    → IsBounded n (start_job_stage now i key m s).1
unfolding start_job_stage
start_job_stage-IsBounded now i key m s v = record {
  unique_jobs = v.unique_jobs;
  below_jobs = v.below_jobs;
  unique_stages =
      append-IsUnique stage_id s.next_stage (fresh_stage s.next_stage now i key m) s.stages refl
        v.below_stages v.unique_stages;
  below_stages =
      IsBelow-append stage_id s.next_stage (fresh_stage s.next_stage now i key m) s.stages refl
        v.below_stages;
  jobs_ended = v.jobs_ended;
  stages_ended =
      All-append StageHasEnded s.stages (fresh_stage s.next_stage now i key m ∷ []) v.stages_ended
        (refl, tt);
  one_active = v.one_active;
}

pub finish_job_stage-IsBounded :
    (now elapsed i : ℕ) (status : Status) (m : List (String × Option Metric))
    (details : Option String) (s : Store)
    → is_terminal status ≡ true
    → {n : String → ℕ} → IsBounded n s
    → IsBounded n (finish_job_stage now elapsed i status m details s)
unfolding finish_job_stage
finish_job_stage-IsBounded now elapsed i status m details s terminal v =
    elim (Option-cases (get_stage i s)) [
      | inl e ↦ rw (e, finish_job_stage) v
      | inr (j, e) ↦ elim (Bool-cases (is_none j.finished_at)) [
        | inl going ↦
            let f = finished_stage now elapsed status m details in
            rw (e, going, finish_job_stage)
              (record {
                unique_jobs = v.unique_jobs;
                below_jobs = v.below_jobs;
                unique_stages =
                    update_where-IsUnique stage_id f (λ r. refl) (λ r. r.id == i) s.stages
                      v.unique_stages;
                below_stages =
                    update_where-IsBelow stage_id f (λ r. refl) (λ r. r.id == i) s.next_stage
                      s.stages v.below_stages;
                jobs_ended = v.jobs_ended;
                stages_ended =
                    All-update_where StageHasEnded (λ r. r.id == i) f s.stages (λ r _. rw terminal)
                      v.stages_ended;
                one_active = v.one_active;
              })
        | inr done ↦ rw (e, done, finish_job_stage) v
      ]
    ]
