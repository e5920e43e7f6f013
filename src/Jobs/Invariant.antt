-- ===== src/Jobs/Invariant.antt =====
-- The invariant of the job tables of backend/app/services/sync/service.py, and the changes that keep
-- it.
use eve_station_trader.Prelude.{
  ℕ, ◌+◌, ◌≤◌, if◌then◌else◌, ◌&&◌, ◌≡◌, ◌≢◌, refl, subst, Bool, true, false, not, none, some, List,
  [], ◌∷◌, ◌++◌, String, arith, ◌==◌, is_none, str_eq, eq_iff, All, All-append, All-update_where,
  update_where, count_where, select, inl, inr, Bool-cases,
}
use eve_station_trader.Prelude.Ids.{
  IsUnique, IsBelow, All-set_row, count-set_row, update_where-IsUnique, update_where-IsBelow,
  IsBelow-append, append-IsUnique, count-update_where, count-append, count-select_nil,
}
use eve_station_trader.Jobs.Rows.{
  is_terminal, SyncJobRun, SyncJobStageRun, Store, get_job, set_job, order_by_start,
  insert_by_start,
}
use eve_station_trader.Jobs.Runs.{
  is_active, is_running_or_cancelling, fresh_job, create_job_run, get_active_job_run, last_row,
}

abbrev pub job_id : SyncJobRun → ℕ
job_id r = r.id

abbrev pub stage_id : SyncJobStageRun → ℕ
stage_id r = r.id

-- A job or a stage has an end time exactly if its status is terminal.
abbrev pub HasEnded : SyncJobRun → Type 0
HasEnded j = is_none j.finished_at ≡ not (is_terminal j.status)

abbrev pub StageHasEnded : SyncJobStageRun → Type 0
StageHasEnded r = is_none r.finished_at ≡ not (is_terminal r.status)

-- The tables are well-formed, with at most `n t` active jobs of each type `t`.
pub record IsBounded (n : String → ℕ) (s : Store) : Type 0 where
  pub unique_jobs : IsUnique job_id s.jobs
  pub below_jobs : IsBelow job_id s.next_job s.jobs
  pub unique_stages : IsUnique stage_id s.stages
  pub below_stages : IsBelow stage_id s.next_stage s.stages
  pub jobs_ended : All HasEnded s.jobs
  pub stages_ended : All StageHasEnded s.stages
  pub one_active : (t : String) → count_where (is_active t) s.jobs ≤ n t

-- With at most one active job of each type.
abbrev pub IsValid : Store → Type 0
IsValid s = IsBounded (λ t. 1) s

pub set_job-IsBounded :
    {s : Store} (i : ℕ) (f : SyncJobRun → SyncJobRun) (j : SyncJobRun)
    → ((r : SyncJobRun) → (f r).id ≡ r.id)
    → get_job i s ≡ some j
    → HasEnded (f j)
    → ((t : String) → is_active t (f j) ≡ true → is_active t j ≡ true)
    → {n : String → ℕ} → IsBounded n s
    → IsBounded n (set_job i f s)
set_job-IsBounded {s} i f j keeps found ended calm v = record {
  unique_jobs = update_where-IsUnique job_id f keeps (λ r. r.id == i) s.jobs v.unique_jobs;
  below_jobs = update_where-IsBelow job_id f keeps (λ r. r.id == i) s.next_job s.jobs v.below_jobs;
  unique_stages = v.unique_stages;
  below_stages = v.below_stages;
  jobs_ended = All-set_row job_id HasEnded i f j s.jobs v.unique_jobs found ended v.jobs_ended;
  stages_ended = v.stages_ended;
  one_active = λ t. omega (
    arith,
    v.one_active t,
    count-set_row job_id (is_active t) i f j s.jobs v.unique_jobs found (calm t),
  );
}

-- A statement that ends every job that it changes.
pub end_jobs-IsBounded :
    {s : Store} (p : SyncJobRun → Bool) (f : SyncJobRun → SyncJobRun)
    → ((r : SyncJobRun) → (f r).id ≡ r.id)
    → ((r : SyncJobRun) → HasEnded (f r))
    → ((t : String) (r : SyncJobRun) → is_active t (f r) ≡ false)
    → {n : String → ℕ} → IsBounded n s
    → IsBounded n (record s { jobs = update_where p f s.jobs })
end_jobs-IsBounded {s} p f keeps ended calm v = record {
  unique_jobs = update_where-IsUnique job_id f keeps p s.jobs v.unique_jobs;
  below_jobs = update_where-IsBelow job_id f keeps p s.next_job s.jobs v.below_jobs;
  unique_stages = v.unique_stages;
  below_stages = v.below_stages;
  jobs_ended = All-update_where HasEnded p f s.jobs (λ r _. ended r) v.jobs_ended;
  stages_ended = v.stages_ended;
  one_active =
      λ t. omega (arith, v.one_active t, count-update_where (is_active t) p f s.jobs (calm t));
}

last_row-none {ℓ} : {A : Type ℓ} (xs : List A) → last_row xs ≡ none → xs ≡ []
last_row-none [] h = refl
last_row-none (x ∷ []) h = cc
last_row-none (x ∷ y ∷ ys) h = absurd (elim_cons (last_row-none (y ∷ ys) h))
  where
    elim_cons : y ∷ ys ≡ [] → ⊥
    elim_cons e = cc

insert_by_start-ne-nil :
    {R : Type 0} (started ident : R → ℕ) (r : R) (xs : List R)
    → insert_by_start started ident r xs ≢ []
unfolding insert_by_start
insert_by_start-ne-nil started ident r [] h = cc
insert_by_start-ne-nil started ident r (x ∷ xs) h = ground arith

order_by_start-nil :
    {R : Type 0} (started ident : R → ℕ) (xs : List R)
    → order_by_start started ident xs ≡ []
    → xs ≡ []
unfolding order_by_start insert_by_start
order_by_start-nil started ident [] h = refl
order_by_start-nil started ident (x ∷ xs) h =
    absurd (insert_by_start-ne-nil started ident x (order_by_start started ident xs) h)

-- Without an answer from `_get_active_job_run` no job of the type is active.
pub get_active_job_run-none :
    (t : String) (s : Store) → get_active_job_run t s ≡ none → count_where (is_active t) s.jobs ≡ 0
unfolding get_active_job_run
get_active_job_run-none t s h = count-select_nil (is_active t) s.jobs (
    order_by_start-nil (λ (r : SyncJobRun). r.started_at) (λ r. r.id) (select (is_active t) s.jobs)
      (last_row-none _ h))

fresh_job-one_active :
    {n : String → ℕ} (t t' : String) (i now : ℕ) (s : Store)
    → get_active_job_run t s ≡ none
    → 1 ≤ n t'
    → IsBounded n s
    → count_where (is_active t') (s.jobs ++ fresh_job i t now ∷ []) ≤ n t'
fresh_job-one_active {n} t t' i now s none_active one v =
    let jobs = s.jobs in
    elim (Bool-cases (str_eq t t')) [
      | inl e ↦
          let zero : count_where (is_active t') jobs ≡ 0 =
            subst (λ x. count_where (is_active x) jobs ≡ 0) ((eq_iff t t').0 e)
              (get_active_job_run-none t s none_active) in
          rw (count-append (is_active t') jobs (fresh_job i t now ∷ []), e, zero)
            (omega (arith, one))
      | inr e ↦
          rw (count-append (is_active t') jobs (fresh_job i t now ∷ []), e)
            (omega (arith, v.one_active t'))
    ]

-- A new row of a job without an end time, and a bound on the active jobs with it.
pub append-IsBounded :
    {n m : String → ℕ} {s : Store} (job : SyncJobRun)
    → job.id ≡ s.next_job
    → HasEnded job
    → ((t : String) → count_where (is_active t) (s.jobs ++ job ∷ []) ≤ m t)
    → IsBounded n s
    → IsBounded m (record s { jobs = s.jobs ++ job ∷ []; next_job = s.next_job + 1 })
append-IsBounded {n} {m} {s} job fresh ended bound v = record {
  unique_jobs = append-IsUnique job_id s.next_job job s.jobs fresh v.below_jobs v.unique_jobs;
  below_jobs = IsBelow-append job_id s.next_job job s.jobs fresh v.below_jobs;
  unique_stages = v.unique_stages;
  below_stages = v.below_stages;
  jobs_ended = All-append HasEnded s.jobs (job ∷ []) v.jobs_ended (ended, tt);
  stages_ended = v.stages_ended;
  one_active = bound;
}

pub create_job_run-IsBounded :
    {n : String → ℕ} {s : Store} (t : String) (now : ℕ)
    → get_active_job_run t s ≡ none
    → ((t' : String) → 1 ≤ n t')
    → IsBounded n s
    → IsBounded n (create_job_run t now s).1
unfolding create_job_run
create_job_run-IsBounded {n} {s} t now none_active one v =
    append-IsBounded (fresh_job s.next_job t now) refl refl
      (λ t'. fresh_job-one_active t t' s.next_job now s none_active (one t') v) v

-- Without a look for an active job, one more of the type may be active.
pub appended-IsBounded :
    {n : String → ℕ} {s : Store} (job : SyncJobRun)
    → job.id ≡ s.next_job
    → HasEnded job
    → IsBounded n s
    → IsBounded
        (λ t. n t + (if str_eq job.job_type t then 1 else 0))
        (record s { jobs = s.jobs ++ job ∷ []; next_job = s.next_job + 1 })
appended-IsBounded {n} {s} job fresh ended v =
    append-IsBounded job fresh ended
      (λ t. rw (count-append (is_active t) s.jobs (job ∷ [])) (
        one_more (str_eq job.job_type t) (is_none job.finished_at)
          (is_running_or_cancelling job.status) (v.one_active t)))
      v
  where
    one_more :
        {a b : ℕ} (c d e : Bool)
        → a ≤ b
        → a + ((if c && d && e then 1 else 0) + 0) ≤ b + (if c then 1 else 0)
    one_more true true true h = omega (arith, h)
    one_more true true false h = omega (arith, h)
    one_more true false e h = omega (arith, h)
    one_more false d e h = omega (arith, h)
