-- ===== src/Scheduler/Changes.antt =====
-- What a check of the settings leaves for a job whose row has changed.
use eve_station_trader.Prelude.{
  ℕ, ◌<◌, ◌≡◌, refl, ap, ◌∙◌, Bool, true, false, Option, none, some, List, [], ◌∷◌, ◌++◌, String,
  str_eq, eq_iff, if◌then◌else◌, All, Bool-cases, Option-cases, inl, inr, arith, delete, or_else,
  ltb,
}
use mathlib.Core.Bool.{false≢true}
use eve_station_trader.Scheduler.Schedule.{
  JobScheduleConfig, Trigger, interval, cron, SchedulerState, get_key, put_key, is_registered,
  trigger_of, is_newer, add_job, apply_schedule, applied, check_config, check_config_changes,
}
use eve_station_trader.Scheduler.Keys.{get_key-put_key, get_key-delete}

-- The schedule that a row asks for: none when it is disabled, else an interval or a time of the day.
pub data Wants (c : JobScheduleConfig) : Option Trigger → Type 0 where
  disabled : c.enabled ≡ false → Wants c none
  every :
      (n : ℕ)
      → c.enabled ≡ true
      → c.trigger_type ≡ "interval"
      → c.interval_minutes ≡ some n
      → 0 < n
      → Wants c (some (interval n))
  daily :
      (hour : ℕ)
      → c.enabled ≡ true
      → c.trigger_type ≡ "cron"
      → c.cron_hour ≡ some hour
      → Wants c (some (cron hour (or_else c.cron_minute 0)))

-- A row of another job.
abbrev pub IsOther : String → JobScheduleConfig → Type 0
IsOther k c = str_eq c.job_type k ≡ false

-- A job with the schedule that is asked for, or without one.
unfoldable pub scheduled :
    String → Option Trigger → List (String × Trigger) → List (String × Trigger)
scheduled k none jobs = delete (λ e. str_eq e.0 k) jobs
scheduled k (some g) jobs = put_key k g jobs

get_key-scheduled :
    (k i : String) (o : Option Trigger) (jobs : List (String × Trigger))
    → get_key i (scheduled k o jobs) ≡ (if str_eq k i then o else get_key i jobs)
unfolding scheduled
get_key-scheduled k i none jobs = get_key-delete k i jobs
get_key-scheduled k i (some g) jobs = get_key-put_key k i g jobs

-- The trigger and the version that stand for a job.
abbrev pub standing : String → SchedulerState → Option Trigger × Option ℕ
standing k s = (get_key k s.jobs, get_key k s.last_config_versions)

module _ (accepts : Trigger → Bool) where
  abbrev pub is_accepted : Option Trigger → Bool
  is_accepted none = true
  is_accepted (some g) = accepts g

  apply_schedule-Wants :
      (c : JobScheduleConfig) (o : Option Trigger) (jobs : List (String × Trigger))
      → is_registered c.job_type ≡ true
      → Wants c o
      → apply_schedule accepts c jobs
        ≡ (if is_accepted o then some (scheduled c.job_type o jobs) else none)
  unfolding apply_schedule trigger_of add_job scheduled
  apply_schedule-Wants c o jobs r (disabled off) = rw (r, off) refl
  apply_schedule-Wants c o jobs r (every n on kind m p) =
      let q : ltb 0 n ≡ true = ground arith in rw (r, on, kind, m, q) refl
  apply_schedule-Wants c o jobs r (daily hour on kind m) = rw (r, on, kind, m) refl

  -- What is found for a job in the result of a step that may raise.
  abbrev pub Kept : String → Option Trigger → Option (List (String × Trigger)) → Type 0
  Kept k old none = Unit
  Kept k old (some jobs) = get_key k jobs ≡ old

  apply_schedule-Kept :
      (k : String) (c : JobScheduleConfig) (jobs : List (String × Trigger))
      → IsOther k c
      → Kept k (get_key k jobs) (apply_schedule accepts c jobs)
  unfolding apply_schedule add_job
  apply_schedule-Kept k c jobs other = elim (Bool-cases (is_registered c.job_type)) [
    | inr r ↦ rw r refl
    | inl r ↦ elim (Bool-cases c.enabled) [
      | inr off ↦ rw (r, off, get_key-delete c.job_type k jobs, other) refl
      | inl on ↦ rw (r, on) (add_job-Kept (trigger_of c))
    ]
  ]
    where
      add_job-Kept :
          (o : Option Trigger) → Kept k (get_key k jobs) (add_job accepts c.job_type o jobs)
      add_job-Kept none = refl
      add_job-Kept (some g) = elim (Bool-cases (accepts g)) [
        | inl a ↦ rw (a, get_key-put_key c.job_type k g jobs, other) refl
        | inr a ↦ rw a tt
      ]

  abbrev pub Stands : String → Option Trigger × Option ℕ → Option SchedulerState → Type 0
  Stands k old none = Unit
  Stands k old (some s) = standing k s ≡ old

  check_config-Stands :
      (k : String) (c : JobScheduleConfig) (s : SchedulerState)
      → IsOther k c
      → Stands k (standing k s) (check_config accepts c s)
  unfolding check_config applied
  check_config-Stands k c s other =
      elim (Bool-cases (is_newer c.updated_at (get_key c.job_type s.last_config_versions))) [
        | inr e ↦ rw e refl
        | inl e ↦ rw e (
            applied-Stands (apply_schedule accepts c s.jobs) (apply_schedule-Kept k c s.jobs other))
      ]
    where
      applied-Stands :
          (o : Option (List (String × Trigger)))
          → Kept k (get_key k s.jobs) o
          → Stands k (standing k s) (applied accepts c o s)
      applied-Stands none h = tt
      applied-Stands (some jobs) h =
          rw (h, get_key-put_key c.job_type k c.updated_at s.last_config_versions, other) refl

  pub check_config_changes-standing :
      (k : String) (cs : List JobScheduleConfig) (s : SchedulerState)
      → All (IsOther k) cs
      → standing k (check_config_changes accepts cs s).1 ≡ standing k s
  unfolding check_config_changes
  check_config_changes-standing k [] s h = refl
  check_config_changes-standing k (c ∷ cs) s h = elim (Option-cases (check_config accepts c s)) [
    | inl e ↦ rw (e, check_config_changes) refl
    | inr (s', e) ↦
        let kept : standing k s' ≡ standing k s = rw e at (check_config-Stands k c s h.0) in
        rw (e, check_config_changes) (check_config_changes-standing k cs s' h.1 ∙ kept)
  ]

  -- Rows that all pass go first, and the rest starts from what they leave.
  pub check_config_changes-append :
      (before rest : List JobScheduleConfig) (s : SchedulerState)
      → (check_config_changes accepts before s).0 ≡ true
      → check_config_changes accepts (before ++ rest) s
        ≡ check_config_changes accepts rest (check_config_changes accepts before s).1
  unfolding check_config_changes
  check_config_changes-append [] rest s h = refl
  check_config_changes-append (c ∷ before) rest s h =
      elim (Option-cases (check_config accepts c s)) [
        | inl e ↦
            let ended : false ≡ true = rw (e, check_config_changes) at h in
            absurd (false≢true ended)
        | inr (s', e) ↦
            rw (e, check_config_changes)
              (check_config_changes-append before rest s' (rw (e, check_config_changes) at h))
      ]

  -- One round for a changed row whose schedule is valid.
  pub check_config-Wants :
      (c : JobScheduleConfig) (o : Option Trigger) (s : SchedulerState)
      → is_registered c.job_type ≡ true
      → Wants c o
      → is_newer c.updated_at (get_key c.job_type s.last_config_versions) ≡ true
      → check_config accepts c s ≡ (
          if is_accepted o
          then some (record {
            jobs = scheduled c.job_type o s.jobs;
            last_config_versions = put_key c.job_type c.updated_at s.last_config_versions;
          })
          else none)
  unfolding check_config
  check_config-Wants c o s r w newer =
      rw (newer, apply_schedule-Wants c o s.jobs r w) (chosen (is_accepted o))
    where
      chosen :
          (b : Bool)
          → applied accepts c (if b then some (scheduled c.job_type o s.jobs) else none) s ≡ (
              if b
              then some (record {
                jobs = scheduled c.job_type o s.jobs;
                last_config_versions = put_key c.job_type c.updated_at s.last_config_versions;
              })
              else none)
      chosen true = refl
      chosen false = refl

  -- Let a row of a registered job, changed since it was last applied, ask for a schedule that the
  -- library accepts, or be disabled; let no other row be of the same job, and none before it be
  -- refused. Then after the check the job has just that schedule, or none if it is disabled, and the
  -- row's version, whatever the rows after it are.
  pub check_config_changes-applied :
      (before after : List JobScheduleConfig) (c : JobScheduleConfig) (o : Option Trigger)
      (s : SchedulerState)
      → is_registered c.job_type ≡ true
      → Wants c o
      → is_accepted o ≡ true
      → is_newer c.updated_at (get_key c.job_type s.last_config_versions) ≡ true
      → All (IsOther c.job_type) before
      → All (IsOther c.job_type) after
      → (check_config_changes accepts before s).0 ≡ true
      → standing c.job_type (check_config_changes accepts (before ++ c ∷ after) s).1
        ≡ (o, some c.updated_at)
  unfolding check_config_changes
  check_config_changes-applied before after c o s r w a newer others later fine =
      let k = c.job_type in
      let s' = (check_config_changes accepts before s).1 in
      let kept : standing k s' ≡ standing k s = check_config_changes-standing k before s others in
      let newer' : is_newer c.updated_at (get_key k s'.last_config_versions) ≡ true =
        ap (λ (p : Option Trigger × Option ℕ). is_newer c.updated_at p.1) kept ∙ newer in
      let made = check_config-Wants c o s' r w newer' in
      rw (check_config_changes-append before (c ∷ after) s fine, check_config_changes, made, a)
        (check_config_changes-standing k after
            (record {
              jobs = scheduled k o s'.jobs;
              last_config_versions = put_key k c.updated_at s'.last_config_versions;
            })
            later
          ∙ rw
              (
                get_key-scheduled k k o s'.jobs,
                get_key-put_key k k c.updated_at s'.last_config_versions,
                (eq_iff k k).1 refl,
              )
              refl)
