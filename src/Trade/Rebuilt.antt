-- ===== src/Trade/Rebuilt.antt =====
-- A rebuild of the opportunities of a target ends its job, on every path (proofs).
use eve_station_trader.Prelude.{
  ℕ, ◌==◌, ◌≡◌, refl, ap, ◌∙◌, Bool, true, false, ◌&&◌, Option, none, some, arith, ==_iff, is_none,
  if◌then◌else◌, inl, inr, Bool-cases, find_first-append_fails, String,
}
use mathlib.Core.Option
use eve_station_trader.Prelude.Ids.{IsBelow, get-append, get-set_row, get-set_row_ne}
use eve_station_trader.Jobs.Rows.{
  success, failed, SyncJobRun, Store, get_job, set_job, Result, return, raise,
}
use eve_station_trader.Jobs.Stages.{error_text}
use eve_station_trader.Trade.Rows.{resolve_location_id}
use eve_station_trader.Trade.Rebuild.{
  TradeTables, rebuild_job, create_target_rebuild_job, progressed, update_found,
  update_target_rebuild_job, rebuilt_job, finish_found, finish_target_rebuild_job, has_period,
  RebuildOutcome, finalizing, prepared, slow_path, fast_done, checked, with_source, with_target,
  ended, refresh_opportunities,
}

-- In `s` the job `n` is there, and the others are as in `before`.
pub record IsOpened (n : ℕ) (before s : Store) : Type 0 where
  pub job : SyncJobRun
  pub found : get_job n s ≡ some job
  pub others : (k : ℕ) → (k == n) ≡ false → get_job k s ≡ get_job k before

module _ (n : ℕ) (before : Store) where
  at_each :
      {s : Store} (o : IsOpened n before s) (k : ℕ)
      → get_job k s ≡ (if k == n then some o.job else get_job k before)
  at_each o k = elim (Bool-cases (k == n)) [
    | inl e ↦ let m : k ≡ n = (==_iff k n).0 e in rw (e, m) o.found
    | inr e ↦ rw e (o.others k e)
  ]

  set_job-IsOpened :
      (f : SyncJobRun → SyncJobRun)
      → ((r : SyncJobRun) → (f r).id ≡ r.id)
      → (s : Store) → IsOpened n before s
      → IsOpened n before (set_job n f s)
  set_job-IsOpened f keeps s o = record {
    job = f o.job;
    found = get-set_row (λ (r : SyncJobRun). r.id) f keeps n s.jobs ∙ ap (Option.map f) o.found;
    others = λ k d. get-set_row_ne (λ (r : SyncJobRun). r.id) f keeps n k s.jobs d ∙ o.others k d;
  }

  update-IsOpened :
      (phase message : String) (current total : ℕ) (s : Store)
      → IsOpened n before s
      → IsOpened n before (update_target_rebuild_job n phase message current total s)
  unfolding update_target_rebuild_job update_found
  update-IsOpened phase message current total s o =
      let kept = set_job-IsOpened (progressed phase message current total) (λ r. refl) s o in
      rw o.found (either (is_none o.job.finished_at) kept)
    where
      either :
          (b : Bool)
          → IsOpened n before (set_job n (progressed phase message current total) s)
          → IsOpened n before
              (if b then set_job n (progressed phase message current total) s else s)
      either true k = k
      either false k = o

  -- How a job stands once its rebuild has ended with `r`.
  abbrev pub EndedAs : Result (Unit {0}) → SyncJobRun → Type 0
  EndedAs (return u) j = j.status ≡ success
  EndedAs (raise e) j = (j.status ≡ failed) × (j.error_details ≡ some (error_text e))

  abbrev pub Ends : ℕ → RebuildOutcome → Type 0
  Ends finished_at (r, s, t) =
      (j : SyncJobRun) × ((k : ℕ) → get_job k s ≡ (if k == n then some j else get_job k before))
      × (j.finished_at ≡ some finished_at)
      × EndedAs r j

  abbrev Opens : RebuildOutcome → Type 0
  Opens (r, s, t) = IsOpened n before s

  module _ (existing : ℕ → Option ℕ → TradeTables → Result Bool × TradeTables)
      (prepare : Bool → ℕ → Option ℕ → TradeTables → Result (Unit {0}) × TradeTables) where
    finalizing-IsOpened :
        (s : Store) → IsOpened n before s → IsOpened n before (finalizing existing prepare n s)
    unfolding finalizing
    finalizing-IsOpened s o = update-IsOpened "Finalizing" "Committing results." 5 5 s o

    prepared-Opens :
        (p : Result (Unit {0}) × TradeTables) (s : Store)
        → IsOpened n before s
        → Opens (prepared existing prepare n p s)
    unfolding prepared
    prepared-Opens (raise e, t) s o = o
    prepared-Opens (return u, t) s o = finalizing-IsOpened s o

    slow_path-Opens :
        (needs : Bool) (target : ℕ) (source : Option ℕ) (s : Store) (t : TradeTables)
        → IsOpened n before s
        → Opens (slow_path existing prepare n needs target source s t)
    unfolding slow_path
    slow_path-Opens true target source s t o =
        prepared-Opens (prepare true target source t) _
          (update-IsOpened _ _ 3 5 _ (update-IsOpened _ _ 2 5 s o))
    slow_path-Opens false target source s t o =
        prepared-Opens (prepare false target source t) _ (update-IsOpened _ _ 3 5 s o)

    fast_done-Opens :
        (target : ℕ) (source : Option ℕ) (p : Result Bool × TradeTables) (s : Store)
        → IsOpened n before s
        → Opens (fast_done existing prepare n target source p s)
    unfolding fast_done
    fast_done-Opens target source (raise e, t) s o = o
    fast_done-Opens target source (return true, t) s o = finalizing-IsOpened s o
    fast_done-Opens target source (return false, t) s o = slow_path-Opens false target source s t o

    checked-Opens :
        (period_days target : ℕ) (source : Option ℕ) (s : Store) (t : TradeTables)
        → IsOpened n before s
        → Opens (checked existing prepare n period_days target source s t)
    unfolding checked
    checked-Opens period_days target source s t o =
        let o1 =
          update-IsOpened "Checking existing market data"
            "Checking for existing price and demand data." 1 5 s o in
        elim (Bool-cases (
          has_period target period_days t.price_periods
          && has_period target period_days t.demands)) [
            | inl b ↦ rw b (
                fast_done-Opens target source (existing target source t) _
                  (update-IsOpened _ _ 3 5 _ o1))
            | inr b ↦ rw b (slow_path-Opens true target source _ t o1)
          ]

    with_source-Opens :
        (period_days target reference : ℕ) (source : Option ℕ) (s : Store) (t : TradeTables)
        → IsOpened n before s
        → Opens (with_source existing prepare n period_days target reference source s t)
    unfolding with_source
    with_source-Opens period_days target reference none s t o = o
    with_source-Opens period_days target reference (some source) s t o =
        checked-Opens period_days target (some source) s t o

    with_target-Opens :
        (period_days reference : ℕ) (source target : Option ℕ) (s : Store) (t : TradeTables)
        → IsOpened n before s
        → Opens (with_target existing prepare n period_days reference source target s t)
    unfolding with_target
    with_target-Opens period_days reference source none s t o = o
    with_target-Opens period_days reference none (some target) s t o =
        checked-Opens period_days target none s t o
    with_target-Opens period_days reference (some source) (some target) s t o =
        with_source-Opens period_days target source (resolve_location_id source t.locations) s t o

    ended-Ends :
        (started_at finished_at : ℕ) (r : RebuildOutcome)
        → Opens r
        → Ends finished_at (ended existing prepare n started_at finished_at r)
    unfolding ended finish_target_rebuild_job finish_found set_job-IsOpened
    ended-Ends started_at finished_at (return u, s, t) o =
        let e = set_job-IsOpened (rebuilt_job started_at finished_at none) (λ r. refl) s o in
        rw o.found (e.job, at_each e, refl, refl)
    ended-Ends started_at finished_at (raise x, s, t) o =
        let e = set_job-IsOpened (rebuilt_job started_at finished_at (some x)) (λ r. refl) s o in
        rw o.found (e.job, at_each e, refl, (refl, refl))

created-IsOpened :
    (target started_at : ℕ) (s : Store)
    → IsBelow (λ (r : SyncJobRun). r.id) s.next_job s.jobs
    → IsOpened s.next_job s (create_target_rebuild_job target started_at s).1
unfolding create_target_rebuild_job
created-IsOpened target started_at s b = record {
  job = rebuild_job s.next_job target started_at;
  found =
      get-append (λ (r : SyncJobRun). r.id) s.next_job (rebuild_job s.next_job target started_at)
        s.jobs refl b;
  others = λ k d.
      find_first-append_fails (λ (r : SyncJobRun). r.id == k) s.jobs
        (rebuild_job s.next_job target started_at) (ground arith);
}

-- Where the keys of the jobs lie below the next one, and whatever the two services of the rebuild do
-- or raise: after a rebuild its job has ended at the time of the end. It has succeeded if the
-- rebuild returns; if an exception leaves it, the job has failed with the text of the exception. All
-- other jobs are as they were.
pub refresh_opportunities-Ends :
    (existing : ℕ → Option ℕ → TradeTables → Result Bool × TradeTables)
    (prepare : Bool → ℕ → Option ℕ → TradeTables → Result (Unit {0}) × TradeTables)
    (started_at finished_at target_location_id period_days : ℕ) (source_location_id : Option ℕ)
    (s : Store) (t : TradeTables)
    → IsBelow (λ (r : SyncJobRun). r.id) s.next_job s.jobs
    → Ends s.next_job s finished_at (
        refresh_opportunities existing prepare started_at finished_at target_location_id period_days
          source_location_id s t)
unfolding refresh_opportunities
refresh_opportunities-Ends existing prepare started_at finished_at target_location_id period_days
      source_location_id s t b =
    let o = created-IsOpened target_location_id started_at s b in
    ended-Ends s.next_job s existing prepare started_at finished_at _ (
      with_target-Opens s.next_job s existing prepare period_days target_location_id
        source_location_id (resolve_location_id target_location_id t.locations) _ t
        (update-IsOpened s.next_job s _ _ 0 5 _ o))
