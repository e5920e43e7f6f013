-- ===== src/Scheduler/Blocked.antt =====
-- A check of the settings that a refused row ends (proofs).
use eve_station_trader.Prelude.{
  ℕ, subst, ◌≡◌, refl, sym, ap, ◌∙◌, Bool, true, false, Option, none, some, List, [], ◌∷◌, ◌++◌,
  String, str_eq, eq_iff, All, Bool-cases, Option-cases, inl, inr, arith,
}
use mathlib.Core.Bool.{false≢true}
use eve_station_trader.Scheduler.Schedule.{
  JobScheduleConfig, Trigger, SchedulerState, get_key, is_registered, is_newer, apply_schedule,
  applied, check_config, check_config_changes,
}
use eve_station_trader.Scheduler.Keys.{get_key-put_key}
use eve_station_trader.Scheduler.Changes.{
  Wants, IsOther, is_accepted, standing, check_config_changes-standing, check_config_changes-append,
  check_config-Wants,
}

-- The version that was applied for a row's job is no older than the row.
abbrev pub IsSeen : SchedulerState → JobScheduleConfig → Type 0
IsSeen s c = is_newer c.updated_at (get_key c.job_type s.last_config_versions) ≡ false

-- A version that replaces an older one, or stands for the first time, keeps what was seen.
newer-seen :
    (v u : ℕ) (o : Option ℕ)
    → is_newer v o ≡ true
    → is_newer u o ≡ false
    → is_newer u (some v) ≡ false
newer-seen v u none h k = cc
newer-seen v u (some w) h k = ground arith

module _ (accepts : Trigger → Bool) where
  abbrev SeenIn : JobScheduleConfig → Option SchedulerState → Type 0
  SeenIn c none = Unit
  SeenIn c (some s) = IsSeen s c

  check_config-SeenIn :
      (c : JobScheduleConfig) (s : SchedulerState) → SeenIn c (check_config accepts c s)
  unfolding check_config applied
  check_config-SeenIn c s =
      elim (Bool-cases (is_newer c.updated_at (get_key c.job_type s.last_config_versions))) [
        | inl e ↦ rw e (after (apply_schedule accepts c s.jobs))
        | inr e ↦ rw e e
      ]
    where
      after : (o : Option (List (String × Trigger))) → SeenIn c (applied accepts c o s)
      after none = tt
      after (some jobs) =
          rw
            (
              get_key-put_key c.job_type c.job_type c.updated_at s.last_config_versions,
              (eq_iff c.job_type c.job_type).1 refl,
            )
            (ground arith)

  check_config-keeps_SeenIn :
      (c d : JobScheduleConfig) (s : SchedulerState)
      → IsSeen s d
      → SeenIn d (check_config accepts c s)
  unfolding check_config applied
  check_config-keeps_SeenIn c d s h =
      elim (Bool-cases (is_newer c.updated_at (get_key c.job_type s.last_config_versions))) [
        | inr e ↦ rw e h
        | inl e ↦ rw e (after e (apply_schedule accepts c s.jobs))
      ]
    where
      after :
          is_newer c.updated_at (get_key c.job_type s.last_config_versions) ≡ true
          → (o : Option (List (String × Trigger))) → SeenIn d (applied accepts c o s)
      after e none = tt
      after e (some jobs) = elim (Bool-cases (str_eq c.job_type d.job_type)) [
        | inl g ↦
            rw (get_key-put_key c.job_type d.job_type c.updated_at s.last_config_versions, g)
              (newer-seen c.updated_at d.updated_at (get_key c.job_type s.last_config_versions) e
                (rw ((eq_iff c.job_type d.job_type).0 g) h))
        | inr g ↦
            rw (get_key-put_key c.job_type d.job_type c.updated_at s.last_config_versions, g) h
      ]

  check_config_changes-step :
      (c : JobScheduleConfig) (cs : List JobScheduleConfig) (s s' : SchedulerState)
      → check_config accepts c s ≡ some s'
      → check_config_changes accepts (c ∷ cs) s ≡ check_config_changes accepts cs s'
  unfolding check_config_changes
  check_config_changes-step c cs s s' e = rw (e, check_config_changes) refl

  check_config_changes-keeps :
      (cs : List JobScheduleConfig) (d : JobScheduleConfig) (s : SchedulerState)
      → IsSeen s d
      → IsSeen (check_config_changes accepts cs s).1 d
  unfolding check_config_changes
  check_config_changes-keeps [] d s h = h
  check_config_changes-keeps (c ∷ cs) d s h = elim (Option-cases (check_config accepts c s)) [
    | inl e ↦ rw (e, check_config_changes) h
    | inr (s', e) ↦
        rw (e, check_config_changes)
          (check_config_changes-keeps cs d s' (rw e at (check_config-keeps_SeenIn c d s h)))
  ]

  check_config_changes-All :
      (cs : List JobScheduleConfig) (s : SchedulerState)
      → (check_config_changes accepts cs s).0 ≡ true
      → All (IsSeen (check_config_changes accepts cs s).1) cs
  unfolding check_config_changes
  check_config_changes-All [] s h = tt
  check_config_changes-All (c ∷ cs) s h = elim (Option-cases (check_config accepts c s)) [
    | inl e ↦
        let ended : false ≡ true = rw (e, check_config_changes) at h in absurd (false≢true ended)
    | inr (s', e) ↦
        subst (λ (p : Bool × SchedulerState). All (IsSeen p.1) (c ∷ cs))
          (sym (check_config_changes-step c cs s s' e))
          (
            check_config_changes-keeps cs c s' (rw e at (check_config-SeenIn c s)),
            check_config_changes-All cs s' (rw (e, check_config_changes) at h),
          )
  ]

  check_config_changes-seen :
      (cs : List JobScheduleConfig) (s : SchedulerState)
      → All (IsSeen s) cs
      → check_config_changes accepts cs s ≡ (true, s)
  unfolding check_config_changes check_config
  check_config_changes-seen [] s h = refl
  check_config_changes-seen (c ∷ cs) s h =
      let same : check_config accepts c s ≡ some s = rw (check_config, h.0) refl in
      check_config_changes-step c cs s s same ∙ check_config_changes-seen cs s h.1

  -- A second check of rows that all pass does nothing.
  check_config_changes-again :
      (cs : List JobScheduleConfig) (s : SchedulerState)
      → (check_config_changes accepts cs s).0 ≡ true
      → let s' = (check_config_changes accepts cs s).1 in
        check_config_changes accepts cs s' ≡ (true, s')
  check_config_changes-again cs s h =
      check_config_changes-seen cs (check_config_changes accepts cs s).1
        (check_config_changes-All cs s h)

  -- The check ends at a row that is refused where it is reached.
  check_config_changes-refused :
      (before after : List JobScheduleConfig) (c : JobScheduleConfig) (o : Option Trigger)
      (s : SchedulerState)
      → is_registered c.job_type ≡ true
      → Wants c o
      → is_accepted accepts o ≡ false
      → let s' = (check_config_changes accepts before s).1 in
        is_newer c.updated_at (get_key c.job_type s'.last_config_versions) ≡ true
        → (check_config_changes accepts before s).0 ≡ true
        → check_config_changes accepts (before ++ c ∷ after) s ≡ (false, s')
  unfolding check_config_changes
  check_config_changes-refused before after c o s r w a newer fine =
      let s' = (check_config_changes accepts before s).1 in
      rw
        (
          check_config_changes-append accepts before (c ∷ after) s fine,
          check_config_changes,
          check_config-Wants accepts c o s' r w newer,
          a,
        )
        refl

  -- Let a row of a registered job, changed since it was last applied, ask for a schedule that the
  -- library refuses; let no row before it be of the same job or be refused. Then the check ends at that
  -- row with the changes of the rows before it, whatever the rows after it are, and the next check of the
  -- same rows ends there again and changes nothing.
  pub check_config_changes-blocked :
      (before after : List JobScheduleConfig) (c : JobScheduleConfig) (o : Option Trigger)
      (s : SchedulerState)
      → is_registered c.job_type ≡ true
      → Wants c o
      → is_accepted accepts o ≡ false
      → is_newer c.updated_at (get_key c.job_type s.last_config_versions) ≡ true
      → All (IsOther c.job_type) before
      → (check_config_changes accepts before s).0 ≡ true
      → let s' = (check_config_changes accepts before s).1 in
        (check_config_changes accepts (before ++ c ∷ after) s ≡ (false, s'))
        × (check_config_changes accepts (before ++ c ∷ after) s' ≡ (false, s'))
  check_config_changes-blocked before after c o s r w a newer others fine =
      let k = c.job_type in
      let s' = (check_config_changes accepts before s).1 in
      let kept : standing k s' ≡ standing k s =
        check_config_changes-standing accepts k before s others in
      let newer' : is_newer c.updated_at (get_key k s'.last_config_versions) ≡ true =
        ap (λ (p : Option Trigger × Option ℕ). is_newer c.updated_at p.1) kept ∙ newer in
      let again = check_config_changes-again before s fine in
      (
        check_config_changes-refused before after c o s r w a newer' fine,
        check_config_changes-refused before after c o s' r w a
              (ap
                  (λ (p : Bool × SchedulerState).
                    is_newer c.updated_at (get_key k p.1.last_config_versions))
                  again
                ∙ newer')
              (ap (λ (p : Bool × SchedulerState). p.0) again)
            ∙ ap (λ (p : Bool × SchedulerState). (false, p.1)) again,
      )
