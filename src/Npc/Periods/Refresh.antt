-- ===== src/Npc/Periods/Refresh.antt =====
-- What a refresh of npc_stations/demand_periods.py leaves in the table, key by key.
use eve_station_trader.Prelude.{
  ℕ, ◌≡◌, refl, true, false, none, some, List, [], ◌∷◌, arith, ◌==◌, ◌&&◌, if◌then◌else◌, any_row,
  All, Bool-cases, inl, inr,
}
use eve_station_trader.Prelude.Upsert.{
  stored, any_row-same, IsKeyed, stored-upsert_all, stored-upsert_all_fresh,
}
use eve_station_trader.Npc.Rows.{OrderDelta}
use eve_station_trader.Npc.Periods.{
  DemandPeriod, same_period, period_key, windowed, in_group, period_row, grouped, period_rows,
  refresh_for_locations,
}

any_row-false-All :
    (q : DemandPeriod) (rows : List DemandPeriod)
    → any_row (same_period q) rows ≡ false
    → All (λ x. same_period q x ≡ false) rows
any_row-false-All q [] h = tt
any_row-false-All q (x ∷ rows) h = (ground arith, any_row-false-All q rows (ground arith))

stored-none :
    (q : DemandPeriod) (rows : List DemandPeriod)
    → stored period_key q rows ≡ none
    → any_row (same_period q) rows ≡ false
stored-none q [] h = refl
stored-none q (x ∷ rows) h = ground (arith, stored-none q rows)

module _ {P : Type 0} (period_days computed_at : ℕ) (deltas : List (OrderDelta P)) where
  abbrev row_at : ℕ → ℕ → DemandPeriod
  row_at = period_row period_days computed_at deltas

  -- The key of a row of the SELECT is the pair of its group and the period.
  same_period-row :
      (q : DemandPeriod) (d : OrderDelta P)
      → same_period q (row_at d.location_id d.type_id)
        ≡ ((q.period_days == period_days) && in_group q.location_id q.type_id d)
  unfolding same_period period_row in_group
  same_period-row q d = ground arith

  row_at-group :
      (q : DemandPeriod) (d : OrderDelta P)
      → in_group q.location_id q.type_id d ≡ true
      → row_at d.location_id d.type_id ≡ row_at q.location_id q.type_id
  unfolding in_group
  row_at-group q d h = ground arith

  grouped-IsKeyed :
      (ds : List (OrderDelta P)) → IsKeyed period_key (grouped period_days computed_at deltas ds)
  unfolding grouped
  grouped-IsKeyed [] = tt
  grouped-IsKeyed (d ∷ ds) =
      let rest = grouped period_days computed_at deltas ds in
      elim (Bool-cases (any_row (same_period (row_at d.location_id d.type_id)) rest)) [
        | inl e ↦ rw e (grouped-IsKeyed ds)
        | inr e ↦
            rw e (any_row-false-All (row_at d.location_id d.type_id) rest e, grouped-IsKeyed ds)
      ]

  stored-grouped :
      (q : DemandPeriod) (ds : List (OrderDelta P))
      → stored period_key q (grouped period_days computed_at deltas ds) ≡ (
          if (q.period_days == period_days) && any_row (in_group q.location_id q.type_id) ds
          then some (row_at q.location_id q.type_id)
          else none)
  unfolding grouped
  stored-grouped q [] = ground arith
  stored-grouped q (d ∷ ds) =
      let row = row_at d.location_id d.type_id in
      let rest = grouped period_days computed_at deltas ds in
      elim (Bool-cases (any_row (same_period row) rest)) [
        | inl e ↦ rw e (
            ground (
              arith,
              stored-grouped q ds,
              same_period-row q d,
              stored-none q rest,
              any_row-same period_key q row rest,
              e,
            ))
        | inr e ↦ rw e (ground (arith, stored-grouped q ds, same_period-row q d, row_at-group q d))
      ]

-- After a refresh with at least one target, the row of a key (location, type, period) is the sum of
-- the deltas of its location and type in the window, if the refresh is for that period and the
-- window has such deltas at a target; otherwise the row is what it was, or is still missing.
pub stored-refresh_for_locations :
    {P : Type 0} (loc : ℕ) (locs : List ℕ) (period_days now : ℕ) (deltas : List (OrderDelta P))
    (periods : List DemandPeriod) (q : DemandPeriod)
    → let window = windowed (loc ∷ locs) period_days now deltas in
      stored period_key q (refresh_for_locations (loc ∷ locs) period_days now deltas periods).1 ≡ (
        if (q.period_days == period_days) && any_row (in_group q.location_id q.type_id) window
        then some (period_row period_days now window q.location_id q.type_id)
        else stored period_key q periods)
unfolding refresh_for_locations period_rows
stored-refresh_for_locations loc locs period_days now deltas periods q =
    let window = windowed (loc ∷ locs) period_days now deltas in
    let rows = grouped period_days now window window in
    let row = period_row period_days now window q.location_id q.type_id in
    elim (Bool-cases
      ((q.period_days == period_days) && any_row (in_group q.location_id q.type_id) window)) [
        | inl e ↦ rw e (
            stored-upsert_all period_key q row rows periods
              (grouped-IsKeyed period_days now window window)
              (rw e at (stored-grouped period_days now window q window)))
        | inr e ↦ rw e (
            stored-upsert_all_fresh period_key q rows periods
              (stored-none q rows (rw e at (stored-grouped period_days now window q window))))
      ]
