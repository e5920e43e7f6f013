-- ===== src/Demand/Choice.antt =====
-- What `upsert_for_location` leaves in market_demand_resolved, on every branch.
use eve_station_trader.Prelude.{
  ℕ, ◌≡◌, refl, sym, subst, eq_of_some, ◌∙◌, Bool, true, false, ◌&&◌, ◌||◌, Option, none, some,
  List, [], ◌∷◌, String, ◌==◌, ==_iff, or_else, find_first, find_first-passes, delete,
  if◌then◌else◌, Bool-cases, inl, inr, arith,
}
use eve_station_trader.Prelude.Upsert.{stored, stored-upsert}
use eve_station_trader.Opportunities.Floats.{Float}
use eve_station_trader.Demand.Rows.{
  DemandSource, adam4eve, local_structure, regional_fallback, esi_live, npc_station_period,
  Location, Item, PeriodRow, MarketDemandResolved, DemandTables, demand_key, same_demand,
}
use eve_station_trader.Demand.Estimate.{
  EsiLiveDemandEstimate, estimate_esi_live_demand, estimate_of, DaySums, history_rows, latest_date,
  add_days, no_days,
}
use eve_station_trader.Demand.Resolve.{
  Resolution, resolved, value_error, live_row, plain_row, fallback_row, upsert_row, delete_existing,
  live_or, period_or, adam_sums, uncovered, upsert_npc, upsert_npc_found, upsert_structure,
  upsert_found, upsert_for_location, is_period,
}

module _ {F : Type 0} (f : Float F) where
  -- What stands behind a row of each source, at an NPC station or at a structure.
  abbrev pub Backing : Bool → DemandSource → MarketDemandResolved F → Type 0
  Backing npc adam4eve r = npc ≡ true
  Backing npc npc_station_period r = (npc ≡ true) × (f.lt f.zero r.buy_from_sell_period ≡ true)
  Backing npc local_structure r = (npc ≡ false) × (f.lt f.zero r.buy_from_sell_period ≡ true)
  Backing npc esi_live r = (or_else r.esi_live_valid_days 0 == 0) ≡ false
  Backing npc regional_fallback r =
      (npc ≡ false) × (r.buy_from_sell_period ≡ f.zero) × (r.sell_to_buy_period ≡ f.zero)

  -- Only a station may be left without a row.
  abbrev pub IsBacked : Bool → Option (MarketDemandResolved F) → Type 0
  IsBacked npc none = npc ≡ true
  IsBacked npc (some r) = Backing npc r.demand_source r

  -- A row that stands for a key.
  abbrev pub key_row : ℕ → ℕ → ℕ → MarketDemandResolved F
  unfolding plain_row
  key_row location_id type_id period_days =
      plain_row location_id type_id period_days 0 adam4eve f.zero f.zero

  -- The outcome of a resolution for the key, from the tables `t`: an error changes nothing; a result
  -- holds the row that is stored for the key, which is backed, and no other key's row has changed.
  abbrev pub IsResolved : Bool → ℕ → ℕ → ℕ → DemandTables F → Resolution F × DemandTables F → Type 0
  IsResolved npc location_id type_id period_days t (value_error e, t') = t' ≡ t
  IsResolved npc location_id type_id period_days t (resolved r, t') =
      (r.row ≡ stored demand_key (key_row location_id type_id period_days) t'.resolved)
      × ((q : MarketDemandResolved F)
          → same_demand q (key_row location_id type_id period_days) ≡ false
          → stored demand_key q t'.resolved ≡ stored demand_key q t.resolved)
      × IsBacked npc r.row

  module _ (npc : Bool) (l ty d : ℕ) (t : DemandTables F) where
    upsert_row-IsResolved :
        (row : MarketDemandResolved F) (points : ℕ)
        → row.location_id ≡ l
        → row.type_id ≡ ty
        → row.period_days ≡ d
        → Backing npc row.demand_source row
        → IsResolved npc l ty d t (upsert_row row points t)
    unfolding upsert_row same_demand plain_row
    upsert_row-IsResolved row points a b c back = (
      sym (stored-upsert demand_key (key_row l ty d) row t.resolved ∙ rw (own row a b c) refl),
      (λ q other.
          stored-upsert demand_key q row t.resolved ∙ rw (elsewhere q row a b c other) refl),
      back,
    )
      where
        own :
            (row : MarketDemandResolved F)
            → row.location_id ≡ l
            → row.type_id ≡ ty
            → row.period_days ≡ d
            → same_demand (key_row l ty d) row ≡ true
        own row a b c = ground (arith, a, b, c)

        elsewhere :
            (q row : MarketDemandResolved F)
            → row.location_id ≡ l
            → row.type_id ≡ ty
            → row.period_days ≡ d
            → same_demand q (key_row l ty d) ≡ false
            → same_demand q row ≡ false
        elsewhere q row a b c other = rw (a, b, c) other

    not-keyed :
        (rows : List (MarketDemandResolved F))
        → stored demand_key
            (key_row l ty d)
            (delete (λ r. r.location_id == l && r.type_id == ty && r.period_days == d) rows)
          ≡ none
    unfolding same_demand plain_row
    not-keyed [] = refl
    not-keyed (r ∷ rows) = ground (arith, not-keyed rows)

    kept :
        (q : MarketDemandResolved F) (rows : List (MarketDemandResolved F))
        → same_demand q (key_row l ty d) ≡ false
        → stored demand_key q
            (delete (λ r. r.location_id == l && r.type_id == ty && r.period_days == d) rows)
          ≡ stored demand_key q rows
    unfolding same_demand plain_row
    kept q [] h = refl
    kept q (r ∷ rows) h = ground (arith, kept q rows)

    delete_existing-IsResolved : npc ≡ true → IsResolved npc l ty d t (delete_existing l ty d t)
    unfolding delete_existing
    delete_existing-IsResolved h =
        (sym (not-keyed t.resolved), (λ q other. kept q t.resolved other), h)

    estimate_of-valid :
        (reason : String) (s : DaySums F) (e : EsiLiveDemandEstimate F)
        → estimate_of f reason s ≡ some e
        → (e.valid_days == 0) ≡ false
    unfolding estimate_of
    estimate_of-valid reason s e h = pick (s.valid_days == 0) refl h
      where
        made : EsiLiveDemandEstimate F
        made = record {
          buy_from_sell_period = s.buy_from_sell_period;
          sell_to_buy_period = s.sell_to_buy_period;
          valid_days = s.valid_days;
          buy_from_sell_ratio_period =
              if f.lt f.zero s.valid_volume_period
              then some (f.div s.buy_from_sell_period s.valid_volume_period)
              else none;
          buy_from_sell_ratio_yesterday = s.buy_from_sell_ratio_yesterday;
          fallback_reason = reason;
        }

        pick :
            (b : Bool)
            → (s.valid_days == 0) ≡ b
            → (if b then none else some made) ≡ some e
            → (e.valid_days == 0) ≡ false
        pick true k m = cc
        pick false k m =
            subst (λ (x : EsiLiveDemandEstimate F). (x.valid_days == 0) ≡ false) (eq_of_some m) k

    live_or-IsResolved :
        (now : ℕ) (o : Option (EsiLiveDemandEstimate F)) (otherwise : Resolution F × DemandTables F)
        → ((e : EsiLiveDemandEstimate F) → o ≡ some e → (e.valid_days == 0) ≡ false)
        → IsResolved npc l ty d t otherwise
        → IsResolved npc l ty d t (live_or f l ty d now o otherwise t)
    unfolding live_or live_row
    live_or-IsResolved now none otherwise valid h = h
    live_or-IsResolved now (some e) otherwise valid h =
        upsert_row-IsResolved (live_row l ty d now e) e.valid_days refl refl refl (valid e refl)

    live_or-estimate :
        (now : ℕ) (loc : Location) (reason : String) (otherwise : Resolution F × DemandTables F)
        → IsResolved npc l ty d t otherwise
        → IsResolved npc l ty d t (
            live_or f l ty d now (estimate_esi_live_demand f loc ty d reason t.history) otherwise t)
    unfolding estimate_esi_live_demand
    live_or-estimate now loc reason otherwise h =
        let rows = history_rows loc ty d t.history in
        live_or-IsResolved now
          (estimate_of f reason (add_days f (latest_date rows) rows (no_days f))) otherwise
          (λ e. estimate_of-valid reason (add_days f (latest_date rows) rows (no_days f)) e) h

    period_or-IsResolved :
        (now : ℕ) (source : DemandSource) (points : PeriodRow F → ℕ) (o : Option (PeriodRow F))
        (otherwise : Resolution F × DemandTables F)
        → ((p : PeriodRow F)
            → f.lt f.zero p.buy_from_sell_period ≡ true
            → Backing npc source
                (plain_row l ty d now source p.buy_from_sell_period p.sell_to_buy_period))
        → IsResolved npc l ty d t otherwise
        → IsResolved npc l ty d t (period_or f l ty d now source points o otherwise t)
    unfolding period_or plain_row
    period_or-IsResolved now source points none otherwise back h = h
    period_or-IsResolved now source points (some p) otherwise back h =
        elim (Bool-cases (f.lt f.zero p.buy_from_sell_period)) [
          | inl e ↦ rw e (
              upsert_row-IsResolved
                (plain_row l ty d now source p.buy_from_sell_period p.sell_to_buy_period) (points p)
                refl refl refl (back p e))
          | inr e ↦ rw e h
        ]

module _ {F : Type 0} (f : Float F) where
  upsert_npc-IsResolved :
      (loc : Location) (item : Item) (d : ℕ) (covered : Bool) (now : ℕ) (t : DemandTables F)
      → IsResolved f true loc.id item.id d t (upsert_npc f loc item d covered now t)
  unfolding upsert_npc plain_row
  upsert_npc-IsResolved loc item d covered now t =
      let sums = if covered then adam_sums f loc item d t.adam_rows else uncovered f in
      elim (Bool-cases (f.lt f.zero sums.bfs_yesterday || f.lt f.zero sums.bfs_period)) [
        | inl e ↦ rw e (
            upsert_row-IsResolved f true loc.id item.id d t
              (plain_row loc.id item.id d now adam4eve sums.bfs_period sums.stb_period) sums.points
              refl refl refl refl)
        | inr e ↦ rw e (
            period_or-IsResolved f true loc.id item.id d t now npc_station_period
              (λ p. f.trunc (f.mul p.coverage_pct (f.of_ℕ d)))
              (find_first (is_period loc.id item.id d) t.station_periods) _ (λ p pos. (refl, pos))
              (live_or-estimate f true loc.id item.id d t now loc
                (if covered then "adam_zero_buy_from_sell" else "adam_not_covered")
                (delete_existing loc.id item.id d t)
                (delete_existing-IsResolved f true loc.id item.id d t refl)))
      ]

  upsert_structure-IsResolved :
      (loc : Location) (ty d now : ℕ) (t : DemandTables F)
      → IsResolved f false loc.id ty d t (upsert_structure f loc ty d now t)
  unfolding upsert_structure plain_row fallback_row
  upsert_structure-IsResolved loc ty d now t =
      period_or-IsResolved f false loc.id ty d t now local_structure (λ p. 1)
        (find_first (is_period loc.location_id ty d) t.structure_periods) _ (λ p pos. (refl, pos))
        (live_or-estimate f false loc.id ty d t now loc "missing_structure_period"
          (upsert_row (fallback_row f loc.id ty d now) 0 t)
          (upsert_row-IsResolved f false loc.id ty d t (fallback_row f loc.id ty d now) 0 refl refl
            refl (refl, refl, refl)))

  abbrev pub at_station : Option Location → Bool
  at_station none = false
  at_station (some loc) = loc.is_npc_station

  move :
      (npc : Bool) (l m x y d : ℕ) (t : DemandTables F) (o : Resolution F × DemandTables F)
      → l ≡ m
      → x ≡ y
      → IsResolved f npc l x d t o
      → IsResolved f npc m y d t o
  move npc l m x y d t o h k r =
      subst (λ (a : ℕ). IsResolved f npc a y d t o) h
        (subst (λ (b : ℕ). IsResolved f npc l b d t o) k r)

  upsert_npc_found-IsResolved :
      (loc : Location) (o : Option Item) (ty d : ℕ) (covered : Bool) (now : ℕ) (t : DemandTables F)
      → ((item : Item) → o ≡ some item → item.id ≡ ty)
      → IsResolved f true loc.id ty d t (upsert_npc_found f loc o d covered now t)
  unfolding upsert_npc_found
  upsert_npc_found-IsResolved loc none ty d covered now t h = refl
  upsert_npc_found-IsResolved loc (some item) ty d covered now t h =
      move true loc.id loc.id item.id ty d t (upsert_npc f loc item d covered now t) refl
        (h item refl) (upsert_npc-IsResolved loc item d covered now t)

  upsert_found-IsResolved :
      (l ty : ℕ) (o : Option Location) (d : ℕ) (covered : Bool) (now : ℕ) (t : DemandTables F)
      → ((loc : Location) → o ≡ some loc → loc.id ≡ l)
      → IsResolved f (at_station o) l ty d t (upsert_found f l ty covered now o d t)
  unfolding upsert_found
  upsert_found-IsResolved l ty none d covered now t h = refl
  upsert_found-IsResolved l ty (some loc) d covered now t h =
      move loc.is_npc_station loc.id l ty ty d t (upsert_found f l ty covered now (some loc) d t)
        (h loc refl) refl (pick loc.is_npc_station)
    where
      item : Option Item
      item = find_first (λ i. i.id == ty) t.items

      pick :
          (b : Bool)
          → IsResolved f b loc.id ty d t (
              if b
              then upsert_npc_found f loc item d covered now t
              else upsert_structure f loc ty d now t)
      pick true =
          upsert_npc_found-IsResolved loc item ty d covered now t
            (λ i e. (==_iff i.id ty).0 (find_first-passes (λ x. x.id == ty) t.items i e))
      pick false = upsert_structure-IsResolved loc ty d now t

  -- On every branch, a resolution either fails and leaves the tables alone, or its result holds the row
  -- that is then stored for the key (location, type, period), or none if none is, and the rows of all
  -- other keys are as they were. The row is backed by its source: a station has no row of a structure
  -- or of the regional fallback, a structure none of a station and never no row, a row of a demand
  -- period has sales, an estimate rests on at least one day, and a fallback is zero.
  pub upsert_for_location-IsResolved :
      (location_id type_id period_days : ℕ) (covered : Bool) (now : ℕ) (t : DemandTables F)
      → IsResolved f
          (at_station (find_first (λ l. l.id == location_id) t.locations))
          location_id
          type_id
          period_days
          t
          (upsert_for_location f location_id type_id period_days covered now t)
  unfolding upsert_for_location
  upsert_for_location-IsResolved location_id type_id period_days covered now t =
      upsert_found-IsResolved location_id type_id
        (find_first (λ l. l.id == location_id) t.locations) period_days covered now t
        (λ l e.
          (==_iff l.id location_id).0
            (find_first-passes (λ x. x.id == location_id) t.locations l e))
