-- ===== src/Ingest/Returns.antt =====
-- When an ingestion of a region returns: no exception leaves it (proofs).
use eve_station_trader.Prelude.{
  ℕ, ◌==◌, ◌≡◌, Bool, true, false, ◌||◌, Option, some, List, find_first, String,
}
use eve_station_trader.Ingest.Rows.{
  System, Fetched, found, status_error, OrderRecord, EsiMarketOrder, Places, Result, done,
}
use eve_station_trader.Ingest.Stations.{or_id}
use eve_station_trader.Ingest.Regions.{Run}
use eve_station_trader.Ingest.Places.{IsHonest}

abbrev pub Returns {ℓ} : {A : Type ℓ} → Result A → Type ℓ
Returns {A} m = (a : A) × (m ≡ done a)

-- The answer for a station that has no location yet: not found, or a seed in a known system.
abbrev pub IsServed : List System → ℕ → Fetched → Type 0
IsServed systems system_id (found seed) =
    (s : System) × (find_first (λ (s : System). s.system_id == or_id seed.system_id system_id)
        systems
      ≡ some s)
IsServed systems system_id (status_error code) = code == 400 || code == 404 ≡ true

module _ {F : Type 0} (universe : ℕ → Fetched) (cancelled : ℕ → Bool)
    (parse_time : String → Option ℕ) (unchanged : EsiMarketOrder F → EsiMarketOrder F → Bool)
    (utcnow : ℕ) (honest : IsHonest universe) (never : (n : ℕ) → cancelled n ≡ false)
    (total eve_region_id region_id : ℕ) where
  -- A round returns, and leaves regions and systems.
  abbrev Steps : Run F → Result (Run F) → Type 0
  Steps run m =
      (run' : Run F) × (m ≡ done run')
      × (run'.places.systems ≡ run.places.systems)
      × (run'.places.regions ≡ run.places.regions)

  -- A record with a readable time, whose station can be located.
  abbrev pub IsReadable : List System → OrderRecord F → Type 0
  IsReadable systems r =
      (t : ℕ) × (parse_time r.issued ≡ some t)
      × IsServed systems r.system_id (universe r.location_id)
