-- ===== src/Ingest/Stations.antt =====
-- `_ensure_station_location`, `_ensure_structure_location`, `_collect_unique_station_rows` and
-- `_ensure_station_locations_for_batches` of backend/app/services/esi/orders_ingestion.py: the
-- locations that the records of orders name.
use eve_station_trader.Prelude.{
  ℕ, ◌+◌, ◌==◌, leb, Bool, true, false, ◌||◌, Option, none, some, List, [], ◌∷◌, ◌++◌, any_row,
  if◌then◌else◌,
}
use eve_station_trader.Ingest.Rows.{
  Region, System, Station, Location, npc_station, StationSeed, Fetched, found, status_error, Places,
  Result, done, raise, missing_system, unknown_region_for_station, http_status_error,
  integrity_error, find_region, find_system, find_location,
}

-- Ids from here on are those of player structures.
abbrev pub first_structure : ℕ
first_structure = 1_000_000_000_000

-- seed.system_id or system_id
unfoldable pub or_id : ℕ → ℕ → ℕ
or_id a b = if a == 0 then b else a

-- A new location, with the id of the station that was fetched.
unfoldable pub station_location : StationSeed → System → Places → Location
station_location seed system p = record {
  id = p.next_location;
  location_id = seed.station_id;
  location_type = npc_station;
  system_id = system.id;
  region_id = system.region_id;
  name = seed.name;
}

-- The row of stations, unless the asked station has one.
unfoldable pub with_station : ℕ → StationSeed → System → List Station → List Station
with_station station_id seed system stations =
    if any_row (λ (s : Station). s.station_id == station_id) stations
    then stations
    else stations
      ++ record {
        station_id = seed.station_id;
        system_id = system.id;
        region_id = system.region_id;
        name = seed.name;
      }
        ∷ []

-- The flush refuses a second row for one station_id or one location_id.
unfoldable pub clashes : ℕ → StationSeed → Places → Bool
clashes station_id seed p =
    (if any_row (λ (s : Station). s.station_id == station_id) p.stations
      then false
      else any_row (λ (s : Station). s.station_id == seed.station_id) p.stations)
    || any_row (λ (l : Location). l.location_id == seed.station_id) p.locations

-- After the flush: the location takes the region of the batch.
unfoldable pub in_region :
    ℕ
    → ℕ
    → Location
    → List Station
    → Option Region
    → Places
    → Result (Option Location × Bool × Places)
in_region eve_region_id station_id l stations none p =
    raise (unknown_region_for_station eve_region_id station_id)
in_region eve_region_id station_id l stations (some region) p =
    let location = record l { region_id = region.id } in
    done (
      some location,
      true,
      record p {
        stations = stations;
        locations = p.locations ++ location ∷ [];
        next_location = p.next_location + 1;
      },
    )

unfoldable pub add_station :
    ℕ → ℕ → ℕ → StationSeed → Option System → Places → Result (Option Location × Bool × Places)
unfolding station_location with_station clashes in_region
add_station eve_region_id station_id target seed none p = raise (missing_system station_id target)
add_station eve_region_id station_id target seed (some system) p =
    if clashes station_id seed p
    then raise integrity_error
    else in_region eve_region_id station_id (station_location seed system p)
        (with_station station_id seed system p.stations) (find_region eve_region_id p) p

unfoldable pub fetched_station :
    ℕ → ℕ → ℕ → Fetched → Places → Result (Option Location × Bool × Places)
unfolding or_id add_station
fetched_station eve_region_id station_id system_id (status_error code) p =
    if code == 400 || code == 404 then done (none, false, p) else raise (http_status_error code)
fetched_station eve_region_id station_id system_id (found seed) p =
    let target = or_id seed.system_id system_id in
    add_station eve_region_id station_id target seed (find_system target p) p

-- `universe` is `fetch_station` of the client: one answer for each station.
module _ (universe : ℕ → Fetched) where
  unfoldable pub missing_station : ℕ → ℕ → ℕ → Places → Result (Option Location × Bool × Places)
  unfolding fetched_station
  missing_station eve_region_id station_id system_id p =
      if leb first_structure station_id
      then done (none, false, p)
      else fetched_station eve_region_id station_id system_id (universe station_id) p

  unfoldable pub ensured :
      ℕ → ℕ → ℕ → Option Location → Places → Result (Option Location × Bool × Places)
  unfolding missing_station
  ensured eve_region_id station_id system_id (some l) p = done (some l, false, p)
  ensured eve_region_id station_id system_id none p =
      missing_station eve_region_id station_id system_id p

  unfoldable pub ensure_station_location :
      ℕ → ℕ → ℕ → Places → Result (Option Location × Bool × Places)
  unfolding ensured
  ensure_station_location eve_region_id station_id system_id p =
      ensured eve_region_id station_id system_id (find_location station_id p) p
