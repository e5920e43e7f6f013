-- ===== src/Ingest/Ingested.antt =====
-- What an ingestion of one region leaves: the book, and the counts that it returns (proofs).
use eve_station_trader.Prelude.{ℕ, Option, none, if◌then◌else◌}
use mathlib.Core.Option
use eve_station_trader.Ingest.Rows.{EsiMarketOrder, Places}
use eve_station_trader.Ingest.Deletes.{of_region}

module _ {F : Type 0} where
  -- The old row of an id, unless it is of the region.
  abbrev pub kept : ℕ → Option (EsiMarketOrder F) → Option (EsiMarketOrder F)
  kept region_id o = if of_region region_id o then none else o
