-- ===== src/Lib.antt =====
-- EVE Station Trader: the backend (backend/app), a trading analysis service for the market of the
-- game EVE Online. It reads market orders and characters' goods over EVE's HTTP interface (ESI),
-- keeps them in a PostgreSQL database, infers trades from the difference of two snapshots of the
-- orders, sums them into the demand of a period, and generates trade opportunities from prices and
-- demand. Background jobs with stages, started by a user or a schedule, drive all of this.
--
-- How the parts interact: a job (Jobs) runs one of the syncs. A sync fetches pages of orders through
-- the client (Esi), which waits and retries at the error limit. The orders of NPC stations are
-- compared with the previous ones (Npc.Deltas) and summed (Npc.Periods); those of player structures
-- are stored as snapshots, compared and summed (Structures). The demand of a location is resolved
-- from these periods, other data and history (Demand); it and the prices feed the generation of
-- opportunities (Opportunities). The orders of regions become rows of the order table, and locations
-- that they name are added (Ingest); that step also compares the books of the NPC stations. The trade
-- page (Trade) shows the opportunities, keeps the goods in transit and rebuilds a target, for the
-- types and sources with sell orders in the source regions. What characters own (Characters) lowers
-- the units to buy. Jobs are started by hand or by the schedule (Scheduler).
--
-- Prelude: numbers, lists, texts, tables.
--   Prelude.Tests, Lists, Int, Texts   Boolean tests, SQL-like list operations, Python's int, str
--   Prelude.Ids                        tables with a primary key that counts up
--   Prelude.Upsert                     dicts and INSERT ... ON CONFLICT, over an interface of keys
--
-- Npc: backend/app/services/npc_stations/
--   Npc.Rows             the rows of esi_market_orders, its staging table and the deltas
--   Npc.Deltas           deltas.py: _process_station, compute_and_persist_deltas,
--                        cleanup_old_deltas; below it Keys, Sorting, Merge, Station, Units (proofs)
--   Npc.Periods          demand_periods.py: refresh_for_locations; Refresh below it (proofs)
--
-- Jobs: backend/app/services/sync/service.py, the class SyncService
--   Jobs.Rows            sync_job_runs, sync_job_stage_runs, the store of both, the responses
--   Jobs.Stages          _start_job_stage, _finish_job_stage, _run_job_stage, ...
--   Jobs.Runs            _create_job_run, _get_active_job_run, _execute_job
--   Jobs.Stale           clear_stale_jobs, _finalize_stale_cancelling_jobs
--   Jobs.Control         trigger_job, enqueue_job, cancel_job, _check_for_cancellation, ...
--   Jobs.Invariant, Steps, Reach   the invariant of the tables, kept by every operation, and the
--                        states that operations run one by one reach (a step relation)
--   Jobs.Races           all interleavings: also requests whose look for an active job and whose new
--                        row are apart, and the rebuilds of targets by the trade page
--   Jobs.Frozen, Ends, Overlap     jobs that have ended, how execution ends them, two jobs at once
--
-- Scheduler: backend/app/workers/tasks/sync_tasks.py
--   Scheduler.Schedule   _apply_schedule, _check_config_changes
--   Scheduler.Keys, Changes, Blocked   what a check of the settings leaves, and where a row that is
--                        refused ends it (proofs)
--
-- Esi: backend/app/services/esi/client.py, the class EsiClient
--   Esi.Limits           EsiRateLimitState
--   Esi.Request          _request_with_rate_limit and _authenticated_request, over a server
--   Esi.Pages            fetch_structure_orders, fetch_regional_orders, fetch_character_assets
--   Esi.Payloads         the parsers of order rows and their checks of fields
--   Esi.Retries, Recovery, Paging, Fetches, Records, Rows   what requests, routes and parsers amount
--                        to (proofs)
--
-- Ingest: backend/app/services/esi/orders_ingestion.py
--   Ingest.Rows          the tables, records, results and exceptions
--   Ingest.Stations      _ensure_station_location
--   Ingest.Regions       _ingest_via_orm, _delete_stale_orders, _delete_orders_by_ids
--   Ingest.Batches       _collect_unique_station_rows, _ensure_station_locations_for_batches, ...
--   Ingest.Copies        _ingest_batches_via_postgres_copy, with the deltas of Npc.Deltas
--   Ingest.Service       ingest_order_batches, ingest_region_orders
--   Ingest.Places, Rounds, Deletes, Book, Replay, Refine, Ingested, Returns   the way through the ORM (proofs)
--   Ingest.Newest, Replaced, Copied   the way through the staging table (proofs)
--
-- Structures: backend/app/services/structures/
--   Structures.Rows      snapshots, their orders, deltas and demand periods
--   Structures.Snapshots snapshots.py and inference.py: persist_snapshot, compute_order_delta,
--                        persist_deltas_for_snapshots
--   Structures.Periods   demand_periods.py: upsert_period
--   Structures.Orders, Changes, Counting, Demand   what snapshots, comparisons and periods hold (proofs)
--
-- Characters: backend/app/services/characters/service.py
--   Characters.Assets    _sync_character_assets
--   Characters.Stock     what a character owns after a sync (proofs)
--
-- Demand: backend/app/services/demand/market_demand.py
--   Demand.Rows          the tables that are read, and market_demand_resolved
--   Demand.Estimate      _estimate_esi_live_demand, _estimate_buy_from_sell_ratio
--   Demand.Resolve       upsert_for_location, _upsert_npc_from_adam, _upsert_structure_fallback, ...
--   Demand.Ratios, Choice   the ratio, and what a resolution stores on every branch (proofs)
--
-- Opportunities: backend/app/domain/rules.py and backend/app/services/opportunities/generation.py
--   Opportunities.Floats the operations of floats and the laws of their order, an interface
--   Opportunities.Rules  rules.py
--   Opportunities.Items  the loop of generate_for_target over types and sources
--   Opportunities.Summaries   _summaries_for_sources
--   Opportunities.Generation  generate_for_target: scope, deletes, rows, summaries
--   Opportunities.Inventory, Rows, Bounds, Scope   units to buy, rows replaced (proofs)
--
-- Trade: backend/app/repositories/trade_repository.py
--   Trade.Rows           _resolve_location_id, _resolve_type_id, _display_location_name
--   Trade.Rebuild        refresh_opportunities and the three functions for its job
--   Trade.Transit        list_in_transit_assets, upsert_in_transit_asset, delete_in_transit_asset
--   Trade.Prepare        of services/sync/service.py: prepare_trade_period,
--                        refresh_trade_scope_from_existing_rows and the choice of their scope
--   Trade.Filters        _item_filter_conditions, _min_security_threshold
--   Trade.Summaries      list_source_summaries
--   Trade.Rebuilt, Saved, Fresh, Sources, Again   how rebuilds end, what upserts store, which sums
--                        are shown, which sources a rebuild uses, what a second one does (proofs)
--
-- Opportunities.Whole has whole numbers as floats, Opportunities.Samples and Trade.Samples a market
-- in them. The Tests modules and Trade.Scopes run the definitions on small inputs.
--
-- Conventions. A table is a list of its rows, a transaction a function from tables to tables and a
-- result. Ids and times are natural numbers (seconds, or milliseconds where a timeout is in play),
-- Python's int is Prelude.Int.ℤ where the code subtracts. Prices that are only copied have an open
-- type; floats that are computed with belong to an interface. Sums of floats in SQL are taken in the
-- order of the rows, which the database leaves open. Sums that the code converts to float
-- at the end stay whole. The loops recurse on their lists; the retries of a request recurse on the
-- rounds that are left, four at the start, and the pages on the pages that X-Pages leaves.
--
-- Parameters: the body of a job (a function on the store), the server behind the HTTP client (a
-- function of the number of the request and the request), raise_for_status's test of a status, the
-- parse of a response body in the paged routes, the parse of a time, float arithmetic, the results of
-- the queries that fill the dicts of the generation, the answers of fetch_station (one for each
-- station, as of one ingestion), the checks for cancellation, the ORM's test whether an assignment
-- changes a row, the triggers that the scheduler accepts, the order of names in the database, and the two calls of SyncService in a rebuild (Trade.Prepare has
-- both, over the refreshes of prices and demand).
--
-- Not modelled: the bodies of the jobs and their bulk SQL, the Adam4EVE and EVE Ref importers, the
-- refresh of demand in SQL, price and volume periods, foundation data, the other
-- queries of the trade repository, an ingestion by COPY of one region that nothing calls, the rest of
-- the characters' service, sign-on, settings, HTTP routes, logging and the frontend. Log lines and
-- stage callbacks are left out, and so is a generation that is cancelled, which raises before its
-- commit.
pub mod Characters
pub mod Demand
pub mod Esi
pub mod Ingest
pub mod Jobs
pub mod Npc
pub mod Opportunities
pub mod Prelude
pub mod Scheduler
pub mod Structures
pub mod Trade
