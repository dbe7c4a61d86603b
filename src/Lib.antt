-- ===== src/Lib.antt =====
-- deepfeeder: market data from providers to a durable log, a journal, live tables and clients.
--
-- Producers publish lists of ticks on the event bus. The bus writes each list as an envelope to the
-- event store, which numbers it, and keeps it in a ring in memory; the two consumers drain the bus,
-- one into the live tables, one into the journal, and the journal's consumer marks what it has
-- written as committed, which lets the event store prune. The gap monitor reads committed envelopes,
-- finds jumps in Binance trade ids and gives them to the backfill planner, which cuts them into
-- tasks for the backfill producer. Listeners turn updates of the live tables into batches of added,
-- updated and completed rows; the market feeder shares listeners among subscribers and sends a client
-- that attaches a snapshot, what the listener's buffer holds after it, and then live batches, as
-- numbered events. A client reads them over one stream for each feed, and a trading bot queues them
-- for its strategy. The paths below are under feeder_server/data/app.d, and those of the client under
-- feeder_client/src/feeder_client.
--
-- Base: shared names, Boolean tests, lists, dictionaries, sorting.
-- Contracts: core/contracts.py. `Draft` is an envelope before the store has numbered it.
-- Planner: runtime/backfill/planner.py. A `Task` is mutated through the queue and the dictionary,
--   so tasks live in a heap and both hold addresses. Gaps, Claims and Once hold the proofs, Slices
--   the invariant of the slicing loop.
-- Watermarks: the watermark methods of `JournalStore`, as the interface that the monitor is given.
-- GapMonitor: runtime/gap_monitors/binance_gap_monitor.py. `poll` is one round of `_run`.
-- EventStore: storage/eventstore_duckdb.py in Codec and DuckDb, with the interface of the bus in
--   Interface, which `duckdb_event_store` of Laws fills. SQL is its meaning on lists of rows.
-- EventBus: core/event_bus.py over any event store of the interface. `look` is one turn of the loop
--   of `_drain`, `drain` the turns over the buses that it wakes up to. Publishers lets the steps of several
--   publishers come between each other.
-- Consumers: runtime/consumers.py, one round of each loop. Where a call may raise, it is a function
--   into Option.
-- Listener: `on_update` of fanout/listener.py.
-- MarketFeeder: fanout/core.py. Subscriptions holds the state and the handles, Events the events of a
--   client, `attach_gapless` among them; a callback is its `id`, and between the steps of an attach no
--   other thread emits. Counts, Calls and Leaks are about references, Phases, Numbering, Snapshots and
--   Catchup about events.
-- Journal: storage/journal_duckdb.py, its appends, watermarks, `load_recent` and streams. Tables
--   holds the state and the operations, Scopes the watermarks as the monitor's interface, Streams and
--   HotStream `stream_ticks_since` of the two tables on fuel, where running out of fuel is a stream
--   that is still being read. Chains and Pages prove the stream of the append-only table. Committed is
--   `next_committed_from`, and Ids and Batches prove what its reader, the gap monitor, gets.
-- Backfill: `_process_task` of providers/binance/producer_backfill.py and `rest_trade_json_to_tick`
--   of providers/binance/adapter.py; the answers of the REST client are a parameter. Worker is the loop
--   of `_run` over the planner, and Drained proves that it ends the tasks; Limiter is `_RateLimiter`,
--   Rest the tries of providers/binance/rest_client.py.
-- TradingView: providers/tradingview/producer_api.py. A run takes the answers of the API, the time and
--   what the bus refuses from outside; `run_batches` is its loop. producer_ws.py is in Frames, Quotes
--   and QuoteFeed, where the one list object of the batches is a field that the ring's envelopes share;
--   Reading and RoundTrip are about frames, Kept and Turns about batches.
-- Binance: providers/binance/producer_ws.py and `trade_json_to_tick` of providers/binance/adapter.py, a
--   turn of the websocket loop in Trades; a turn takes what a message is read as and which publishes
--   raise from outside. Published follows its ticks into the event store.
-- Services: runtime/services.py on one thread. A factory is the keys that it gets and whether it
--   raises, an instance the names of its methods; `get` runs on fuel.
-- Feeds: ingest/feeder_specs.py in Specs, over decoded items, and ingest/feed_manager.py in Manager,
--   where a producer is whether it runs.
-- Client: trading_bot.py in Trading, where the supervisor thread is at one of its points and other
--   threads call between its steps, and the streams of client.py in Registry, as objects behind
--   addresses. Ending, Gate and Restart are about the bot's thread, Tracked about the streams.
--   Strategy is `_dispatch`, a strategy being whether each call of a hook returns.
--   Connection is the loop of a stream, over what its connections answer, and Heard what its callback gets.
--   Envelopes is models.py, protocol.py and stream.py, and Rows proves what arrives of the rows that the
--   service adapts.
-- Sinks: sinks/registry.py and sinks/dh_sink.py in Registry, and the flattening of ticks by the two
--   adapter.py of providers/ in Columns. Routing and Delivered follow an envelope to its writers.
-- Json: the objects that the service sends and the client reads.
-- Fanout: fanout/runtime_bridge.py in Bridge, and fanout/api.py in Requests and in Socket, a websocket
--   connection over the market feeder. Held and Released are about when it gives its handle back.
-- Tests: runs at small inputs.
--
-- Numbers of the source are naturals: ids, times in nanoseconds and counts. -1 stands as a missing
-- value or, in columns of the event store, as a cell of type ℤ. The loop of `add_gap` runs on
-- `end_id + 2` turns of fuel, one for each id and one to stop, and so does the loop over pages, each
-- of which goes on by an id at least. `get` of the services has a turn for each factory and one more,
-- as each call below it is for a factory that is not under construction; the stream of the
-- append-only table has one for each row and one more; a payload of frames has one for each character. Locks make each method one step,
-- but for the publish of the bus and the subscribe of a client, which are two.
-- Threads, sleeps, heartbeats and event logs are left out, as they change no state modelled here;
-- pyarrow, duckdb and Deephaven are parameters or the documented meaning of the calls. Not modelled:
-- the factories, on_start and on_stop of a strategy, the user interface and the wiring of the application.
pub mod Base
pub mod Contracts
pub mod Planner
pub mod Watermarks
pub mod GapMonitor
pub mod EventStore
pub mod EventBus
pub mod Consumers
pub mod Listener
pub mod Journal
pub mod Backfill
pub mod MarketFeeder
pub mod Client
pub mod Services
pub mod Feeds
pub mod TradingView
pub mod Json
pub mod Fanout
pub mod Binance
pub mod Sinks
pub mod Tests
