-- ===== src/Lib.antt =====
-- K2 market data platform: the lake's offset bookkeeping, its ingest, its versioned dimensions and
-- its order books, and of the first pipeline the producer, the consumer with its guards, and the
-- hybrid query.
--
-- The lake keeps what the market venues sent. A run of docker/lake/ingest.py reads a bounded batch
-- from Kafka and appends it to one Iceberg table, and the offsets it stopped at ride on the
-- commit: the next run reads them from the newest snapshot of the ingest and starts there.
-- Everything that decides which offsets are read is in docker/lake/offsets.py. The gold dimensions
-- are kept as versions by docker/lake/scd2.py and `_merge_dim` of docker/lake/gold.py. The order
-- books are replayed by docker/lake/book.py, which docker/lake/books.py feeds with the frames of a
-- partition and samples once a second. scripts/parity/compare_trades.py compares the trades that
-- two tiers wrote to Kafka. In legacy/v1/src/k2 a producer sends records to Kafka, and a consumer
-- writes batches of what it polls to a table; degradation levels with a load shedder and a
-- sequence tracker watch it, and a circuit breaker guards calls. Its queries draw on a pool of
-- connections, and a hybrid query adds a buffer of recent messages.
--
-- Base           shared names: Boolean tests, lists and integers over the native numbers, `==` as an
--                interface, Python's dict as an association list (Dict), its stable sort (Sort).
-- Offsets        docker/lake/offsets.py. Starting: `next_starting_offsets`, `merge_committed`.
--                Bounded: `bounded_offsets`, with the end of one partition (Stop) and the result by
--                topic and partition (Lookup). Evicted: `evicted`, `skip_evicted`, and what they do to
--                a partition (Repair). Holes: `uncovered_holes`, with the walk over recorded ranges
--                (Walk) and the report (Exact). Continuity: `offset_gaps`. Summary: `latest_summary`. Codec:
--                `encode`, `decode` over the JSON objects that `json` prints and reads.
-- Ingest         `stage_raw` and `_accept_data_loss` of docker/lake/ingest.py, and the lake as the
--                list of the ranges its commits appended. Planned: the range that a run plans for a
--                partition. Advance: what its commit does there.
--                Once: what many runs leave.
-- Scd2           docker/lake/scd2.py and `_merge_dim`. History: a cycle's plan for one key. Merge: its
--                effect on the versions of one key. Tiling: versions that tile time. Steps, Runs: one
--                cycle and many. Repeat: the same registry again. Interrupted: a close without its
--                append.
-- Book           docker/lake/book.py: `Book.apply`, `clear`, `truncate`, `depth` and `kraken_apply`.
--                Levels: one side. Quotes: the quantities. Depth: how deep. Best: which levels stay.
--                Checksum: `top` and `kraken_checksum`.
-- Books          `replay_partition` of docker/lake/books.py. Flush: the rows of a second and the state.
--                Replay: the loop over the rows. Seconds: what a flush emits. Connection: the rows of one
--                connection. Ticks: a connection over several runs. Fresh: a connection that begins.
--                Verdicts: the verdicts on Kraken's checksums.
-- Bars           `reference` of docker/lake/bars.py. Rows: sums over rows. Totals: what the bars hold
--                together. Tick: what each bar of a number of trades holds. Mismatches:
--                `bars_mismatches`.
-- Parity         scripts/parity/compare_trades.py. Parity itself: the statistics of one symbol and their
--                verdict. Dedupe: repeated ids. Agreement, Completeness: ids that are joined. Multiset:
--                ids that are not. Symbols: `compare` and the overall verdict. Whole: what it says.
--                Window: `consume_window`. Reading: one poll. Finished: a complete reading. Quiet,
--                Ending: when a reading gives up.
-- CircuitBreaker legacy/v1/src/k2/common/circuit_breaker.py. Invariant: what each state says of the
--                counters. Traces: sequences of calls, and `with` against `call`.
-- Consumer       MarketDataConsumer of legacy/v1/src/k2/ingestion/consumer.py, which uses the modules
--                DegradationManager, LoadShedder and SequenceTracker. Polls, Turns, Loop: the loop that
--                fills a batch. Routed, Delivery: the batches of a run. Shutdown: after a batch
--                that raised. Starvation: when the loop ends.
-- KafkaTail      legacy/v1/src/k2/query/kafka_tail.py. Accounts: limits and counters. Answers: what
--                a query is to answer. Window: the query against all messages received. Stale: what the trim leaves.
-- HybridQuery    legacy/v1/src/k2/query/hybrid_engine.py, over KafkaTail. Routing, Merge.
-- Producer       BoundedCache and MarketDataProducer of legacy/v1/src/k2/ingestion/producer.py. Recent,
--                Cache: the serializers. Retries: one message.
-- DegradationManager  legacy/v1/src/k2/common/degradation_manager.py. Levels: the level by what is
--                measured. Hysteresis: sequences of checks.
-- LoadShedder    legacy/v1/src/k2/common/load_shedder.py.
-- SequenceTracker  legacy/v1/src/k2/ingestion/sequence_tracker.py. Watermark: `SequenceTracker`.
--                Deduplication: `DeduplicationCache`.
-- ConnectionPool legacy/v1/src/k2/common/connection_pool.py. Members: the set of active connections.
--                Capacity: all interleavings. Leak: failed creations, and a connection in use at
--                `close_all`.
-- Tests          the model at concrete inputs.
--
-- Numbers: Python's integers are unbounded, so are the model's; offsets, prices and sequence
-- numbers are ℤ, since the code's sentinels and its arithmetic can be negative, and counts are ℕ.
-- Clock readings are inputs. Percentages, factors and `last * 0.5` are exact here and floats in
-- the code. Every loop but one is structural recursion, on the list it walks or on the number of
-- retries that are left, so that no fuel is needed. The loop over the seconds of a flush is on
-- fuel, a round for each second from 1970 up to the instant of the flush, since no second that is due
-- is earlier. The polls of a reading are a list: a reading whose polls
-- are used up is neither complete nor truncated, and a batch of the consumer that has not ended by
-- then is still polling.
--
-- Parameters and inputs: the broker's offsets, whether the pinned range held records, whether the
-- audit writer filed the findings, sha256, the protected function of a breaker, zlib's crc32 and
-- the text of a float, the broker's answers to a reading and the decoding of a record, the outcome
-- of each write and commit of the consumer, the parsers of a JSON message, the schema registry,
-- the outcome of each attempt to send a message, and the engine of Iceberg's queries. A write to
-- Iceberg that raises has written nothing.
--
-- Not modelled: what Spark, Iceberg and SQL do inside a query (docker/lake/bronze.py, silver.py
-- and most of gold.py, the queries of books.py, maintenance.py and metrics.py), metrics, logs and
-- locks around one thread's steps, the APIs, raw producers and venue clients of legacy/v1, and the
-- notebooks and scripts.
pub mod Base
pub mod Book
pub mod Books
pub mod CircuitBreaker
pub mod ConnectionPool
pub mod Consumer
pub mod DegradationManager
pub mod HybridQuery
pub mod KafkaTail
pub mod LoadShedder
pub mod Producer
pub mod SequenceTracker
pub mod Bars
pub mod Parity
pub mod Offsets
pub mod Ingest
pub mod Scd2
mod Tests
