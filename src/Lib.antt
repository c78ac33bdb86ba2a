-- ===== src/Lib.antt =====
-- A model of CoinWhale's data pipeline: collectors listen to Binance's streams, poll its REST endpoints
-- and send messages to Kafka; Spark jobs check the rows, aggregate them and write micro-batches to
-- ClickHouse, and a ledger of the batches is kept beside the writes.
--
-- The parts and their files:
-- - Prelude: booleans, lists, signed integers, Python's text functions (split, strip, upper, int) and
--   its stable sort, on the native numbers and texts. Upper and lower case are those of ASCII.
-- - Value: the Python values of a decoded JSON message, with truth, `get`, `str` and `==`. What CPython
--   answers about floats is the record PyFloats, a parameter.
-- - Routing (common/config.py): topics, lane overrides, the span of partitions of a symbol on a hot
--   topic, and `build_partition_route`. The environment's values are the fields of Config; the digest
--   of BLAKE2 is one of them.
-- - Ledger (spark_jobs/batch_ledger_contract.py): the checks of fields, `build_ledger_key`,
--   `audit_event_to_ledger_row` and `classify_ledger_observation`. SHA-256 is a parameter.
-- - Producer (common/kafka_utils.py): the state of KafkaProducerWrapper; Dlq has the handling of a
--   failure and the delivery callbacks, Send has `send` on both backends, BadRow has `send_bad_row`,
--   Close has `flush` and `close`. A client library is a list of what it answers: whether it takes a
--   message, and the delivery reports that a poll serves.
-- - Writer (spark_jobs/ch_writer.py): the client cache, failure counts and rules for errors; Quality
--   has `evaluate_write_quality`, Audit the audit event, Cleanup `_cleanup_old_dlq_files`, and Write
--   `write_to_clickhouse` with its handler. It uses the ledger for the key of an audit event.
-- - Schema (common/collector_schema.py): the checks of a topic's contract, in the order of
--   `_validate_contract`; Rules has the loops over fields and rules. Dates is a parameter.
-- - Rest (collectors/rest_poller.py): backoff delays and states; Fetch has the validation and the
--   delivery of a payload, which use the routing and the producer, OpenInterest a turn and the loop of
--   OpenInterestPoller, and LongShort a fetch and a round of LongShortRatioPoller. Double arithmetic
--   is the record Arithmetic, a parameter.
-- - Collector (collectors/base_collector.py): the state of BaseBinanceCollector and `_send_to_kafka`; Pool
--   has the jobs of the thread pool, which run in any order beside the event loop, and Loop the two
--   loops of `start`. It uses the schema, the routing and the producer. The reconnection delays are
--   whole numbers of milliseconds; every collector's `process_data` is `_send_to_kafka`.
-- - Runner (collectors/run_all.py): the collectors and pollers that `main` creates for its symbols, with
--   the streams that they subscribe to (utils/binance_stream_enum.py) at the URLs of Routing.
-- - SymbolConfig (common/symbol_config.py): symbol lists and the checks of the symbol universe, on the
--   parsed file; Yaml is the reader of simple YAML, whose stack of containers is one of paths into the
--   document, and whose scalars have fuel of one more than their characters.
-- - Gate (spark_jobs/quality_gate.py): SQL's Booleans, with NULL; Rows has the conditions of
--   `apply_quality_gate` on a row, Summary `build_quality_event`, Events the client cache and
--   `write_quality_event`, and Artifacts the cleanup of old days and fallback files, with the answers of
--   the file system as arguments. Spark's casts and percentiles are parameters.
-- - Silver (spark_jobs/silver): OpenInterest has `process_batch` of OIInsight, which uses the
--   writer's client and audit events, Quality what base.py makes of the gate, Offsets the offsets
--   that a trigger reads, by the lag, and Price the books and the columns of the price table.
--   Plans has the queries that `start` of each table starts, as the plans that Spark is given, and
--   Jobs the aggregator: the classes, their discovery, the wait for Kafka on fuel of its timeout,
--   and the start of all queries.
-- - RowHash (spark_jobs/row_hash_policy.py): the policy's tables, the canonical text of values, with
--   decimals in Numbers, and `build_row_hash`.
-- - BadRows (common/bad_rows.py): the masking and cutting of payloads and `build_bad_row_context`.
-- - Fixtures and the Examples modules: concrete instances, and runs of the theorems on them.
--
-- The correspondence: a function of the model has the name of the function of the source, without
-- its leading underscore, and passes the state that the source mutates. What a library, the network
-- or the file system answers during a call is an argument (SendEnv, FailureEnv, WriteEnv, Request).
-- An exception is a value of the result: `raised`, `thrown`, `threw`, or `none`. Loops are recursion
-- on lists, and the pollers' loops on the list of the requests to come, so that no fuel is needed;
-- the wait for Kafka has fuel of one round more than its timeout has seconds, and a scalar of the
-- simple YAML of one more than its characters.
--
-- Not modelled: metrics and log lines, which change none of the state; the masking and cutting of
-- texts in dead letters; the creation of clients; threads: each modelled call is one step, so that
-- what is shown of the producer is about calls and callbacks that do not overlap, as `send` and the
-- delivery callbacks of the source take no lock; the timestamps of the backoff state; and the
-- checksum and the null counts of a frame, which pandas computes. The schema check is a parameter of
-- Rest.Fetch, which does not raise there; Collector has the check itself, with what it raises.
-- Building an audit event and logging it are taken not to raise. Of the gate, the quarantine's
-- files, which Spark writes; of the runner, the gathering of its tasks and its semaphore, which each
-- task gives back before it starts. The Kafka reader and the aggregations of the silver tables,
-- which are columns and windows of Spark, have no model here.
pub mod Prelude
pub mod Value
pub mod Routing
pub mod Runner
pub mod Ledger
pub mod Producer
pub mod Writer
pub mod Rest
pub mod Schema
pub mod Collector
pub mod RowHash
pub mod SymbolConfig
pub mod BadRows
pub mod Gate
pub mod Silver
pub mod Fixtures
