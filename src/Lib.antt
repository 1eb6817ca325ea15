-- ===== src/Lib.antt =====
-- Real-time data pipeline: trip events go from a producer through Kafka and Spark Structured
-- Streaming into Cassandra. What cannot be written is quarantined in a dead letter queue (DLQ)
-- with a replay drain. This library models the parts of the Python code on which the pipeline's
-- promise rests: that no event is lost in silence, and that delivering it twice does no harm.
--
-- The parts, their files here, and the code they model:
--
-- * Retry (common/retry.py, RetryConfig of common/config.py). Retry/Stats: RetryStats.
--   Retry/Policy: BackoffPolicy.delay_ms. Retry/Call: call_with_retry, its rounds and its loop;
--   Retry/Call/Induction is the induction over the loop, Account has what is counted, Script runs
--   the call against a script of outcomes. Retry/Batches: batched.
-- * Dlq (common/dlq.py). DLQRecord as a record of Python values, build, to_json and from_json;
--   Dlq/Envelope is about writing and reading it.
-- * Sink (streaming/cassandra_sink.py, sql/cassandra/schema.cql). Sink/Tables: the columns of CQL
--   and the primary keys. Sink/Statements: _validate and build_statements. Sink/Ring: what a
--   database with upserts does with them. Sink/Partition: write_partition, with its loops in Steps
--   and its accounts in Accounts.
-- * Stream (streaming/stream_job.py). Stream/Batch: where _process_batch sends the rows of a
--   micro-batch, and the high-water mark that decides which rows are late in the next one.
--   Stream/Merge: _merge_stats. Stream/Process: _process_batch as a whole, and the report of
--   _record_batch. Stream/Summary: _write_summary. Stream/Run: run, which waits for the end of the
--   job; Run/Shutdown is about that end. Stream/Schema: EVENT_SCHEMA, and the events of the
--   generator under it.
-- * Replay (replay/dlq_tools.py). Replay/Drain: drain and _direct_write, with the routing loop,
--   the re-injection, the direct writes and the report; Drain/Routing is about its routing loop,
--   Accounts about its report, Whole about its end, and Origin about the records that the pipeline
--   makes. Replay/Inspect: read_all and the counts of inspect, and summarize of common/dlq.py.
-- * Producer (producer/produce.py). ProducerRunner: _send with its retries, _on_delivery, _to_dlq,
--   _drain_failures, and the main loop, which is given the events of each turn; Producer/Pacing:
--   how many events its turns generate. Retry/Call/Kept is about counts of the world under a
--   retried call.
-- * Producer/Generator (producer/events.py). TripGenerator.next_event, from what is drawn for an
--   event; Producer/Generator/Trips is about its events and what the sink says of them.
-- * Config (common/config.py, and parse_watermark_seconds of streaming/stream_job.py). The
--   settings as they are read from the environment; Config/RoundTrip is about the texts that are
--   read back, and Config/Strokes a way of writing numbers for the examples.
-- * Bench (bench/run_scenario.py, throughput_sweep.py, latency_report.py, partition_skew.py).
--   Bench/Act: calls that change a state and may raise, and the polling loop that run_scenario has
--   four times; Act/Progress and Act/Sound are about it. Bench/Scenario: the scenario runner, with
--   what it reads of Kafka and Cassandra in Offsets, its waiting loops in Waits, the fault in
--   Fault, the figures in Report and the whole in Run; Loops and Drained are about the waiting
--   loops. Bench/Sweep: the verdict on a step, the sweep and the rate it reports; Sweep/Verdict
--   and Sweep/Ending are about the rate and the sweep. Bench/Latency: the percentiles. Bench/Skew:
--   Kafka's partitioner and the report on the partitions. Bench/Chaos (bench/chaos_suite.py): what
--   is taken from a run's report and the figures; its loops are in Suite, and Figures and Arms are
--   about them. Bench/Analytics (bench/analytics_bench.py): the comparison of two forms of a query
--   and their timing; Order is about sorted rows, Texts has Python's order on texts, and Verdict
--   is about the whole. Act/Inversion: what is known of the parts of a call from its end.
-- * Airflow (airflow/dags). Airflow itself: what the DAGs share, with emit_alert (rtdp_common.py),
--   and the calls of the drivers as a record Services. Airflow/Payload: the parameters of the
--   INSERT. Airflow/Stage: the stage table with its upsert, and what the tasks rely on;
--   Stage/Landing is about payloads that land in it. Airflow/Rollup (trips_batch_rollup.py): the
--   sensor, the load and the check of an hour; Rollup/Reload and Rollup/Drift are about the load
--   and the check. Airflow/Backfill (trips_backfill.py): the tasks of a backfill; Fuel, Window and
--   Whole are about its loop. Airflow/DlqDrain (dlq_drain.py): the tasks of the drain;
--   DlqDrain/Breaker is about its circuit breaker.
-- * Base, Value: lists, sorting, rounding, dicts, texts, exceptions, integers and the Python
--   values that the parts share.
--
-- The producer runs the retry loop of Retry for each event, and the sink runs it for each write
-- that failed at first and builds the envelopes of Dlq. The stream hands its good rows to the
-- sink. The drain reads the envelopes, and its direct writes use the sink's build_statements. The
-- generator's events are what the producer sends and the sink validates. The sweep and the chaos
-- suite run the scenario runner. The rollup and the backfill write the same table, and the DAG of
-- the drain runs the tool of Replay as a process.
--
-- State is passed explicitly: a generator or a method is a function from its state and a world to
-- a result, the new state and the world. The world is of any type; Cassandra, Kafka, the clock,
-- sleeping and random draws are functions on it, collected in the records Callables, Session,
-- Spark, Outside, Client, Host, Services, Job and Database. JSON texts, UUID and time parsing are
-- arguments too. An exception is a value: Outcome for what a call returns or raises, CallResult
-- for the end of a retried call.
--
-- Loops are structural recursion: the retry loop on the rounds that are left, which is max(1,
-- max_attempts) at the start, the polling loops on fuel, and all others on their list. A polling
-- loop has fuel for one turn more than its timeout has milliseconds, and its pause is at least one
-- of these, so that a clock that goes on ends it first. The loop of a backfill has fuel for two
-- turns more than the 336 hours of its ceiling, since a window of less than 337 hours has at most
-- 337 turns and one more turn ends the loop. The stream job has fuel for two turns more than its
-- duration has waits of two seconds, so that a clock which goes on ends it. Numbers are natural
-- numbers, with - cut off at 0: the jitter's max(0, ...) is just that, and a cutoff before 1970
-- counts as 1970. Delays are millionths of a millisecond and jitter is in thousandths, so that a
-- delay is exact where Python rounds a float.
--
-- The benchmarks' times are milliseconds, their percentages and ratios whole numbers of hundredths
-- or thousandths, and a percentile is exact, in thousandths of a millisecond. A file is a text,
-- and what JSON makes of a line is an argument.
--
-- Not modelled: the set-up of drivers and sessions, Spark's partitioning of a batch, logging,
-- metrics and the printing of reports; the producer's report; of Airflow its schedule, its retries
-- and its callbacks; the load of the analytics database; of its benchmark the plans and the
-- summary, and there and in the chaos suite the standard deviation; of the stream job the rates of
-- a report, the lag monitor and the rows of the rollup; of the drain the sample of the inspection;
-- of the scenario runner the command lines of the job and of the producer, which are arguments,
-- the files it writes and the scheduling of the thread that injects a fault.
pub mod Base
pub mod Config
pub mod Retry
pub mod Value
pub mod Dlq
pub mod Sink
pub mod Stream
pub mod Replay
pub mod Producer
pub mod Bench
pub mod Airflow
