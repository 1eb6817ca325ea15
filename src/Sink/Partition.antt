-- ===== src/Sink/Partition.antt =====
-- `write_partition` of streaming/cassandra_sink.py. The Cassandra session, the clock, the random
-- draws and the sleeping act on a world of any type. What the generator yields is the list
-- `yields` of its state; an exception that escapes from it ends the run.
pub mod Steps
pub mod Accounts
use Prim.Native.String.{◌++◌ as ◌++ₛ◌}
use text.Mathlib.Text.{◌==◌ as str_eq}
use real_time_data_pipeline.Base.{
  ℕ, ◌+◌, ◌-◌, max, String, Bool, true, false, Option, none, some, List, [], ◌∷◌, ◌++◌, map, leb,
  if◌then◌else◌,
}
use real_time_data_pipeline.Base.Dict.{Dict}
use real_time_data_pipeline.Base.Errors.{Exc, Outcome, returned, raised, is_instance, type_error}
use real_time_data_pipeline.Value.{
  Value, Datetime, ℤ, pos, time, negsuc, int, str, obj, fields, truthy, get, at,
}
use real_time_data_pipeline.Retry.Stats.{RetryStats, fresh}
use real_time_data_pipeline.Retry.Policy.{RetryConfig}
use real_time_data_pipeline.Dlq.{
  Codec, DlqRecord, take_chars, build, from_topic, stage_parse, stage_cassandra_sink,
}
use real_time_data_pipeline.Sink.Statements.{Statement}

abbrev pub retryable : List String
retryable =
    "WriteTimeout" ∷ "Unavailable" ∷ "OperationTimedOut" ∷ "NoHostAvailable" ∷ "ConnectionError"
    ∷ []

abbrev pub permanent : List String
permanent = "InvalidRequest" ∷ "TypeError" ∷ "ValueError" ∷ []

-- What the function calls outside of this repository. `execute_concurrent` has a result for each
-- statement: none where it is ok, and the error where it is not.
pub record Session (W : Type 0) : Type 0 where
  pub execute : Statement → W → Outcome (Unit {0}) × W
  pub execute_concurrent : List Statement → W → List (Option Exc) × W
  pub clock_ms : W → ℕ × W
  pub sleep : ℕ → W → W
  pub draws : W → ℕ → ℕ
  -- `sample_rate > 0 and rnd.random() < sample_rate`
  pub is_sampled : W → Bool × W
  -- the concurrent writes of latency samples, whose errors are swallowed
  pub write_samples : List (ℤ × ℕ) → W → W
  pub codec : Codec
  pub host : String
  -- `v.isoformat()`
  pub isoformat : Datetime → String
  pub parse_uuid : String → Option String
  -- `int(v)`
  pub to_int : Value → Outcome ℤ

pub record Conf : Type 0 where
  pub tables : List String
  pub source_topic : Value
  pub chunk_size : ℕ
  pub retry : RetryConfig

pub data Yield : Type 0 where
  dlq : Value → DlqRecord → Yield

pub record Part : Type 0 where
  pub stats : RetryStats
  pub rows_written : ℕ
  pub dlq_emitted : ℕ
  pub latency_sum : ℕ
  pub latency_count : ℕ
  pub latency_max : ℕ
  pub validation_rejects : ℕ
  pub retried_writes : ℕ
  pub retried_writes_retries : ℕ
  pub yields : List Yield

abbrev pub initial : Part
initial = record {
  stats = fresh;
  rows_written = 0;
  dlq_emitted = 0;
  latency_sum = 0;
  latency_count = 0;
  latency_max = 0;
  validation_rejects = 0;
  retried_writes = 0;
  retried_writes_retries = 0;
  yields = [];
}

abbrev pub Work : Type 0
Work = Dict Value × Statement

-- One fewer attempt than configured, since the concurrent path has spent the first.
unfoldable pub retry_policy : RetryConfig → RetryConfig
retry_policy cfg = record cfg { max_attempts = max 1 (cfg.max_attempts - 1) }

-- f"{type(exc).__name__}: {exc}"
abbrev pub reason_of : Exc → String
reason_of e = e.name ++ₛ ": " ++ₛ e.message

-- `ingested_at_ms - int(row["produced_at_ms"])`, where it is not negative.
unfoldable pub latency : ℕ → ℤ → Option ℕ
latency ingested (pos n) = if leb n ingested then some (ingested - n) else none
latency ingested (negsuc n) = some (ingested + n + 1)

-- The counters of a sampled row.
abbrev pub add_latency : Option ℕ → Part → Part
add_latency none p = p
add_latency (some lat) p = record p {
  latency_sum = p.latency_sum + lat;
  latency_count = p.latency_count + 1;
  latency_max = max p.latency_max lat;
}

-- `rec.event_id or "unknown"`
abbrev pub dlq_key : DlqRecord → Value
dlq_key r = if truthy r.event_id then r.event_id else str "unknown"

-- The items of the comprehension in `_row_json`: no key that starts with "_", and datetimes as texts.
abbrev pub as_text : (Datetime → String) → Value → Value
as_text isoformat (time t) = str (isoformat t)
as_text isoformat v = v

unfoldable pub own_fields : (Datetime → String) → Dict Value → Dict Value
unfolding take_chars
own_fields isoformat [] = []
own_fields isoformat ((k, v) ∷ row) =
    if str_eq (take_chars 1 k) "_"
    then own_fields isoformat row
    else (k, as_text isoformat v) ∷ own_fields isoformat row

module _ {W : Type 0} (session : Session W) (conf : Conf) where
  -- The payload for the DLQ: the Kafka value as it came, if the row still has it.
  unfoldable pub row_json : Dict Value → Value
  unfolding own_fields
  row_json row =
      if truthy (get row "_raw")
      then get row "_raw"
      else str (session.codec.dumps (obj (fields (own_fields session.isoformat row))))

  -- `dlq_emitted += 1`, `dlqmod.build(…)` and the `yield`.
  unfoldable pub quarantine : Dict Value → Exc → String → ℕ → Part → W → Part × W
  quarantine row e stage retries p w =
      let (now, w') = session.clock_ms w in
      let rec =
        build session.codec session.host now (row_json row) (reason_of e) stage retries
          (from_topic conf.source_topic) in
      (
        record p {
          dlq_emitted = p.dlq_emitted + 1;
          yields = p.yields ++ dlq (dlq_key rec) rec ∷ [];
        },
        w',
      )
