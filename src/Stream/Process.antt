-- ===== src/Stream/Process.antt =====
-- `_process_batch` of streaming/stream_job.py as a whole: the envelopes of the rows that are not
-- written, the sink on each partition, and the report. Spark's partitioning and its write to the DLQ
-- topic are arguments. An exception goes through and leaves the state of the stream as it was. The
-- times of a report and its rates, and the repeated tries of a failed task, are left out.
pub mod Accounts
use Prim.Native.String.{◌++◌ as ◌++ₛ◌}
use real_time_data_pipeline.Base.{
  ℕ, ◌*◌, ◌-◌, String, Option, none, some, List, [], ◌∷◌, ◌++◌, map, length,
}
use real_time_data_pipeline.Base.Dict.{Dict}
use real_time_data_pipeline.Base.Errors.{Outcome, returned, raised}
use real_time_data_pipeline.Value.{Value, null, str, obj, fields, is_none}
use real_time_data_pipeline.Dlq.{Codec, number, to_json, stage_parse, stage_late}
use real_time_data_pipeline.Sink.Partition.{Session, Conf, Part, Yield, dlq}
use real_time_data_pipeline.Sink.Partition.Steps.{Run, write_partition}
use real_time_data_pipeline.Stream.Batch.{
  BatchRow, StreamConf, Routed, route, cutoff_of, advance, max_time,
}
use real_time_data_pipeline.Stream.Merge.{Aggregate, empty_agg, merge_stats, yielded_by}

-- A row of the dataframe that is written to the DLQ topic.
abbrev pub Keyed : Type 0
Keyed = Value × Dict Value

-- What a batch uses outside of the code: `_write_dlq`, Spark's `unix_timestamp()`, the rows of each
-- partition of a dataframe, and the text of a cutoff.
pub record Spark (W : Type 0) : Type 0 where
  pub write_dlq : List Keyed → W → Outcome (Unit {0}) × W
  pub write_yields : List Yield → W → Outcome (Unit {0}) × W
  pub unix_timestamp : W → ℕ × W
  pub partitions : List BatchRow → List (List BatchRow)
  pub isoformat : ℕ → String

-- The columns that both kinds of envelope end with.
abbrev pub origin : BatchRow → Dict Value
origin r =
    ("source_topic", r.topic)
    ∷ ("source_partition", r.partition)
    ∷ ("source_offset", r.offset)
    ∷ ("replay_count", number 0)
    ∷ ("dlq_schema_version", number 1)
    ∷ []

unfoldable pub bad_envelope : ℕ → BatchRow → Keyed
bad_envelope now r = (
  elim r.event_id [ null ↦ str "unparseable" | v ↦ v ],
  ("original_payload", r.raw)
      ∷ ("failure_reason", str "JsonParseError: value did not match event schema")
      ∷ ("failure_stage", str "parse")
      ∷ ("retry_count", number 0)
      ∷ ("first_failed_at_ms", number (now * 1000))
      ∷ ("quarantined_at_ms", number (now * 1000))
      ∷ origin r,
)

unfoldable pub late_envelope : String → ℕ → BatchRow → Keyed
late_envelope cutoff now r = (
  r.event_id,
  ("original_payload", r.raw)
      ∷ ("failure_reason", str ("LateEvent: event_time older than watermark " ++ₛ cutoff))
      ∷ ("failure_stage", str "late_event")
      ∷ ("retry_count", number 0)
      ∷ ("first_failed_at_ms", number (now * 1000))
      ∷ ("quarantined_at_ms", number (now * 1000))
      ∷ ("event_id", r.event_id)
      ∷ origin r,
)

pub record BatchReport : Type 0 where
  pub batch_id : ℕ
  pub input_rows : ℕ
  pub unparseable : ℕ
  pub late : ℕ
  pub dlq : ℕ
  pub agg : Aggregate

-- `_max_event_ms` and `_batch_reports`
pub record StreamState : Type 0 where
  pub max_event_ms : Option ℕ
  pub batch_reports : List BatchReport

-- The code after a call, where it has raised nothing.
abbrev pub after : {W A B : Type 0} → Outcome A × W → (A → W → Outcome B × W) → Outcome B × W
after (raised e, w) f = (raised e, w)
after (returned a, w) f = f a w

module _ {W : Type 0} (spark : Spark W) (session : Session W) (sink_conf : Conf)
    (conf : StreamConf) where
  -- `if n_bad: self._write_dlq(…)`, and the same for the late rows.
  unfoldable pub write_rows : (ℕ → BatchRow → Keyed) → List BatchRow → W → Outcome (Unit {0}) × W
  write_rows envelope [] w = (returned tt, w)
  write_rows envelope (r ∷ rs) w =
      let (now, w') = spark.unix_timestamp w in spark.write_dlq (map (envelope now) (r ∷ rs)) w'

  abbrev pub cutoff_text : Option ℕ → String
  cutoff_text none = ""
  cutoff_text (some m) = spark.isoformat (cutoff_of conf m)

  abbrev pub part_of : Outcome (Unit {0}) → Part → W → Outcome Part × W
  part_of (raised e) p w = (raised e, w)
  part_of (returned u) p w = (returned p, w)

  -- `mapPartitions(write_partition)`, one partition after the other.
  unfoldable pub write_partitions : List (List BatchRow) → W → Outcome (List Part) × W
  unfolding write_partition
  write_partitions [] w = (returned [], w)
  write_partitions (rows ∷ rest) w =
      let run = write_partition session sink_conf (map (λ (r : BatchRow). r.row) rows) w in
      after (part_of run.result run.part run.world)
        (λ p w'. after (write_partitions rest w') (λ ps w''. (returned (p ∷ ps), w'')))

  -- `if n_dlq: self._write_dlq(…)`
  abbrev pub write_yielded : List Yield → W → Outcome (Unit {0}) × W
  write_yielded [] w = (returned tt, w)
  write_yielded (y ∷ ys) w = spark.write_yields (y ∷ ys) w

  abbrev pub record_batch : ℕ → Aggregate → ℕ → ℕ → ℕ → ℕ → StreamState → StreamState
  record_batch batch_id agg total n_bad n_late n_dlq s = record s {
    batch_reports =
        s.batch_reports
        ++ record {
          batch_id = batch_id;
          input_rows = total;
          unparseable = n_bad;
          late = n_late;
          dlq = n_dlq;
          agg = agg;
        }
          ∷ [];
  }

  -- What follows the sink: the report of the batch and the new mark.
  abbrev pub conclude_batch : ℕ → ℕ → Routed → List Part → StreamState → StreamState
  conclude_batch batch_id total r parts s =
      record_batch batch_id (merge_stats parts) total (length r.bad) r.n_late
        (length (yielded_by parts))
        (record s { max_event_ms = advance s.max_event_ms (max_time r.good) })

  unfoldable pub process_batch : ℕ → List BatchRow → StreamState → W → Outcome StreamState × W
  unfolding route write_rows write_partitions
  process_batch batch_id [] s w = (returned (record_batch batch_id empty_agg 0 0 0 0 s), w)
  process_batch batch_id (row ∷ rows) s w =
      let r = route conf s.max_event_ms (row ∷ rows) in
      after (write_rows bad_envelope r.bad w) (λ _ w1.
        after (write_rows (late_envelope (cutoff_text s.max_event_ms)) r.late w1) (λ _ w2.
          after (write_partitions (spark.partitions r.good) w2) (λ parts w3.
            after (write_yielded (yielded_by parts) w3)
              (λ _ w4. (returned (conclude_batch batch_id (length (row ∷ rows)) r parts s), w4)))))
