-- ===== src/Stream/Batch.antt =====
-- `_process_batch` of streaming/stream_job.py. Event times are microseconds since 1970, and none
-- where `to_timestamp` gave null; a comparison with null is null, and `filter` drops such a row.
-- Spark's partitioning of a batch, and the write of a dataframe to the DLQ topic, are arguments.
pub mod Routing
pub mod Mark
use text.Mathlib.Text.{◌==◌ as str_eq}
use real_time_data_pipeline.Base.{
  ℕ, ◌+◌, ◌-◌, ◌*◌, ◌/◌, max, String, Bool, true, false, not, ◌&&◌, Option, none, some, List, [],
  ◌∷◌, ◌++◌, map, length, keep, concat, ltb, leb, ◌==◌, if◌then◌else◌,
}
use real_time_data_pipeline.Base.Dict.{Dict}
use real_time_data_pipeline.Base.Errors.{Outcome, returned, raised}
use real_time_data_pipeline.Value.{Value, null, str, truthy}
use real_time_data_pipeline.Dlq.{number}
use real_time_data_pipeline.Sink.Partition.{Session, Conf, Part, Yield}
use real_time_data_pipeline.Sink.Partition.Steps.{Run, write_partition}

-- A row as `_source` makes it: what came from Kafka, whether it parses, and its fields.
pub record BatchRow : Type 0 where
  pub raw : Value
  pub topic : Value
  pub partition : Value
  pub offset : Value
  pub unparseable : Bool
  pub event_id : Value
  pub event_time : Option ℕ
  pub row : Dict Value

pub record StreamConf : Type 0 where
  pub allowed_lateness_sec : ℕ
  pub late_policy : String

-- `F.col("event_time") < cutoff` and `>= cutoff`, as filters.
abbrev pub before : ℕ → Option ℕ → Bool
before cutoff none = false
before cutoff (some t) = ltb t cutoff

abbrev pub not_before : ℕ → Option ℕ → Bool
not_before cutoff none = false
not_before cutoff (some t) = leb cutoff t

-- The cutoff in microseconds. `-` stops at 0 where Python's is negative; no time lies before either.
unfoldable pub cutoff_of : StreamConf → ℕ → ℕ
cutoff_of conf mark = (mark - conf.allowed_lateness_sec * 1000) * 1000

-- Where the rows of a batch go: those of the first two lists to the DLQ, the third to Cassandra.
-- `n_late` counts the late ones, which only the policy "dlq" quarantines.
pub record Routed : Type 0 where
  pub bad : List BatchRow
  pub late : List BatchRow
  pub n_late : ℕ
  pub good : List BatchRow

unfoldable pub route : StreamConf → Option ℕ → List BatchRow → Routed
unfolding cutoff_of
route conf mark batch =
    let bad = keep (λ (r : BatchRow). r.unparseable) batch in
    let good = keep (λ (r : BatchRow). not r.unparseable) batch in
    let kept : Routed = record { bad = bad; late = []; n_late = 0; good = good } in
    elim mark [
      | none ↦ kept
      | some m ↦
          let late = keep (λ (r : BatchRow). before (cutoff_of conf m) r.event_time) good in
          if not (str_eq conf.late_policy "process") && ltb 0 (length late)
          then record {
            bad = bad;
            late = if str_eq conf.late_policy "dlq" then late else [];
            n_late = length late;
            good = keep (λ (r : BatchRow). not_before (cutoff_of conf m) r.event_time) good;
          }
          else kept
    ]

-- `F.max("event_time")` over the rows: nulls are passed over.
abbrev pub latest : Option ℕ → Option ℕ → Option ℕ
latest none o = o
latest (some t) none = some t
latest (some t) (some u) = some (max t u)

unfoldable pub max_time : List BatchRow → Option ℕ
max_time [] = none
max_time (r ∷ rs) = latest r.event_time (max_time rs)

-- `self._max_event_ms = max(self._max_event_ms or 0, hw_ms)`
unfoldable pub advance : Option ℕ → Option ℕ → Option ℕ
advance mark none = mark
advance none (some hw) = some (max 0 (hw / 1000))
advance (some m) (some hw) = some (max m (hw / 1000))

-- The mark after a batch, and after some batches one after the other.
unfoldable pub next_mark : StreamConf → Option ℕ → List BatchRow → Option ℕ
unfolding route advance max_time
next_mark conf mark batch = advance mark (max_time (route conf mark batch).good)

unfoldable pub marks : StreamConf → Option ℕ → List (List BatchRow) → Option ℕ
marks conf mark [] = mark
marks conf mark (batch ∷ batches) = marks conf (next_mark conf mark batch) batches
