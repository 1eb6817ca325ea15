-- ===== src/Bench/Scenario/Report.antt =====
-- The figures of the report of bench/run_scenario.py. A percentage is left out.
pub mod Balance
pub mod Growth
use text.Mathlib.Text.{◌==◌ as str_eq}
use real_time_data_pipeline.Base.{
  ℕ, zero, suc, ◌+◌, String, Bool, true, false, not, Option, none, some, List, [], ◌∷◌, map, keep,
  max, length, if◌then◌else◌,
}
use real_time_data_pipeline.Base.Dict.{Dict, lookup}
use real_time_data_pipeline.Base.Errors.{Exc, Outcome, returned, raised, type_error, is_instance}
use real_time_data_pipeline.Value.{ℤ, pos, negsuc, Value, int, obj, entries}
use real_time_data_pipeline.Value.Int.{◌+ℤ◌, ◌-ℤ◌, is_le, min_int, max_int, negated}
use real_time_data_pipeline.Bench.Act.{Act, pure, lift, ◌>>=◌, ◌>>◌, except, finally}
use real_time_data_pipeline.Bench.Scenario.{
  Host, Scenario, ScenarioArgs, call, clock, mark, p_progress, p_lag, p_ready, p_stop,
}
use real_time_data_pipeline.Bench.Scenario.Offsets.{
  topic_count, health_gate, truncate, clean_checkpoint, count_cassandra, dlq_distinct_events,
}
use real_time_data_pipeline.Bench.Scenario.Waits.{
  count_of, item, read_ndjson, Drain, wait_ready, stop_stream, wait_for_drain,
}
use real_time_data_pipeline.Bench.Scenario.Fault.{FaultReport, inject_fault, is_positive}

-- `d.get(k, 0)`, for a count.
abbrev pub get_count : Dict Value → String → Outcome ℤ
get_count d k = elim (lookup k d) [ none ↦ returned (pos 0) | some v ↦ count_of (returned v) ]

abbrev pub get_int : Dict ℤ → String → ℤ
get_int d k = elim (lookup k d) [ none ↦ pos 0 | some n ↦ n ]

pub record Reconciliation : Type 0 where
  pub kafka_messages : ℤ
  pub acked : ℤ
  pub callback_shortfall : ℤ
  pub duplicates_emitted : ℤ
  pub expected_distinct : ℤ
  pub written_distinct : ℤ
  pub dlq_messages : ℤ
  pub dlq_distinct : ℤ
  pub accounted_for : ℤ
  pub partial_write_overlap : ℤ
  pub unaccounted : ℤ

-- The figures from the counts: the messages that Kafka holds, the callbacks, the duplicates, the rows
-- that were written, the messages of the DLQ and the distinct events that were inspected there.
unfoldable pub reconcile : ℤ → ℤ → ℤ → ℤ → ℤ → ℤ → Reconciliation
unfolding ◌+ℤ◌ ◌-ℤ◌ is_le min_int max_int
reconcile kafka_messages acked dupes written dlq_msgs dlq_info =
    let dlq_run = if is_le (pos 0) dlq_info then dlq_info else dlq_msgs in
    let expected = kafka_messages -ℤ dupes in
    let raw_residual = expected -ℤ (written +ℤ dlq_run) in
    record {
      kafka_messages = kafka_messages;
      acked = acked;
      callback_shortfall = kafka_messages -ℤ acked;
      duplicates_emitted = dupes;
      expected_distinct = expected;
      written_distinct = written;
      dlq_messages = dlq_msgs;
      dlq_distinct = dlq_run;
      accounted_for = min_int expected (written +ℤ dlq_run);
      partial_write_overlap = max_int (pos 0) (negated raw_residual);
      unaccounted = max_int (pos 0) raw_residual;
    }

-- The loop of `_longest_monotonic_run` after an element.
abbrev pub grow : ℕ → ℕ → ℤ → List ℤ → ℕ
grow best run prev [] = best
grow best run prev (x ∷ xs) =
    let longer = grow (max best (run + 1)) (run + 1) x xs in
    let over = grow best 0 x xs in if not (is_le x prev) then longer else over

unfoldable pub longest_monotonic_run : List ℤ → ℕ
unfolding is_le
longest_monotonic_run [] = 0
longest_monotonic_run (x ∷ xs) = grow 0 0 x xs

abbrev pub highest : ℤ → List ℤ → ℤ
highest n [] = n
highest n (x ∷ xs) = highest (max_int n x) xs

-- `max(lag_series) if lag_series else 0`, and `lag_series[-1]`.
abbrev pub max_of : List ℤ → ℤ
max_of [] = pos 0
max_of (x ∷ xs) = highest x xs

abbrev pub last_of : List ℤ → Option ℤ
last_of [] = none
last_of (x ∷ []) = some x
last_of (x ∷ y ∷ ys) = last_of (y ∷ ys)

pub record LagReport : Type 0 where
  pub samples : ℕ
  pub max_observed : ℤ
  pub final : Option ℤ
  pub longest_growth_run : ℕ

unfoldable pub lag_report : List ℤ → LagReport
unfolding longest_monotonic_run max_int
lag_report series = record {
  samples = length series;
  max_observed = max_of series;
  final = last_of series;
  longest_growth_run = longest_monotonic_run series;
}

-- What the thread that injects the fault leaves: its report, if any, or its exception.
pub data FaultOutcome : Type 0 where
  reported : Option FaultReport → FaultOutcome
  failed : Exc → FaultOutcome

pub record ScenarioReport : Type 0 where
  pub run_id : String
  pub reconciliation : Reconciliation
  pub lag : LagReport
  pub drain : Drain
  pub batch_count : ℕ
  pub non_empty : ℕ
  pub fault : FaultOutcome

abbrev pub collect : Outcome ℤ → Outcome (List ℤ) → Outcome (List ℤ)
collect (raised e) rest = raised e
collect (returned n) (raised e) = raised e
collect (returned n) (returned ns) = returned (n ∷ ns)

abbrev pub dict_of : Value → Outcome (Dict Value)
dict_of (obj fs) = returned (entries fs)
dict_of v = raised (type_error "not a dict")

-- `[s.get("max_offsets_behind", 0) for s in lag]`
abbrev pub lag_count : Outcome (Dict Value) → Outcome ℤ
lag_count (raised e) = raised e
lag_count (returned d) = get_count d "max_offsets_behind"

unfoldable pub lag_series : List Value → Outcome (List ℤ)
unfolding lookup
lag_series [] = returned []
lag_series (s ∷ lag) = collect (lag_count (dict_of s)) (lag_series lag)

-- `b["input_rows"] > 0`, counted.
abbrev pub add_non_empty : Outcome ℤ → Outcome ℕ → Outcome ℕ
add_non_empty (raised e) m = raised e
add_non_empty (returned n) (raised e) = raised e
add_non_empty (returned n) (returned k) = returned (if is_positive n then k + 1 else k)

unfoldable pub non_empty_of : List Value → Outcome ℕ
unfolding is_le real_time_data_pipeline.Value.at
non_empty_of [] = returned 0
non_empty_of (b ∷ bs) = add_non_empty (count_of (item b "input_rows")) (non_empty_of bs)
