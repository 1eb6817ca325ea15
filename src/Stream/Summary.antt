-- ===== src/Stream/Summary.antt =====
-- `_write_summary` of streaming/stream_job.py: the figures of a run from the reports of its batches. The
-- time of a batch, in tenths of a millisecond, stands beside its report. A mean is kept as the two
-- numbers that it divides, and the reasons in the order in which they came up; `p / 100 * n` is exact.
pub mod Totals
mod Examples
use real_time_data_pipeline.Base.{
  ℕ, Bool, zero, suc, ◌+◌, ◌-◌, ◌*◌, ◌/◌, ◌%◌, min, List, [], ◌∷◌, map, length, get_or, keep, sum,
  ltb, ◌==◌, if◌then◌else◌,
}
use real_time_data_pipeline.Base.Dict.{Dict}
use real_time_data_pipeline.Base.Rounding.{round_div}
use real_time_data_pipeline.Base.Sorted.{sort_by}
use real_time_data_pipeline.Retry.Stats.{merge_reasons}
use real_time_data_pipeline.Stream.Merge.{Aggregate}
use real_time_data_pipeline.Stream.Process.{BatchReport}

pub record TimedReport : Type 0 where
  pub report : BatchReport
  pub batch_time : ℕ

pub record Summary : Type 0 where
  pub batches : ℕ
  pub non_empty_batches : ℕ
  pub input_rows : ℕ
  pub rows_written : ℕ
  pub unparseable : ℕ
  pub late_events : ℕ
  pub dlq_total : ℕ
  pub successes : ℕ
  pub retries : ℕ
  pub writes_needing_retry : ℕ
  pub retried_retries : ℕ
  pub latency_sum : ℕ
  pub latency_samples : ℕ
  pub p50 : ℕ
  pub p95 : ℕ
  pub p99 : ℕ
  pub failure_reasons : Dict ℕ

-- `pct`, of sorted durations.
unfoldable pub pct : List ℕ → ℕ → ℕ
unfolding round_div
pct [] p = 0
pct (d ∷ ds) p = get_or (d ∷ ds) (min (length ds) (round_div (p * length ds) 100)) 0

unfoldable pub is_non_empty : TimedReport → Bool
is_non_empty t = ltb 0 t.report.input_rows

-- A sum over the reports.
abbrev pub over_reports : (BatchReport → ℕ) → List TimedReport → ℕ
over_reports f ts = sum (map (λ (t : TimedReport). f t.report) ts)

unfoldable pub reasons_of : Dict ℕ → List TimedReport → Dict ℕ
unfolding merge_reasons
reasons_of reasons [] = reasons
reasons_of reasons (t ∷ ts) = reasons_of (merge_reasons reasons t.report.agg.failure_reasons) ts

unfoldable pub durations : List TimedReport → List ℕ
unfolding sort_by is_non_empty
durations ts = sort_by (λ d. d) (map (λ (t : TimedReport). t.batch_time) (keep is_non_empty ts))

unfoldable pub summarize : List TimedReport → Summary
unfolding pct reasons_of durations is_non_empty
summarize ts = record {
  batches = length ts;
  non_empty_batches = length (keep is_non_empty ts);
  input_rows = over_reports BatchReport.input_rows ts;
  rows_written = over_reports (λ r. r.agg.rows_written) ts;
  unparseable = over_reports BatchReport.unparseable ts;
  late_events = over_reports BatchReport.late ts;
  dlq_total = over_reports BatchReport.dlq ts;
  successes = over_reports (λ r. r.agg.successes) ts;
  retries = over_reports (λ r. r.agg.retries_before_success) ts;
  writes_needing_retry = over_reports (λ r. r.agg.retried_writes) ts;
  retried_retries = over_reports (λ r. r.agg.retried_writes_retries) ts;
  latency_sum = over_reports (λ r. r.agg.latency_sum_ms) ts;
  latency_samples = over_reports (λ r. r.agg.latency_count) ts;
  p50 = pct (durations ts) 50;
  p95 = pct (durations ts) 95;
  p99 = pct (durations ts) 99;
  failure_reasons = reasons_of [] ts;
}
