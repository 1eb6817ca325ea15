-- ===== src/Stream/Summary/Totals.antt =====
-- What the summary of a run of streaming/stream_job.py says, when the report of each batch is sound.
use real_time_data_pipeline.Base.{
  ℕ, ◌+◌, ◌*◌, mul_mono, ◌≤◌, min, ◌≡◌, refl, sym, List, [], ◌∷◌, map, length, keep, All, arith,
}
use real_time_data_pipeline.Base.Dict.{Dict, total}
use real_time_data_pipeline.Base.Rounding.{round_div, round_div_mono}
use real_time_data_pipeline.Base.Sorted.{IsSorted, sort_by-IsSorted, get_or_mono}
use real_time_data_pipeline.Retry.Stats.{merge_reasons, total-merge_reasons}
use real_time_data_pipeline.Stream.Merge.{IsConsistent}
use real_time_data_pipeline.Stream.Process.{BatchReport}
use real_time_data_pipeline.Stream.Summary.{
  TimedReport, Summary, pct, is_non_empty, over_reports, reasons_of, durations, summarize,
}

-- The statistics of the batch's report are sound for the records that it sent to the DLQ.
abbrev pub IsSoundReport : TimedReport → Type 0
IsSoundReport t = IsConsistent t.report.dlq t.report.agg

module _ (f g : BatchReport → ℕ) where
  over_reports-eq :
      (ts : List TimedReport)
      → All IsSoundReport ts
      → ((t : TimedReport) → IsSoundReport t → f t.report ≡ g t.report)
      → over_reports f ts ≡ over_reports g ts
  over_reports-eq [] h k = refl
  over_reports-eq (t ∷ ts) h k = omega (arith, k t h.0, over_reports-eq ts h.1 k)

  over_reports-le :
      (ts : List TimedReport)
      → All IsSoundReport ts
      → ((t : TimedReport) → IsSoundReport t → f t.report ≤ g t.report)
      → over_reports f ts ≤ over_reports g ts
  over_reports-le [] h k = omega arith
  over_reports-le (t ∷ ts) h k = omega (arith, k t h.0, over_reports-le ts h.1 k)

total-reasons_of :
    (reasons : Dict ℕ) (ts : List TimedReport)
    → total (reasons_of reasons ts)
      ≡ total reasons + over_reports (λ r. total r.agg.failure_reasons) ts
unfolding reasons_of
total-reasons_of reasons [] = omega arith
total-reasons_of reasons (t ∷ ts) = omega (
  arith,
  total-reasons_of (merge_reasons reasons t.report.agg.failure_reasons) ts,
  total-merge_reasons reasons t.report.agg.failure_reasons,
)

over_reports-sum :
    (f g : BatchReport → ℕ) (ts : List TimedReport)
    → over_reports (λ r. f r + g r) ts ≡ over_reports f ts + over_reports g ts
over_reports-sum f g [] = refl
over_reports-sum f g (t ∷ ts) = omega (arith, over_reports-sum f g ts)

pct_mono : (ds : List ℕ) (p q : ℕ) → IsSorted (λ d. d) ds → p ≤ q → pct ds p ≤ pct ds q
unfolding pct
pct_mono [] p q h le = omega arith
pct_mono (d ∷ ds) p q h le =
    get_or_mono (d ∷ ds) (min (length ds) (round_div (p * length ds) 100))
      (min (length ds) (round_div (q * length ds) 100)) h
      (omega (arith, round_div_mono (p * length ds) (q * length ds) (mul_mono (length ds) p q le)))
      (omega arith)

durations-IsSorted : (ts : List TimedReport) → IsSorted (λ d. d) (durations ts)
unfolding durations
durations-IsSorted ts =
    sort_by-IsSorted (λ d. d) (map (λ (t : TimedReport). t.batch_time) (keep is_non_empty ts))

length-keep-le : (ts : List TimedReport) → length (keep is_non_empty ts) ≤ length ts
unfolding is_non_empty
length-keep-le [] = omega arith
length-keep-le (t ∷ ts) = ground (arith, length-keep-le ts)

-- A summary that agrees with itself, for so many attempts.
pub record IsFaithful (attempts : ℕ) (s : Summary) : Type 0 where
  pub attempted : attempts ≡ s.successes + total s.failure_reasons
  pub written : s.rows_written ≡ s.successes
  pub retries : s.retries ≡ s.retried_retries
  pub retried : s.writes_needing_retry ≤ s.rows_written
  pub non_empty : s.non_empty_batches ≤ s.batches
  pub median : s.p50 ≤ s.p95
  pub tail : s.p95 ≤ s.p99

-- From sound reports the summary accounts for every attempt of the run, by a success or by a counted
-- reason; it counts as many rows as successes and no more writes with a retry than those; both means of
-- retries have the same numerator; and the percentiles of the batches' times do not fall.
pub summarize-IsFaithful :
    (ts : List TimedReport)
    → All IsSoundReport ts
    → IsFaithful (over_reports (λ r. r.agg.attempts) ts) (summarize ts)
unfolding summarize total
summarize-IsFaithful ts h = record {
  attempted = omega (
    arith,
    over_reports-eq (λ r. r.agg.attempts) (λ r. r.agg.successes + total r.agg.failure_reasons) ts h
        (λ t k. k.balanced),
    over_reports-sum (λ r. r.agg.successes) (λ r. total r.agg.failure_reasons) ts,
    total-reasons_of [] ts,
  );
  written =
      over_reports-eq (λ r. r.agg.rows_written) (λ r. r.agg.successes) ts h (λ t k. sym k.written);
  retries =
      over_reports-eq (λ r. r.agg.retries_before_success) (λ r. r.agg.retried_writes_retries) ts h
        (λ t k. k.retries);
  retried =
      over_reports-le (λ r. r.agg.retried_writes) (λ r. r.agg.rows_written) ts h (λ t k. k.retried);
  non_empty = length-keep-le ts;
  median = pct_mono (durations ts) 50 95 (durations-IsSorted ts) (omega arith);
  tail = pct_mono (durations ts) 95 99 (durations-IsSorted ts) (omega arith);
}
