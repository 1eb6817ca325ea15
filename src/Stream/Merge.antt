-- ===== src/Stream/Merge.antt =====
-- `_merge_stats` of streaming/stream_job.py: the statistics of a batch from those of its partitions.
use mathlib.Core.Path.{subst}
use real_time_data_pipeline.Base.{
  ℕ, ◌+◌, ◌*◌, ◌≤◌, max, ◌≡◌, List, [], ◌∷◌, ◌++◌, arith, length, length-append, map, sum, All,
}
use real_time_data_pipeline.Base.Dict.{Dict, total}
use real_time_data_pipeline.Retry.Stats.{merge_reasons, total-merge_reasons}
use real_time_data_pipeline.Sink.Partition.{Part, Yield}
use real_time_data_pipeline.Sink.Partition.Accounts.{IsSound}

pub record Aggregate : Type 0 where
  pub rows_written : ℕ
  pub dlq_emitted : ℕ
  pub validation_rejects : ℕ
  pub retried_writes : ℕ
  pub retried_writes_retries : ℕ
  pub latency_sum_ms : ℕ
  pub latency_count : ℕ
  pub latency_max_ms : ℕ
  pub attempts : ℕ
  pub successes : ℕ
  pub failures_exhausted : ℕ
  pub retries_before_success : ℕ
  pub total_backoff : ℕ
  pub failure_reasons : Dict ℕ

abbrev pub empty_agg : Aggregate
empty_agg = record {
  rows_written = 0;
  dlq_emitted = 0;
  validation_rejects = 0;
  retried_writes = 0;
  retried_writes_retries = 0;
  latency_sum_ms = 0;
  latency_count = 0;
  latency_max_ms = 0;
  attempts = 0;
  successes = 0;
  failures_exhausted = 0;
  retries_before_success = 0;
  total_backoff = 0;
  failure_reasons = [];
}

-- The body of the loop, on the statistics that a partition has yielded.
unfoldable pub merge_one : Aggregate → Part → Aggregate
unfolding merge_reasons
merge_one agg p = record {
  rows_written = agg.rows_written + p.rows_written;
  dlq_emitted = agg.dlq_emitted + p.dlq_emitted;
  validation_rejects = agg.validation_rejects + p.validation_rejects;
  retried_writes = agg.retried_writes + p.retried_writes;
  retried_writes_retries = agg.retried_writes_retries + p.retried_writes_retries;
  latency_sum_ms = agg.latency_sum_ms + p.latency_sum;
  latency_count = agg.latency_count + p.latency_count;
  latency_max_ms = max agg.latency_max_ms p.latency_max;
  attempts = agg.attempts + p.stats.attempts;
  successes = agg.successes + p.stats.successes;
  failures_exhausted = agg.failures_exhausted + p.stats.failures_exhausted;
  retries_before_success = agg.retries_before_success + p.stats.retries_before_success;
  total_backoff = agg.total_backoff + p.stats.total_backoff;
  failure_reasons = merge_reasons agg.failure_reasons p.stats.failure_reasons;
}

unfoldable pub merge_from : Aggregate → List Part → Aggregate
merge_from agg [] = agg
merge_from agg (p ∷ parts) = merge_from (merge_one agg p) parts

unfoldable pub merge_stats : List Part → Aggregate
unfolding merge_from
merge_stats parts = merge_from empty_agg parts

-- The statistics of a batch are sound, for so many records that went to the DLQ.
pub record IsConsistent (dlq : ℕ) (agg : Aggregate) : Type 0 where
  pub balanced : agg.attempts ≡ agg.successes + total agg.failure_reasons
  pub written : agg.successes ≡ agg.rows_written
  pub retries : agg.retries_before_success ≡ agg.retried_writes_retries
  pub retried : agg.retried_writes ≤ agg.rows_written
  pub yielded : agg.dlq_emitted ≡ dlq
  pub rejected : agg.validation_rejects + agg.failures_exhausted ≤ agg.dlq_emitted
  pub mean : agg.latency_sum_ms ≤ agg.latency_count * agg.latency_max_ms

mean_of_two : (s t m n a b : ℕ) → s ≤ m * a → t ≤ n * b → s + t ≤ (m + n) * max a b
mean_of_two s t m n a b h k = grind arith

merge_one-IsConsistent :
    (dlq : ℕ) (agg : Aggregate) (p : Part)
    → IsConsistent dlq agg
    → IsSound p
    → IsConsistent (dlq + length p.yields) (merge_one agg p)
unfolding merge_one
merge_one-IsConsistent dlq agg p c v = record {
  balanced = omega (
    arith,
    c.balanced,
    v.balanced,
    total-merge_reasons agg.failure_reasons p.stats.failure_reasons,
  );
  written = omega (arith, c.written, v.written);
  retries = omega (arith, c.retries, v.retries);
  retried = omega (arith, c.retried, v.recovered);
  yielded = omega (arith, c.yielded, v.yielded);
  rejected = omega (arith, c.rejected, v.rejected);
  mean =
      mean_of_two agg.latency_sum_ms p.latency_sum agg.latency_count p.latency_count
        agg.latency_max_ms p.latency_max c.mean v.mean;
}

-- How many records some partitions have yielded, and how many rows they have written.
abbrev pub yielded_by : List Part → List Yield
yielded_by [] = []
yielded_by (p ∷ parts) = p.yields ++ yielded_by parts

merge_from-IsConsistent :
    (dlq : ℕ) (agg : Aggregate) (parts : List Part)
    → IsConsistent dlq agg
    → All IsSound parts
    → IsConsistent (dlq + length (yielded_by parts)) (merge_from agg parts)
unfolding merge_from
merge_from-IsConsistent dlq agg [] c v = subst (λ n. IsConsistent n agg) (omega arith) c
merge_from-IsConsistent dlq agg (p ∷ parts) c v =
    subst (λ n. IsConsistent n (merge_from (merge_one agg p) parts))
      (omega (arith, length-append p.yields (yielded_by parts)))
      (merge_from-IsConsistent (dlq + length p.yields) (merge_one agg p) parts
        (merge_one-IsConsistent dlq agg p c v.0) v.1)

pub empty-IsConsistent : IsConsistent 0 empty_agg
unfolding total
empty-IsConsistent = record {
  balanced = omega arith;
  written = omega arith;
  retries = omega arith;
  retried = omega arith;
  yielded = omega arith;
  rejected = omega arith;
  mean = omega arith;
}

-- The statistics of partitions that are sound, each for itself, are sound for the whole batch, and as
-- many records are counted as emitted to the DLQ as the partitions have yielded together.
pub merge_stats-IsConsistent :
    (parts : List Part)
    → All IsSound parts
    → IsConsistent (length (yielded_by parts)) (merge_stats parts)
unfolding merge_stats
merge_stats-IsConsistent parts v =
    subst (λ n. IsConsistent n (merge_from empty_agg parts)) (omega arith)
      (merge_from-IsConsistent 0 empty_agg parts empty-IsConsistent v)

merge_from-rows :
    (agg : Aggregate) (parts : List Part)
    → (merge_from agg parts).rows_written
      ≡ agg.rows_written + sum (map (λ (p : Part). p.rows_written) parts)
unfolding merge_from merge_one
merge_from-rows agg [] = omega arith
merge_from-rows agg (p ∷ parts) = omega (arith, merge_from-rows (merge_one agg p) parts)

pub merge_stats-rows :
    (parts : List Part)
    → (merge_stats parts).rows_written ≡ sum (map (λ (p : Part). p.rows_written) parts)
unfolding merge_stats
merge_stats-rows parts = omega (arith, merge_from-rows empty_agg parts)
