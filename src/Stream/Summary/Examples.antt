-- ===== src/Stream/Summary/Examples.antt =====
-- The summary of a run of two batches, of which one was empty.
use real_time_data_pipeline.Base.{[], ◌∷◌, List, arith}
use real_time_data_pipeline.Base.Dict.{total}
use real_time_data_pipeline.Stream.Merge.{Aggregate, empty_agg, empty-IsConsistent, IsConsistent}
use real_time_data_pipeline.Stream.Summary.{TimedReport, summarize}
use real_time_data_pipeline.Stream.Summary.Totals.{IsFaithful, summarize-IsFaithful}

abbrev agg : Aggregate
agg = record empty_agg {
  rows_written = 4;
  retried_writes = 1;
  retried_writes_retries = 1;
  latency_sum_ms = 300;
  latency_count = 2;
  latency_max_ms = 180;
  attempts = 5;
  successes = 4;
  retries_before_success = 1;
  failure_reasons = ("WriteTimeout", 1) ∷ [];
}

abbrev reports : List TimedReport
reports =
    record {
      report = record {
        batch_id = 0;
        input_rows = 2;
        unparseable = 0;
        late = 0;
        dlq = 0;
        agg = agg;
      };
      batch_time = 8100;
    }
    ∷ record {
      report = record {
        batch_id = 1;
        input_rows = 0;
        unparseable = 0;
        late = 0;
        dlq = 0;
        agg = empty_agg;
      };
      batch_time = 300;
    }
    ∷ []

agg-IsConsistent : IsConsistent 0 agg
unfolding total
agg-IsConsistent = record {
  balanced = omega arith;
  written = omega arith;
  retries = omega arith;
  retried = omega arith;
  yielded = omega arith;
  rejected = omega arith;
  mean = omega arith;
}

summarize-IsFaithful_example : IsFaithful 5 (summarize reports)
summarize-IsFaithful_example =
    summarize-IsFaithful reports (agg-IsConsistent, (empty-IsConsistent, tt))
