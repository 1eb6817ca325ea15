-- ===== src/Sink/Partition/Accounts.antt =====
-- The counters of `write_partition` (streaming/cassandra_sink.py), and what was written and yielded.
pub mod Loops
pub mod Due
pub mod Whole
use real_time_data_pipeline.Base.{
  ℕ, ◌+◌, ◌*◌, ◌≤◌, ◌≡◌, refl, String, Bool, true, false, List, [], ◌∷◌, ◌++◌, arith, length,
  length-append,
}
use real_time_data_pipeline.Base.Dict.{Dict, total, total-bump}
use real_time_data_pipeline.Base.Errors.{Exc}
use real_time_data_pipeline.Value.{Value}
use real_time_data_pipeline.Retry.Stats.{
  RetryStats, fresh, merge, IsBalanced, fresh-IsBalanced, merge-IsBalanced,
}
use real_time_data_pipeline.Sink.Partition.{
  Session, Conf, Part, initial, Yield, quarantine, add_latency,
}

-- The counters of a partition.
pub record IsSound (p : Part) : Type 0 where
  -- every attempt is a success, or its reason is counted
  pub balanced : IsBalanced p.stats
  -- every success is a row that was written
  pub written : p.stats.successes ≡ p.rows_written
  -- the retries are those of the writes that needed one, at least one for each
  pub retries : p.stats.retries_before_success ≡ p.retried_writes_retries
  pub retried : p.retried_writes ≤ p.retried_writes_retries
  pub recovered : p.retried_writes ≤ p.rows_written
  -- what went to the DLQ was yielded
  pub yielded : p.dlq_emitted ≡ length p.yields
  pub rejected : p.validation_rejects + p.stats.failures_exhausted ≤ p.dlq_emitted
  pub mean : p.latency_sum ≤ p.latency_count * p.latency_max

pub initial-IsSound : IsSound initial
initial-IsSound = record {
  balanced = fresh-IsBalanced;
  written = refl;
  retries = refl;
  retried = omega arith;
  recovered = omega arith;
  yielded = refl;
  rejected = omega arith;
  mean = omega arith;
}

-- Nothing but the DLQ's counter and the yields moves.
pub record Quarantined (p q : Part) : Type 0 where
  pub stats : q.stats ≡ p.stats
  pub rows_written : q.rows_written ≡ p.rows_written
  pub retried_writes : q.retried_writes ≡ p.retried_writes
  pub retried_writes_retries : q.retried_writes_retries ≡ p.retried_writes_retries
  pub validation_rejects : q.validation_rejects ≡ p.validation_rejects
  pub dlq_emitted : q.dlq_emitted ≡ p.dlq_emitted + 1
  pub yielded : length q.yields ≡ length p.yields + 1
  pub latency_sum : q.latency_sum ≡ p.latency_sum
  pub latency_count : q.latency_count ≡ p.latency_count
  pub latency_max : q.latency_max ≡ p.latency_max

pub quarantine-Quarantined :
    {W : Type 0} (session : Session W) (conf : Conf) (row : Dict Value) (e : Exc) (stage : String)
    → (n : ℕ) (p : Part) (w : W) → Quarantined p (quarantine session conf row e stage n p w).0
unfolding quarantine
quarantine-Quarantined session conf row e stage n p w = record {
  stats = refl;
  rows_written = refl;
  retried_writes = refl;
  retried_writes_retries = refl;
  validation_rejects = refl;
  dlq_emitted = refl;
  yielded = length-append p.yields _;
  latency_sum = refl;
  latency_count = refl;
  latency_max = refl;
}
