-- ===== src/Retry/Stats.antt =====
-- `RetryStats` of common/retry.py. `total_backoff_ms` is counted in millionths of a millisecond,
-- the unit of `Retry.Policy`. Its last field is a dict from exception names to counts.
use real_time_data_pipeline.Base.{ℕ, ◌+◌, ◌≡◌, [], ◌∷◌, arith}
use real_time_data_pipeline.Base.Dict.{Dict, bump, total, total-bump}
use real_time_data_pipeline.Base.Errors.{Exc}

pub record RetryStats : Type 0 where
  pub attempts : ℕ
  pub successes : ℕ
  pub failures_exhausted : ℕ
  pub retries_before_success : ℕ
  pub total_backoff : ℕ
  pub failure_reasons : Dict ℕ

abbrev pub fresh : RetryStats
fresh = record {
  attempts = 0;
  successes = 0;
  failures_exhausted = 0;
  retries_before_success = 0;
  total_backoff = 0;
  failure_reasons = [];
}

unfoldable pub record_reason : Exc → RetryStats → RetryStats
record_reason e s = record s { failure_reasons = bump e.name 1 s.failure_reasons }

-- The loop of `merge` over the other object's reasons.
unfoldable pub merge_reasons : Dict ℕ → Dict ℕ → Dict ℕ
merge_reasons mine [] = mine
merge_reasons mine ((k, v) ∷ rest) = merge_reasons (bump k v mine) rest

unfoldable pub merge : RetryStats → RetryStats → RetryStats
merge s other = record {
  attempts = s.attempts + other.attempts;
  successes = s.successes + other.successes;
  failures_exhausted = s.failures_exhausted + other.failures_exhausted;
  retries_before_success = s.retries_before_success + other.retries_before_success;
  total_backoff = s.total_backoff + other.total_backoff;
  failure_reasons = merge_reasons s.failure_reasons other.failure_reasons;
}

-- Every attempt that was counted either succeeded or has its reason counted.
abbrev pub IsBalanced : RetryStats → Type 0
IsBalanced s = s.attempts ≡ s.successes + total s.failure_reasons

pub fresh-IsBalanced : IsBalanced fresh
unfolding total
fresh-IsBalanced = omega arith

pub total-merge_reasons :
    (mine other : Dict ℕ) → total (merge_reasons mine other) ≡ total mine + total other
unfolding merge_reasons total
total-merge_reasons mine [] = omega arith
total-merge_reasons mine ((k, v) ∷ rest) =
    omega (arith, total-merge_reasons (bump k v mine) rest, total-bump k v mine)

-- Merging the statistics of two parts keeps the account of attempts.
pub merge-IsBalanced :
    (s other : RetryStats) → IsBalanced s → IsBalanced other → IsBalanced (merge s other)
unfolding merge
merge-IsBalanced s other h k =
    omega (arith, total-merge_reasons s.failure_reasons other.failure_reasons)
