-- ===== src/Retry/Examples.antt =====
-- The schedule and the batches of common/retry.py at concrete inputs.
use real_time_data_pipeline.Base.{ℕ, ◌≡◌, refl, List, [], ◌∷◌}
use real_time_data_pipeline.Retry.Policy.{RetryConfig, delay_ms}
use real_time_data_pipeline.Retry.Batches.{batched}

abbrev plain : RetryConfig
plain = record { backoff_schedule_ms = 1000 ∷ 2000 ∷ []; max_attempts = 3; jitter_ratio = 0 }

-- The last entry of the schedule stands for all further retries.
delay_past_the_end : delay_ms plain 250 5 ≡ 2000000000
unfolding delay_ms
delay_past_the_end = refl

abbrev items : List ℕ
items = 5 ∷ 6 ∷ 7 ∷ []

batches_of_two : batched {A = ℕ} 2 items ≡ (5 ∷ 6 ∷ []) ∷ (7 ∷ []) ∷ []
unfolding batched
batches_of_two = refl
