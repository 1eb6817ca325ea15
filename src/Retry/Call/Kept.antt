-- ===== src/Retry/Call/Kept.antt =====
-- What `call_with_retry` of common/retry.py does to the world of its callables.
use real_time_data_pipeline.Base.{ℕ, ◌+◌, ◌<◌, ◌≡◌, arith}
use real_time_data_pipeline.Base.Errors.{Exc}
use real_time_data_pipeline.Retry.Stats.{RetryStats}
use real_time_data_pipeline.Retry.Policy.{RetryConfig, delay_ms}
use real_time_data_pipeline.Retry.Call.Induction.{call_induction}
use real_time_data_pipeline.Retry.Call.{
  Callables, Ended, stop, again, budget, round, pause, call_with_retry,
}

-- Two counts of a world that go up together.
abbrev pub Together : {W : Type 0} → (W → ℕ) → (W → ℕ) → W → W → Type 0
Together a b w w' = a w' + b w ≡ a w + b w'

module _ {W A : Type 0} (c : Callables W A) (cfg : RetryConfig) (draws : ℕ → ℕ) (a b : W → ℕ)
    (fn_kept : (w : W) → Together a b w (c.fn w).1)
    (sleep_kept : (n : ℕ) (w : W) → Together a b w (c.sleep n w))
    (on_retry_kept : (k : ℕ) (e : Exc) (w : W) → Together a b w (c.on_retry k e w)) where
  abbrev EndKept : ℕ → RetryStats → W → Ended W A → Type 0
  EndKept attempt s w r = Together a b w r.world

  stop-Kept :
      (attempt : ℕ) (s : RetryStats) (w : W) (r : Ended W A)
      → attempt < budget cfg
      → round c cfg draws attempt s w ≡ stop r
      → EndKept attempt s w r
  unfolding round
  stop-Kept attempt s w r h e = ground (arith, fn_kept w)

  pause-Kept : (attempt : ℕ) (e : Exc) (w : W) → Together a b w (pause c cfg draws attempt e w)
  unfolding pause
  pause-Kept attempt e w = ground (
    arith,
    on_retry_kept (attempt + 1) e w,
    sleep_kept (delay_ms cfg (draws attempt) attempt) (c.on_retry (attempt + 1) e w),
  )

  again-Kept :
      (attempt : ℕ) (s : RetryStats) (w : W) (e : Exc) (s' : RetryStats) (w' : W) (r : Ended W A)
      → attempt + 1 < budget cfg
      → round c cfg draws attempt s w ≡ again e s' w'
      → EndKept (attempt + 1) s' w' r
      → EndKept attempt s w r
  unfolding round
  again-Kept attempt s w e s' w' r h eq k =
      ground (arith, fn_kept w, pause-Kept attempt e (c.fn w).1)

  -- If each of `fn`, `sleep` and `on_retry` moves two counts of the world by the same amount, so does
  -- the whole call, however it ends.
  pub call_with_retry-Together :
      (s : RetryStats) (w : W) → Together a b w (call_with_retry c cfg draws s w).world
  call_with_retry-Together = call_induction c cfg draws EndKept stop-Kept again-Kept
