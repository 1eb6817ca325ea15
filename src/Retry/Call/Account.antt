-- ===== src/Retry/Call/Account.antt =====
-- What `call_with_retry` (common/retry.py) counts.
use real_time_data_pipeline.Base.{ℕ, ◌+◌, ◌-◌, ◌≤◌, ◌<◌, ◌≡◌, refl, arith}
use real_time_data_pipeline.Base.Dict.{total, total-bump}
use real_time_data_pipeline.Base.Errors.{Exc}
use real_time_data_pipeline.Retry.Stats.{RetryStats, IsBalanced}
use real_time_data_pipeline.Retry.Policy.{RetryConfig}
use real_time_data_pipeline.Retry.Call.Induction.{call_induction}
use real_time_data_pipeline.Retry.Call.{
  CallResult, value, exhausted, propagated, Callables, Ended, stop, again, budget, round,
  call_with_retry,
}

-- The world of an instrumented call: how often `fn` ran, the waits it slept, and the inner world.
pub record Traced (W : Type 0) : Type 0 where
  pub calls : ℕ
  pub slept : ℕ
  pub waits : ℕ
  pub inner : W

abbrev pub instrument : {W A : Type 0} → Callables W A → Callables (Traced W) A
instrument c = record {
  fn = λ t. let (r, w) = c.fn t.inner in (r, record t { calls = t.calls + 1; inner = w });
  sleep = λ n t. record t { slept = t.slept + n; waits = t.waits + 1; inner = c.sleep n t.inner };
  on_retry = λ k e t. record t { inner = c.on_retry k e t.inner };
  retry_on = c.retry_on;
  give_up_on = c.give_up_on;
}

-- The counters of a call that has run `fn` for the `n`th time when it ended.
abbrev pub Counts : {A : Type 0} → ℕ → RetryStats → RetryStats → CallResult A → Type 0
Counts n s t (value _) =
    (t.successes ≡ s.successes + 1)
    × (t.retries_before_success + 1 ≡ s.retries_before_success + n)
    × (t.failures_exhausted ≡ s.failures_exhausted)
Counts n s t (exhausted k _) =
    (t.successes ≡ s.successes)
    × (t.retries_before_success ≡ s.retries_before_success)
    × (t.failures_exhausted ≡ s.failures_exhausted + 1)
    × (k ≡ n)
Counts n s t (propagated _) =
    (t.successes ≡ s.successes)
    × (t.retries_before_success ≡ s.retries_before_success)
    × (t.failures_exhausted ≡ s.failures_exhausted)

Counts-shift :
    {A : Type 0} (m n : ℕ) (s s' t : RetryStats) (r : CallResult A)
    → m ≡ n
    → s'.successes ≡ s.successes
    → s'.retries_before_success ≡ s.retries_before_success
    → s'.failures_exhausted ≡ s.failures_exhausted
    → Counts m s' t r
    → Counts n s t r
Counts-shift m n s s' t (value a) e p q u k = omega arith
Counts-shift m n s s' t (exhausted i x) e p q u k = omega arith
Counts-shift m n s s' t (propagated x) e p q u k = omega arith

-- What an instrumented call has done, from the attempt numbered `attempt` on.
abbrev Counted : {W A : Type 0} → ℕ → ℕ → RetryStats → Traced W → Ended (Traced W) A → Type 0
Counted limit attempt s w r =
    (w.calls + 1 ≤ r.world.calls)
    × (attempt + r.world.calls ≤ limit + w.calls)
    × (r.stats.attempts + w.calls ≡ s.attempts + r.world.calls)
    × Counts (attempt + r.world.calls - w.calls) s r.stats r.result

-- The backoff that was counted is the time slept, and each wait is followed by a call.
abbrev Waited : {W A : Type 0} → ℕ → RetryStats → Traced W → Ended (Traced W) A → Type 0
Waited attempt s w r =
    (r.stats.total_backoff + w.slept ≡ s.total_backoff + r.world.slept)
    × (r.world.waits + w.calls + 1 ≤ w.waits + r.world.calls)

module _ {W A : Type 0} (c : Callables W A) (cfg : RetryConfig) (draws : ℕ → ℕ) where
  stop-Counted :
      (attempt : ℕ) (s : RetryStats) (w : Traced W) (r : Ended (Traced W) A)
      → attempt < budget cfg
      → round (instrument c) cfg draws attempt s w ≡ stop r
      → Counted (budget cfg) attempt s w r
  unfolding round
  stop-Counted attempt s w r h e = ground arith

  again-step :
      (attempt : ℕ) (s : RetryStats) (w : Traced W) (e : Exc) (s' : RetryStats) (w' : Traced W)
      → round (instrument c) cfg draws attempt s w ≡ again e s' w'
      → (w'.calls ≡ w.calls + 1)
        × (s'.attempts ≡ s.attempts + 1)
        × (s'.successes ≡ s.successes)
        × (s'.retries_before_success ≡ s.retries_before_success)
        × (s'.failures_exhausted ≡ s.failures_exhausted)
        × (s'.total_backoff + w.slept ≡ s.total_backoff + w'.slept)
        × (w'.waits ≤ w.waits + 1)
  unfolding round
  again-step attempt s w e s' w' h = ground arith

  again-Counted :
      (attempt : ℕ) (s : RetryStats) (w : Traced W) (e : Exc) (s' : RetryStats) (w' : Traced W)
      → (r : Ended (Traced W) A) → attempt + 1 < budget cfg
      → round (instrument c) cfg draws attempt s w ≡ again e s' w'
      → Counted (budget cfg) (attempt + 1) s' w' r
      → Counted (budget cfg) attempt s w r
  again-Counted attempt s w e s' w' r h eq k =
      let b = again-step attempt s w e s' w' eq in
      (
        omega arith,
        omega arith,
        omega arith,
        Counts-shift _ _ s s' r.stats r.result (omega arith) b.2 b.3 b.4 k.3,
      )

  call-Counted :
      (s : RetryStats) (w : Traced W)
      → Counted (budget cfg) 0 s w (call_with_retry (instrument c) cfg draws s w)
  call-Counted =
      call_induction (instrument c) cfg draws (Counted (budget cfg)) stop-Counted again-Counted

  stop-Waited :
      (attempt : ℕ) (s : RetryStats) (w : Traced W) (r : Ended (Traced W) A)
      → attempt < budget cfg
      → round (instrument c) cfg draws attempt s w ≡ stop r
      → Waited attempt s w r
  unfolding round
  stop-Waited attempt s w r h e = ground arith

  again-Waited :
      (attempt : ℕ) (s : RetryStats) (w : Traced W) (e : Exc) (s' : RetryStats) (w' : Traced W)
      → (r : Ended (Traced W) A) → attempt + 1 < budget cfg
      → round (instrument c) cfg draws attempt s w ≡ again e s' w'
      → Waited (attempt + 1) s' w' r
      → Waited attempt s w r
  again-Waited attempt s w e s' w' r h eq k = omega (arith, again-step attempt s w e s' w' eq)

  -- A call runs `fn` at least once and at most `max(1, max_attempts)` times, and every run is
  -- counted as one attempt. If it returns, one success is counted, with the runs but one as
  -- retries. If it raises RetriesExhausted, the exception carries the number of runs, one
  -- exhausted failure is counted, and no success. If another exception escapes, neither is counted.
  pub call_with_retry-Counts :
      (s : RetryStats) (w : Traced W)
      → let r = call_with_retry (instrument c) cfg draws s w in
        (w.calls + 1 ≤ r.world.calls)
        × (r.world.calls ≤ w.calls + budget cfg)
        × (r.stats.attempts + w.calls ≡ s.attempts + r.world.calls)
        × Counts (r.world.calls - w.calls) s r.stats r.result
  call_with_retry-Counts s w =
      let r = call_with_retry (instrument c) cfg draws s w in
      let k = call-Counted s w in
      (
        k.0,
        omega arith,
        k.2,
        Counts-shift _ (r.world.calls - w.calls) s s r.stats r.result (omega arith) refl refl refl
            k.3,
      )

  -- The backoff that is counted is exactly the time that was slept, and there are fewer waits than
  -- runs of `fn`: no wait follows the last run.
  pub call_with_retry-waits :
      (s : RetryStats) (w : Traced W)
      → let r = call_with_retry (instrument c) cfg draws s w in
        (r.stats.total_backoff + w.slept ≡ s.total_backoff + r.world.slept)
        × (r.world.waits + w.calls + 1 ≤ w.waits + r.world.calls)
  call_with_retry-waits = call_induction (instrument c) cfg draws Waited stop-Waited again-Waited

-- The account of attempts at the end of a call. The attempt from which another exception escapes
-- is the only one that is left without a reason.
abbrev pub Settled : {A : Type 0} → CallResult A → RetryStats → Type 0
Settled (value _) t = IsBalanced t
Settled (exhausted _ _) t = IsBalanced t
Settled (propagated _) t = t.attempts ≡ t.successes + total t.failure_reasons + 1

abbrev BalancedEnd : {W A : Type 0} → ℕ → RetryStats → W → Ended W A → Type 0
BalancedEnd attempt s w r = IsBalanced s → Settled r.result r.stats

module _ {W A : Type 0} (c : Callables W A) (cfg : RetryConfig) (draws : ℕ → ℕ) where
  stop-Balanced :
      (attempt : ℕ) (s : RetryStats) (w : W) (r : Ended W A)
      → attempt < budget cfg
      → round c cfg draws attempt s w ≡ stop r
      → BalancedEnd attempt s w r
  unfolding round
  stop-Balanced attempt s w r h e b = grind (arith, total-bump)

  again-Balanced :
      (attempt : ℕ) (s : RetryStats) (w : W) (e : Exc) (s' : RetryStats) (w' : W) (r : Ended W A)
      → attempt + 1 < budget cfg
      → round c cfg draws attempt s w ≡ again e s' w'
      → BalancedEnd (attempt + 1) s' w' r
      → BalancedEnd attempt s w r
  unfolding round
  again-Balanced attempt s w e s' w' r h eq k b =
      k (ground (arith, total-bump e.name 1 s.failure_reasons))

  -- From statistics in which every attempt is a success or has its reason counted, a call that
  -- returns or raises RetriesExhausted leads to such statistics again. If another exception
  -- escapes, exactly one attempt is left without a reason.
  pub call_with_retry-IsBalanced :
      (s : RetryStats) (w : W)
      → IsBalanced s
      → let r = call_with_retry c cfg draws s w in Settled r.result r.stats
  call_with_retry-IsBalanced = call_induction c cfg draws BalancedEnd stop-Balanced again-Balanced

-- The counters that tell how a call ended, whatever the callables do.
abbrev pub EndCounts : {A : Type 0} → RetryStats → CallResult A → RetryStats → Type 0
EndCounts s (value _) t =
    (t.successes ≡ s.successes + 1) × (t.failures_exhausted ≡ s.failures_exhausted)
EndCounts s (exhausted _ _) t =
    (t.successes ≡ s.successes)
    × (t.failures_exhausted ≡ s.failures_exhausted + 1)
    × (t.retries_before_success ≡ s.retries_before_success)
EndCounts s (propagated _) t = t.successes ≡ s.successes

abbrev EndsFrom : {W A : Type 0} → ℕ → RetryStats → W → Ended W A → Type 0
EndsFrom attempt s w r = EndCounts s r.result r.stats

EndCounts-shift :
    {A : Type 0} (s s' t : RetryStats) (r : CallResult A)
    → s'.successes ≡ s.successes
    → s'.failures_exhausted ≡ s.failures_exhausted
    → s'.retries_before_success ≡ s.retries_before_success
    → EndCounts s' r t
    → EndCounts s r t
EndCounts-shift s s' t (value _) p q u k = omega arith
EndCounts-shift s s' t (exhausted _ _) p q u k = omega arith
EndCounts-shift s s' t (propagated _) p q u k = omega arith

module _ {W A : Type 0} (c : Callables W A) (cfg : RetryConfig) (draws : ℕ → ℕ) where
  stop-Ends :
      (attempt : ℕ) (s : RetryStats) (w : W) (r : Ended W A)
      → attempt < budget cfg
      → round c cfg draws attempt s w ≡ stop r
      → EndsFrom attempt s w r
  unfolding round
  stop-Ends attempt s w r h e = ground arith

  again-same :
      (attempt : ℕ) (s : RetryStats) (w : W) (e : Exc) (s' : RetryStats) (w' : W)
      → round c cfg draws attempt s w ≡ again e s' w'
      → (s'.successes ≡ s.successes)
        × (s'.failures_exhausted ≡ s.failures_exhausted)
        × (s'.retries_before_success ≡ s.retries_before_success)
  unfolding round
  again-same attempt s w e s' w' h = ground arith

  pub call_with_retry-EndCounts :
      (s : RetryStats) (w : W)
      → let r = call_with_retry c cfg draws s w in EndCounts s r.result r.stats
  call_with_retry-EndCounts =
      call_induction c cfg draws EndsFrom stop-Ends (λ attempt s w e s' w' r h eq k.
        let b = again-same attempt s w e s' w' eq in
        EndCounts-shift s s' r.stats r.result b.0 b.1 b.2 k)
