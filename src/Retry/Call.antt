-- ===== src/Retry/Call.antt =====
-- `call_with_retry` of common/retry.py. The callables `fn`, `sleep` and `on_retry` are functions on
-- a world of any type; what `random` draws before each wait is the argument `draws`.
mod Induction
pub mod Account
pub mod Script
pub mod Kept
mod Examples
use real_time_data_pipeline.Base.{
  ℕ, zero, suc, ◌+◌, ◌-◌, max, String, true, false, Option, none, some, List, [], ltb, ◌==◌,
  if◌then◌else◌,
}
use real_time_data_pipeline.Base.Errors.{Exc, Outcome, returned, raised, is_instance}
use real_time_data_pipeline.Retry.Stats.{RetryStats, record_reason}
use real_time_data_pipeline.Retry.Policy.{RetryConfig, delay_ms}

-- How a call ended: with a value, with `RetriesExhausted(attempts, last_error)`, or with an
-- exception that neither tuple of classes names.
pub data CallResult (A : Type 0) : Type 0 where
  value : A → CallResult A
  exhausted : ℕ → Exc → CallResult A
  propagated : Exc → CallResult A

-- The arguments of the call, but for the policy and the statistics.
pub record Callables (W A : Type 0) : Type 0 where
  pub fn : W → Outcome A × W
  pub sleep : ℕ → W → W
  pub on_retry : ℕ → Exc → W → W
  pub retry_on : List String
  pub give_up_on : List String

pub record Ended (W A : Type 0) : Type 0 where
  pub result : CallResult A
  pub stats : RetryStats
  pub world : W

-- How a round of the loop ends: the call is over, or the loop goes on after the error `e`.
pub data Round (W A : Type 0) : Type 0 where
  stop : Ended W A → Round W A
  again : Exc → RetryStats → W → Round W A

-- `break` or `return`, or the rest of the loop.
abbrev pub follow : {W A : Type 0} → Round W A → (Exc → RetryStats → W → Ended W A) → Ended W A
follow (stop r) rest = r
follow (again e s w) rest = rest e s w

abbrev assertion_error : Exc
assertion_error = record { name = "AssertionError"; bases = []; message = "" }

-- `max(1, policy.cfg.max_attempts)`
abbrev pub budget : RetryConfig → ℕ
budget cfg = max 1 cfg.max_attempts

module _ {W A : Type 0} (c : Callables W A) (cfg : RetryConfig) (draws : ℕ → ℕ) where
  -- the `else` of the `try`
  abbrev pub on_success : ℕ → RetryStats → A → W → Ended W A
  on_success attempt s a w = record {
    result = value a;
    stats = record s {
      successes = s.successes + 1;
      retries_before_success = s.retries_before_success + attempt;
    };
    world = w;
  }

  abbrev pub give_up : ℕ → RetryStats → Exc → W → Ended W A
  give_up attempts s e w = record {
    result = exhausted attempts e;
    stats = record s { failures_exhausted = s.failures_exhausted + 1 };
    world = w;
  }

  -- what stands behind the loop
  abbrev pub after_loop : Option Exc → RetryStats → W → Ended W A
  after_loop none s w = record {
    result = propagated assertion_error;
    stats = record s { failures_exhausted = s.failures_exhausted + 1 };
    world = w;
  }
  after_loop (some e) s w = give_up (budget cfg) s e w

  -- The wait after a failed attempt, in the statistics and in the world.
  unfoldable pub add_backoff : ℕ → RetryStats → RetryStats
  add_backoff attempt s = record s {
    total_backoff = s.total_backoff + delay_ms cfg (draws attempt) attempt;
  }

  unfoldable pub pause : ℕ → Exc → W → W
  pause attempt e w =
      let w' = c.on_retry (attempt + 1) e w in
      let wait = delay_ms cfg (draws attempt) attempt in if ltb 0 wait then c.sleep wait w' else w'

  -- One round of the loop: what follows a call of `fn` is the case split on its outcome, in the
  -- order of the `except`s. The `break` goes to what stands behind the loop.
  unfoldable pub round : ℕ → RetryStats → W → Round W A
  unfolding record_reason add_backoff pause
  round attempt s w =
      let (r, w') = c.fn w in
      let s' = record s { attempts = s.attempts + 1 } in
      elim r [
        | returned a ↦ stop (on_success attempt s' a w')
        | raised e ↦
            let s'' = record_reason e s' in
            if is_instance c.give_up_on e
            then stop (give_up (attempt + 1) s'' e w')
            else if is_instance c.retry_on e
            then (if attempt == (budget cfg - 1)
                then stop (after_loop (some e) s'' w')
                else again e (add_backoff attempt s'') (pause attempt e w'))
            else stop (record { result = propagated e; stats = s'; world = w' })
      ]

  -- `for attempt in range(max_attempts)`, from `attempt` on with `left` rounds to go.
  unfoldable pub attempt_loop : ℕ → ℕ → Option Exc → RetryStats → W → Ended W A
  attempt_loop zero attempt last s w = after_loop last s w
  attempt_loop (suc left) attempt last s w =
      follow (round attempt s w) (λ e s' w'. attempt_loop left (attempt + 1) (some e) s' w')

  unfoldable pub call_with_retry : RetryStats → W → Ended W A
  unfolding attempt_loop
  call_with_retry s w = attempt_loop (budget cfg) 0 none s w
