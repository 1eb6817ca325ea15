-- ===== src/Retry/Call/Induction.antt =====
-- One induction rule for the loop of `call_with_retry` (common/retry.py).
use mathlib.Core.Path.{subst}
use real_time_data_pipeline.Base.{
  ℕ, zero, suc, ◌+◌, ◌-◌, ◌<◌, ◌≡◌, ◌≢◌, refl, sym, Option, none, some, arith,
}
use real_time_data_pipeline.Base.Errors.{Exc}
use real_time_data_pipeline.Retry.Stats.{RetryStats}
use real_time_data_pipeline.Retry.Policy.{RetryConfig}
use real_time_data_pipeline.Retry.Call.{
  Callables, Ended, Round, stop, again, budget, follow, round, attempt_loop, call_with_retry,
}

module _ {W A : Type 0} (c : Callables W A) (cfg : RetryConfig) (draws : ℕ → ℕ) where
  -- The last round never asks for another.
  pub again-lt-budget :
      (attempt : ℕ) (s : RetryStats) (w : W) {e : Exc} {s' : RetryStats} {w' : W}
      → round c cfg draws attempt s w ≡ again e s' w'
      → attempt ≢ budget cfg - 1
  unfolding round
  again-lt-budget attempt s w h = ground arith

module _ {W A : Type 0} (c : Callables W A) (cfg : RetryConfig) (draws : ℕ → ℕ)
    (P : ℕ → RetryStats → W → Ended W A → Type 0)
    (at_stop : (attempt : ℕ) (s : RetryStats) (w : W) (r : Ended W A)
      → attempt < budget cfg
      → round c cfg draws attempt s w ≡ stop r
      → P attempt s w r)
    (at_again : (attempt : ℕ) (s : RetryStats) (w : W) (e : Exc) (s' : RetryStats) (w' : W)
        (r : Ended W A)
      → attempt + 1 < budget cfg
      → round c cfg draws attempt s w ≡ again e s' w'
      → P (attempt + 1) s' w' r
      → P attempt s w r) where
  finish :
      (attempt : ℕ) (s : RetryStats) (w : W) (x : Round W A)
      → (rest : Exc → RetryStats → W → Ended W A) → attempt < budget cfg
      → round c cfg draws attempt s w ≡ x
      → ((e : Exc) (s' : RetryStats) (w' : W)
          → round c cfg draws attempt s w ≡ again e s' w'
          → (attempt + 1 < budget cfg) × P (attempt + 1) s' w' (rest e s' w'))
      → P attempt s w (follow x rest)
  finish attempt s w (stop r) rest h eq ih = at_stop attempt s w r h eq
  finish attempt s w (again e s' w') rest h eq ih =
      at_again attempt s w e s' w' (rest e s' w') (ih e s' w' eq).0 eq (ih e s' w' eq).1

  loop_induction :
      (left attempt : ℕ) (last : Option Exc) (s : RetryStats) (w : W)
      → attempt + suc left ≡ budget cfg
      → P attempt s w (attempt_loop c cfg draws (suc left) attempt last s w)
  unfolding attempt_loop
  loop_induction zero attempt last s w h =
      finish attempt s w (round c cfg draws attempt s w) _ (omega arith) refl
        (λ e s' w' eq. absurd (again-lt-budget c cfg draws attempt s w eq (omega arith)))
  loop_induction (suc left) attempt last s w h =
      finish attempt s w (round c cfg draws attempt s w) _ (omega arith) refl (λ e s' w' eq.
        (omega arith, loop_induction left (attempt + 1) (some e) s' w' (omega arith)))

  -- From a rule for a round that ends the call and a rule for one that goes on.
  pub call_induction : (s : RetryStats) (w : W) → P 0 s w (call_with_retry c cfg draws s w)
  unfolding call_with_retry
  call_induction s w =
      let e : budget cfg ≡ suc (budget cfg - 1) = omega arith in
      subst (λ n. P 0 s w (attempt_loop c cfg draws n 0 none s w)) (sym e)
        (loop_induction (budget cfg - 1) 0 none s w (omega arith))
