-- ===== src/Bench/Chaos/Arms.antt =====
-- The comparison of the two arms in bench/chaos_suite.py.
use real_time_data_pipeline.Base.{ℕ, zero, suc, ◌+◌, ◌≡◌, refl, ap, Option, List, ◌∷◌, ◌++◌, length}
use real_time_data_pipeline.Base.Dict.{Dict}
use real_time_data_pipeline.Value.{Value}
use real_time_data_pipeline.Bench.Act.{pure}
use real_time_data_pipeline.Bench.Act.Sound.{Returns, after-Returns, Returns-any}
use real_time_data_pipeline.Bench.Scenario.{Host}
use real_time_data_pipeline.Bench.Chaos.{agg, readings}
use real_time_data_pipeline.Bench.Chaos.Figures.{is_lossless_at_most, all_lossless-agg}
use real_time_data_pipeline.Bench.Chaos.Suite.{
  SuiteArgs, run_once, arm_id, arm_options, arm_runs, Comparison, compare_arms,
}

module _ {W : Type 0} (host : Host W) (args : SuiteArgs) where
  -- Two arms of so many runs each.
  abbrev HasRuns : ℕ → List (Dict Value) × List (Dict Value) → Type 0
  HasRuns n arms = (length arms.0 ≡ n) × (length arms.1 ≡ n)

  arm_runs-HasRuns : (n i : ℕ) (w : W) → Returns (HasRuns n) (arm_runs host args n i w).0
  unfolding arm_runs
  arm_runs-HasRuns zero i w = (refl, refl)
  arm_runs-HasRuns (suc n) i w =
      let Any : Dict Value → Type 0 = λ _. Unit {0} in
      let first =
        run_once host args (arm_id host args "with_backoff" i)
          (arm_options host args "with_backoff" "1000,2000,4000") in
      let second =
        run_once host args (arm_id host args "no_backoff" i)
          (arm_options host args "no_backoff" "") in
      after-Returns Any (HasRuns (suc n)) (first w) _ (Returns-any (first w).0) (λ a w1 _.
        after-Returns Any (HasRuns (suc n)) (second w1) _ (Returns-any (second w1).0) (λ b w2 _.
          after-Returns (HasRuns n) (HasRuns (suc n)) (arm_runs host args n (i + 1) w2)
            (λ rest. pure (a ∷ rest.0, b ∷ rest.1)) (arm_runs-HasRuns n (i + 1) w2)
            (λ rest w3 h. (ap suc h.0, ap suc h.1))))

  module _ (loads_number : Value → Option ℕ) where
    -- A comparison over so many runs of each arm, whose verdict is that of the greatest loss.
    abbrev pub IsFair : ℕ → Comparison host args loads_number → Type 0
    IsFair n c =
        (length c.with_backoff ≡ n)
        × (length c.no_backoff ≡ n)
        × (c.silent_loss_zero_in_both_arms
            ≡ is_lossless_at_most
                (agg (readings loads_number "silent_loss" (c.with_backoff ++ c.no_backoff))))

    pub compare_arms-IsFair :
        (w : W) → Returns (IsFair args.repeats) (compare_arms host args loads_number w).0
    unfolding compare_arms
    compare_arms-IsFair w =
        after-Returns (HasRuns args.repeats) (IsFair args.repeats)
          (arm_runs host args args.repeats 1 w) _ (arm_runs-HasRuns args.repeats 1 w)
          (λ arms w1 h. (
            h.0,
            h.1,
            all_lossless-agg loads_number (readings loads_number "silent_loss" (arms.0 ++ arms.1)),
          ))
