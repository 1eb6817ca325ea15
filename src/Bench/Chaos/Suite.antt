-- ===== src/Bench/Chaos/Suite.antt =====
-- The loops of bench/chaos_suite.py over the failure scenarios and over the two arms of the backoff
-- comparison. What a run's command line repeats of the configuration is an argument.
use Prim.Native.String.{◌++◌ as ◌++ₛ◌}
use real_time_data_pipeline.Base.{
  ℕ, zero, suc, ◌+◌, ◌*◌, String, Bool, Option, none, some, List, [], ◌∷◌, ◌++◌, ltb, if◌then◌else◌,
}
use real_time_data_pipeline.Base.Rounding.{round_div}
use real_time_data_pipeline.Base.Dict.{Dict}
use real_time_data_pipeline.Base.Errors.{Outcome, returned, raised, attribute_error}
use real_time_data_pipeline.Value.{ℤ, pos, negsuc, Value, str, obj, field, end, entries}
use real_time_data_pipeline.Value.Int.{diff, negated}
use real_time_data_pipeline.Bench.Act.{Act, pure, lift, ◌>>=◌}
use real_time_data_pipeline.Bench.Scenario.{Host}
use real_time_data_pipeline.Bench.Chaos.{
  extract, Agg, agg, readings, ScenarioFigures, scenario_figures, all_lossless,
}

pub record SuiteArgs : Type 0 where
  pub prefix : String
  pub repeats : ℕ
  pub settle : ℕ
  pub options : List String
  pub fault_at : String
  pub restart_after : String
  pub ab_fault : String

-- What stands for the report of a run that has left none behind.
abbrev pub unreadable : String → Value
unreadable run_id = obj (field "error" (str "no report") (field "run_id" (str run_id) end))

abbrev pub loaded : String → Option Value → Value
loaded run_id none = unreadable run_id
loaded run_id (some v) = v

abbrev pub and_then {ℓ κ} : {A : Type ℓ} {B : Type κ} → Option A → (A → Option B) → Option B
and_then none f = none
and_then (some a) f = f a

-- `report.get`, which only a dict has.
abbrev pub report_of : Value → Outcome (Dict Value)
report_of (obj fs) = returned (entries fs)
report_of v = raised (attribute_error "get")

-- `round(100 * d / m, 2)` in hundredths, of the exact quotient.
abbrev pub percent : ℤ → ℕ → ℤ
percent (pos d) m = pos (round_div (10000 * d) m)
percent (negsuc d) m = negated (pos (round_div (10000 * (d + 1)) m))

module _ {W : Type 0} (host : Host W) (args : SuiteArgs) where
  abbrev pub read_report : String → Act W Value
  read_report run_id w =
      let (text, w1) = host.read ("results/raw/" ++ₛ run_id ++ₛ "_scenario.json") w in
      (returned (loaded run_id (and_then text host.loads)), w1)

  unfoldable pub run_scenario : String → List String → Act W Value
  run_scenario run_id extra = do
    p ← host.run ("python" ∷ "bench/run_scenario.py" ∷ "--run-id" ∷ run_id ∷ args.options ++ extra)
    read_report run_id

  -- A run, with what is taken from its report, and the pause after it.
  unfoldable pub run_once : String → List String → Act W (Dict Value)
  unfolding run_scenario extract
  run_once run_id extra = do
    v ← run_scenario run_id extra
    report ← lift (report_of v)
    r ← lift (extract report)
    λ w. (returned r, host.sleep args.settle w)

  abbrev pub fault_options : String → List String
  fault_options fault =
      "--fault" ∷ fault ∷ "--fault-at" ∷ args.fault_at ∷ "--restart-after" ∷ args.restart_after ∷ []

  -- The runs of a failure scenario, from the `i`th on.
  unfoldable pub scenario_runs : String → ℕ → ℕ → Act W (List (Dict Value))
  unfolding run_once
  scenario_runs scenario zero i = pure []
  scenario_runs scenario (suc n) i = do
    r ←
        run_once (args.prefix ++ₛ "_" ++ₛ scenario ++ₛ "_" ++ₛ host.show i)
          ("--scenario" ∷ scenario ∷ fault_options scenario)
    rest ← scenario_runs scenario n (i + 1)
    pure (r ∷ rest)

  abbrev pub arm_options : String → String → List String
  arm_options arm backoff =
      "--scenario" ∷ ("backoff_ab_" ++ₛ arm) ∷ fault_options args.ab_fault
      ++ "--backoff" ∷ backoff ∷ []

  abbrev pub arm_id : String → ℕ → String
  arm_id arm i = args.prefix ++ₛ "_ab_" ++ₛ arm ++ₛ "_" ++ₛ host.show i

  -- The runs of the two arms, by turns.
  unfoldable pub arm_runs : ℕ → ℕ → Act W (List (Dict Value) × List (Dict Value))
  unfolding run_once
  arm_runs zero i = pure ([], [])
  arm_runs (suc n) i = do
    a ← run_once (arm_id "with_backoff" i) (arm_options "with_backoff" "1000,2000,4000")
    b ← run_once (arm_id "no_backoff" i) (arm_options "no_backoff" "")
    rest ← arm_runs n (i + 1)
    pure (a ∷ rest.0, b ∷ rest.1)

  module _ (loads_number : Value → Option ℕ) where
    -- The failure scenarios, with the figures on each.
    unfoldable pub scenarios : List String → Act W (List (String × ScenarioFigures loads_number))
    unfolding scenario_runs scenario_figures
    scenarios [] = pure []
    scenarios (scenario ∷ rest) = do
      runs ← scenario_runs scenario args.repeats 1
      more ← scenarios rest
      pure ((scenario, scenario_figures loads_number runs) ∷ more)

    -- The mean of no_backoff less that of with_backoff, in hundredths of a percent of the former.
    abbrev pub reduction : Option Agg → Option Agg → Option ℤ
    reduction none nb = none
    reduction (some wb) none = none
    reduction (some wb) (some nb) =
        if ltb 0 nb.mean then some (percent (diff nb.mean wb.mean) nb.mean) else none

    pub record Comparison : Type 0 where
      pub with_backoff : List (Dict Value)
      pub no_backoff : List (Dict Value)
      pub quarantine_reduction_pct : Option ℤ
      pub silent_loss_zero_in_both_arms : Bool

    unfoldable pub compare_arms : Act W Comparison
    unfolding arm_runs agg
    compare_arms = do
      arms ← arm_runs args.repeats 1
      pure (record {
        with_backoff = arms.0;
        no_backoff = arms.1;
        quarantine_reduction_pct =
            reduction (agg (readings loads_number "quarantined" arms.0))
              (agg (readings loads_number "quarantined" arms.1));
        silent_loss_zero_in_both_arms =
            all_lossless loads_number (readings loads_number "silent_loss" (arms.0 ++ arms.1));
      })
