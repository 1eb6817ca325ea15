-- ===== src/Bench/Examples.antt =====
-- Reports of the measuring tools on small runs.
use real_time_data_pipeline.Base.{
  ℕ, if◌then◌else◌, Bool, ◌≡◌, ◌+◌, ltb, refl, true, false, Option, none, some, List, [], ◌∷◌,
}
use real_time_data_pipeline.Base.Errors.{returned}
use real_time_data_pipeline.Bench.Latency.{LatencyReport, build_report}
use real_time_data_pipeline.Bench.Latency.Percentile.{IsConsistent, build_report-IsConsistent}
use real_time_data_pipeline.Bench.Skew.{murmur2}
use real_time_data_pipeline.Bench.Sweep.{ScenarioReport, SweepConf, Step, sweep, sustainable}
use real_time_data_pipeline.Bench.Sweep.Verdict.{IsGreatest, sustainable-IsGreatest}
use real_time_data_pipeline.Bench.Sweep.Ending.{IsOver, sweep-IsOver}

build_report-IsConsistent_example :
    (r : LatencyReport) × (build_report (40 ∷ 900 ∷ 15 ∷ 1200 ∷ []) ≡ some r) × IsConsistent 4 r
build_report-IsConsistent_example = build_report-IsConsistent 40 (900 ∷ 15 ∷ 1200 ∷ [])

-- The hash of the text 21 that Kafka's own tests expect, -973932308.
murmur2_21 : murmur2 (50 ∷ 49 ∷ []) ≡ 3321034988
unfolding murmur2
murmur2_21 = refl

abbrev keys : List (List ℕ)
keys = (110 ∷ 121 ∷ 99 ∷ []) ∷ (98 ∷ 111 ∷ 115 ∷ []) ∷ (110 ∷ 121 ∷ 99 ∷ []) ∷ []

abbrev step : ℕ → Bool → Step
step r b = record { rate = r; sustained = b; failed_because = some []; effective_rate = r }

sustainable-IsGreatest_example :
    let steps = step 1000 true ∷ step 500 true ∷ step 2000 false ∷ [] in
    IsGreatest steps (some (step 1000 true))
unfolding sustainable
sustainable-IsGreatest_example =
    sustainable-IsGreatest (step 1000 true ∷ step 500 true ∷ step 2000 false ∷ [])

abbrev sweep_conf : SweepConf
sweep_conf = record {
  duration_ms = 120000;
  max_lag_growth_run = 5;
  max_drain_ratio = 250;
  stop_after_failures = 1;
}

-- Up to 1000 events a second are drained at once, and more than that never.
abbrev scenario : ℕ → ScenarioReport
scenario rate = record {
  attainment = some 10000;
  growth_run = 2;
  drained = ltb rate 1001;
  unaccounted = some 0;
  drain_ms = some 8000;
  written = some 60000;
}

abbrev run_scenario : ℕ → ℕ → ℕ → Option ScenarioReport × ℕ
run_scenario rate i n = (some (scenario rate), n + 1)

sweep-IsOver_example :
    (steps : List Step) × ((sweep sweep_conf run_scenario
        (λ n. n)
        (500 ∷ 1000 ∷ 2000 ∷ 4000 ∷ [])
        1
        0
        0).0
      ≡ returned steps)
    × IsOver 1 0 (500 ∷ 1000 ∷ 2000 ∷ 4000 ∷ []) steps
sweep-IsOver_example =
    sweep-IsOver sweep_conf run_scenario (λ n. n) (500 ∷ 1000 ∷ 2000 ∷ 4000 ∷ []) 1 0 0
      (λ rate i s. (scenario rate, refl))

-- The third run leaves no report behind.
abbrev run_twice : ℕ → ℕ → ℕ → Option ScenarioReport × ℕ
run_twice rate i n = (if ltb i 3 then some (scenario rate) else none, n + 1)
