-- ===== src/Bench/Sweep.antt =====
-- bench/throughput_sweep.py: the verdict on a step, the sweep over the rates, and the rate that it
-- reports. Times are milliseconds, percentages hundredths of a percent, ratios thousandths.
pub mod Verdict
pub mod Ending
use real_time_data_pipeline.Base.{
  ℕ, suc, ◌+◌, ◌*◌, ◌/◌, String, Bool, true, false, not, ◌&&◌, ◌||◌, Option, none, some, List, [],
  ◌∷◌, ◌++◌, leb, ltb, ◌==◌, if◌then◌else◌,
}
use real_time_data_pipeline.Base.Sorted.{sort_by}
use real_time_data_pipeline.Base.Errors.{Outcome, returned, raised, key_error}

-- What a step reads of the scenario's report; a missing or a null number is `none`. The growth run is 0
-- where it is missing; bench/run_scenario.py writes a number there in every report that has a lag, so
-- that the comparison with a null, which would raise, does not come up.
pub record ScenarioReport : Type 0 where
  pub attainment : Option ℕ
  pub growth_run : ℕ
  pub drained : Bool
  pub unaccounted : Option ℕ
  pub drain_ms : Option ℕ
  pub written : Option ℕ

-- `v or 0`
abbrev pub or_zero : Option ℕ → ℕ
or_zero none = 0
or_zero (some n) = n

pub record SweepConf : Type 0 where
  pub duration_ms : ℕ
  pub max_lag_growth_run : ℕ
  pub max_drain_ratio : ℕ
  pub stop_after_failures : ℕ

-- The reasons with the numbers that their texts tell.
pub data Reason : Type 0 where
  did_not_keep_pace : ℕ → ℕ → Reason
  attained_only : ℕ → Reason
  lag_grew : ℕ → Reason
  did_not_drain : Reason
  events_unaccounted : ℕ → Reason

-- `failed_because` is `none` where the step's dict has no such key.
pub record Step : Type 0 where
  pub rate : ℕ
  pub sustained : Bool
  pub failed_because : Option (List Reason)
  pub effective_rate : ℕ

-- `[r] if b else []`
abbrev pub given : Bool → Reason → List Reason
given true r = r ∷ []
given false r = []

abbrev pub has_none : List Reason → Bool
has_none [] = true
has_none (r ∷ rs) = false

module _ (conf : SweepConf) where
  -- `drain_s / duration > args.max_drain_ratio`
  abbrev pub is_slow : ℕ → Bool
  is_slow drain =
      if conf.duration_ms == 0
      then false
      else ltb (conf.max_drain_ratio * conf.duration_ms) (drain * 1000)

  unfoldable pub reasons_of : ScenarioReport → List Reason
  reasons_of report =
      let drain = or_zero report.drain_ms in
      given (is_slow drain) (did_not_keep_pace drain conf.duration_ms)
      ++ given (ltb (or_zero report.attainment) 9500) (attained_only (or_zero report.attainment))
      ++ given (ltb conf.max_lag_growth_run report.growth_run) (lag_grew report.growth_run)
      ++ given (not report.drained) did_not_drain
      ++ given (ltb 0 (or_zero report.unaccounted))
          (events_unaccounted (or_zero report.unaccounted))

  -- `none` stands for a report that is not there or is no JSON.
  unfoldable pub run_step : ℕ → Option ScenarioReport → Step
  unfolding reasons_of
  run_step rate none = record {
    rate = rate;
    sustained = false;
    failed_because = none;
    effective_rate = 0;
  }
  run_step rate (some report) =
      let reasons = reasons_of report in
      let window = conf.duration_ms + or_zero report.drain_ms in
      record {
        rate = rate;
        sustained = has_none reasons;
        failed_because = some reasons;
        effective_rate = if window == 0 then 0 else or_zero report.written * 1000 / window;
      }

  -- The line that tells a step's status.
  abbrev pub status : Step → Outcome (Unit {0})
  status step = if step.sustained then returned tt else elim step.failed_because [
    | none ↦ raised (key_error "failed_because")
    | some reasons ↦ returned tt
  ]

  abbrev pub push : Step → Outcome (List Step) → Outcome (List Step)
  push step (returned steps) = returned (step ∷ steps)
  push step (raised e) = raised e

  module _ {S : Type 0} (run_scenario : ℕ → ℕ → S → Option ScenarioReport × S)
      (settle : S → S) where
    abbrev settle_before : List ℕ → S → S
    settle_before [] s = s
    settle_before (rate ∷ rates) s = settle s

    -- What is left of the loop's body after the status, with the steps to come.
    abbrev proceed :
        Outcome (Unit {0}) → Bool → Step → S → Outcome (List Step) × S → Outcome (List Step) × S
    proceed (raised e) is_last step s rest = (raised e, s)
    proceed (returned _) true step s rest = (returned (step ∷ []), s)
    proceed (returned _) false step s rest = (push step rest.0, rest.1)

    -- The loop of `main` from step `i` on, with the failures in a row before it.
    unfoldable pub sweep : List ℕ → ℕ → ℕ → S → Outcome (List Step) × S
    unfolding run_step
    sweep [] i failures s = (returned [], s)
    sweep (rate ∷ rates) i failures s =
        let (report, s1) = run_scenario rate i s in
        let step = run_step rate report in
        let failures' = if step.sustained then 0 else failures + 1 in
        let rest = sweep rates (i + 1) failures' (settle_before rates s1) in
        proceed (status step) (leb conf.stop_after_failures failures') step s1 rest

-- Of the steps in the order of their rates, the last one before the first that failed.
unfoldable pub last_sustained : List Step → Option Step → Option Step
last_sustained [] best = best
last_sustained (step ∷ steps) best =
    let rest = last_sustained steps (some step) in if step.sustained then rest else best

unfoldable pub sustainable : List Step → Option Step
unfolding last_sustained sort_by
sustainable steps = last_sustained (sort_by Step.rate steps) none

unfoldable pub first_failing_rate : List Step → Option ℕ
first_failing_rate [] = none
first_failing_rate (step ∷ steps) =
    if step.sustained then first_failing_rate steps else some step.rate
