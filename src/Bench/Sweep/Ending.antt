-- ===== src/Bench/Sweep/Ending.antt =====
-- How the sweep of bench/throughput_sweep.py ends: with its rates, at its failures, or with a `KeyError`.
use real_time_data_pipeline.Base.{
  ℕ, suc, ◌≡◌, refl, ap, ◌+◌, ◌≤◌, ◌<◌, ◌⊎◌, inl, inr, Option, none, some, List, [], ◌∷◌, length,
  arith, leb, if◌then◌else◌, Bool-cases,
}
use real_time_data_pipeline.Base.Errors.{returned}
use real_time_data_pipeline.Bench.Sweep.{
  ScenarioReport, SweepConf, Step, run_step, sweep, status, settle_before,
}

-- The steps are of the first rates, in order.
abbrev IsOf : List Step → List ℕ → Type 0
IsOf [] rates = Unit
IsOf (step ∷ steps) [] = ⊥
IsOf (step ∷ steps) (rate ∷ rates) = (step.rate ≡ rate) × IsOf steps rates

-- How many steps have failed in a row at the end, after `n` that did before.
abbrev failures_after : ℕ → List Step → ℕ
failures_after n [] = n
failures_after n (step ∷ steps) = failures_after (if step.sustained then 0 else n + 1) steps

-- A sweep goes on after a step only with fewer failures in a row than it allows.
abbrev GoesOn : ℕ → ℕ → List Step → Type 0
GoesOn limit n [] = Unit
GoesOn limit n (step ∷ []) = Unit
GoesOn limit n (step ∷ next ∷ steps) =
    ((if step.sustained then 0 else n + 1) < limit)
    × GoesOn limit (if step.sustained then 0 else n + 1) (next ∷ steps)

-- A sweep that is over: it has gone on to its last step, and there it has tried all rates, or has as
-- many failures in a row as it allows.
abbrev pub IsOver : ℕ → ℕ → List ℕ → List Step → Type 0
IsOver limit n rates steps =
    IsOf steps rates
    × GoesOn limit n steps
    × ((length steps ≡ length rates) ⊎ (limit ≤ failures_after n steps))

module _ (conf : SweepConf) {S : Type 0} (run_scenario : ℕ → ℕ → S → Option ScenarioReport × S)
    (settle : S → S) where
  -- Every run leaves a report behind.
  abbrev pub Reports : Type 0
  Reports =
      (rate i : ℕ) (s : S) → (report : ScenarioReport) × ((run_scenario rate i s).0 ≡ some report)

  rate-run_step :
      (rate : ℕ) (report : Option ScenarioReport) → (run_step conf rate report).rate ≡ rate
  unfolding run_step
  rate-run_step rate none = refl
  rate-run_step rate (some report) = refl

  status_returned :
      (rate : ℕ) (report : ScenarioReport)
      → status conf (run_step conf rate (some report)) ≡ returned tt
  unfolding run_step
  status_returned rate report = ground arith

  suc_or {ℓ} : {L : Type ℓ} {a b : ℕ} → (a ≡ b) ⊎ L → (suc a ≡ suc b) ⊎ L
  suc_or (inl e) = inl (ap suc e)
  suc_or (inr h) = inr h

  go_on :
      (limit n : ℕ) (step : Step) (steps : List Step)
      → (if step.sustained then 0 else n + 1) < limit
      → GoesOn limit (if step.sustained then 0 else n + 1) steps
      → GoesOn limit n (step ∷ steps)
  go_on limit n step [] lt h = tt
  go_on limit n step (next ∷ steps) lt h = (lt, h)

  -- Where every run leaves a report behind, the sweep returns the steps of the first rates, in order. It
  -- goes on after a step exactly as long as rates are left and fewer steps have failed in a row than it
  -- allows.
  pub sweep-IsOver :
      (rates : List ℕ) (i n : ℕ) (s : S)
      → Reports
      → (steps : List Step) × ((sweep conf run_scenario settle rates i n s).0 ≡ returned steps)
        × IsOver conf.stop_after_failures n rates steps
  unfolding sweep
  sweep-IsOver [] i n s h = ([], refl, (tt, tt, inl refl))
  sweep-IsOver (rate ∷ rates) i n s h =
      let (report, e) = h rate i s in
      let step = run_step conf rate (some report) in
      let n' = if step.sustained then 0 else n + 1 in
      let s1 = settle_before conf run_scenario settle rates (run_scenario rate i s).1 in
      let (steps, f, k) = sweep-IsOver rates (i + 1) n' s1 h in
      let same = rate-run_step rate (some report) in
      rw (e, status_returned rate report)
        (elim (Bool-cases (leb conf.stop_after_failures n')) [
          | inl d ↦ rw d (step ∷ [], refl, ((same, tt), tt, inr (ground (arith, d))))
          | inr d ↦
              rw (d, f)
                (
                  step ∷ steps,
                  refl,
                  (
                    (same, k.0),
                    go_on conf.stop_after_failures n step steps (ground (arith, d)) k.1,
                    suc_or k.2,
                  ),
                )
        ])

  -- The failures in a row after a run of the rate with the report.
  abbrev then_failures : ℕ → ScenarioReport → ℕ → ℕ
  then_failures rate report n = if (run_step conf rate (some report)).sustained then 0 else n + 1

  -- The runs of some rates leave a report each, and the sweep goes on after them, to a run of `rate`
  -- that leaves none.
  abbrev pub BreaksAt : List ℕ → ℕ → ℕ → ℕ → S → Type 0
  BreaksAt [] rate i n s = (run_scenario rate i s).0 ≡ none
  BreaksAt (r ∷ rs) rate i n s =
      (report : ScenarioReport) × ((run_scenario r i s).0 ≡ some report)
      × (then_failures r report n < conf.stop_after_failures)
      × BreaksAt rs rate (i + 1) (then_failures r report n) (settle (run_scenario r i s).1)

  -- The world after these runs.
  abbrev pub after_runs : List ℕ → ℕ → ℕ → S → S
  after_runs [] rate i s = (run_scenario rate i s).1
  after_runs (r ∷ rs) rate i s = after_runs rs rate (i + 1) (settle (run_scenario r i s).1)
