-- ===== src/Bench/Scenario/Report/Growth.antt =====
-- What `_longest_monotonic_run` of bench/run_scenario.py computes.
use real_time_data_pipeline.Base.{
  ℕ, ◌≡◌, refl, ◌+◌, ◌≤◌, max, not, List, [], ◌∷◌, arith, if◌then◌else◌,
}
use real_time_data_pipeline.Value.{ℤ}
use real_time_data_pipeline.Value.Int.{is_le}
use real_time_data_pipeline.Bench.Scenario.Report.{grow, longest_monotonic_run}

-- For how many steps a series rises from its first element on.
unfoldable pub first_rise : List ℤ → ℕ
unfolding is_le
first_rise [] = 0
first_rise (x ∷ []) = 0
first_rise (x ∷ y ∷ ys) = if not (is_le y x) then first_rise (y ∷ ys) + 1 else 0

-- The longest rise from any element of a series.
unfoldable pub longest_rise : List ℤ → ℕ
unfolding first_rise
longest_rise [] = 0
longest_rise (x ∷ xs) = max (first_rise (x ∷ xs)) (longest_rise xs)

grow_lem :
    (best run : ℕ) (x : ℤ) (xs : List ℤ)
    → run ≤ best
    → grow best run x xs ≡ max best (max (run + first_rise (x ∷ xs)) (longest_rise (x ∷ xs)))
unfolding longest_rise first_rise
grow_lem best run x [] h = omega (arith, h)
grow_lem best run x (y ∷ ys) h = ground (
  arith,
  h,
  grow_lem (max best (run + 1)) (run + 1) y ys (omega arith),
  grow_lem best 0 y ys (omega arith),
)

-- In one pass it finds the longest rise: over every element of the series, for how many steps the
-- series rises from there on, the most.
pub longest_monotonic_run_lem :
    (series : List ℤ) → longest_monotonic_run series ≡ longest_rise series
unfolding longest_monotonic_run longest_rise
longest_monotonic_run_lem [] = refl
longest_monotonic_run_lem (x ∷ xs) = omega (arith, grow_lem 0 0 x xs (omega arith))
