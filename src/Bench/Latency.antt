-- ===== src/Bench/Latency.antt =====
-- bench/latency_report.py. A percentage is in tenths of a percent, and a percentile in thousandths of
-- a millisecond, which is exact; no `round` is applied to it.
pub mod Percentile
use real_time_data_pipeline.Base.{
  ℕ, ◌+◌, ◌-◌, ◌*◌, ◌/◌, ◌%◌, String, Bool, true, false, Option, none, some, List, [], ◌∷◌, length,
  get_or, keep, sum, concat, map, ltb, ◌==◌, if◌then◌else◌,
}
use real_time_data_pipeline.Base.Sorted.{sort_by}
use text.Mathlib.Text.{◌==◌ as str_eq}

-- `math.ceil(k)`, for `k` in thousandths.
abbrev pub ceil : ℕ → ℕ
ceil k = (k + 999) / 1000

-- The values at `lo` and at `hi` with `k - lo` between them; `k` is in thousandths.
unfoldable pub interpolate : List ℕ → ℕ → ℕ
interpolate vals k =
    let lo = k / 1000 in
    let hi = ceil k in
    if lo == hi
    then get_or vals lo 0 * 1000
    else get_or vals lo 0 * 1000 + (get_or vals hi 0 - get_or vals lo 0) * (k % 1000)

-- `nan` is `none`.
unfoldable pub percentile : List ℕ → ℕ → Option ℕ
unfolding interpolate
percentile [] p = none
percentile (x ∷ []) p = some (x * 1000)
percentile (x ∷ y ∷ ys) p = some (interpolate (x ∷ y ∷ ys) ((length (y ∷ ys)) * p))

-- A partition of `latency_samples` and the latencies of its rows.
pub record Bucket : Type 0 where
  pub run_id : String
  pub minute : ℕ
  pub latencies : List (Option ℕ)

abbrev pub present : List (Option ℕ) → List ℕ
present [] = []
present (none ∷ rows) = present rows
present (some n ∷ rows) = n ∷ present rows

-- The samples of a run, minute by minute. A latency is no negative number here.
unfoldable pub fetch : String → List Bucket → List ℕ
unfolding sort_by
fetch run_id buckets = concat (
    map (λ b. present b.latencies)
      (sort_by Bucket.minute (keep (λ (b : Bucket). str_eq b.run_id run_id) buckets)))

pub record LatencyReport : Type 0 where
  pub samples : ℕ
  pub min_ms : ℕ
  pub p50 : Option ℕ
  pub p90 : Option ℕ
  pub p95 : Option ℕ
  pub p99 : Option ℕ
  pub p999 : Option ℕ
  pub max_ms : ℕ
  pub total_ms : ℕ
  pub sub_second_at : String
  pub under_1s : ℕ
  pub under_500ms : ℕ

-- A `nan` is below nothing.
abbrev pub is_below : ℕ → Option ℕ → Bool
is_below n none = false
is_below n (some v) = ltb v n

unfoldable pub sub_second : List ℕ → String
unfolding percentile
sub_second s =
    if is_below 1000000 (percentile s 990)
    then "p99"
    else if is_below 1000000 (percentile s 950)
    then "p95"
    else if is_below 1000000 (percentile s 500)
    then "p50"
    else "none"

-- The report on sorted samples. The error for no samples is `none`. The mean is `total_ms / samples`,
-- and the percentages are kept as the counts that they divide.
unfoldable pub report : List ℕ → Option LatencyReport
unfolding percentile sub_second
report [] = none
report (y ∷ ys) =
    let s = y ∷ ys in
    some (record {
      samples = length s;
      min_ms = y;
      p50 = percentile s 500;
      p90 = percentile s 900;
      p95 = percentile s 950;
      p99 = percentile s 990;
      p999 = percentile s 999;
      max_ms = get_or s (length ys) 0;
      total_ms = sum s;
      sub_second_at = sub_second s;
      under_1s = length (keep (λ v. ltb v 1000) s);
      under_500ms = length (keep (λ v. ltb v 500) s);
    })

unfoldable pub build_report : List ℕ → Option LatencyReport
unfolding report sort_by
build_report samples = report (sort_by (λ v. v) samples)
