-- ===== src/Bench/Chaos.antt =====
-- bench/chaos_suite.py: what is taken from the report of a run, and the figures on repeated runs. A
-- reading is a number of thousandths, and a figure is rounded to the nearest one. `loads_number` is what
-- a JSON value is as a reading; null, or a missing key, is none.
pub mod Suite
pub mod Figures
pub mod Arms
mod Examples
use real_time_data_pipeline.Base.{
  ℕ, zero, suc, ◌+◌, ◌-◌, ◌*◌, ◌/◌, ◌%◌, String, Bool, true, false, ◌&&◌, Option, none, some, List,
  [], ◌∷◌, map, length, sum, get_or, ltb, leb, ◌==◌, if◌then◌else◌,
}
use real_time_data_pipeline.Base.Dict.{Dict}
use real_time_data_pipeline.Base.Sorted.{sort_by}
use real_time_data_pipeline.Base.Errors.{Outcome, returned, raised, attribute_error, ◌>>=◌}
use real_time_data_pipeline.Value.{Value, null, obj, entries, get, truthy}
use real_time_data_pipeline.Base.Rounding.{round_div}

-- `v or {}`, for what is then asked for its keys.
abbrev pub as_dict : Value → Outcome (Dict Value)
as_dict (obj fs) = returned (entries fs)
as_dict v = if truthy v then raised (attribute_error "get") else returned []

unfoldable pub extract : Dict Value → Outcome (Dict Value)
unfolding get truthy
extract report = do
  rec ← as_dict (get report "reconciliation")
  lag ← as_dict (get report "lag")
  stream ← as_dict (get report "stream")
  fault ← as_dict (get report "fault")
  prod ← as_dict (get report "producer")
  returned (
      ("run_id", get report "run_id")
      ∷ ("acked", get rec "kafka_acked")
      ∷ ("expected_distinct", get rec "expected_distinct_events")
      ∷ ("written", get rec "written_distinct_trips")
      ∷ ("quarantined", get rec "dlq_distinct_events")
      ∷ ("silent_loss", get rec "unaccounted_silent_loss")
      ∷ ("silent_loss_pct", get rec "silent_loss_pct")
      ∷ ("recovery_seconds", get fault "recovery_seconds")
      ∷ ("recovered", get fault "recovered")
      ∷ ("target_healthy_seconds", get fault "target_healthy_seconds")
      ∷ ("lag_max", get lag "max_observed")
      ∷ ("drain_seconds", get lag "drain_seconds")
      ∷ ("avg_retries_all_writes", get stream "avg_retries_to_success_all_writes")
      ∷ ("writes_needing_retry", get stream "writes_needing_retry")
      ∷ ("avg_retries_among_retried", get stream "avg_retries_among_retried_writes")
      ∷ ("cassandra_retries", get stream "cassandra_write_retries")
      ∷ ("failure_reasons", get stream "failure_reasons")
      ∷ ("producer_txretries", get prod "librdkafka_txretries")
      ∷ ("producer_req_timeouts", get prod "librdkafka_req_timeouts")
      ∷ ("achieved_rate", get prod "achieved_rate")
      ∷ [])

-- The figures but for the standard deviation.
pub record Agg : Type 0 where
  pub n : ℕ
  pub mean : ℕ
  pub median : ℕ
  pub least : ℕ
  pub greatest : ℕ

-- `[v for v in values if v is not None]`
unfoldable pub present : List (Option ℕ) → List ℕ
present [] = []
present (none ∷ vs) = present vs
present (some v ∷ vs) = v ∷ present vs

-- `statistics.median` of sorted values.
unfoldable pub median_of : List ℕ → ℕ
unfolding round_div
median_of s =
    let n = length s in
    if n % 2 == 1
    then get_or s (n / 2) 0
    else round_div (get_or s (n / 2 - 1) 0 + get_or s (n / 2) 0) 2

-- `vals`, sorted.
unfoldable pub figures : List ℕ → Option Agg
unfolding median_of
figures [] = none
figures (v ∷ vs) =
    let n = length (v ∷ vs) in
    some (record {
      n = n;
      mean = round_div (sum (v ∷ vs)) n;
      median = median_of (v ∷ vs);
      least = get_or (v ∷ vs) 0 0;
      greatest = get_or (v ∷ vs) (length vs) 0;
    })

unfoldable pub agg : List (Option ℕ) → Option Agg
unfolding present figures sort_by
agg values = figures (sort_by (λ v. v) (present values))

module _ (loads_number : Value → Option ℕ) where
  -- `[r[k] for r in runs]`
  abbrev pub readings : String → List (Dict Value) → List (Option ℕ)
  readings k runs = map (λ r. loads_number (get r k)) runs

  -- `(r.get("silent_loss") or 0) <= 0`
  abbrev pub is_lossless : Option ℕ → Bool
  is_lossless none = true
  is_lossless (some v) = leb v 0

  abbrev pub all_lossless : List (Option ℕ) → Bool
  all_lossless [] = true
  all_lossless (v ∷ vs) = is_lossless v && all_lossless vs

  -- `all(r.get("recovered") for r in runs)`
  unfoldable pub all_recovered : List (Dict Value) → Bool
  unfolding truthy
  all_recovered [] = true
  all_recovered (r ∷ runs) = truthy (get r "recovered") && all_recovered runs

  -- What is reported on a failure scenario.
  pub record ScenarioFigures : Type 0 where
    pub runs : List (Dict Value)
    pub recovery_seconds : Option Agg
    pub silent_loss : Option Agg
    pub quarantined : Option Agg
    pub lag_max : Option Agg
    pub avg_retries_among_retried : Option Agg
    pub is_recovered : Bool
    pub zero_silent_loss_every_run : Bool

  unfoldable pub scenario_figures : List (Dict Value) → ScenarioFigures
  unfolding agg all_recovered get
  scenario_figures runs = record {
    runs = runs;
    recovery_seconds = agg (readings "recovery_seconds" runs);
    silent_loss = agg (readings "silent_loss" runs);
    quarantined = agg (readings "quarantined" runs);
    lag_max = agg (readings "lag_max" runs);
    avg_retries_among_retried = agg (readings "avg_retries_among_retried" runs);
    is_recovered = all_recovered runs;
    zero_silent_loss_every_run = all_lossless (readings "silent_loss" runs);
  }
