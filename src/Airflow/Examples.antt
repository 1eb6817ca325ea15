-- ===== src/Airflow/Examples.antt =====
-- Runs of the DAGs on a stage table that takes one trip.
use text.Mathlib.Text.{◌==◌ as str_eq}
use text.Mathlib.TextEquality.{eq_iff}
use real_time_data_pipeline.Base.{
  ℕ, ◌+◌, ◌≡◌, refl, sym, ap, ◌∙◌, String, false, none, some, List, [], ◌∷◌, if◌then◌else◌, ◌==◌,
  Bool-cases, inl, inr, arith, keep, length,
}
use real_time_data_pipeline.Base.Errors.{Outcome, returned, raised, key_error}
use real_time_data_pipeline.Value.{null, str, int, pos, float}
use real_time_data_pipeline.Bench.Act.{Act, pure}
use real_time_data_pipeline.Airflow.{Services, Python, TripRow, Load, floor_hour, hour_bounds}
use real_time_data_pipeline.Airflow.Payload.{payload_of}
use real_time_data_pipeline.Airflow.Stage.{Table, Stage, IsStage, IsUp, IsStored, landing, is_in}
use real_time_data_pipeline.Airflow.Rollup.{Loaded, extract_and_load_hour, verify_hour}
use real_time_data_pipeline.Airflow.Rollup.Reload.{extract_and_load_hour-twice}
use real_time_data_pipeline.Airflow.Rollup.Drift.{verify_hour-IsChecked}
use real_time_data_pipeline.Airflow.Backfill.{
  Plan, Reprocessed, plan_window, reprocess_window, is_empty_window,
}
use real_time_data_pipeline.Airflow.Backfill.Fuel.{HasEnded, plan_window-HasEnded}
use real_time_data_pipeline.Airflow.Backfill.Whole.{
  Rolls, reprocess_window-Rolls, reprocess_window-is_empty_window,
}

abbrev trip : TripRow
trip = record {
  trip_id = "t1";
  event_id = "e1";
  event_time = 5;
  driver_id = str "d-000001";
  rider_id = str "r-1";
  pickup_zone_id = int (pos 3);
  dropoff_zone_id = int (pos 4);
  vehicle_class = str "xl";
  payment_type = str "card";
  distance_km = float "2.5";
  duration_sec = int (pos 600);
  fare_amount = float "11.5";
  surge_multiplier = null;
  status = str "completed";
}

abbrev load : Load
load = record {
  trip_id = "t1";
  event_id = "e1";
  event_time = 5;
  city_id = "nyc";
  driver_id = str "d-000001";
  rider_id = str "r-1";
  pickup_zone_id = int (pos 3);
  dropoff_zone_id = int (pos 4);
  vehicle_class = str "xl";
  payment_type = str "card";
  distance_km = float "2.5";
  duration_sec = int (pos 600);
  fare_amount = float "11.5";
  surge_multiplier = float "1.0";
  status = str "completed";
}

abbrev rows : String → ℕ → List TripRow
rows city hour = if str_eq city "nyc" then (if hour == 0 then trip ∷ [] else []) else []

-- The INSERT of one row of the trip; any other payload is refused.
abbrev accept : List Load → Act Table (Unit {0})
accept (l ∷ []) t =
    if str_eq l.trip_id "t1"
    then (returned tt, landing (l ∷ []) t)
    else (raised (key_error "t1"), t)
accept p t = (raised (key_error "t1"), t)

abbrev commit_all : Act Table (Unit {0})
commit_all = pure tt

abbrev held : Table → ℕ → ℕ → ℕ
held t start end = if is_in start end (t "t1") then 1 else 0

abbrev services : Services Table
services = record {
  cassandra_session = pure tt;
  shutdown = pure tt;
  select = λ c h. pure (rows c h);
  select_count = λ c h. pure (some (length (rows c h)));
  pg_conn = pure tt;
  execute_values = accept;
  rowcount = pure 1;
  count_between = λ a b t. (returned (held t a b), t);
  insert_audit = λ a b h. pure 1;
  update_audit = λ i n h e. pure tt;
  commit = commit_all;
  close = pure tt;
  xcom_push = λ n. pure tt;
  utc_now = pure "2026-08-14T06:00:00+00:00";
  append_log = λ text. pure tt;
  post_webhook = λ text. pure tt;
}

abbrev python : Python
python = record {
  to_float = λ v. returned v;
  to_int = λ v. returned v;
  dumps = λ d. returned "{}";
  has_webhook = false;
}

abbrev stage : Stage Table
stage = record { State = Table; sees = λ t. t; row = λ t. t; held = held }

held_one :
    (t u : Table) (a b : ℕ) (k : String)
    → k ≡ "t1"
    → held u a b + length (keep (λ j. is_in a b (t j)) (k ∷ []))
      ≡ held t a b + length (keep (λ j. is_in a b (u j)) (k ∷ []))
held_one t u a b k e = rw e (ground arith)

accept-IsStored :
    (p : List Load) (w w1 w2 : Table)
    → accept p w ≡ (returned tt, w1)
    → commit_all w1 ≡ (returned tt, w2)
    → IsStored stage p w w2
accept-IsStored [] w w1 w2 h k = ground (arith, h)
accept-IsStored (l ∷ m ∷ p) w w1 w2 h k = ground (arith, h)
accept-IsStored (l ∷ []) w w1 w2 h k =
    let ok : Outcome (Unit {0}) × Table = (returned tt, landing (l ∷ []) w) in
    let bad : Outcome (Unit {0}) × Table = (raised (key_error "t1"), w) in
    elim (Bool-cases (str_eq l.trip_id "t1")) [
      | inl e ↦
          let run = ap (λ i. if i then ok else bad) (sym e) ∙ h in
          let same : landing (l ∷ []) w ≡ w2 = ap (λ m. m.1) run ∙ ap (λ m. m.1) k in
          (sym same, λ a b d. held_one w w2 a b l.trip_id ((eq_iff l.trip_id "t1").0 e))
      | inr e ↦
          let run = ap (λ i. if i then ok else bad) (sym e) ∙ h in ground (arith, ap (λ m. m.0) run)
    ]

stage-IsStage : IsStage services stage
stage-IsStage = record {
  stores = accept-IsStored;
  rowcount_reads = λ w. refl;
  opens = λ w. refl;
  selects = λ c h w. refl;
  shuts = λ w. refl;
  connects = λ w. refl;
  closes = λ w. refl;
}

stage-IsUp : IsUp services stage
stage-IsUp = record { answers = λ a b w. refl; reaches = λ w. refl; ends = λ w. refl }

abbrev fresh : Table
fresh k = none

abbrev result : Loaded
result = record { hour = 0; extracted = 1; loaded = 1 }

abbrev loaded : Table
loaded = landing (load ∷ []) fresh

load_once : extract_and_load_hour services python 100 fresh ≡ (returned result, loaded)
unfolding extract_and_load_hour
load_once = refl

load_again :
    extract_and_load_hour services python 100 loaded ≡ (returned result, landing (load ∷ []) loaded)
unfolding extract_and_load_hour
load_again = refl

extract_and_load_hour-twice_example : landing (load ∷ []) loaded "t1" ≡ loaded "t1"
extract_and_load_hour-twice_example =
    extract_and_load_hour-twice services python stage stage-IsStage rows (λ c h w. refl) 100 fresh
      loaded (landing (load ∷ []) loaded) result result "t1" load_once load_again

verify_hour-IsChecked_example :
    (verify_hour services python result loaded).0
    ≡ returned (record { result = result; in_postgres = 1; drift = pos 0 })
unfolding payload_of floor_hour hour_bounds
verify_hour-IsChecked_example =
    verify_hour-IsChecked services python stage stage-IsStage stage-IsUp rows (λ c h w. refl) 100 0
      fresh loaded result (load ∷ []) load_once refl (tt, tt) (refl, tt) refl

-- Two hours, the second without a trip.
abbrev plan : Plan
plan = record { start = 0; end = 7200000000; hours = 2; audit_id = 1 }

abbrev two_hours : Reprocessed
two_hours = record { plan = plan; rows_read = 1; rows_loaded = 1; empty_hours = 1 }

plan_window-HasEnded_example : HasEnded (reprocess_window services python 338 plan loaded)
unfolding plan_window
plan_window-HasEnded_example = plan_window-HasEnded services python 0 7200000000 fresh loaded

reprocess_once : reprocess_window services python 3 plan fresh ≡ some (returned two_hours, loaded)
unfolding reprocess_window
reprocess_once = refl

rolled_hours : Rolls services python stage stage-IsStage rows (λ c h w. refl) 2 0 fresh loaded
unfolding extract_and_load_hour
rolled_hours = (
  result,
  loaded,
  refl,
  (record { hour = 3600000000; extracted = 0; loaded = 0 }, loaded, refl, refl),
)

reprocess_window-Rolls_example : loaded "t1" ≡ loaded "t1"
unfolding floor_hour
reprocess_window-Rolls_example =
    reprocess_window-Rolls services python stage stage-IsStage rows (λ c h w. refl) 3 2 plan fresh
      loaded fresh loaded two_hours "t1" refl (omega arith, omega arith) rolled_hours (inl refl)
      reprocess_once

reprocess_window-is_empty_window_example : is_empty_window two_hours ≡ false
reprocess_window-is_empty_window_example =
    reprocess_window-is_empty_window services python stage stage-IsStage rows (λ c h w. refl) 3 plan
      fresh loaded two_hours reprocess_once refl
