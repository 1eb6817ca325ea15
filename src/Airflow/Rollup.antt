-- ===== src/Airflow/Rollup.antt =====
-- The tasks of airflow/dags/trips_batch_rollup.py.
pub mod Reload
pub mod Drift
use real_time_data_pipeline.Base.{
  ℕ, zero, suc, ◌+◌, String, Bool, true, false, not, List, [], ◌∷◌, ◌++◌, map, length, Option, none,
  some, leb, if◌then◌else◌,
}
use real_time_data_pipeline.Base.Dict.{Dict}
use real_time_data_pipeline.Base.Errors.{returned, raised, value_error}
use real_time_data_pipeline.Value.{ℤ, pos, Value, int}
use real_time_data_pipeline.Value.Int.{◌-ℤ◌}
use real_time_data_pipeline.Bench.Act.{Act, pure, lift, finally, ◌>>=◌, ◌>>◌}
use real_time_data_pipeline.Airflow.{
  Services, Python, TripRow, Load, cities, one_hour, floor_hour, hour_bounds, emit_alert,
}
use real_time_data_pipeline.Airflow.Payload.{payload_of}

-- What a load returns, and what the check adds to it.
pub record Loaded : Type 0 where
  pub hour : ℕ
  pub extracted : ℕ
  pub loaded : ℕ

pub record Verified : Type 0 where
  pub result : Loaded
  pub in_postgres : ℕ
  pub drift : ℤ

abbrev pub or_zero : Option ℕ → ℕ
or_zero none = 0
or_zero (some n) = n

-- `_hour_for`
abbrev pub hour_for : ℕ → ℕ
hour_for logical = floor_hour logical

-- `extracted and drift != 0`
abbrev pub is_drift : ℕ → ℤ → Bool
is_drift zero drift = false
is_drift (suc n) (pos zero) = false
is_drift (suc n) drift = true

-- The result as an alert tells it, without the hour's text.
abbrev pub drift_payload : Verified → Dict Value
drift_payload out =
    ("extracted", int (pos out.result.extracted))
    ∷ ("loaded", int (pos out.result.loaded))
    ∷ ("in_postgres", int (pos out.in_postgres))
    ∷ ("drift", int out.drift)
    ∷ []

module _ {W : Type 0} (services : Services W) (python : Python) where
  -- The sum of the sensor, over the cities.
  unfoldable pub count_cities : ℕ → List String → ℕ → Act W ℕ
  count_cities hour [] total = pure total
  count_cities hour (city ∷ rest) total =
      services.select_count city hour >>= λ c. count_cities hour rest (total + or_zero c)

  unfoldable pub data_has_landed : ℕ → Act W Bool
  unfolding count_cities floor_hour
  data_has_landed logical = do
    u ← services.cassandra_session
    finally
        (do
          total ← count_cities (hour_for logical) cities 0
          v ← services.xcom_push total
          pure (leb 1 total))
        services.shutdown

  unfoldable pub extract : ℕ → List String → Act W (List (String × TripRow))
  extract hour [] = pure []
  extract hour (city ∷ rest) = do
    res ← services.select city hour
    rows ← extract hour rest
    pure (map (λ r. (city, r)) res ++ rows)

  -- What the `try` around the connection guards.
  unfoldable pub load_rows : List (String × TripRow) → Act W ℕ
  unfolding payload_of
  load_rows rows = do
    payload ← lift (payload_of python rows)
    u ← services.execute_values payload
    loaded ← services.rowcount
    v ← services.commit
    pure loaded

  unfoldable pub load_hour : ℕ → List (String × TripRow) → Act W Loaded
  unfolding load_rows
  load_hour hour [] = pure (record { hour = hour; extracted = 0; loaded = 0 })
  load_hour hour (row ∷ rows) = do
    u ← services.pg_conn
    loaded ← finally (load_rows (row ∷ rows)) services.close
    pure (record { hour = hour; extracted = length (row ∷ rows); loaded = loaded })

  unfoldable pub extract_and_load_hour : ℕ → Act W Loaded
  unfolding extract load_hour floor_hour
  extract_and_load_hour logical = do
    u ← services.cassandra_session
    rows ← finally (extract (hour_for logical) cities) services.shutdown
    load_hour (hour_for logical) rows

  unfoldable pub settled : Verified → Act W Verified
  unfolding emit_alert
  settled out =
      if is_drift out.result.extracted out.drift
      then (do
        u ← emit_alert services python "rollup_drift" (drift_payload out)
        lift (raised (value_error "rollup drift")))
      else pure out

  unfoldable pub verify_hour : Loaded → Act W Verified
  unfolding settled hour_bounds ◌-ℤ◌
  verify_hour result = do
    u ← services.pg_conn
    in_pg ←
        finally (services.count_between (hour_bounds result.hour).0 (hour_bounds result.hour).1)
          services.close
    settled
        (record { result = result; in_postgres = in_pg; drift = pos result.extracted -ℤ pos in_pg })

  -- The two tasks, one after the other.
  unfoldable pub rollup_hour : ℕ → Act W Verified
  unfolding extract_and_load_hour verify_hour
  rollup_hour logical = extract_and_load_hour logical >>= λ loaded. verify_hour loaded
