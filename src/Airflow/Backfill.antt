-- ===== src/Airflow/Backfill.antt =====
-- The tasks of airflow/dags/trips_backfill.py. The loop over the hours of the window runs on fuel;
-- it is `none` when the fuel is used up.
pub mod Fuel
pub mod Window
pub mod Whole
use real_time_data_pipeline.Base.{
  ℕ, zero, suc, ◌+◌, ◌-◌, ◌/◌, String, Bool, List, [], ◌∷◌, ◌++◌, map, length, Option, none, some,
  ltb, leb, ◌==◌, if◌then◌else◌,
}
use real_time_data_pipeline.Base.Dict.{Dict}
use real_time_data_pipeline.Base.Errors.{Outcome, returned, raised, value_error}
use real_time_data_pipeline.Value.{pos, Value, int}
use real_time_data_pipeline.Bench.Act.{Act, pure, lift, finally, finished, over, ◌>>=◌, ◌>>◌}
use real_time_data_pipeline.Airflow.{Services, Python, Load, TripRow, cities, one_hour, emit_alert}
use real_time_data_pipeline.Airflow.Payload.{payload_of}

abbrev pub max_hours : ℕ
max_hours = 336

pub record Plan : Type 0 where
  pub start : ℕ
  pub end : ℕ
  pub hours : ℕ
  pub audit_id : ℕ

pub record Totals : Type 0 where
  pub total_read : ℕ
  pub total_loaded : ℕ
  pub empty_hours : ℕ

pub record Reprocessed : Type 0 where
  pub plan : Plan
  pub rows_read : ℕ
  pub rows_loaded : ℕ
  pub empty_hours : ℕ

abbrev pub no_rows : Totals
no_rows = record { total_read = 0; total_loaded = 0; empty_hours = 0 }

-- The counters after an hour with so many rows.
unfoldable pub counted : ℕ → Totals → Totals
counted zero t = record t { empty_hours = t.empty_hours + 1 }
counted (suc n) t = record t {
  total_loaded = t.total_loaded + suc n;
  total_read = t.total_read + suc n;
}

-- The loop of `reprocess_window` goes on with the counters, unless an hour has raised.
abbrev pub carried {ℓ} :
    {W : Type 0} {A : Type ℓ} {B : Type ℓ}
    → (A → W → Option (Outcome B × W))
    → Outcome A × W
    → Option (Outcome B × W)
carried rest (returned a, w) = rest a w
carried rest (raised e, w) = some (raised e, w)

-- The `finally` behind the loop.
abbrev pub closing {ℓ} :
    {W : Type 0} {A : Type ℓ} → Act W (Unit {0}) → Option (Outcome A × W) → Option (Outcome A × W)
closing k none = none
closing k (some (o, w)) = some (finished o (k w))

abbrev pub reprocessed : Plan → Totals → Reprocessed
reprocessed plan t = record {
  plan = plan;
  rows_read = t.total_read;
  rows_loaded = t.total_loaded;
  empty_hours = t.empty_hours;
}

-- The counters as the task returns them.
abbrev pub told {ℓ} :
    {W : Type ℓ} → Plan → Option (Outcome Totals × W) → Option (Outcome Reprocessed × W)
told plan none = none
told plan (some (o, w)) = some (over (reprocessed plan) o, w)

-- `result["empty_hours"] == result["hours"]`
abbrev pub is_empty_window : Reprocessed → Bool
is_empty_window r = r.empty_hours == r.plan.hours

-- The result as an alert tells it, without the texts of the window.
abbrev pub result_payload : Reprocessed → Dict Value
result_payload r =
    ("hours", int (pos r.plan.hours))
    ∷ ("audit_id", int (pos r.plan.audit_id))
    ∷ ("rows_read", int (pos r.rows_read))
    ∷ ("rows_loaded", int (pos r.rows_loaded))
    ∷ ("empty_hours", int (pos r.empty_hours))
    ∷ []

module _ {W : Type 0} (services : Services W) (python : Python) where
  -- The window is checked, and the audit row is written.
  unfoldable pub plan_window : ℕ → ℕ → Act W Plan
  plan_window start end =
      let hours = (end - start) / one_hour in
      if leb end start
      then lift (raised (value_error "end must be after start"))
      else if ltb max_hours hours
      then lift (raised (value_error "window above the ceiling"))
      else do
        u ← services.pg_conn
        audit_id ←
            finally (services.insert_audit start end hours >>= λ id. services.commit >> pure id)
              services.close
        pure (record { start = start; end = end; hours = hours; audit_id = audit_id })

  -- The payload of an hour.
  unfoldable pub gather : ℕ → List String → Act W (List Load)
  unfolding payload_of
  gather hour [] = pure []
  gather hour (city ∷ rest) = do
    res ← services.select city hour
    ls ← lift (payload_of python (map (λ r. (city, r)) res))
    more ← gather hour rest
    pure (ls ++ more)

  -- `if payload: …`
  abbrev pub store : List Load → Act W (Unit {0})
  store [] = pure tt
  store (l ∷ ls) = services.execute_values (l ∷ ls) >> services.commit

  -- A turn of the loop.
  unfoldable pub reprocess_hour : ℕ → Totals → Act W Totals
  unfolding gather counted
  reprocess_hour hour t = do
    payload ← gather hour cities
    u ← store payload
    pure (counted (length payload) t)

  unfoldable pub walk : ℕ → ℕ → ℕ → Totals → W → Option (Outcome Totals × W)
  unfolding reprocess_hour
  walk zero end hour t w = none
  walk (suc fuel) end hour t w =
      let rest = walk fuel end (hour + one_hour) in
      if ltb hour end then carried rest (reprocess_hour hour t w) else some (returned t, w)

  abbrev pub connect : Act W (Unit {0})
  connect = services.cassandra_session >> services.pg_conn

  unfoldable pub reprocess_window : ℕ → Plan → W → Option (Outcome Reprocessed × W)
  unfolding walk
  reprocess_window fuel plan w =
      carried
        (λ u v.
          told plan (
            closing (services.shutdown >> services.close)
              (walk fuel plan.end plan.start no_rows v)))
        (connect w)

  unfoldable pub close_audit : Reprocessed → Act W Reprocessed
  unfolding emit_alert
  close_audit r = do
    u ← services.pg_conn
    v ←
        finally
          (services.update_audit r.plan.audit_id r.rows_loaded r.plan.hours r.empty_hours
            >> services.commit)
          services.close
    x ←
        (if is_empty_window r
          then emit_alert services python "backfill_empty" (result_payload r)
          else pure tt)
    pure r
