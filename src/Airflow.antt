-- ===== src/Airflow.antt =====
-- What the DAGs of airflow/dags share (rtdp_common.py): the cities, the bounds of an hour, the alerts,
-- and the calls of Cassandra, PostgreSQL and the alert channels, which are functions on a world. An
-- instant is a number of microseconds since 1970-01-01 in UTC, also where a task passes it on as a text.
pub mod Payload
pub mod Stage
pub mod Rollup
pub mod Backfill
pub mod DlqDrain
mod Examples
use real_time_data_pipeline.Base.{
  ℕ, ◌+◌, ◌*◌, ◌/◌, String, Bool, true, false, List, [], ◌∷◌, Option, if◌then◌else◌,
}
use real_time_data_pipeline.Base.Dict.{Dict, insert}
use real_time_data_pipeline.Base.Errors.{Exc, Outcome, returned, raised, is_instance}
use real_time_data_pipeline.Value.{Value, str}
use real_time_data_pipeline.Bench.Act.{Act, pure, lift, except, ◌>>=◌, ◌>>◌}

-- A row of trips_by_city_hour, without its partition key.
pub record TripRow : Type 0 where
  pub trip_id : String
  pub event_id : String
  pub event_time : ℕ
  pub driver_id : Value
  pub rider_id : Value
  pub pickup_zone_id : Value
  pub dropoff_zone_id : Value
  pub vehicle_class : Value
  pub payment_type : Value
  pub distance_km : Value
  pub duration_sec : Value
  pub fare_amount : Value
  pub surge_multiplier : Value
  pub status : Value

-- The parameters of the INSERT into trips_rollup_stage, and a row of that table but for its
-- `loaded_at`.
pub record Load : Type 0 where
  pub trip_id : String
  pub event_id : String
  pub event_time : ℕ
  pub city_id : String
  pub driver_id : Value
  pub rider_id : Value
  pub pickup_zone_id : Value
  pub dropoff_zone_id : Value
  pub vehicle_class : Value
  pub payment_type : Value
  pub distance_km : Value
  pub duration_sec : Value
  pub fare_amount : Value
  pub surge_multiplier : Value
  pub status : Value

-- The calls of the drivers and of the host. `execute_values` runs the INSERT of the DAGs on a payload
-- in pages of 1000, `rowcount` is what the cursor then tells, and `select_count` is `row.c`.
pub record Services (W : Type 0) : Type 0 where
  pub cassandra_session : Act W (Unit {0})
  pub shutdown : Act W (Unit {0})
  pub select : String → ℕ → Act W (List TripRow)
  pub select_count : String → ℕ → Act W (Option ℕ)
  pub pg_conn : Act W (Unit {0})
  pub execute_values : List Load → Act W (Unit {0})
  pub rowcount : Act W ℕ
  pub count_between : ℕ → ℕ → Act W ℕ
  pub insert_audit : ℕ → ℕ → ℕ → Act W ℕ
  pub update_audit : ℕ → ℕ → ℕ → ℕ → Act W (Unit {0})
  pub commit : Act W (Unit {0})
  pub close : Act W (Unit {0})
  pub xcom_push : ℕ → Act W (Unit {0})
  pub utc_now : Act W String
  pub append_log : String → Act W (Unit {0})
  pub post_webhook : String → Act W (Unit {0})

-- Python's `float`, `int` and `json.dumps`, and whether RTDP_ALERT_WEBHOOK is set.
pub record Python : Type 0 where
  pub to_float : Value → Outcome Value
  pub to_int : Value → Outcome Value
  pub dumps : Dict Value → Outcome String
  pub has_webhook : Bool

abbrev pub cities : List String
cities = "nyc" ∷ "chi" ∷ "sfo" ∷ "lax" ∷ "bos" ∷ "sea" ∷ "aus" ∷ "mia" ∷ []

-- The microseconds of `timedelta(hours=1)`.
abbrev pub one_hour : ℕ
one_hour = 3600000000

-- `t.replace(minute=0, second=0, microsecond=0)`
unfoldable pub floor_hour : ℕ → ℕ
floor_hour t = t / one_hour * one_hour

unfoldable pub hour_bounds : ℕ → ℕ × ℕ
unfolding floor_hour
hour_bounds t = (floor_hour t, floor_hour t + one_hour)

-- `{**d, **payload}`
unfoldable pub update : Dict Value → Dict Value → Dict Value
unfolding insert
update d [] = d
update d ((k, v) ∷ payload) = update (insert k v d) payload

module _ {W : Type 0} (services : Services W) (python : Python) where
  -- `except Exception`, whose handler logs.
  abbrev pub logged : Exc → Act W (Unit {0})
  logged e = if is_instance ("Exception" ∷ []) e then pure tt else lift (raised e)

  abbrev pub posted : Bool → String → Act W (Unit {0})
  posted true text = except (services.post_webhook text) logged
  posted false text = pure tt

  unfoldable pub emit_alert : String → Dict Value → Act W (Unit {0})
  unfolding update is_instance
  emit_alert kind payload = do
    at ← services.utc_now
    text ← lift (python.dumps (update (("kind", str kind) ∷ ("at", str at) ∷ []) payload))
    u ← except (services.append_log text) logged
    posted python.has_webhook text
