-- ===== src/Airflow/Payload.antt =====
-- The parameters of the INSERT into trips_rollup_stage, which trips_batch_rollup.py and
-- trips_backfill.py make of the rows in the same way.
use real_time_data_pipeline.Base.{String, List, [], ◌∷◌, if◌then◌else◌}
use real_time_data_pipeline.Base.Errors.{Outcome, returned, ◌>>=◌}
use real_time_data_pipeline.Value.{Value, int, pos, float, truthy}
use real_time_data_pipeline.Airflow.{TripRow, Load, Python}

-- `v or default`
abbrev pub or_else : Value → Value → Value
or_else v default = if truthy v then v else default

module _ (python : Python) where
  -- The parameters for one row.
  unfoldable pub payload_row : String → TripRow → Outcome Load
  unfolding truthy
  payload_row city r = do
    distance ← python.to_float (or_else r.distance_km (int (pos 0)))
    duration ← python.to_int (or_else r.duration_sec (int (pos 0)))
    fare ← python.to_float (or_else r.fare_amount (int (pos 0)))
    surge ← python.to_float (or_else r.surge_multiplier (float "1.0"))
    returned (record {
      trip_id = r.trip_id;
      event_id = r.event_id;
      event_time = r.event_time;
      city_id = city;
      driver_id = r.driver_id;
      rider_id = r.rider_id;
      pickup_zone_id = r.pickup_zone_id;
      dropoff_zone_id = r.dropoff_zone_id;
      vehicle_class = r.vehicle_class;
      payment_type = r.payment_type;
      distance_km = distance;
      duration_sec = duration;
      fare_amount = fare;
      surge_multiplier = surge;
      status = r.status;
    })

  unfoldable pub payload_of : List (String × TripRow) → Outcome (List Load)
  unfolding payload_row
  payload_of [] = returned []
  payload_of ((city, r) ∷ rows) = do l ← payload_row city r; ls ← payload_of rows; returned (l ∷ ls)
