-- ===== src/Sink/Tables.antt =====
-- The columns that each INSERT of `CQL` in streaming/cassandra_sink.py names, in their order, and
-- the primary keys of sql/cassandra (its CREATE TABLE statements).
use text.Mathlib.Text.{◌==◌}
use real_time_data_pipeline.Base.{String, List, [], ◌∷◌, if◌then◌else◌}

unfoldable pub columns : String → List String
columns table =
    if table == "trips_by_id"
    then "trip_id" ∷ "event_id" ∷ "event_time" ∷ "produced_at_ms" ∷ "ingested_at_ms" ∷ "city_id"
      ∷ "driver_id" ∷ "rider_id" ∷ "pickup_zone_id" ∷ "dropoff_zone_id" ∷ "vehicle_class"
      ∷ "payment_type" ∷ "distance_km" ∷ "duration_sec" ∷ "fare_amount" ∷ "surge_multiplier"
      ∷ "status" ∷ "producer_id" ∷ "schema_version" ∷ []
    else if table == "trips_by_driver_day"
    then "driver_id" ∷ "event_date" ∷ "event_time" ∷ "trip_id" ∷ "event_id" ∷ "city_id" ∷ "rider_id"
      ∷ "vehicle_class" ∷ "payment_type" ∷ "distance_km" ∷ "duration_sec" ∷ "fare_amount"
      ∷ "surge_multiplier" ∷ "status" ∷ "ingested_at_ms" ∷ []
    else if table == "trips_by_city_hour"
    then "city_id" ∷ "event_hour" ∷ "trip_id" ∷ "event_id" ∷ "event_time" ∷ "driver_id" ∷ "rider_id"
      ∷ "pickup_zone_id" ∷ "dropoff_zone_id" ∷ "vehicle_class" ∷ "payment_type" ∷ "distance_km"
      ∷ "duration_sec" ∷ "fare_amount" ∷ "surge_multiplier" ∷ "status" ∷ "ingested_at_ms" ∷ []
    else []

abbrev pub all_tables : List String
all_tables = "trips_by_id" ∷ "trips_by_driver_day" ∷ "trips_by_city_hour" ∷ []

abbrev pub core_tables : List String
core_tables = "trips_by_id" ∷ []

-- PRIMARY KEY, partition key first.
unfoldable pub primary_key : String → List String
primary_key table =
    if table == "trips_by_id"
    then "trip_id" ∷ []
    else if table == "trips_by_driver_day"
    then "driver_id" ∷ "event_date" ∷ "event_time" ∷ "trip_id" ∷ []
    else if table == "trips_by_city_hour"
    then "city_id" ∷ "event_hour" ∷ "trip_id" ∷ []
    else []
