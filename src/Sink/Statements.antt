-- ===== src/Sink/Statements.antt =====
-- `_validate` and `build_statements` of streaming/cassandra_sink.py. `uuid.UUID` on a text is the
-- argument `parse_uuid`, with none where it raises ValueError.
pub mod Alignment
pub mod Built
pub mod Validate
use Prim.Native.String.{◌++◌ as ◌++ₛ◌}
use real_time_data_pipeline.Base.{
  ℕ, ◌-◌, ◌/◌, ◌%◌, ◌*◌, String, Bool, Option, none, some, List, [], ◌∷◌, ◌++◌, if◌then◌else◌,
}
use real_time_data_pipeline.Base.Dict.{Dict}
use real_time_data_pipeline.Base.Errors.{
  Exc, Outcome, returned, raised, contains, ◌>>=◌, ◌>>◌, value_error, attribute_error,
}
use real_time_data_pipeline.Value.{
  Value, str, time, date, uuid, int, pos, Datetime, is_blank, is_none, get, at,
}

abbrev pub permanent_defect : String → Exc
permanent_defect m = record {
  name = "PermanentDefect";
  bases = "Exception" ∷ "BaseException" ∷ [];
  message = m;
}

pub record Statement : Type 0 where
  pub table : String
  pub params : List Value

abbrev pub required : List String
required = "event_id" ∷ "trip_id" ∷ "event_time" ∷ "city_id" ∷ "driver_id" ∷ []

-- The loop of `_validate` over the required fields.
unfoldable pub check_required : Dict Value → List String → Outcome (Unit {0})
check_required row [] = returned tt
check_required row (f ∷ fs) =
    if is_blank (get row f)
    then raised (permanent_defect ("missing required field '" ++ₛ f ++ₛ "'"))
    else check_required row fs

unfoldable pub validate : Dict Value → Outcome (Unit {0})
unfolding check_required
validate row = do
  check_required row required
  if is_none (get row "fare_amount")
      then raised (permanent_defect "fare_amount is null")
      else if is_none (get row "produced_at_ms")
      then raised (permanent_defect "produced_at_ms is null")
      else returned tt

unfoldable pub to_uuid : (String → Option String) → Value → Outcome Value
to_uuid parse_uuid (str s) = elim (parse_uuid s) [
  | none ↦ raised (value_error s)
  | some u ↦ returned (uuid u)
]
to_uuid parse_uuid v = raised (attribute_error "replace")

-- `et.replace(tzinfo=timezone.utc)` where there is no zone.
unfoldable pub with_zone : Value → Outcome Datetime
with_zone (time et) =
    returned (record et { tzinfo = elim et.tzinfo [ none ↦ some (pos 0) | some z ↦ some z ] })
with_zone v = raised (attribute_error "tzinfo")

-- `et.date()`, as days since 1970-01-01, and `et` at the start of its hour.
unfoldable pub event_date : Datetime → Value
event_date et = date (et.wall / 86400000000)

unfoldable pub event_hour : Datetime → Value
event_hour et = time (record et { wall = et.wall - et.wall % 3600000000 })

-- `row[k]` for each of some keys, from the left.
unfoldable pub cells : Dict Value → List String → Outcome (List Value)
cells row [] = returned []
cells row (k ∷ ks) = at row k >>= λ v. cells row ks >>= λ vs. returned (v ∷ vs)

-- The fields that a tuple takes from the row one after the other.
abbrev pub id_fields : List String
id_fields =
    "city_id" ∷ "driver_id" ∷ "rider_id" ∷ "pickup_zone_id" ∷ "dropoff_zone_id" ∷ "vehicle_class"
    ∷ "payment_type" ∷ "distance_km" ∷ "duration_sec" ∷ "fare_amount" ∷ "surge_multiplier"
    ∷ "status" ∷ "producer_id" ∷ "schema_version" ∷ []

abbrev pub day_fields : List String
day_fields =
    "city_id" ∷ "rider_id" ∷ "vehicle_class" ∷ "payment_type" ∷ "distance_km" ∷ "duration_sec"
    ∷ "fare_amount" ∷ "surge_multiplier" ∷ "status" ∷ []

abbrev pub hour_fields : List String
hour_fields =
    "driver_id" ∷ "rider_id" ∷ "pickup_zone_id" ∷ "dropoff_zone_id" ∷ "vehicle_class"
    ∷ "payment_type" ∷ "distance_km" ∷ "duration_sec" ∷ "fare_amount" ∷ "surge_multiplier"
    ∷ "status" ∷ []

module _ (row : Dict Value) (now : Value) (trip event : Value) (et : Datetime) where
  unfoldable pub trips_by_id : Outcome Statement
  trips_by_id = do
    p ← cells row ("produced_at_ms" ∷ [])
    rest ← cells row id_fields
    returned
        (record { table = "trips_by_id"; params = trip ∷ event ∷ time et ∷ (p ++ (now ∷ rest)) })

  unfoldable pub trips_by_driver_day : Outcome Statement
  unfolding event_date
  trips_by_driver_day = do
    d ← cells row ("driver_id" ∷ [])
    rest ← cells row day_fields
    returned (record {
      table = "trips_by_driver_day";
      params = d ++ (event_date et ∷ time et ∷ trip ∷ event ∷ (rest ++ (now ∷ [])));
    })

  unfoldable pub trips_by_city_hour : Outcome Statement
  unfolding event_hour
  trips_by_city_hour = do
    c ← cells row ("city_id" ∷ [])
    rest ← cells row hour_fields
    returned (record {
      table = "trips_by_city_hour";
      params = c ++ (event_hour et ∷ trip ∷ event ∷ time et ∷ (rest ++ (now ∷ [])));
    })

-- `if name in tables: out.append(...)`
abbrev pub append_if : Bool → Outcome Statement → List Statement → Outcome (List Statement)
append_if b s out = if b then (s >>= λ st. returned (out ++ st ∷ [])) else returned out

-- The three `if`s.
unfoldable pub statements_of :
    Dict Value → List String → Value → Value → Value → Datetime → Outcome (List Statement)
statements_of row tables now trip event et = do
  one ← append_if (contains tables "trips_by_id") (trips_by_id row now trip event et) []
  two ←
      append_if (contains tables "trips_by_driver_day") (trips_by_driver_day row now trip event et)
        one
  append_if (contains tables "trips_by_city_hour") (trips_by_city_hour row now trip event et) two

-- `uuid.UUID(row[k])`
unfoldable pub uuid_at : (String → Option String) → Dict Value → String → Outcome Value
unfolding to_uuid
uuid_at parse_uuid row k = do v ← at row k; to_uuid parse_uuid v

-- `row["event_time"]`, in UTC where it has no zone
unfoldable pub time_at : Dict Value → Outcome Datetime
unfolding with_zone
time_at row = do v ← at row "event_time"; with_zone v

unfoldable pub build_statements :
    (String → Option String) → Dict Value → List String → ℕ → Outcome (List Statement)
unfolding statements_of uuid_at time_at validate
build_statements parse_uuid row tables ingested_at_ms = do
  validate row
  trip ← uuid_at parse_uuid row "trip_id"
  event ← uuid_at parse_uuid row "event_id"
  et ← time_at row
  statements_of row tables (int (pos ingested_at_ms)) trip event et
