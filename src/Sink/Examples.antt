-- ===== src/Sink/Examples.antt =====
-- The sink of streaming/cassandra_sink.py on an event that is complete and on one that is not, with a
-- database that is a function from keys to rows, and with a session that fails some writes.
use text.Mathlib.Text.{◌==◌ as str_eq}
use text.Mathlib.TextEquality.{eq_iff}
use real_time_data_pipeline.Base.{
  ℕ, ◌+◌, ◌%◌, ◌==◌, ◌≡◌, refl, String, Bool, true, false, ◌&&◌, Option, none, some, List, [], ◌∷◌,
  map, concat, arith, length, length-map, if◌then◌else◌,
}
use real_time_data_pipeline.Base.Dict.{Dict}
use real_time_data_pipeline.Base.Errors.{Exc, Outcome, returned, raised, type_error}
use real_time_data_pipeline.Value.{
  Value, int, float, str, time, uuid, date, pos, get, at, is_blank, is_none,
}
use real_time_data_pipeline.Dlq.{number}
use real_time_data_pipeline.Sink.Tables.{all_tables, columns, primary_key}
use real_time_data_pipeline.Sink.Statements.{Statement, build_statements, validate}
use real_time_data_pipeline.Sink.Statements.Built.{Built, build_statements_lem}
use real_time_data_pipeline.Sink.Statements.Validate.{IsComplete, Verdict, validate_lem}
use real_time_data_pipeline.Sink.Ring.{Key, key_of, Ring, view, write_all}
use real_time_data_pipeline.Sink.Ring.Redelivery.{redelivery_of_batch}
use real_time_data_pipeline.Sink.Partition.{Session, Conf}
use real_time_data_pipeline.Sink.Partition.Steps.{write_partition}
use real_time_data_pipeline.Sink.Partition.Accounts.Loops.{IsDone}
use real_time_data_pipeline.Sink.Partition.Accounts.Whole.{write_partition-IsDone}

abbrev trip : Dict Value
trip =
    ("event_id", str "e1")
    ∷ ("trip_id", str "t1")
    ∷ ("event_time", time (record { wall = 1700000000000000; tzinfo = none }))
    ∷ ("produced_at_ms", number 1700000000500)
    ∷ ("city_id", number 3)
    ∷ ("driver_id", number 17)
    ∷ ("rider_id", number 99)
    ∷ ("pickup_zone_id", number 4)
    ∷ ("dropoff_zone_id", number 5)
    ∷ ("vehicle_class", str "standard")
    ∷ ("payment_type", str "card")
    ∷ ("distance_km", float "3.25")
    ∷ ("duration_sec", number 600)
    ∷ ("fare_amount", float "12.5")
    ∷ ("surge_multiplier", float "1.0")
    ∷ ("status", str "completed")
    ∷ ("producer_id", str "p0")
    ∷ ("schema_version", number 1)
    ∷ []

-- `uuid.UUID` on texts that are UUIDs already.
abbrev parse_uuid : String → Option String
parse_uuid s = if str_eq s "" then none else some s

abbrev or_nothing : Outcome (List Statement) → List Statement
or_nothing (returned sts) = sts
or_nothing (raised e) = []

abbrev statements : ℕ → List Statement
statements ms = or_nothing (build_statements parse_uuid trip all_tables ms)

are_built : (ms : ℕ) → build_statements parse_uuid trip all_tables ms ≡ returned (statements ms)
unfolding build_statements is_blank get is_none at
    real_time_data_pipeline.Sink.Statements.trips_by_id
    real_time_data_pipeline.Sink.Statements.cells
    real_time_data_pipeline.Sink.Statements.trips_by_driver_day
    real_time_data_pipeline.Sink.Statements.trips_by_city_hour
are_built ms = refl

validate_lem_example : Verdict (IsComplete trip) (validate trip)
validate_lem_example = validate_lem trip

build_statements_lem_example : Built parse_uuid trip all_tables 5 (statements 5)
build_statements_lem_example = build_statements_lem parse_uuid trip all_tables 5 (are_built 5)

-- Equality of the values that a primary key can hold, and of keys.
abbrev same_value : Value → Value → Bool
same_value (uuid a) (uuid b) = str_eq a b
same_value (int (pos a)) (int (pos b)) = a == b
same_value (date a) (date b) = a == b
same_value (time a) (time b) = a.wall == b.wall
same_value a b = false

abbrev same_values : List Value → List Value → Bool
same_values [] [] = true
same_values (a ∷ xs) (b ∷ ys) = same_value a b && same_values xs ys
same_values xs ys = false

abbrev same_key : Key → Key → Bool
same_key j k = str_eq j.0 k.0 && same_values j.1 k.1

same_key-table : (j k : Key) → same_key j k ≡ true → j.0 ≡ k.0
same_key-table j k h = ground (arith, eq_iff j.0 k.0, h)

abbrev keyspace : Ring
keyspace = record {
  State = Key → Option (List Value);
  read = λ s k. s k;
  upsert = λ st s k. if same_key (key_of st) k then some st.params else s k;
  same = same_key;
  same_table = same_key-table;
  read-upsert = λ st s k. refl;
}

abbrev empty_keyspace : Key → Option (List Value)
empty_keyspace k = none

abbrev trip_key : Key
trip_key = ("trips_by_id", uuid "t1" ∷ [])

redelivery_of_batch_example :
    view keyspace
      (write_all keyspace
        (concat (statements 9 ∷ statements 9 ∷ []))
        (write_all keyspace (concat (statements 5 ∷ statements 5 ∷ [])) empty_keyspace))
      trip_key
    ≡ view keyspace
        (write_all keyspace (concat (statements 5 ∷ statements 5 ∷ [])) empty_keyspace)
        trip_key
redelivery_of_batch_example =
    redelivery_of_batch parse_uuid all_tables 5 9 keyspace empty_keyspace trip_key
      (trip ∷ trip ∷ []) (statements 5 ∷ statements 5 ∷ []) (statements 9 ∷ statements 9 ∷ [])
      (are_built 5, (are_built 5, tt)) (are_built 9, (are_built 9, tt))

-- The row is there: the view is not empty.
trip_is_stored :
    view keyspace (write_all keyspace (statements 5) empty_keyspace) trip_key
    ≡ view keyspace (write_all keyspace (statements 9) empty_keyspace) trip_key
unfolding view write_all key_of build_statements columns primary_key
    real_time_data_pipeline.Sink.Statements.trips_by_id
    real_time_data_pipeline.Sink.Statements.trips_by_driver_day
    real_time_data_pipeline.Sink.Statements.trips_by_city_hour
    real_time_data_pipeline.Sink.Statements.cells at is_blank get is_none
    real_time_data_pipeline.Sink.Ring.cell
trip_is_stored = refl

-- A session on a counter of calls: the first statement of a concurrent batch fails for want of a
-- node, the others are written, and a single write fails at every second call.
abbrev unavailable : Exc
unavailable = record { name = "Unavailable"; bases = "Exception" ∷ []; message = "node down" }

abbrev all_fine : Statement → Option Exc
all_fine st = none

abbrev first_fails : List Statement → List (Option Exc)
first_fails [] = []
first_fails (st ∷ sts) = some unavailable ∷ map all_fine sts

first_fails-length : (sts : List Statement) → length (first_fails sts) ≡ length sts
first_fails-length [] = refl
first_fails-length (st ∷ sts) = omega (arith, length-map sts all_fine)

abbrev session : Session ℕ
session = record {
  execute = λ st n. (if n % 2 == 0 then raised unavailable else returned tt, n + 1);
  execute_concurrent = λ sts n. (first_fails sts, n);
  clock_ms = λ n. (1700000000900, n);
  sleep = λ t n. n;
  draws = λ n i. 500;
  is_sampled = λ n. (false, n);
  write_samples = λ samples n. n;
  codec = record { loads = λ s. none; dumps = λ v. "{}" };
  host = "worker-1";
  isoformat = λ t. "";
  parse_uuid = parse_uuid;
  to_int = λ v. raised (type_error "int");
}

abbrev conf : Conf
conf = record {
  tables = all_tables;
  source_topic = str "trips.raw";
  chunk_size = 2;
  retry = record { backoff_schedule_ms = 1000 ∷ 2000 ∷ []; max_attempts = 3; jitter_ratio = 0 };
}

-- Two events with three statements each, and one without an id, which ends in one envelope.
abbrev rows : List (Dict Value)
rows = trip ∷ [] ∷ trip ∷ []

write_partition-IsDone_example : IsDone (write_partition session conf rows 0) 7
unfolding build_statements is_blank get is_none at
    real_time_data_pipeline.Sink.Statements.trips_by_id
    real_time_data_pipeline.Sink.Statements.cells
    real_time_data_pipeline.Sink.Statements.trips_by_driver_day
    real_time_data_pipeline.Sink.Statements.trips_by_city_hour
write_partition-IsDone_example =
    write_partition-IsDone session conf (λ sts n. first_fails-length sts) rows 0
