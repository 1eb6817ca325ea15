-- ===== src/Replay/Examples.antt =====
-- A drain of replay/dlq_tools.py: one record of each stage, and one that is over the ceiling, with a
-- broker that reports one delivery error and a Cassandra that takes every statement.
use real_time_data_pipeline.Base.{
  true, none, ℕ, zero, suc, ◌+◌, ◌≤◌, ◌≡◌, refl, String, false, some, List, [], ◌∷◌, map, length,
  arith,
}
use real_time_data_pipeline.Base.Dict.{Dict, lookup}
use real_time_data_pipeline.Base.Errors.{Exc, Outcome, returned, raised, value_error, is_instance}
use real_time_data_pipeline.Value.{Value, ℤ, pos, null, int, str, obj, fields}
use real_time_data_pipeline.Dlq.{number}
use real_time_data_pipeline.Stream.Batch.{BatchRow}
use real_time_data_pipeline.Stream.Process.{bad_envelope, late_envelope}
use real_time_data_pipeline.Replay.Drain.{
  Outside, Arguments, no_routes, route_of, to_reinject, to_direct, to_park, route_all, drain,
}
use real_time_data_pipeline.Replay.Drain.Routing.{Read, sorted, route_all_lem}
use real_time_data_pipeline.Replay.Drain.Origin.{Adds, pipeline_routes}
use real_time_data_pipeline.Retry.Call.{call_with_retry, round}
use real_time_data_pipeline.Sink.Tables.{all_tables}
use real_time_data_pipeline.Sink.Statements.{Statement}
use real_time_data_pipeline.Sink.Partition.{Session, Conf, initial}
use real_time_data_pipeline.Sink.Partition.Steps.{retry_one, reject}
use real_time_data_pipeline.Replay.Drain.Accounts.{Accounted, drain-Accounted}
use real_time_data_pipeline.Replay.Drain.Whole.{Completed, IsUp, drain-Completed}

abbrev read_int : Value → Outcome ℤ
read_int (int z) = returned z
read_int v = raised (value_error "int")

-- At most one error, and only where a message was taken.
abbrev one_error : ℕ → List String
one_error zero = []
one_error (suc n) = "MSG_TIMED_OUT" ∷ []

one_error-length : (n : ℕ) → length (one_error n) ≤ n
one_error-length zero = omega arith
one_error-length (suc n) = omega arith

abbrev outside : Outside ℕ
outside = record {
  codec = record {
    loads = λ s. some (obj (fields (("trip_id", str "t1") ∷ [])));
    dumps = λ v. "{}";
  };
  to_int = read_int;
  repr = λ v. "value";
  parse_uuid = λ s. some s;
  from_iso = λ v. returned v;
  produce = λ key value n. (returned tt, n + 1);
  open_producer = λ n. (returned tt, n);
  flush = λ sent n. (returned (one_error sent), n);
  connect = λ n. (returned tt, n);
  execute = λ st n. (returned tt, n);
  clock_ms = λ n. (5, n);
  write_parked = λ rs n. (returned tt, n);
  write_report = λ r n. (returned tt, n);
}

abbrev args : Arguments
args = record { has_report = true; max_replays = 3; dry_run = false }

abbrev dead : ℕ → String → Dict Value
dead replays stage =
    ("original_payload", str "{}")
    ∷ ("failure_stage", str stage)
    ∷ ("replay_count", number replays)
    ∷ []

abbrev read_of : ℕ → String → Read
read_of replays stage = record { row = dead replays stage; replays = pos replays; stage = stage }

abbrev reads : List Read
reads =
    read_of 0 "cassandra_sink"
    ∷ read_of 1 "producer"
    ∷ read_of 0 "late_event"
    ∷ read_of 0 "parse"
    ∷ read_of 3 "producer"
    ∷ []

abbrev recs : List (Dict Value)
recs = map (λ (r : Read). r.row) reads

route_all_lem_example : route_all outside 3 recs no_routes ≡ returned (sorted outside 3 reads)
unfolding lookup
route_all_lem_example =
    route_all_lem outside 3 reads
      ((refl, refl), ((refl, refl), ((refl, refl), ((refl, refl), ((refl, refl), tt)))))

drain-Accounted_example : Accounted 5 (drain outside args recs 0).0
drain-Accounted_example = drain-Accounted outside args recs 0 (λ sent n. one_error-length sent)

is_up : IsUp outside
is_up = record {
  opens = λ n. tt;
  flushes = λ sent n. tt;
  connects = λ n. tt;
  parks = λ rs n. tt;
  reports = λ r n. tt;
}

drain-Completed_example : Completed outside 3 reads (drain outside args recs 0).0
unfolding lookup
drain-Completed_example =
    drain-Completed outside args reads 0 (λ sent n. one_error-length sent) refl is_up
      ((refl, refl), ((refl, refl), ((refl, refl), ((refl, refl), ((refl, refl), tt)))))

abbrev row : BatchRow
row = record {
  raw = str "not json";
  topic = str "trips.raw";
  partition = number 0;
  offset = number 7;
  unparseable = true;
  event_id = null;
  event_time = none;
  row = [];
}

-- A session whose writes all time out, and the sink before its first row.
abbrev timeout : Exc
timeout = record { name = "WriteTimeout"; bases = []; message = "quorum" }

abbrev session : Session ℕ
session = record {
  execute = λ st n. (raised timeout, n + 1);
  execute_concurrent = λ sts n. ([], n);
  clock_ms = λ n. (9, n);
  sleep = λ t n. n;
  draws = λ n i. 500;
  is_sampled = λ n. (false, n);
  write_samples = λ samples n. n;
  codec = outside.codec;
  host = "worker-1";
  isoformat = λ t. "";
  parse_uuid = λ s. some s;
  to_int = read_int;
}

abbrev sink_conf : Conf
sink_conf = record {
  tables = all_tables;
  source_topic = str "trips.raw";
  chunk_size = 400;
  retry = record { backoff_schedule_ms = 1000 ∷ []; max_attempts = 2; jitter_ratio = 0 };
}

abbrev statement : Statement
statement = record { table = "trips_by_id"; params = [] }

pipeline_routes_example :
    Adds outside 3 session sink_conf to_reinject []
      (retry_one session sink_conf ([], statement, timeout) initial 0).part.yields
    × Adds outside 3 session sink_conf
        (to_park "stage value is not automatically recoverable")
        []
        (reject session sink_conf [] timeout initial 0).0.yields
    × (route_of outside 3 (bad_envelope 9 row).1
        ≡ returned (to_park "stage value is not automatically recoverable"))
    × (route_of outside 3 (late_envelope "t" 9 row).1 ≡ returned to_direct)
pipeline_routes_example =
    pipeline_routes outside 3 session sink_conf (omega arith) refl [] statement timeout initial 0
      "t" 9 row

-- The write is tried once more and then quarantined.
quarantined :
    length (retry_one session sink_conf ([], statement, timeout) initial 0).part.yields ≡ 1
unfolding retry_one is_instance call_with_retry round
quarantined = refl
