-- ===== src/Stream/Examples.antt =====
-- Batches of streaming/stream_job.py with a late row, a row without a time, and one that is unparseable.
use real_time_data_pipeline.Base.{
  ℕ, keep, ◌+◌, ◌≡◌, refl, Bool, true, false, Option, none, some, List, [], ◌∷◌, length,
}
use real_time_data_pipeline.Value.{str}
use mathlib.Core.List.{append-nil}
use real_time_data_pipeline.Base.{map, length-map, concat}
use real_time_data_pipeline.Base.Errors.{Exc, returned, raised, type_error}
use real_time_data_pipeline.Sink.Tables.{all_tables}
use real_time_data_pipeline.Sink.Statements.{Statement}
use real_time_data_pipeline.Sink.Partition.{Session, Conf, Part}
use real_time_data_pipeline.Sink.Partition.Steps.{write_partition}
use real_time_data_pipeline.Sink.Partition.Accounts.Loops.{After}
use real_time_data_pipeline.Stream.Process.{Spark, StreamState, process_batch}
use real_time_data_pipeline.Stream.Process.Accounts.{BatchAccount, process_batch-BatchAccount}
use real_time_data_pipeline.Dlq.{number}
use real_time_data_pipeline.Stream.Batch.{BatchRow, StreamConf, route, marks}
use real_time_data_pipeline.Stream.Batch.Routing.{is_good, IsRouted, route_accounts}
use real_time_data_pipeline.Stream.Batch.Mark.{peak, marks_lem}

abbrev conf : StreamConf
conf = record { allowed_lateness_sec = 60; late_policy = "dlq" }

abbrev row_at : Bool → Option ℕ → BatchRow
row_at unparseable t = record {
  raw = str "{}";
  topic = str "trips.raw";
  partition = number 0;
  offset = number 0;
  unparseable = unparseable;
  event_id = str "e1";
  event_time = t;
  row = [];
}

-- The mark stands at 200 s, so that the cutoff is at 140 s.
abbrev batch : List BatchRow
batch =
    row_at false (some 100000000)
    ∷ row_at false (some 210000000)
    ∷ row_at false none
    ∷ row_at true none
    ∷ []

route_accounts_example : IsRouted conf (some 200000) batch (route conf (some 200000) batch)
route_accounts_example = route_accounts conf (some 200000) batch refl

-- The first row is late, the second is written, the third is lost.
places_of_batch :
    let r = route conf (some 200000) batch in
    (length r.bad ≡ 1) × (length r.late ≡ 1) × (length r.good ≡ 1) × (length batch ≡ 4)
unfolding route
places_of_batch = (refl, refl, refl, refl)

-- The unparseable row and the one without a time do not move the mark.
marks_lem_example :
    marks conf (some 200000) (batch ∷ batch ∷ [])
    ≡ some (peak 200000 (keep is_good (concat (batch ∷ batch ∷ []))))
marks_lem_example = marks_lem conf 200000 (batch ∷ batch ∷ [])

-- A run of Spark with one partition, and a session that writes every statement.
abbrev all_fine : Statement → Option Exc
all_fine st = none

abbrev session : Session ℕ
session = record {
  execute = λ st n. (returned tt, n);
  execute_concurrent = λ sts n. (map all_fine sts, n);
  clock_ms = λ n. (1700000000900, n);
  sleep = λ t n. n;
  draws = λ n i. 500;
  is_sampled = λ n. (false, n);
  write_samples = λ samples n. n;
  codec = record { loads = λ s. none; dumps = λ v. "{}" };
  host = "worker-1";
  isoformat = λ t. "";
  parse_uuid = λ s. some s;
  to_int = λ v. raised (type_error "int");
}

abbrev sink_conf : Conf
sink_conf = record {
  tables = all_tables;
  source_topic = str "trips.raw";
  chunk_size = 400;
  retry = record { backoff_schedule_ms = 1000 ∷ []; max_attempts = 2; jitter_ratio = 0 };
}

abbrev one_partition : List BatchRow → List (List BatchRow)
one_partition rs = rs ∷ []

concat-one_partition : (rs : List BatchRow) → concat (one_partition rs) ≡ rs
concat-one_partition rs = append-nil rs

abbrev spark : Spark ℕ
spark = record {
  write_dlq = λ rs n. (returned tt, n + length rs);
  write_yields = λ ys n. (returned tt, n + length ys);
  unix_timestamp = λ n. (1700000000, n);
  partitions = one_partition;
  isoformat = λ t. "1970-01-01";
}

abbrev stream : StreamState
stream = record { max_event_ms = some 200000; batch_reports = [] }

process_batch-BatchAccount_example :
    After
      (process_batch spark session sink_conf conf 7 batch stream 0).0
      (BatchAccount spark session sink_conf conf batch stream)
process_batch-BatchAccount_example =
    process_batch-BatchAccount spark session sink_conf conf (λ sts n. length-map sts all_fine)
      concat-one_partition 7 batch stream 0

-- A partition of one row, which has no fields and is quarantined.
abbrev part : Part
part = (write_partition session sink_conf ([] ∷ []) 0).part
