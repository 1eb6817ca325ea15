-- ===== src/Producer/Examples.antt =====
-- A run of producer/produce.py with a client whose queue is full at every second call, and which reports
-- a failure at every poll.
use real_time_data_pipeline.Producer.Pacing.{budget, pace, IsPaced, pace-IsPaced}
use real_time_data_pipeline.Base.{
  List, ◌≡◌, ◌⊎◌, arith, ℕ, ◌+◌, ◌%◌, ◌==◌, refl, none, some, [], ◌∷◌, if◌then◌else◌,
}
use real_time_data_pipeline.Base.Errors.{Exc, returned, raised}
use real_time_data_pipeline.Retry.Stats.{fresh}
use real_time_data_pipeline.Producer.{Message, idle, burst, Client, RunnerConf, Runner, run}
use real_time_data_pipeline.Producer.Accounts.{IsAccounted, Unless, run-IsAccounted}

abbrev queue_full : Exc
queue_full = record { name = "BufferError"; bases = "Exception" ∷ []; message = "queue full" }

abbrev client : Client ℕ
client = record {
  produce = λ topic key payload n. (if n % 2 == 0 then raised queue_full else returned tt, n + 1);
  produce_dlq = λ key payload n. (returned tt, n + 1);
  poll = λ n. ((some "MSG_TIMED_OUT", "{}") ∷ [], n);
  flush = λ t n. ((none, "{}") ∷ [], n);
  clock_ms = λ n. (1700000000000, n);
  sleep = λ t n. n;
  draws = λ n i. 500;
  codec = record { loads = λ s. none; dumps = λ v. "{}" };
  host = "producer-1";
}

abbrev conf : RunnerConf
conf = record {
  topic = "trips.raw";
  retry_cfg = record { backoff_schedule_ms = 1000 ∷ []; max_attempts = 2; jitter_ratio = 0 };
  flush_timeout = 60;
}

abbrev fresh_runner : Runner ℕ
fresh_runner = record {
  sent = 0;
  acked = 0;
  failed = 0;
  dlq_count = 0;
  logged_lost = 0;
  failed_payloads = [];
  world = 0;
}

abbrev message : Message
message = ("t1", "{}")

run-IsAccounted_example :
    Unless
      (IsAccounted 3)
      (run client conf
        (burst (message ∷ message ∷ []) ∷ idle ∷ burst (message ∷ []) ∷ [])
        fresh
        fresh_runner).0
run-IsAccounted_example =
    run-IsAccounted client conf (burst (message ∷ message ∷ []) ∷ idle ∷ burst (message ∷ []) ∷ [])
      fresh 0 fresh_runner refl

abbrev readings : List (ℕ × ℕ)
readings = (0, 1000) ∷ (100000, 100000) ∷ (900000, 2500000) ∷ (1000001, 2600000) ∷ []

pace-IsPaced_example :
    IsPaced 1000 2600000 0 (pace 1000 1000000 readings 0)
    × ((100 + budget 1000 2500000 100 ≡ 2500) ⊎ (budget 1000 2500000 100 ≡ 2000))
pace-IsPaced_example =
    pace-IsPaced 1000 1000000 2600000 2500000 100 readings (omega arith)
      (omega arith, (omega arith, (omega arith, (omega arith, tt))))
