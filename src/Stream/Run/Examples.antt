-- ===== src/Stream/Run/Examples.antt =====
-- A run of the stream job for five seconds, which nothing stops before its time.
use real_time_data_pipeline.Base.{ℕ, ◌+◌, ◌≡◌, refl, true, false, some, inl, arith}
use real_time_data_pipeline.Base.Errors.{Outcome, returned}
use real_time_data_pipeline.Stream.Run.{RunArgs, Job, start_up, run}
use real_time_data_pipeline.Stream.Run.Shutdown.{IsSteady, IsQuiet, run-HasEnded}

-- The clock, and how many summaries have been written.
record World : Type 0 where
  clock : ℕ
  written : ℕ

abbrev job : Job World
job = record {
  start = λ q w. (returned tt, w);
  start_lag_monitor = λ w. (returned tt, w);
  write_ready = λ w. (returned tt, w);
  is_active = λ q w. (returned true, w);
  exists_stop_file = λ w. (returned false, w);
  is_stop_set = λ w. (returned false, w);
  now = λ w. (returned w.clock, w);
  await_termination = λ w. (returned tt, record w { clock = w.clock + 2000 });
  stop = λ q w. (returned tt, w);
  write_summary = λ w. (returned tt, record w { written = w.written + 1 });
  stop_spark = λ w. (returned tt, w);
}

abbrev args : RunArgs
args = record { duration = 5000; with_rollup = true; has_stop_file = true; has_ready_file = false }

steady : IsSteady job args (λ w. w.clock) (λ w. true) (λ w. w.written)
steady = record {
  tells = λ w. refl;
  waits = λ w. inl (omega arith);
  sees = λ w. refl;
  now_keeps = λ w. refl;
  is_active_keeps = λ q w. refl;
  exists_keeps = λ w. refl;
  is_stop_set_keeps = λ w. refl;
  waits_quietly = λ w. refl;
}

quiet : IsQuiet job args (λ w. w.clock) (λ w. true) (λ w. w.written)
quiet = record {
  answers = λ q w. (true, refl);
  stops = λ q w. refl;
  stop_keeps = λ q w. refl;
  writes = λ w. refl;
  stop_spark_keeps = λ w. refl;
}

abbrev begin : World
begin = record { clock = 100; written = 0 }

run-HasEnded_example :
    (r : Outcome (Unit {0}) × World) × (run job args 5 begin ≡ some r) × (r.1.written ≡ 1)
unfolding start_up
run-HasEnded_example =
    run-HasEnded job args (λ w. w.clock) (λ w. true) (λ w. w.written) steady quiet 5 5100 begin
      begin refl (omega arith) (omega arith)
