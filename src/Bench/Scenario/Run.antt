-- ===== src/Bench/Scenario/Run.antt =====
-- `build_report` and `run` of bench/run_scenario.py. How the thread that injects the fault runs beside the
-- producer is an argument.
use text.Mathlib.Text.{◌==◌ as str_eq}
use Prim.Native.String.{◌++◌ as ◌++ₛ◌}
use real_time_data_pipeline.Base.{
  String, Bool, true, false, Option, none, some, List, [], ◌∷◌, length, if◌then◌else◌,
}
use real_time_data_pipeline.Base.Dict.{Dict}
use real_time_data_pipeline.Base.Errors.{returned, raised, is_instance}
use real_time_data_pipeline.Value.{pos, Value, obj, entries}
use real_time_data_pipeline.Value.Int.{◌-ℤ◌, max_int}
use real_time_data_pipeline.Bench.Act.{Act, pure, lift, ◌>>=◌, ◌>>◌, except, finally}
use real_time_data_pipeline.Bench.Scenario.{
  Host, Scenario, ScenarioArgs, call, mark, p_progress, p_lag, p_ready, p_stop,
}
use real_time_data_pipeline.Bench.Scenario.Offsets.{
  topic_count, health_gate, truncate, clean_checkpoint, count_cassandra, dlq_distinct_events,
}
use real_time_data_pipeline.Bench.Scenario.Waits.{
  read_ndjson, Drain, wait_ready, stop_stream, wait_for_drain,
}
use real_time_data_pipeline.Bench.Scenario.Fault.{inject_fault}
use real_time_data_pipeline.Bench.Scenario.Report.{
  get_count, get_int, reconcile, lag_series, lag_report, non_empty_of, ScenarioReport, FaultOutcome,
  reported, failed,
}

module _ {W : Type 0} (host : Host W) (args : ScenarioArgs) where
  abbrev pub dict_or_empty : Option Value → Dict Value
  dict_or_empty (some (obj fs)) = entries fs
  dict_or_empty v = []

  -- `_load_json(path) or {}`, for a file that holds a dict.
  unfoldable pub load_json : String → Act W (Dict Value)
  load_json path w =
      let (text, w1) = host.read path w in
      (returned (elim text [ none ↦ [] | some t ↦ dict_or_empty (host.loads t) ]), w1)

  abbrev pub fields_of : Act (Scenario W) (Scenario W)
  fields_of s = (returned s, s)

  unfoldable pub build_report : FaultOutcome → Drain → Act (Scenario W) ScenarioReport
  unfolding load_json read_ndjson topic_count dlq_distinct_events count_cassandra reconcile
      lag_series lag_report non_empty_of max_int ◌-ℤ◌
  build_report fault drain = do
    producer ← call host (load_json ("results/raw/" ++ₛ args.run_id ++ₛ "_producer.json"))
    batches ← call host (read_ndjson host (p_progress args.run_id))
    lag ← call host (read_ndjson host (p_lag args.run_id))
    self ← fields_of
    dlq_count ← call host (topic_count host "trips.dlq")
    dlq_info ← call host (dlq_distinct_events host)
    dlq_run ← lift (get_count dlq_info "distinct_event_ids")
    cass ← call host (count_cassandra host)
    raw_count ← call host (topic_count host "trips.raw")
    acked ← lift (get_count producer "acked")
    dupes ← lift (get_count producer "duplicates_emitted")
    series ← lift (lag_series lag)
    non_empty ← lift (non_empty_of batches)
    pure (record {
      run_id = args.run_id;
      reconciliation =
          reconcile (max_int (pos 0) (raw_count -ℤ self.raw_before)) acked dupes
            (get_int cass "trips_by_id" -ℤ self.trips_before)
            (max_int (pos 0) (dlq_count -ℤ self.dlq_before)) dlq_run;
      lag = lag_report series;
      drain = drain;
      batch_count = length batches;
      non_empty = non_empty;
      fault = fault;
    })

  -- `start_stream`: the files of an earlier run are removed, then the job is started.
  abbrev pub remove_all : List String → W → W
  remove_all [] w = w
  remove_all (p ∷ ps) w =
      let (is_there, w1) = host.exists p w in
      remove_all ps (if is_there then host.remove p w1 else w1)

  unfoldable pub start_stream : Act (Scenario W) (Unit {0})
  start_stream s =
      let w =
        remove_all
          (p_progress args.run_id
            ∷ p_lag args.run_id
            ∷ p_ready args.run_id
            ∷ p_stop args.run_id
            ∷ [])
          s.world in
      mark "stream_start" (record s { has_stream = true; world = host.popen args.stream_cmd w })

  -- `run_producer`, whose exit code is only logged.
  unfoldable pub run_producer : Act (Scenario W) (Unit {0})
  run_producer =
      mark "producer_start" >> call host (host.run args.producer_cmd) >>= λ _. mark "producer_stop"

  abbrev pub when : Bool → Act (Scenario W) (Unit {0}) → Act (Scenario W) (Unit {0})
  when true m s = m s
  when false m s = (returned tt, s)

  -- The chaos thread, with what it leaves in `holder`.
  abbrev pub chaos : Act (Scenario W) FaultOutcome
  chaos =
      except (inject_fault host args >>= λ r. pure (reported r))
        (λ e. if is_instance ("Exception" ∷ []) e then pure (failed e) else lift (raised e))

  -- The counts before the run.
  unfoldable pub take_counts : Act (Scenario W) (Unit {0})
  unfolding topic_count count_cassandra
  take_counts = do
    dlq ← call host (topic_count host "trips.dlq")
    raw ← call host (topic_count host "trips.raw")
    trips ←
        (if args.truncate
          then pure (pos 0)
          else (call host (count_cassandra host) >>= λ c. pure (get_int c "trips_by_id")))
    λ s. (returned tt, record s { dlq_before = dlq; raw_before = raw; trips_before = trips })

  module _
      (beside : Act (Scenario W) FaultOutcome
        → Act (Scenario W) (Unit {0})
        → Act (Scenario W) FaultOutcome) where
    unfoldable pub produce : Act (Scenario W) FaultOutcome
    unfolding inject_fault run_producer is_instance
    produce =
        if str_eq args.fault "none"
        then (run_producer >> pure (reported none))
        else beside chaos run_producer

    -- What the `try` of `run` guards.
    abbrev pub measured : Act (Scenario W) (FaultOutcome × Drain)
    measured = do
      u ← wait_ready host args 240000
      fault ← produce
      drain ← wait_for_drain host args args.drain_timeout
      pure (fault, drain)

    unfoldable pub run : Act (Scenario W) ScenarioReport
    unfolding health_gate truncate clean_checkpoint take_counts start_stream wait_ready produce
        wait_for_drain stop_stream build_report
    run = do
      health ← call host (health_gate host)
      u ← when args.truncate (call host (truncate host))
      v ← when args.clean_checkpoint (call host (clean_checkpoint host))
      t ← take_counts
      x ← start_stream
      (fault, drain) ← finally measured (stop_stream host args)
      build_report fault drain
