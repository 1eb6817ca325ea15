-- ===== src/Airflow/DlqDrain.antt =====
-- The tasks of airflow/dags/dlq_drain.py. What dlq_tools prints is a report: its counts, and the
-- values that the alerts repeat.
pub mod Breaker
mod Examples
use real_time_data_pipeline.Base.{
  String, ◌≡◌, Bool, true, false, not, List, [], ◌∷◌, Option, none, some, if◌then◌else◌,
}
use real_time_data_pipeline.Base.Dict.{Dict, lookup}
use real_time_data_pipeline.Base.Errors.{Exc, Outcome, returned, raised, key_error}
use real_time_data_pipeline.Value.{ℤ, pos, negsuc, Value, int, str}
use real_time_data_pipeline.Value.Int.{is_le, same_int}
use real_time_data_pipeline.Bench.Act.{Act, pure, lift, ◌>>=◌, ◌>>◌}
use real_time_data_pipeline.Bench.Scenario.{runtime_error}
use real_time_data_pipeline.Airflow.{Services, Python, emit_alert}

pub record Report : Type 0 where
  pub counts : Dict ℤ
  pub by_stage : Value
  pub parked_file : Value

-- A process that has ended, with what JSON makes of its output from the first brace on.
pub record Process : Type 0 where
  pub returncode : ℤ
  pub report : Outcome Report

-- `result.get(k, 0)`, and `result[k]`.
unfoldable pub count_of : Report → String → ℤ
unfolding lookup
count_of r k = elim (lookup k r.counts) [ none ↦ pos 0 | some n ↦ n ]

unfoldable pub count_at : Report → String → Outcome ℤ
unfolding lookup
count_at r k = elim (lookup k r.counts) [ none ↦ raised (key_error k) | some n ↦ returned n ]

-- What `drain_dlq` returns for an empty queue.
abbrev pub nothing_drained : Report
nothing_drained = record {
  counts =
      ("records_read", pos 0)
      ∷ ("reinjected", pos 0)
      ∷ ("direct_written", pos 0)
      ∷ ("parked", pos 0)
      ∷ ("unaccounted", pos 0)
      ∷ [];
  by_stage = Value.null;
  parked_file = Value.null;
}

-- The counts of a report as values.
abbrev pub as_values : Dict ℤ → Dict Value
as_values [] = []
as_values ((k, n) ∷ d) = (k, int n) ∷ as_values d

abbrev pub inspect_args : List String
inspect_args = "inspect" ∷ "--idle-timeout" ∷ "5" ∷ []

abbrev pub drain_args : List String
drain_args =
    "drain" ∷ "--idle-timeout" ∷ "5" ∷ "--report" ∷ "/opt/app/results/raw/dlq_drain_latest.json"
    ∷ []

-- `subprocess.run`, which may raise when the time is up, and DLQ_CIRCUIT_BREAKER.
module _ {W : Type 0} (services : Services W) (python : Python) (run : List String → Act W Process)
    (ceiling : ℤ) where
  abbrev pub output : Process → Outcome Report
  output p =
      if same_int p.returncode (pos 0) then p.report else raised (runtime_error "dlq_tools failed")

  unfoldable pub run_dlq_tool : List String → Act W Report
  unfolding same_int
  run_dlq_tool tool_args =
      run ("docker" ∷ "exec" ∷ "rtdp-producer" ∷ "python" ∷ "-m" ∷ "replay.dlq_tools" ∷ tool_args)
      >>= λ p. lift (output p)

  -- What the alerts tell of a report.
  abbrev pub oversize_payload : Report → Dict Value
  oversize_payload result =
      ("records", int (count_of result "records"))
      ∷ ("ceiling", int ceiling)
      ∷ ("by_stage", result.by_stage)
      ∷ ("action", str "drain skipped; investigate before replaying")
      ∷ []

  abbrev pub parked_payload : Report → Dict Value
  parked_payload drained =
      ("parked", int (count_of drained "parked"))
      ∷ ("file", drained.parked_file)
      ∷ ("note", str "permanently un-replayable; needs a human decision")
      ∷ []

  abbrev pub refused : Report → Act W Report
  refused result =
      emit_alert services python "dlq_circuit_breaker" (oversize_payload result)
      >> lift (raised (runtime_error "refusing to auto-drain"))

  unfoldable pub inspect_dlq : Act W Report
  unfolding run_dlq_tool count_of emit_alert is_le
  inspect_dlq = run_dlq_tool inspect_args >>= λ result.
      if is_le (count_of result "records") ceiling then pure result else refused result

  -- The error of a drain that lost records, whose message needs three counts.
  abbrev pub lost : Report → Act W Report
  lost result = do
    n ← lift (count_at result "unaccounted")
    read ← lift (count_at result "records_read")
    accounted ← lift (count_at result "accounted_for")
    lift (raised (runtime_error "drain lost records"))

  -- A drain is passed on if it accounts for all its records.
  abbrev pub accounted : Report → Act W Report
  accounted result =
      if same_int (count_of result "unaccounted") (pos 0)
      then pure result
      else (emit_alert services python "dlq_drain_unaccounted" (as_values result.counts)
          >> lost result)

  unfoldable pub drain_dlq : Report → Act W Report
  unfolding run_dlq_tool count_of count_at emit_alert same_int
  drain_dlq inspection =
      if same_int (count_of inspection "records") (pos 0)
      then pure nothing_drained
      else (run_dlq_tool drain_args >>= λ result. accounted result)

  unfoldable pub report_drain : Report → Act W Report
  unfolding count_of emit_alert is_le
  report_drain drained =
      if is_le (count_of drained "parked") (pos 0)
      then pure drained
      else (emit_alert services python "dlq_records_parked" (parked_payload drained)
          >> pure drained)

  -- The DAG: the three tasks in their order.
  unfoldable pub dlq_drain : Act W Report
  unfolding inspect_dlq drain_dlq report_drain
  dlq_drain = do inspection ← inspect_dlq; drained ← drain_dlq inspection; report_drain drained
