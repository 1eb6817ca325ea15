-- ===== src/Airflow/DlqDrain/Examples.antt =====
-- A run of the DAG of airflow/dags/dlq_drain.py over a queue of two records, one of which is parked.
use text.Mathlib.Text.{◌==◌ as str_eq}
use real_time_data_pipeline.Base.{
  ℕ, ◌+◌, ◌≡◌, refl, String, false, true, none, List, [], ◌∷◌, if◌then◌else◌,
}
use real_time_data_pipeline.Base.Errors.{returned}
use real_time_data_pipeline.Value.{pos, null, str}
use real_time_data_pipeline.Value.Int.{is_le, same_int}
use real_time_data_pipeline.Bench.Act.{Act, pure}
use real_time_data_pipeline.Bench.Act.Sound.{Returns}
use real_time_data_pipeline.Airflow.{Services, Python}
use real_time_data_pipeline.Airflow.DlqDrain.{Report, Process, count_of, run_dlq_tool, dlq_drain}
use real_time_data_pipeline.Airflow.DlqDrain.Breaker.{CountsDrains, dlq_drain-IsLossless}

abbrev services : Services ℕ
services = record {
  cassandra_session = pure tt;
  shutdown = pure tt;
  select = λ c h. pure [];
  select_count = λ c h. pure none;
  pg_conn = pure tt;
  execute_values = λ p. pure tt;
  rowcount = pure 0;
  count_between = λ a b. pure 0;
  insert_audit = λ a b h. pure 1;
  update_audit = λ i n h e. pure tt;
  commit = pure tt;
  close = pure tt;
  xcom_push = λ n. pure tt;
  utc_now = pure "2026-08-14T06:00:00+00:00";
  append_log = λ text. pure tt;
  post_webhook = λ text. pure tt;
}

abbrev python : Python
python = record {
  to_float = λ v. returned v;
  to_int = λ v. returned v;
  dumps = λ d. returned "{}";
  has_webhook = false;
}

abbrev inspection : Report
inspection = record {
  counts = ("records", pos 2) ∷ [];
  by_stage = str "sink: 2";
  parked_file = null;
}

abbrev drained : Report
drained = record {
  counts = ("unaccounted", pos 0) ∷ ("parked", pos 1) ∷ [];
  by_stage = null;
  parked_file = str "parked.ndjson";
}

-- The world counts the drains.
abbrev run : List String → Act ℕ Process
run (a ∷ b ∷ c ∷ d ∷ e ∷ f ∷ command ∷ rest) n =
    if str_eq command "drain"
    then (returned (record { returncode = pos 0; report = returned drained }), n + 1)
    else (returned (record { returncode = pos 0; report = returned inspection }), n)
run args n = (returned (record { returncode = pos 1; report = returned inspection }), n)

counts : CountsDrains services python run (pos 20000) (λ n. n)
unfolding real_time_data_pipeline.Airflow.emit_alert
counts = record { inspects = λ n. refl; starts = λ n. refl; alerts = λ kind payload n. refl }

dlq_drain-IsLossless_example :
    ((dlq_drain services python run (pos 20000) 6).1 ≡ 7)
    × Returns
        (λ (r : Report).
          (is_le (count_of inspection "records") (pos 20000) ≡ true)
          × (same_int (count_of r "unaccounted") (pos 0) ≡ true))
        (dlq_drain services python run (pos 20000) 6).0
unfolding run_dlq_tool is_le same_int count_of
dlq_drain-IsLossless_example =
    dlq_drain-IsLossless services python run (pos 20000) (λ n. n) counts inspection 6 refl
