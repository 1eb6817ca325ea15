-- ===== src/Bench/Scenario.antt =====
-- bench/run_scenario.py. The host is a record of what the script calls outside of Python; a `Scenario`
-- is the object's fields and the host's state. Times are milliseconds; `int_of` is `int`, and `millis` what
-- a JSON number of seconds is in milliseconds.
pub mod Offsets
pub mod Waits
pub mod Fault
pub mod Report
pub mod Run
pub mod Loops
pub mod Drained
mod Examples
use Prim.Native.String.{◌++◌ as ◌++ₛ◌}
use real_time_data_pipeline.Base.{
  ℕ, String, Bool, true, false, Option, none, some, List, [], ◌∷◌, ◌++◌,
}
use real_time_data_pipeline.Base.Errors.{Exc, Outcome, returned, raised}
use real_time_data_pipeline.Value.{ℤ, pos, negsuc, Value}
use real_time_data_pipeline.Bench.Act.{Act}

pub record CompletedProcess : Type 0 where
  pub returncode : ℤ
  pub stdout : String
  pub stderr : String

pub record Host (W : Type 0) : Type 0 where
  pub run : List String → Act W CompletedProcess
  pub popen : List String → W → W
  pub poll : W → Option ℤ × W
  pub wait : ℕ → Act W (Unit {0})
  pub kill : W → W
  pub now : W → ℕ × W
  pub sleep : ℕ → W → W
  pub exists : String → W → Bool × W
  pub remove : String → W → W
  pub read : String → W → Option String × W
  pub write : String → String → W → W
  pub to_int : String → Outcome ℤ
  pub int_of : Value → Outcome ℤ
  pub millis : Value → Outcome ℕ
  pub loads : String → Option Value
  pub dumps : Value → String
  pub show : ℕ → String

pub record ScenarioArgs : Type 0 where
  pub run_id : String
  pub fault : String
  pub fault_target : String
  pub fault_at : ℕ
  pub restart_after : ℕ
  pub drain_timeout : ℕ
  pub drain_confirm_polls : ℕ
  pub ready_grace : ℕ
  pub truncate : Bool
  pub clean_checkpoint : Bool
  pub stream_cmd : List String
  pub producer_cmd : List String

-- An entry of `self.events`, by its name.
pub record Scenario (W : Type 0) : Type 0 where
  pub events : List String
  pub dlq_before : ℤ
  pub raw_before : ℤ
  pub trips_before : ℤ
  pub has_stream : Bool
  pub world : W

abbrev pub kafka_containers : List String
kafka_containers = "rtdp-kafka1" ∷ "rtdp-kafka2" ∷ "rtdp-kafka3" ∷ []

abbrev pub cassandra_containers : List String
cassandra_containers = "rtdp-cassandra1" ∷ "rtdp-cassandra2" ∷ "rtdp-cassandra3" ∷ []

abbrev pub trip_tables : List String
trip_tables =
    "trips_by_id" ∷ "trips_by_driver_day" ∷ "trips_by_city_hour" ∷ "latency_samples"
    ∷ "city_minute_rollup" ∷ []

abbrev pub runtime_error : String → Exc
runtime_error message = record {
  name = "RuntimeError";
  bases = "Exception" ∷ "BaseException" ∷ [];
  message = message;
}

module _ {W : Type 0} (host : Host W) where
  -- A call of the host in a method.
  abbrev pub on_world {ℓ} : {A : Type ℓ} → Outcome A × W → Scenario W → Outcome A × Scenario W
  on_world (o, w) s = (o, record s { world = w })

  abbrev pub call {ℓ} : {A : Type ℓ} → Act W A → Act (Scenario W) A
  call m s = on_world (m s.world) s

  -- `dexec`, without an environment.
  unfoldable pub dexec : String → List String → Act W CompletedProcess
  dexec container cmd = host.run ("docker" ∷ "exec" ∷ container ∷ cmd)

  -- `time.time()`, and `time.sleep`.
  abbrev pub now : Scenario W → ℕ × Scenario W
  now s = let (t, w) = host.now s.world in (t, record s { world = w })

  abbrev pub clock : Act (Scenario W) ℕ
  clock s = let (t, s1) = now s in (returned t, s1)

  abbrev pub sleep : ℕ → Scenario W → Scenario W
  sleep n s = record s { world = host.sleep n s.world }

  abbrev pub pause : ℕ → Act (Scenario W) (Unit {0})
  pause n s = (returned tt, sleep n s)

module _ {W : Type 0} where
  -- `mark`
  abbrev pub mark : String → Act (Scenario W) (Unit {0})
  mark name s = (returned tt, record s { events = s.events ++ name ∷ [] })

module _ (run_id : String) where
  abbrev pub p_progress : String
  p_progress = "results/raw/" ++ₛ run_id ++ₛ "_batches.ndjson"

  abbrev pub p_lag : String
  p_lag = "results/raw/" ++ₛ run_id ++ₛ "_lag.ndjson"

  abbrev pub p_ready : String
  p_ready = "results/raw/" ++ₛ run_id ++ₛ ".ready"

  abbrev pub p_stop : String
  p_stop = "results/raw/" ++ₛ run_id ++ₛ ".stop"
