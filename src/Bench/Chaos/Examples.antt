-- ===== src/Bench/Chaos/Examples.antt =====
-- A comparison of two arms none of whose runs leaves a report behind.
use real_time_data_pipeline.Base.{ℕ, ◌+◌, ◌≡◌, refl, true, Option, none, [], ◌∷◌}
use real_time_data_pipeline.Base.Errors.{returned}
use real_time_data_pipeline.Value.{Value, pos}
use real_time_data_pipeline.Bench.Act.Sound.{Returns}
use real_time_data_pipeline.Bench.Scenario.{Host}
use real_time_data_pipeline.Bench.Chaos.Suite.{SuiteArgs, compare_arms}
use real_time_data_pipeline.Bench.Chaos.Arms.{IsFair, compare_arms-IsFair}

abbrev host : Host ℕ
host = record {
  run = λ cmd t. (returned (record { returncode = pos 1; stdout = ""; stderr = "" }), t + 7);
  popen = λ cmd t. t;
  poll = λ t. (none, t);
  wait = λ n t. (returned tt, t + n);
  kill = λ t. t;
  now = λ t. (t, t);
  sleep = λ n t. t + n;
  exists = λ p t. (true, t);
  remove = λ p t. t;
  read = λ p t. (none, t);
  write = λ p s t. t;
  to_int = λ s. returned (pos 0);
  int_of = λ v. returned (pos 0);
  millis = λ v. returned 0;
  loads = λ s. none;
  dumps = λ v. "";
  show = λ n. "1";
}

abbrev args : SuiteArgs
args = record {
  prefix = "chaos";
  repeats = 2;
  settle = 45000;
  options = "--rate" ∷ "800" ∷ [];
  fault_at = "35";
  restart_after = "40";
  ab_fault = "kill_cassandra_quorum";
}

abbrev number : Value → Option ℕ
number v = none

compare_arms-IsFair_example :
    Returns (IsFair host args number 2) (compare_arms host args number 0).0
compare_arms-IsFair_example = compare_arms-IsFair host args number 0

-- Without any report the verdict is that no arm lost anything.
no_report_lossless :
    Returns (λ c. c.silent_loss_zero_in_both_arms ≡ true) (compare_arms host args number 0).0
unfolding compare_arms
no_report_lossless = refl
