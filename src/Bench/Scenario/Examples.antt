-- ===== src/Bench/Scenario/Examples.antt =====
-- A host whose state is its clock, with a listing of two partitions and a stream that has read 12 rows
-- from the time 40 on, and none before.
use mathlib.Core.Path.{subst, sym}
use real_time_data_pipeline.Base.{
  Bool, ℕ, ◌≤◌, ltb, if◌then◌else◌, ◌≡◌, ◌+◌, refl, arith, true, false, none, some, List, [], ◌∷◌,
}
use real_time_data_pipeline.Base.Text.{has_none, join}
use real_time_data_pipeline.Base.Errors.{Outcome, returned}
use real_time_data_pipeline.Value.{ℤ, pos, negsuc, int, obj, field, end}
use real_time_data_pipeline.Value.Int.{sum_int, same_int, is_le}
use real_time_data_pipeline.Config.Strokes.{show, to_int, show-IsDecimal}
use real_time_data_pipeline.Bench.Act.{Ended, Turn, found, again, poll_loop, pure}
use real_time_data_pipeline.Bench.Act.Sound.{Returns}
use real_time_data_pipeline.Bench.Scenario.{Host, Scenario, ScenarioArgs, now, sleep}
use real_time_data_pipeline.Bench.Scenario.Offsets.{topic_count}
use real_time_data_pipeline.Bench.Scenario.Offsets.Listing.{topic_count-listing}
use real_time_data_pipeline.Bench.Scenario.Waits.{
  poll_until, drain_turn, wait_for_drain, rows_read, read_ndjson,
}
use real_time_data_pipeline.Bench.Scenario.Loops.{
  Later, start, ticks, polls, rests, IsConsumed, IsPrompt, poll_until-some, poll_until-drain_turn,
}
use real_time_data_pipeline.Bench.Scenario.Drained.{IsDrained, wait_for_drain-IsDrained}
use real_time_data_pipeline.Bench.Scenario.Report.{reconcile, longest_monotonic_run}
use real_time_data_pipeline.Bench.Scenario.Report.Balance.{IsBalanced, reconcile-IsBalanced}
use real_time_data_pipeline.Bench.Scenario.Report.Growth.{longest_rise, longest_monotonic_run_lem}

abbrev host : Host ℕ
host = record {
  run = λ cmd t. (
    returned (record {
      returncode = pos 0;
      stdout = "trips.raw:+:+|||||\ntrips.raw:+|:+||\n";
      stderr = "";
    }),
    t,
  );
  popen = λ cmd t. t;
  poll = λ t. (none, t);
  wait = λ n t. (returned tt, t + n);
  kill = λ t. t;
  now = λ t. (t, t);
  sleep = λ n t. t + n;
  exists = λ p t. (true, t);
  remove = λ p t. t;
  read = λ p t. (if ltb t 40 then none else some "batch", t);
  write = λ p s t. t;
  to_int = to_int;
  int_of = λ v. returned (pos 0);
  millis = λ v. returned 0;
  loads = λ s. some (obj (field "input_rows" (int (pos 12)) end));
  dumps = λ v. "";
  show = λ n. "";
}

abbrev args : ScenarioArgs
args = record {
  run_id = "r1";
  fault = "none";
  fault_target = "";
  fault_at = 0;
  restart_after = 0;
  drain_timeout = 300000;
  drain_confirm_polls = 5;
  ready_grace = 8000;
  truncate = true;
  clean_checkpoint = true;
  stream_cmd = [];
  producer_cmd = [];
}

abbrev scenario : Scenario ℕ
scenario = record {
  events = [];
  dlq_before = pos 0;
  raw_before = pos 0;
  trips_before = pos 0;
  has_stream = false;
  world = 50;
}

topic_count-listing_example : topic_count host "trips.raw" 50 ≡ (returned (pos 7), 50)
unfolding has_none same_int real_time_data_pipeline.Bench.Scenario.dexec join sum_int
topic_count-listing_example =
    topic_count-listing host show show-IsDecimal "trips.raw" refl
      ((pos 0, pos 5) ∷ (pos 1, pos 2) ∷ []) 50 50 "" (tt, ((refl, tt), tt)) refl

reconcile-IsBalanced_example :
    IsBalanced (reconcile (pos 1000) (pos 990) (pos 20) (pos 970) (pos 40) (negsuc 0))
reconcile-IsBalanced_example =
    reconcile-IsBalanced (pos 1000) (pos 990) (pos 20) (pos 970) (pos 40) (negsuc 0)

abbrev series : List ℤ
series = pos 3 ∷ pos 5 ∷ pos 9 ∷ pos 2 ∷ pos 4 ∷ []

longest_monotonic_run_lem_example : longest_monotonic_run series ≡ longest_rise series
longest_monotonic_run_lem_example = longest_monotonic_run_lem series

abbrev time : Scenario ℕ → ℕ
time s = s.world

wait_for_drain-IsDrained_example :
    Returns (IsDrained host args scenario) (wait_for_drain host args 300000 scenario).0
wait_for_drain-IsDrained_example = wait_for_drain-IsDrained host args 300000 scenario

abbrev never : ℕ → Scenario ℕ → Outcome (Turn ℕ ℕ) × Scenario ℕ
never n = pure (again (n + 1))

poll_until-some_example :
    (r : Outcome (Ended ℕ ℕ) × Scenario ℕ) × (poll_loop
        (now host)
        (sleep host)
        4001
        2000
        4050
        never
        0
        scenario
      ≡ some r)
    × (poll_until host 4000 2000 never 0 scenario ≡ r)
poll_until-some_example =
    poll_until-some host 4000 2000 never time 0 scenario
      (record {
        tells = λ s. refl;
        goes_on = λ s. omega arith;
        stays = λ a s. omega arith;
        sleeps = λ n s. omega arith;
      })
      (omega arith)

-- The same host with the file there or not.
abbrev host_at : Bool → Host ℕ
host_at b = record host { read = λ p t. (if b then none else some "batch", t) }

turn_time_at :
    (b : Bool) (a : ℕ × ℤ) (u : Scenario ℕ)
    → (drain_turn (host_at b) args (pos 12) a u).1.world ≡ u.world
unfolding drain_turn rows_read
turn_time_at true a u = refl
turn_time_at false a u = refl

turn_time : (a : ℕ × ℤ) (u : Scenario ℕ) → (drain_turn host args (pos 12) a u).1.world ≡ u.world
unfolding drain_turn rows_read read_ndjson
turn_time a u = turn_time_at (ltb u.world 40) a u

later-le : (u : Scenario ℕ) → Later host args (pos 12) scenario u → 50 ≤ u.world
later-le _ start = omega arith
later-le _ (ticks u l) = later-le u l
later-le _ (polls a u l) = omega (arith, turn_time a u, later-le u l)
later-le _ (rests u l) = omega (arith, later-le u l)

consumed : IsConsumed host args (pos 12) scenario
unfolding rows_read is_le read_ndjson
consumed u l =
    let e : ltb u.world 40 ≡ false = ground (arith, later-le u l) in
    subst
      (λ b. (n : ℤ) × ((rows_read (host_at b) args u).0 ≡ returned n) × (is_le (pos 12) n ≡ true))
      (sym e) (pos 12, refl, refl)

prompt : IsPrompt host args (pos 12) scenario time 1000
prompt = record {
  tells = λ u l. refl;
  stays = λ u l. refl;
  takes = λ a u l. omega (arith, turn_time a u);
}

poll_until-drain_turn_example :
    (n : ℤ) × (s : Scenario ℕ) × (poll_until host 300000 1000
        (drain_turn host args (pos 12))
        (0, pos 0)
        scenario
      ≡ (returned (found n), s))
    × (is_le (pos 12) n ≡ true)
poll_until-drain_turn_example =
    poll_until-drain_turn host args (pos 12) 300000 1000 time scenario consumed prompt (omega arith)
      (omega arith)
