-- ===== src/Bench/Scenario/Fault.antt =====
-- The fault that bench/run_scenario.py injects, and how it tells that the pipeline has recovered.
use text.Mathlib.Text.{◌==◌ as str_eq}
use real_time_data_pipeline.Base.{
  ℕ, ◌-◌, String, Bool, true, false, not, Option, none, some, List, [], ◌∷◌, map, keep, ltb, max,
  if◌then◌else◌,
}
use real_time_data_pipeline.Base.Dict.{lookup}
use real_time_data_pipeline.Base.Errors.{Outcome, returned, raised, type_error, value_error}
use real_time_data_pipeline.Base.Text.{strip, split, is_comma, is_empty_text}
use real_time_data_pipeline.Value.{ℤ, pos, Value, obj, entries, at}
use real_time_data_pipeline.Value.Int.{is_le}
use real_time_data_pipeline.Bench.Act.{
  Act, pure, lift, ◌>>=◌, ◌>>◌, Turn, done, again, Ended, found, timed_out,
}
use real_time_data_pipeline.Bench.Scenario.{
  Host, Scenario, ScenarioArgs, call, clock, pause, mark, p_progress,
}
use real_time_data_pipeline.Bench.Scenario.Waits.{
  item, count_of, read_ndjson, latest_lag, poll_until, await_container_health,
}

pub record Recovery : Type 0 where
  pub recovery_seconds : Option ℕ
  pub recovery_batch_id : Option Value
  pub recovered : Bool

pub record FaultReport : Type 0 where
  pub fault : String
  pub target : String
  pub targets : List String
  pub killed_at : ℕ
  pub dead_for : ℕ
  pub recovery : Recovery
  pub target_healthy_seconds : Option ℕ

-- `n > 0`
abbrev pub is_positive : ℤ → Bool
is_positive n = not (is_le n (pos 0))

-- `a and b`, where `b` is only looked at after a true `a`.
abbrev pub both : Outcome Bool → Outcome Bool → Outcome Bool
both (raised e) o = raised e
both (returned false) o = returned false
both (returned true) o = o

abbrev pub is_count_positive : Outcome ℤ → Outcome Bool
is_count_positive (raised e) = raised e
is_count_positive (returned n) = returned (is_positive n)

-- `rec.get("rows_written", 0)`
abbrev pub rows_written : Value → Outcome ℤ
rows_written (obj fs) = elim (lookup "rows_written" (entries fs)) [
  | none ↦ returned (pos 0)
  | some v ↦ count_of (returned v)
]
rows_written v = raised (type_error "indices must be integers")

-- The container that a fault kills when none is named.
abbrev pub default_target : String → Outcome String
default_target f =
    if str_eq f "kill_broker"
    then returned "rtdp-kafka2"
    else if str_eq f "kill_executor"
    then returned "rtdp-spark-worker-2"
    else if str_eq f "kill_cassandra"
    then returned "rtdp-cassandra3"
    else if str_eq f "kill_cassandra_quorum"
    then returned "rtdp-cassandra2,rtdp-cassandra3"
    else raised (value_error "unknown fault")

abbrev pub or_default : String → Outcome String → Outcome String
or_default t (raised e) = raised e
or_default t (returned d) = if is_empty_text t then returned d else returned t

-- `[t.strip() for t in target.split(",") if t.strip()]`
unfoldable pub targets_of : String → List String
unfolding split strip
targets_of target = keep (λ t. not (is_empty_text t)) (map (λ t. strip t) (split is_comma target))

module _ {W : Type 0} (host : Host W) (args : ScenarioArgs) where
  abbrev pub is_later : ℕ → Outcome Value → Outcome Bool
  is_later t_kill (raised e) = raised e
  is_later t_kill (returned v) = elim (host.millis v) [
    | raised e ↦ raised e
    | returned t ↦ returned (ltb t_kill t)
  ]

  -- A batch that ended after the kill, read rows and wrote some.
  unfoldable pub is_recovery : ℕ → Value → Outcome Bool
  unfolding at lookup is_le
  is_recovery t_kill b = both (is_later t_kill (item b "wall_ts")) (
      both (is_count_positive (count_of (item b "input_rows")))
        (is_count_positive (rows_written b)))

  -- The first such batch.
  abbrev pub chosen : Outcome Bool → Value → Outcome (Option Value) → Outcome (Option Value)
  chosen (raised e) b rest = raised e
  chosen (returned true) b rest = returned (some b)
  chosen (returned false) b rest = rest

  unfoldable pub first_recovery : ℕ → List Value → Outcome (Option Value)
  unfolding is_recovery
  first_recovery t_kill [] = returned none
  first_recovery t_kill (b ∷ bs) = chosen (is_recovery t_kill b) b (first_recovery t_kill bs)

  abbrev pub recovery_turn : ℕ → Unit {0} → Act (Scenario W) (Turn (Unit {0}) Value)
  recovery_turn t_kill u = do
    batches ← call host (read_ndjson host (p_progress args.run_id))
    first ← lift (first_recovery t_kill batches)
    pure (elim first [ none ↦ again tt | some b ↦ done b ])

  abbrev pub millis_at : Outcome Value → Outcome ℕ
  millis_at (raised e) = raised e
  millis_at (returned v) = host.millis v

  abbrev pub recovery_ended : ℕ → Ended (Unit {0}) Value → Act (Scenario W) Recovery
  recovery_ended t_kill (found b) = do
    t ← lift (millis_at (item b "wall_ts"))
    u ← mark "recovered"
    id ← lift (item b "batch_id")
    pure (record {
      recovery_seconds = some (t - t_kill);
      recovery_batch_id = some id;
      recovered = true;
    })
  recovery_ended t_kill (timed_out u) =
      mark "recovery_timeout"
      >> pure (record { recovery_seconds = none; recovery_batch_id = none; recovered = false })

  unfoldable pub await_recovery : ℕ → ℕ → Act (Scenario W) Recovery
  unfolding poll_until first_recovery read_ndjson at
  await_recovery t_kill timeout =
      poll_until host timeout 500 (recovery_turn t_kill) tt >>= recovery_ended t_kill

  -- `for t in targets: sh(...)`, and with a mark for each.
  abbrev pub kill_all : List String → Act (Scenario W) (Unit {0})
  kill_all [] = pure tt
  kill_all (t ∷ ts) =
      call host (host.run ("docker" ∷ "kill" ∷ "--signal=KILL" ∷ t ∷ [])) >>= λ _. kill_all ts

  abbrev pub start_all : List String → Act (Scenario W) (Unit {0})
  start_all [] = pure tt
  start_all (t ∷ ts) = call host (host.run ("docker" ∷ "start" ∷ t ∷ [])) >>= λ _.
      mark "fault_target_restarted" >> start_all ts

  -- `max((… or 0) for t in targets)`
  abbrev pub slowest_health : List String → Act (Scenario W) ℕ
  slowest_health [] = lift (raised (value_error "max() iterable argument is empty"))
  slowest_health (t ∷ []) =
      await_container_health host t 300000 >>= λ n. pure (elim n [ none ↦ 0 | some k ↦ k ])
  slowest_health (t ∷ v ∷ ts) = do
    n ← await_container_health host t 300000
    m ← slowest_health (v ∷ ts)
    pure (max (elim n [ none ↦ 0 | some k ↦ k ]) m)

  -- The restart, when one is asked for.
  unfoldable pub restart : List String → Act (Scenario W) (Option ℕ)
  unfolding await_container_health
  restart targets =
      if ltb 0 args.restart_after
      then (pause host args.restart_after >> start_all targets >> slowest_health targets >>= λ n.
          pure (some n))
      else pure none

  -- `inject_fault` for a fault other than `none`, without the wait before it.
  unfoldable pub kill_and_watch : Act (Scenario W) FaultReport
  unfolding targets_of latest_lag await_recovery restart
  kill_and_watch = do
    target ← lift (or_default args.fault_target (default_target args.fault))
    pre_lag ← call host (latest_lag host args.run_id)
    t_kill ← clock host
    u ← kill_all (targets_of target)
    v ← mark "fault_injected"
    recovery ← await_recovery t_kill 240000
    healthy ← restart (targets_of target)
    pure (record {
      fault = args.fault;
      target = target;
      targets = targets_of target;
      killed_at = t_kill;
      dead_for = args.restart_after;
      recovery = recovery;
      target_healthy_seconds = healthy;
    })

  unfoldable pub inject_fault : Act (Scenario W) (Option FaultReport)
  unfolding kill_and_watch
  inject_fault =
      if str_eq args.fault "none"
      then pure none
      else (pause host args.fault_at >> kill_and_watch >>= λ r. pure (some r))
