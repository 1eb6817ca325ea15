-- ===== src/Stream/Run.antt =====
-- `run` of streaming/stream_job.py: the queries are started, the job waits until it is told to stop, and
-- the summary is written whatever has ended the waiting. Times are milliseconds. The loop runs on fuel;
-- it is `none` when the fuel is used up.
pub mod Shutdown
mod Examples
use real_time_data_pipeline.Base.{
  ℕ, zero, suc, ◌+◌, Bool, true, false, Option, none, some, List, [], ◌∷◌, ltb, if◌then◌else◌,
}
use real_time_data_pipeline.Base.Errors.{Outcome, returned, raised}
use real_time_data_pipeline.Bench.Act.{Act, pure, finished, ◌>>=◌, ◌>>◌}

pub data StreamQuery : Type 0 where
  rollup_query : StreamQuery
  query : StreamQuery

pub record RunArgs : Type 0 where
  pub duration : ℕ
  pub with_rollup : Bool
  pub has_stop_file : Bool
  pub has_ready_file : Bool

-- Spark's queries, the files and the flag that a signal sets.
pub record Job (W : Type 0) : Type 0 where
  pub start : StreamQuery → Act W (Unit {0})
  pub start_lag_monitor : Act W (Unit {0})
  pub write_ready : Act W (Unit {0})
  pub is_active : StreamQuery → Act W Bool
  pub exists_stop_file : Act W Bool
  pub is_stop_set : Act W Bool
  pub now : Act W ℕ
  pub await_termination : Act W (Unit {0})
  pub stop : StreamQuery → Act W (Unit {0})
  pub write_summary : Act W (Unit {0})
  pub stop_spark : Act W (Unit {0})

-- The loop goes on, ends or raises.
abbrev pub going :
    {W : Type 0}
    → (W → Option (Outcome (Unit {0}) × W))
    → Outcome Bool × W
    → Option (Outcome (Unit {0}) × W)
going rest (returned true, w) = rest w
going rest (returned false, w) = some (returned tt, w)
going rest (raised e, w) = some (raised e, w)

-- The `finally` behind the loop.
abbrev pub closing :
    {W : Type 0}
    → Act W (Unit {0})
    → Option (Outcome (Unit {0}) × W)
    → Option (Outcome (Unit {0}) × W)
closing k none = none
closing k (some (o, w)) = some (finished o (k w))

-- What follows the start of the queries, if that has not raised.
abbrev pub started :
    {W : Type 0}
    → (Option ℕ → W → Option (Outcome (Unit {0}) × W))
    → Outcome (Option ℕ) × W
    → Option (Outcome (Unit {0}) × W)
started rest (returned d, w) = rest d w
started rest (raised e, w) = some (raised e, w)

module _ {W : Type 0} (job : Job W) (args : RunArgs) where
  abbrev pub when : Bool → Act W (Unit {0}) → Act W (Unit {0})
  when true m = m
  when false m = pure tt

  -- `deadline and time.time() > deadline`
  unfoldable pub is_over : Option ℕ → Act W Bool
  is_over none = pure false
  is_over (some deadline) = job.now >>= λ t. pure (ltb deadline t)

  -- `stop_file and os.path.exists(stop_file)`
  abbrev pub is_told : Act W Bool
  is_told = if args.has_stop_file then job.exists_stop_file else pure false

  -- `self._stop.is_set() or …`, and the wait of a turn that goes on.
  unfoldable pub waited : Option ℕ → Act W Bool
  unfolding is_over
  waited deadline = do
    set ← job.is_stop_set
    over ← (if set then pure true else is_over deadline)
    (if over then pure false else (job.await_termination >> pure true))

  unfoldable pub turn : Option ℕ → Act W Bool
  unfolding waited
  turn deadline = do
    active ← job.is_active query
    told ← (if active then is_told else pure true)
    (if told then pure false else waited deadline)

  unfoldable pub watch : ℕ → Option ℕ → W → Option (Outcome (Unit {0}) × W)
  unfolding turn
  watch zero deadline w = none
  watch (suc fuel) deadline w = going (watch fuel deadline) (turn deadline w)

  unfoldable pub stop_if_active : StreamQuery → Act W (Unit {0})
  stop_if_active q = job.is_active q >>= λ active. when active (job.stop q)

  unfoldable pub shut_down : Act W (Unit {0})
  unfolding stop_if_active
  shut_down =
      when args.with_rollup (stop_if_active rollup_query)
      >> stop_if_active query
      >> job.write_summary
      >> job.stop_spark

  abbrev pub deadline_of : ℕ → Option ℕ
  deadline_of t = if ltb 0 args.duration then some (t + args.duration) else none

  unfoldable pub start_up : Act W (Option ℕ)
  start_up = do
    u ← job.start query
    v ← when args.with_rollup (job.start rollup_query)
    x ← job.start_lag_monitor
    y ← when args.has_ready_file job.write_ready
    t ← job.now
    pure (deadline_of t)

  unfoldable pub run : ℕ → W → Option (Outcome (Unit {0}) × W)
  unfolding watch shut_down start_up
  run fuel w = started (λ deadline v. closing shut_down (watch fuel deadline v)) (start_up w)
