-- ===== src/Bench/Scenario/Waits.antt =====
-- The loops of bench/run_scenario.py that wait: until the stream listens, until the backlog has drained,
-- until the pipeline has recovered from a fault. A loop runs on fuel for one turn more than its timeout
-- has milliseconds; `endless` is what it comes to without enough.
use text.Mathlib.Text.{◌==◌ as str_eq}
use real_time_data_pipeline.Base.{
  ℕ, ◌+◌, ◌-◌, String, Bool, true, false, ◌||◌, Option, none, some, List, [], ◌∷◌, leb,
  if◌then◌else◌,
}
use real_time_data_pipeline.Base.Dict.{lookup}
use real_time_data_pipeline.Base.Errors.{
  Exc, Outcome, returned, raised, type_error, attribute_error, is_instance,
}
use real_time_data_pipeline.Base.Text.{strip, split, is_newline, is_empty_text}
use real_time_data_pipeline.Value.{ℤ, pos, Value, int, obj, entries, at}
use real_time_data_pipeline.Value.Int.{◌+ℤ◌, ◌-ℤ◌, is_le, max_int}
use real_time_data_pipeline.Bench.Act.{
  Act, pure, lift, ◌>>=◌, ◌>>◌, except, Turn, done, again, Ended, found, timed_out, poll_loop,
}
use real_time_data_pipeline.Bench.Scenario.{
  Host, Scenario, ScenarioArgs, runtime_error, call, now, clock, sleep, pause, mark, dexec,
  p_progress, p_lag, p_ready, p_stop,
}
use real_time_data_pipeline.Bench.Scenario.Offsets.{topic_count}

-- `v[k]` of what JSON gave, and a count that is an integer.
abbrev pub item : Value → String → Outcome Value
item (obj fs) k = at (entries fs) k
item v k = raised (type_error "indices must be integers")

abbrev pub count_of : Outcome Value → Outcome ℤ
count_of (returned (int n)) = returned n
count_of (returned v) = raised (type_error "unsupported operand")
count_of (raised e) = raised e

abbrev pub add_count : Outcome ℤ → Outcome ℤ → Outcome ℤ
add_count (raised e) m = raised e
add_count (returned n) (raised e) = raised e
add_count (returned n) (returned k) = returned (n +ℤ k)

-- `sum(b["input_rows"] for b in batches)`
unfoldable pub input_rows : List Value → Outcome ℤ
unfolding at ◌+ℤ◌
input_rows [] = returned (pos 0)
input_rows (b ∷ bs) = add_count (count_of (item b "input_rows")) (input_rows bs)

abbrev pub endless : Exc
endless = record { name = "endless"; bases = []; message = "" }

pub record Drain : Type 0 where
  pub drained : Bool
  pub drain_seconds : ℕ
  pub messages_to_consume : ℤ
  pub messages_consumed : ℤ
  pub final_lag : Option ℤ

module _ {W : Type 0} (host : Host W) where
  -- The lines of a file that are JSON.
  abbrev pub parsed : List String → List Value
  parsed [] = []
  parsed (line ∷ ls) =
      let rest = parsed ls in
      if is_empty_text (strip line)
      then rest
      else elim (host.loads (strip line)) [ none ↦ rest | some v ↦ v ∷ rest ]

  -- `_read_ndjson`, and `_read_batches` for the file of the batches.
  unfoldable pub read_ndjson : String → Act W (List Value)
  unfolding strip split
  read_ndjson path w =
      let (text, w1) = host.read path w in
      elim text [ none ↦ (returned [], w1) | some t ↦ (returned (parsed (split is_newline t)), w1) ]

  -- `int(json.loads(line).get("max_offsets_behind", 0))`, whose `ValueError` is no lag.
  abbrev pub lag_of : Value → Outcome (Option ℤ)
  lag_of (obj fs) =
      elim (host.int_of
        (elim (lookup "max_offsets_behind" (entries fs)) [ none ↦ int (pos 0) | some v ↦ v ])) [
          | returned n ↦ returned (some n)
          | raised e ↦ if is_instance ("ValueError" ∷ []) e then returned none else raised e
        ]
  lag_of v = raised (attribute_error "get")

  -- The last line that is not blank, of the lines in order.
  abbrev pub last_line : List String → Option String
  last_line [] = none
  last_line (l ∷ ls) =
      let here = strip l in
      elim (last_line ls) [
        | some k ↦ some k
        | none ↦ if is_empty_text here then none else some here
      ]

  abbrev pub lag_at : Option String → Outcome (Option ℤ)
  lag_at none = returned none
  lag_at (some line) = elim (host.loads line) [ none ↦ returned none | some v ↦ lag_of v ]

  unfoldable pub latest_lag : String → Act W (Option ℤ)
  unfolding strip split lookup is_instance
  latest_lag run_id w =
      let (text, w1) = host.read (p_lag run_id) w in
      (elim text [ none ↦ returned none | some t ↦ lag_at (last_line (split is_newline t)) ], w1)

  abbrev pub or_endless :
      {A B : Type 0}
      → Option (Outcome (Ended A B) × Scenario W)
      → Scenario W
      → Outcome (Ended A B) × Scenario W
  or_endless none s = (raised endless, s)
  or_endless (some r) s = r

  -- A loop of this file: `deadline = time.time() + timeout`, then turns with a pause between them.
  unfoldable pub poll_until :
      {A B : Type 0} → ℕ → ℕ → (A → Act (Scenario W) (Turn A B)) → A → Act (Scenario W) (Ended A B)
  unfolding poll_loop
  poll_until timeout step body a s =
      let (t, s1) = now host s in
      or_endless (poll_loop (now host) (sleep host) (timeout + 1) step (t + timeout) body a s1) s1

  -- `_await_container_health`: the seconds until the container is healthy, in milliseconds.
  abbrev pub health_seen : ℕ → Bool → Act (Scenario W) (Turn (Unit {0}) ℕ)
  health_seen t0 false s = (returned (again tt), s)
  health_seen t0 true s = (clock host >>= λ t. pure (done (t - t0))) s

  abbrev pub health_turn : String → ℕ → Unit {0} → Act (Scenario W) (Turn (Unit {0}) ℕ)
  health_turn name t0 u = do
    r ← call host (
        host.run (
          "docker" ∷ "inspect" ∷ "-f"
          ∷ "{{if .State.Health}}{{.State.Health.Status}}{{else}}{{.State.Status}}{{end}}" ∷ name
          ∷ []))
    health_seen t0 (str_eq (strip r.stdout) "healthy" || str_eq (strip r.stdout) "running")

  abbrev pub when_found : {A B : Type 0} → Ended A B → Option B
  when_found (found b) = some b
  when_found (timed_out a) = none

  unfoldable pub await_container_health : String → ℕ → Act (Scenario W) (Option ℕ)
  unfolding poll_until strip
  await_container_health name timeout = do
    t0 ← clock host
    e ← poll_until timeout 2000 (health_turn name t0) tt
    pure (when_found e)

module _ {W : Type 0} (host : Host W) (args : ScenarioArgs) where
  -- One turn of `wait_ready`.
  abbrev pub exited : Bool → Option ℤ → Bool
  exited has_stream none = false
  exited has_stream (some code) = has_stream

  abbrev pub ready_turn : Unit {0} → Act (Scenario W) (Turn (Unit {0}) (Unit {0}))
  ready_turn u s =
      let (is_there, w) = host.exists (p_ready args.run_id) s.world in
      let s1 = record s { world = w } in
      let (code, w2) = host.poll w in
      if is_there
      then (mark "stream_ready" >> pause host args.ready_grace >> pure (done tt)) s1
      else if exited s.has_stream code
      then (raised (runtime_error "stream exited early"), record s { world = w2 })
      else (returned (again tt), if s.has_stream then record s { world = w2 } else s1)

  abbrev pub ready_ended : Ended (Unit {0}) (Unit {0}) → Act (Scenario W) (Unit {0})
  ready_ended (found u) = pure tt
  ready_ended (timed_out u) = lift (raised (runtime_error "stream not ready"))

  unfoldable pub wait_ready : ℕ → Act (Scenario W) (Unit {0})
  unfolding poll_until
  wait_ready timeout = poll_until host timeout 1000 ready_turn tt >>= ready_ended

  -- `stop_stream`; what `wait` raises is a `TimeoutExpired`.
  abbrev pub timeout_expired : List String
  timeout_expired = "TimeoutExpired" ∷ []

  abbrev pub or_handle :
      Act (Scenario W) (Unit {0}) → Act (Scenario W) (Unit {0}) → Act (Scenario W) (Unit {0})
  or_handle m h = except m (λ e. if is_instance timeout_expired e then h else lift (raised e))

  abbrev pub kill_stream : Act (Scenario W) (Unit {0})
  kill_stream s = (returned tt, record s { world = host.kill s.world })

  abbrev pub touch_stop : Act (Scenario W) (Unit {0})
  touch_stop s =
      let (t, w) = host.now s.world in
      (returned tt, record s { world = host.write (p_stop args.run_id) (host.show t) w })

  unfoldable pub stop_stream : Act (Scenario W) (Unit {0})
  unfolding is_instance dexec
  stop_stream s =
      if s.has_stream
      then (mark "stream_stop"
            >> touch_stop
            >> or_handle (call host (host.wait 180000)) (
                call host (dexec host "rtdp-spark-driver" ("pkill" ∷ "-f" ∷ "spark-submit" ∷ []))
                >>= λ _. or_handle (call host (host.wait 30000)) kill_stream))
          s
      else (returned tt, s)

  -- One turn of `wait_for_drain`, with `stable` and `consumed`.
  abbrev pub drain_seen : ℤ → ℕ → ℤ → Turn (ℕ × ℤ) ℤ
  drain_seen target stable consumed =
      if is_le target consumed
      then (if leb args.drain_confirm_polls (stable + 1)
          then done consumed
          else again (stable + 1, consumed))
      else again (0, consumed)

  unfoldable pub rows_read : Act (Scenario W) ℤ
  unfolding read_ndjson input_rows
  rows_read = do
    batches ← call host (read_ndjson host (p_progress args.run_id))
    lift (input_rows batches)

  unfoldable pub drain_turn : ℤ → ℕ × ℤ → Act (Scenario W) (Turn (ℕ × ℤ) ℤ)
  unfolding rows_read is_le
  drain_turn target (stable, consumed) = rows_read >>= λ rows. pure (drain_seen target stable rows)

  abbrev pub drain_ended : ℤ → ℕ → ℕ → Ended (ℕ × ℤ) ℤ → Act (Scenario W) Drain
  drain_ended target timeout t0 (found consumed) = clock host >>= λ t.
      mark "drained" >> call host (latest_lag host args.run_id) >>= λ lag. pure (record {
        drained = true;
        drain_seconds = t - t0;
        messages_to_consume = target;
        messages_consumed = consumed;
        final_lag = lag;
      })
  drain_ended target timeout t0 (timed_out (stable, consumed)) =
      mark "drain_timeout" >> call host (latest_lag host args.run_id) >>= λ lag. pure (record {
        drained = false;
        drain_seconds = timeout;
        messages_to_consume = target;
        messages_consumed = consumed;
        final_lag = lag;
      })

  unfoldable pub wait_for_drain : ℕ → Act (Scenario W) Drain
  unfolding topic_count poll_until drain_turn latest_lag max_int ◌-ℤ◌
  wait_for_drain timeout = do
    end ← call host (topic_count host "trips.raw")
    raw_before ← (λ s. (returned s.raw_before, s))
    t0 ← clock host
    e ← poll_until host timeout 1000 (drain_turn (max_int (pos 0) (end -ℤ raw_before))) (0, pos 0)
    drain_ended (max_int (pos 0) (end -ℤ raw_before)) timeout t0 e
