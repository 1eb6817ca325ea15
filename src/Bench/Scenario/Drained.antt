-- ===== src/Bench/Scenario/Drained.antt =====
-- What `wait_for_drain` of bench/run_scenario.py promises of a backlog that it calls drained.
use real_time_data_pipeline.Base.{
  ℕ, ◌≡◌, refl, ap, true, Option, none, some, leb, ◌+◌, if◌then◌else◌, if_elim, arith,
}
use real_time_data_pipeline.Base.Errors.{Outcome, returned, raised}
use real_time_data_pipeline.Value.{ℤ, pos}
use real_time_data_pipeline.Value.Int.{is_le, max_int, ◌-ℤ◌}
use real_time_data_pipeline.Bench.Act.{
  after, ◌>>◌, Turn, done, again, Ended, found, timed_out, poll_loop,
}
use real_time_data_pipeline.Bench.Act.Sound.{
  Returns, after-Returns, Returns-any, IsSoundTurn, IsSoundEnd, IsSoundLoop, poll_loop_sound,
}
use real_time_data_pipeline.Bench.Scenario.{
  Host, Scenario, ScenarioArgs, now, sleep, call, on_world, mark,
}
use real_time_data_pipeline.Bench.Scenario.Offsets.{topic_count}
use real_time_data_pipeline.Bench.Scenario.Waits.{
  poll_until, or_endless, rows_read, drain_turn, drain_ended, Drain, wait_for_drain, latest_lag,
}

module _ {W : Type 0} (host : Host W) (args : ScenarioArgs) where
  -- The stream's file has told of so many rows, in some state of the host.
  abbrev WasRead : ℤ → Type 0
  WasRead n = (u : Scenario W) × ((rows_read host args u).0 ≡ returned n)

  -- A number of rows that has been read and is at least the target.
  abbrev Enough : ℤ → ℤ → Type 0
  Enough target n = (is_le target n ≡ true) × WasRead n

  -- The target of a drain from `s` on is what Kafka holds there of the trips above what it held before
  -- the scenario, and not below 0. A drain that is called so has read at least that many rows.
  pub record IsDrained (s : Scenario W) (r : Drain) : Type 0 where
    pub end : ℤ
    pub held : (topic_count host "trips.raw" s.world).0 ≡ returned end
    pub target : r.messages_to_consume ≡ max_int (pos 0) (end -ℤ s.raw_before)
    pub consumed : r.drained ≡ true → Enough r.messages_to_consume r.messages_consumed

  as_read : (o : Outcome ℤ) → Returns (λ n. o ≡ returned n) o
  as_read (returned n) = refl
  as_read (raised e) = tt

  drain_turn_sound :
      (target : ℤ) (a : ℕ × ℤ) (s : Scenario W)
      → Returns
          (IsSoundTurn (now host) (sleep host) (Enough target))
          (drain_turn host args target a s).0
  unfolding drain_turn
  drain_turn_sound target (stable, c) s =
      after-Returns (λ n. (rows_read host args s).0 ≡ returned n) Sound (rows_read host args s) _
        (as_read (rows_read host args s).0)
        (λ n u read.
          let last = leb args.drain_confirm_polls (stable + 1) in
          if_elim Sound (is_le target n) (if last then done n else again (stable + 1, n))
            (again (0, n))
            (λ e.
              if_elim Sound last (done n) (again (stable + 1, n)) (λ _. (e, (s, read))) (λ _. tt))
            (λ _. tt))
    where
      Sound : Turn (ℕ × ℤ) ℤ → Type 0
      Sound = IsSoundTurn (now host) (sleep host) (Enough target)

  abbrev Reached : ℤ → Ended (ℕ × ℤ) ℤ → Type 0
  Reached target = IsSoundEnd (now host) (sleep host) (Enough target)

  poll_until_sound :
      (target : ℤ) (timeout : ℕ) (s : Scenario W)
      → Returns
          (Reached target)
          (poll_until host timeout 1000 (drain_turn host args target) (0, pos 0) s).0
  unfolding poll_until
  poll_until_sound target timeout s =
      ends
        (poll_loop (now host) (sleep host) (timeout + 1) 1000 ((now host s).0 + timeout)
          (drain_turn host args target) (0, pos 0) (now host s).1)
        (poll_loop_sound (now host) (sleep host) (Enough target) (timeout + 1) 1000
          ((now host s).0 + timeout) (drain_turn host args target) (0, pos 0) (now host s).1
          (drain_turn_sound target))
    where
      ends :
          (o : Option (Outcome (Ended (ℕ × ℤ) ℤ) × Scenario W))
          → IsSoundLoop (now host) (sleep host) (Enough target) o
          → Returns (Reached target) (or_endless host o (now host s).1).0
      ends none h = tt
      ends (some r) h = h

  module _ (s : Scenario W) (end : ℤ)
      (held : (topic_count host "trips.raw" s.world).0 ≡ returned end) where
    abbrev the_target : ℤ
    the_target = max_int (pos 0) (end -ℤ s.raw_before)

    drain_ended_sound :
        (timeout t0 : ℕ) (e : Ended (ℕ × ℤ) ℤ) (u : Scenario W)
        → Reached the_target e
        → Returns (IsDrained s) (drain_ended host args the_target timeout t0 e u).0
    drain_ended_sound timeout t0 (found n) u h =
        let told = (mark "drained" >> call host (latest_lag host args.run_id)) (now host u).1 in
        after-Returns (λ _. Unit {0}) (IsDrained s) told _ (Returns-any told.0)
          (λ lag v _. record { end = end; held = held; target = refl; consumed = λ _. h })
    drain_ended_sound timeout t0 (timed_out (stable, n)) u h =
        let told = (mark "drain_timeout" >> call host (latest_lag host args.run_id)) u in
        after-Returns (λ _. Unit {0}) (IsDrained s) told _ (Returns-any told.0)
          (λ lag v _. record {
            end = end;
            held = held;
            target = refl;
            consumed = λ e. absurd (ground (arith, e));
          })

    -- The rest of `wait_for_drain` after the count of the topic.
    abbrev rest_of : ℕ → Scenario W → Outcome Drain × Scenario W
    rest_of timeout u =
        after
          (poll_until host timeout 1000 (drain_turn host args the_target) (0, pos 0) (now host u).1)
          (drain_ended host args the_target timeout (now host u).0)

    rest_sound : (timeout : ℕ) (u : Scenario W) → Returns (IsDrained s) (rest_of timeout u).0
    rest_sound timeout u =
        after-Returns (Reached the_target) (IsDrained s)
          (poll_until host timeout 1000 (drain_turn host args the_target) (0, pos 0) (now host u).1)
          _ (poll_until_sound the_target timeout (now host u).1)
          (λ e v h. drain_ended_sound timeout (now host u).0 e v h)

  -- When it returns a drain, its target is the messages that Kafka holds for the stream when the wait
  -- begins: the end offsets of trips.raw less those before the scenario. If the drain is called drained,
  -- the stream's file has told of that many rows or more, whatever the host does in between.
  pub wait_for_drain-IsDrained :
      (timeout : ℕ) (s : Scenario W) → Returns (IsDrained s) (wait_for_drain host args timeout s).0
  unfolding wait_for_drain
  wait_for_drain-IsDrained timeout s = counted (topic_count host "trips.raw" s.world) refl
    where
      counted :
          (q : Outcome ℤ × W)
          → topic_count host "trips.raw" s.world ≡ q
          → Returns
              (IsDrained s)
              (after (on_world host q s) (λ end u.
                after
                  (poll_until host timeout 1000
                    (drain_turn host args (max_int (pos 0) (end -ℤ u.raw_before)))
                    (0, pos 0)
                    (now host u).1)
                  (drain_ended host args
                    (max_int (pos 0) (end -ℤ u.raw_before))
                    timeout
                    (now host u).0))).0
      counted (raised e, w) h = tt
      counted (returned end, w) h =
          rest_sound s end (ap (λ q. q.0) h) timeout (record s { world = w })
