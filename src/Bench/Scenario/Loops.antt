-- ===== src/Bench/Scenario/Loops.antt =====
-- That the waiting loops of bench/run_scenario.py end, and that the backlog is found drained when it is.
use real_time_data_pipeline.Base.{
  ℕ, zero, suc, ◌≡◌, ap, ◌+◌, ◌-◌, ◌*◌, mul_mono, ◌≤◌, ◌<◌, true, some, leb, arith, if◌then◌else◌,
  if_elim,
}
use real_time_data_pipeline.Base.Errors.{Outcome, returned}
use real_time_data_pipeline.Value.{ℤ, pos}
use real_time_data_pipeline.Value.Int.{is_le}
use real_time_data_pipeline.Bench.Act.{
  Act, Turn, done, again, Ended, found, poll_loop, poll_loop-some, IsSteady, after-pure,
}
use real_time_data_pipeline.Bench.Act.Progress.{Advances, poll_loop_found}
use real_time_data_pipeline.Bench.Scenario.{Host, Scenario, ScenarioArgs, now, sleep}
use real_time_data_pipeline.Bench.Scenario.Waits.{
  poll_until, or_endless, rows_read, drain_seen, drain_turn,
}

module _ {W : Type 0} (host : Host W) where
  enough :
      (timeout step t u : ℕ) → t ≤ u → 1 ≤ step → (t + timeout) + step ≤ u + (timeout + 1) * step
  enough timeout (suc step) t u h k = omega (arith, h, mul_mono timeout 1 (suc step) k)
  enough timeout zero t u h k = absurd (omega (arith, k))

  -- Where sleeping lets the time pass and nothing turns it back, a loop that waits ends: with what it
  -- waits for, at its deadline, or with the exception of a turn, before its fuel is used up.
  pub poll_until-some :
      {A B : Type 0} (timeout step : ℕ) (body : A → Act (Scenario W) (Turn A B))
      (time : Scenario W → ℕ) (a : A) (s : Scenario W)
      → IsSteady (now host) (sleep host) time body
      → 1 ≤ step
      → (r : Outcome (Ended A B) × Scenario W) × (poll_loop
            (now host)
            (sleep host)
            (timeout + 1)
            step
            ((now host s).0 + timeout)
            body
            a
            (now host s).1
          ≡ some r)
        × (poll_until host timeout step body a s ≡ r)
  unfolding poll_until
  poll_until-some timeout step body time a s h k =
      let t = (now host s).0 in
      let s1 = (now host s).1 in
      let (r, e) =
        poll_loop-some (now host) (sleep host) (timeout + 1) step (t + timeout) body time a s1 h
          (omega arith) (enough timeout step t (time s1) (omega (arith, h.tells s, h.goes_on s)) k)
          k in
      (r, e, ap (λ o. or_endless host o s1) e)

  minus_zero : (m : ℕ) → m - 0 ≡ m
  minus_zero m = omega arith

  le-mul : (m c : ℕ) → 1 ≤ c → m ≤ m * c
  le-mul m zero h = absurd (omega (arith, h))
  le-mul m (suc c) h = omega arith

  module _ (args : ScenarioArgs) (target : ℤ) where
    -- The states that a loop of polls can come to from `s`: by a reading of the clock, by a poll, and by
    -- the second of sleep after it.
    pub data Later (s : Scenario W) : Scenario W → Type 0 where
      start : Later s s
      ticks : (u : Scenario W) → Later s u → Later s (now host u).1
      polls : (a : ℕ × ℤ) (u : Scenario W) → Later s u → Later s (drain_turn host args target a u).1
      rests : (u : Scenario W) → Later s u → Later s (sleep host 1000 u)

    -- From `s` on the stream's file tells of at least as many rows as the target.
    abbrev pub IsConsumed : Scenario W → Type 0
    IsConsumed s =
        (u : Scenario W)
        → Later s u
        → (n : ℤ) × ((rows_read host args u).0 ≡ returned n) × (is_le target n ≡ true)

    -- From `s` on the clock tells a time; a poll and its second of sleep take at most so much of it.
    pub record IsPrompt (s : Scenario W) (time : Scenario W → ℕ) (cost : ℕ) : Type 0 where
      pub tells : (u : Scenario W) → Later s u → (now host u).0 ≡ time u
      pub stays : (u : Scenario W) → Later s u → time (now host u).1 ≡ time u
      pub takes :
          (a : ℕ × ℤ) (u : Scenario W)
          → Later s u
          → time (sleep host 1000 (drain_turn host args target a (now host u).1).1) ≤ time u + cost

    -- The polls that are left to confirm.
    abbrev polls_left : ℕ × ℤ → ℕ
    polls_left (stable, consumed) = args.drain_confirm_polls - stable

    abbrev Nearer : ℕ → Outcome (Turn (ℕ × ℤ) ℤ) → Type 0
    Nearer n o =
        Advances (now host) (sleep host) {A = ℕ × ℤ} polls_left (λ b. is_le target b ≡ true) o n

    seen_advances :
        (stable : ℕ) (n : ℤ)
        → is_le target n ≡ true
        → Nearer
            (args.drain_confirm_polls - stable)
            (returned (drain_seen host args target stable n))
    seen_advances stable n e =
        let last = leb args.drain_confirm_polls (stable + 1) in
        if_elim (λ t. Nearer (args.drain_confirm_polls - stable) (returned t)) (is_le target n)
          (if last then done n else again (stable + 1, n)) (again (0, n))
          (λ _.
            if_elim (λ t. Nearer (args.drain_confirm_polls - stable) (returned t)) last (done n)
              (again (stable + 1, n)) (λ _. e) (λ d. ground (arith, d)))
          (λ d. ground (arith, d, e))

    turn_advances :
        (a : ℕ × ℤ) (s u : Scenario W)
        → IsConsumed s
        → Later s u
        → Nearer (polls_left a) (drain_turn host args target a u).0
    unfolding drain_turn
    turn_advances (stable, c) s u h l =
        let (n, e, k) = h u l in
        rw (after-pure (rows_read host args u) (drain_seen host args target stable), e)
          (seen_advances stable n k)

    -- If from some state on the stream's file tells of at least the target, the drain is found from
    -- there: when the polls that confirm it fit before the deadline, the loop ends with a number of rows
    -- that is at least the target. Nothing is said of the states before.
    pub poll_until-drain_turn :
        (timeout cost : ℕ) (time : Scenario W → ℕ) (s : Scenario W)
        → IsConsumed s
        → IsPrompt s time cost
        → 1 ≤ cost
        → args.drain_confirm_polls * cost < timeout
        → (n : ℤ) × (s' : Scenario W) × (poll_until host timeout 1000
              (drain_turn host args target)
              (0, pos 0)
              s
            ≡ (returned (found n), s'))
          × (is_le target n ≡ true)
    unfolding poll_until
    poll_until-drain_turn timeout cost time s h p c k =
        let t = (now host s).0 in
        let s1 = (now host s).1 in
        let (n, s', e, q) =
          poll_loop_found (now host) (sleep host) (timeout + 1) 1000 (t + timeout) cost
            (drain_turn host args target) (Later s) time polls_left (λ b. is_le target b ≡ true)
            (0, pos 0) s1 (ticks s start)
            (record {
              tells = p.tells;
              takes = p.takes;
              advances = λ a u l. turn_advances a s (now host u).1 h (ticks u l);
              stays_on = λ a u l. rests _ (polls a _ (ticks u l));
            })
            (omega (arith, k, le-mul args.drain_confirm_polls cost c))
            (omega (
              arith,
              k,
              p.tells s start,
              p.stays s start,
              ap (λ n. n * cost) (minus_zero args.drain_confirm_polls),
            )) in
        (n, s', ap (λ o. or_endless host o s1) e, q)
