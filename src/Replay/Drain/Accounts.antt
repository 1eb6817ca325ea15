-- ===== src/Replay/Drain/Accounts.antt =====
-- The report of `drain` in replay/dlq_tools.py.
use real_time_data_pipeline.Base.{
  ℕ, ◌+◌, ◌≤◌, ◌≡◌, refl, Bool, true, false, List, [], ◌∷◌, arith, length, length-append, String,
  Bool-cases, inl, inr,
}
use real_time_data_pipeline.Base.Dict.{Dict, insert}
use real_time_data_pipeline.Base.Errors.{Outcome, returned, raised, >>=-eq-returned}
use real_time_data_pipeline.Value.{Value, str}
use real_time_data_pipeline.Replay.Drain.{
  Outside, Arguments, Routes, no_routes, Route, to_reinject, to_direct, to_park, Result, empty,
  preview, drained, Report, report, park_step, saved, reported, after_reinject, flushed,
  reinject_all, route_of, add_route, route_all, Tally, count, send, message_of, execute_built,
  direct_statements, reinject_loop, reinject_step, direct_loop, write_all, direct_write, carry_out,
  finish, drain,
}

abbrev size : Routes → ℕ
size r = length r.reinject + length r.direct + length r.park

-- A drain of `n` records that ends as it should, whatever the outcome.
abbrev pub Accounted : ℕ → Outcome Result → Type 0
Accounted n (raised e) = Unit
Accounted n (returned empty) = n ≡ 0
Accounted n (returned (preview m r)) =
    (m ≡ n) × (length r.reinject + length r.direct + length r.park ≡ n)
Accounted n (returned (drained r)) =
    (r.records_read ≡ n)
    × (r.accounted_for ≡ r.reinjected + r.direct_written + r.parked)
    × (r.accounted_for + r.unaccounted ≡ n)
    × (r.unaccounted ≡ r.reinject_failed + r.direct_write_failed)

module _ {W : Type 0} (outside : Outside W) where
  abbrev AtMost : ℕ → Outcome (List String) → Type 0
  AtMost n (raised e) = Unit
  AtMost n (returned errors) = length errors ≤ n

  -- The producer reports at most one delivery error for each message that it has taken.
  abbrev pub ReportsOnce : Type 0
  ReportsOnce = (n : ℕ) (w : W) → AtMost n (outside.flush n w).0

  -- All records of a step are counted, if it raises nothing.
  abbrev pub IsWhole : ℕ → Outcome (Tally outside) → Type 0
  IsWhole n (raised e) = Unit
  IsWhole n (returned t) = t.done + t.failed ≡ n

  size-add_route :
      (r : Dict Value) (to : Route) (acc : Routes)
      → size (add_route outside r to acc) ≡ size acc + 1
  size-add_route r to_reinject acc = omega (arith, length-append acc.reinject (r ∷ []))
  size-add_route r to_direct acc = omega (arith, length-append acc.direct (r ∷ []))
  size-add_route r (to_park s) acc =
      omega (arith, length-append acc.park (insert "_park_reason" (str s) r ∷ []))

  size-route_all :
      (max_replays : ℕ) (recs : List (Dict Value)) (acc routes : Routes)
      → route_all outside max_replays recs acc ≡ returned routes
      → size routes ≡ size acc + length recs
  unfolding route_all
  size-route_all max_replays [] acc routes h = ground (arith, h)
  size-route_all max_replays (r ∷ recs) acc routes h =
      let (to, _, rest) =
        >>=-eq-returned (route_of outside max_replays r)
          (λ to. route_all outside max_replays recs (add_route outside r to acc)) h in
      omega (
        arith,
        size-route_all max_replays recs (add_route outside r to acc) routes rest,
        size-add_route r to acc,
      )

  tally :
      (o : Outcome (Unit {0}) × W) (done failed : ℕ)
      → let t = count outside o done failed in t.done + t.failed ≡ done + failed + 1
  tally (returned u, w) done failed = omega arith
  tally (raised e, w) done failed = omega arith

  reinject_loop_lem :
      (recs : List (Dict Value)) (t : Tally outside)
      → let u = reinject_loop outside recs t in u.done + u.failed ≡ t.done + t.failed + length recs
  unfolding reinject_loop
  reinject_loop_lem [] t = omega arith
  reinject_loop_lem (r ∷ recs) t =
      let o = send outside (message_of outside r) t.world in
      omega
        (arith, tally o t.done t.failed, reinject_loop_lem recs (count outside o t.done t.failed))

  flushed-IsWhole :
      (n : ℕ) (t : Tally outside) (o : Outcome (List String) × W)
      → AtMost t.done o.0
      → t.done + t.failed ≡ n
      → IsWhole n (flushed outside t o).0
  flushed-IsWhole n t (raised e, w) once whole = tt
  flushed-IsWhole n t (returned errors, w) once whole = omega (arith, once, whole)

  reinject_all-IsWhole :
      (recs : List (Dict Value)) (o : Outcome (Unit {0}) × W)
      → ReportsOnce
      → IsWhole (length recs) (reinject_all outside recs o).0
  reinject_all-IsWhole recs (raised e, w) once = tt
  reinject_all-IsWhole recs (returned u, w) once =
      let start : Tally outside = record { done = 0; failed = 0; world = w } in
      let t = reinject_loop outside recs start in
      flushed-IsWhole (length recs) t (outside.flush t.done t.world) (once t.done t.world)
        (omega (arith, reinject_loop_lem recs start))

  pub reinject_step-IsWhole :
      (recs : List (Dict Value)) (w : W)
      → ReportsOnce
      → IsWhole (length recs) (reinject_step outside recs w).0
  unfolding reinject_step
  reinject_step-IsWhole [] w once = refl
  reinject_step-IsWhole (r ∷ recs) w once =
      reinject_all-IsWhole (r ∷ recs) (outside.open_producer w) once

  direct_loop_lem :
      (now_ms : ℕ) (recs : List (Dict Value)) (t : Tally outside)
      → let u = direct_loop outside now_ms recs t in
        u.done + u.failed ≡ t.done + t.failed + length recs
  unfolding direct_loop
  direct_loop_lem now_ms [] t = omega arith
  direct_loop_lem now_ms (r ∷ recs) t =
      let o = execute_built outside (direct_statements outside now_ms r) t.world in
      omega (
        arith,
        tally o t.done t.failed,
        direct_loop_lem now_ms recs (count outside o t.done t.failed),
      )

  write_all-IsWhole :
      (recs : List (Dict Value)) (o : Outcome (Unit {0})) (w : W)
      → IsWhole (length recs) (write_all outside recs o w).0
  write_all-IsWhole recs (raised e) w = tt
  write_all-IsWhole recs (returned u) w =
      let (now_ms, w') = outside.clock_ms w in
      omega (arith, direct_loop_lem now_ms recs (record { done = 0; failed = 0; world = w' }))

  pub direct_write-IsWhole :
      (recs : List (Dict Value)) (w : W) → IsWhole (length recs) (direct_write outside recs w).0
  unfolding direct_write
  direct_write-IsWhole [] w = refl
  direct_write-IsWhole (r ∷ recs) w =
      let (o, w') = outside.connect w in write_all-IsWhole (r ∷ recs) o w'

  saved-Accounted :
      (n : ℕ) (r : Report) (o : Outcome (Unit {0}) × W)
      → Accounted n (returned (drained r))
      → Accounted n (saved outside r o).0
  saved-Accounted n r (raised e, w) h = tt
  saved-Accounted n r (returned u, w) h = h

  reported-Accounted :
      (n : ℕ) (has_report : Bool) (r : Report) (o : Outcome (Unit {0}) × W)
      → Accounted n (returned (drained r))
      → Accounted n (reported outside has_report r o).0
  reported-Accounted n has_report r (raised e, w) h = tt
  reported-Accounted n true r (returned u, w) h = saved-Accounted n r (outside.write_report r w) h
  reported-Accounted n false r (returned u, w) h = h

  finish-Accounted :
      (n : ℕ) (has_report : Bool) (routes : Routes) (again : Tally outside)
      (d : Outcome (Tally outside) × W)
      → size routes ≡ n
      → again.done + again.failed ≡ length routes.reinject
      → IsWhole (length routes.direct) d.0
      → Accounted n (finish outside has_report n again routes.park d).0
  finish-Accounted n has_report routes again (raised e, w) whole again_whole others = tt
  finish-Accounted n has_report routes again (returned late, w) whole again_whole others =
      reported-Accounted n has_report (report outside n again late (length routes.park))
        (park_step outside routes.park w)
        (
          refl,
          refl,
          omega (arith, whole, again_whole, others),
          omega (arith, whole, again_whole, others),
        )

  after_reinject-Accounted :
      (n : ℕ) (has_report : Bool) (routes : Routes) (o : Outcome (Tally outside) × W)
      → size routes ≡ n
      → IsWhole (length routes.reinject) o.0
      → Accounted n (after_reinject outside has_report n routes o).0
  after_reinject-Accounted n has_report routes (raised e, w) whole h = tt
  after_reinject-Accounted n has_report routes (returned again, w) whole h =
      finish-Accounted n has_report routes again (direct_write outside routes.direct w) whole h
        (direct_write-IsWhole routes.direct w)

  carry_out-Accounted :
      (n : ℕ) (args : Arguments) (o : Outcome Routes) (w : W)
      → ReportsOnce
      → ((routes : Routes) → o ≡ returned routes → size routes ≡ n)
      → Accounted n (carry_out outside n args o w).0
  carry_out-Accounted n args (raised e) w once whole = tt
  carry_out-Accounted n args (returned routes) w once whole = elim (Bool-cases args.dry_run) [
    | inl e ↦ rw e (refl, whole routes refl)
    | inr e ↦ rw e (
        after_reinject-Accounted n args.has_report routes (reinject_step outside routes.reinject w)
          (whole routes refl) (reinject_step-IsWhole routes.reinject w once))
  ]

  -- The report of a drain adds up: every record read is re-injected, written directly, parked, or
  -- counted as a failure, and the field `unaccounted` is just these failures. A dry run puts every
  -- record in one of its three counts. The condition is that the producer reports no more delivery
  -- errors than it has taken messages.
  pub drain-Accounted :
      (args : Arguments) (recs : List (Dict Value)) (w : W)
      → ReportsOnce
      → Accounted (length recs) (drain outside args recs w).0
  unfolding drain
  drain-Accounted args [] w once = refl
  drain-Accounted args (r ∷ recs) w once =
      carry_out-Accounted (length (r ∷ recs)) args
        (route_all outside args.max_replays (r ∷ recs) no_routes) w once
        (λ routes h. omega (arith, size-route_all args.max_replays (r ∷ recs) no_routes routes h))
