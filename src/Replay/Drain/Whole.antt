-- ===== src/Replay/Drain/Whole.antt =====
-- That `drain` of replay/dlq_tools.py comes to its end, when what it calls can be reached.
use real_time_data_pipeline.Base.{
  ℕ, ◌+◌, ◌≡◌, refl, ◌∙◌, Bool, true, false, List, [], ◌∷◌, map, length, length-map, String, keep,
  All,
}
use real_time_data_pipeline.Base.Dict.{Dict}
use real_time_data_pipeline.Base.Errors.{Outcome, returned, raised}
use real_time_data_pipeline.Value.{Value}
use real_time_data_pipeline.Replay.Drain.{
  Outside, Arguments, Routes, no_routes, Result, empty, preview, drained, Report, report, park_step,
  saved, reported, after_reinject, flushed, reinject_all, route_all, Tally, reinject_loop,
  reinject_step, write_all, direct_write, carry_out, finish, drain,
}
use real_time_data_pipeline.Replay.Drain.Routing.{
  Read, IsRead, goes_again, goes_direct, stays, park_row, sorted, route_all_lem,
}
use real_time_data_pipeline.Replay.Drain.Accounts.{
  ReportsOnce, IsWhole, reinject_step-IsWhole, direct_write-IsWhole,
}

module _ {W : Type 0} (outside : Outside W) where
  -- The drain of some records has put each of them where it belongs.
  abbrev pub Completed : ℕ → List Read → Outcome Result → Type 0
  Completed max_replays rs (raised e) = ⊥
  Completed max_replays rs (returned empty) = rs ≡ []
  Completed max_replays rs (returned (preview n r)) = ⊥
  Completed max_replays rs (returned (drained r)) =
      (r.reinjected + r.reinject_failed ≡ length (keep (goes_again outside max_replays) rs))
      × (r.direct_written + r.direct_write_failed
          ≡ length (keep (goes_direct outside max_replays) rs))
      × (r.parked ≡ length (keep (stays outside max_replays) rs))

  -- A call that raises nothing.
  abbrev Succeeds : {A : Type 0} → Outcome A → Type 0
  Succeeds (raised e) = ⊥
  Succeeds (returned a) = Unit

  -- Kafka, Cassandra and the files of the drain can be reached.
  pub record IsUp : Type 0 where
    pub opens : (w : W) → Succeeds (outside.open_producer w).0
    pub flushes : (n : ℕ) (w : W) → Succeeds (outside.flush n w).0
    pub connects : (w : W) → Succeeds (outside.connect w).0
    pub parks : (rs : List (Dict Value)) (w : W) → Succeeds (outside.write_parked rs w).0
    pub reports : (r : Report) (w : W) → Succeeds (outside.write_report r w).0

  flushed-Succeeds :
      (t : Tally outside) (o : Outcome (List String) × W)
      → Succeeds o.0
      → Succeeds (flushed outside t o).0
  flushed-Succeeds t (raised e, w) h = h
  flushed-Succeeds t (returned errors, w) h = tt

  reinject_all-Succeeds :
      (recs : List (Dict Value)) (o : Outcome (Unit {0}) × W)
      → IsUp
      → Succeeds o.0
      → Succeeds (reinject_all outside recs o).0
  reinject_all-Succeeds recs (raised e, w) up h = h
  reinject_all-Succeeds recs (returned u, w) up h =
      let t = reinject_loop outside recs (record { done = 0; failed = 0; world = w }) in
      flushed-Succeeds t (outside.flush t.done t.world) (up.flushes t.done t.world)

  reinject_step-Succeeds :
      (recs : List (Dict Value)) (w : W) → IsUp → Succeeds (reinject_step outside recs w).0
  unfolding reinject_step
  reinject_step-Succeeds [] w up = tt
  reinject_step-Succeeds (r ∷ recs) w up =
      reinject_all-Succeeds (r ∷ recs) (outside.open_producer w) up (up.opens w)

  write_all-Succeeds :
      (recs : List (Dict Value)) (o : Outcome (Unit {0})) (w : W)
      → Succeeds o
      → Succeeds (write_all outside recs o w).0
  write_all-Succeeds recs (raised e) w h = h
  write_all-Succeeds recs (returned u) w h = tt

  direct_write-Succeeds :
      (recs : List (Dict Value)) (w : W) → IsUp → Succeeds (direct_write outside recs w).0
  unfolding direct_write
  direct_write-Succeeds [] w up = tt
  direct_write-Succeeds (r ∷ recs) w up =
      let (o, w') = outside.connect w in write_all-Succeeds (r ∷ recs) o w' (up.connects w)

  park_step-Succeeds :
      (recs : List (Dict Value)) (w : W) → IsUp → Succeeds (park_step outside recs w).0
  park_step-Succeeds [] w up = tt
  park_step-Succeeds (r ∷ recs) w up = up.parks (r ∷ recs) w

  module _ (max_replays : ℕ) (rs : List Read) (up : IsUp) where
    saved-Completed :
        (r : Report) (o : Outcome (Unit {0}) × W)
        → Completed max_replays rs (returned (drained r))
        → Succeeds o.0
        → Completed max_replays rs (saved outside r o).0
    saved-Completed r (raised e, w) h k = k
    saved-Completed r (returned u, w) h k = h

    reported-Completed :
        (has_report : Bool) (r : Report) (o : Outcome (Unit {0}) × W)
        → Completed max_replays rs (returned (drained r))
        → Succeeds o.0
        → Completed max_replays rs (reported outside has_report r o).0
    reported-Completed has_report r (raised e, w) h k = k
    reported-Completed true r (returned u, w) h k =
        saved-Completed r (outside.write_report r w) h (up.reports r w)
    reported-Completed false r (returned u, w) h k = h

    finish-Completed :
        (n : ℕ) (has_report : Bool) (again : Tally outside) (d : Outcome (Tally outside) × W)
        → again.done + again.failed ≡ length (sorted outside max_replays rs).reinject
        → IsWhole outside (length (sorted outside max_replays rs).direct) d.0
        → Succeeds d.0
        → Completed max_replays rs
            (finish outside has_report n again (sorted outside max_replays rs).park d).0
    finish-Completed n has_report again (raised e, w) a b k = k
    finish-Completed n has_report again (returned late, w) a b k =
        let routes = sorted outside max_replays rs in
        reported-Completed has_report (report outside n again late (length routes.park))
          (park_step outside routes.park w)
          (
            a ∙ length-map (keep (goes_again outside max_replays) rs) (λ (r : Read). r.row),
            b ∙ length-map (keep (goes_direct outside max_replays) rs) (λ (r : Read). r.row),
            length-map (keep (stays outside max_replays) rs) (park_row outside max_replays),
          )
          (park_step-Succeeds routes.park w up)

    after_reinject-Completed :
        (n : ℕ) (has_report : Bool) (o : Outcome (Tally outside) × W)
        → IsWhole outside (length (sorted outside max_replays rs).reinject) o.0
        → Succeeds o.0
        → Completed max_replays rs
            (after_reinject outside has_report n (sorted outside max_replays rs) o).0
    after_reinject-Completed n has_report (raised e, w) a k = k
    after_reinject-Completed n has_report (returned again, w) a k =
        let late = (sorted outside max_replays rs).direct in
        finish-Completed n has_report again (direct_write outside late w) a
          (direct_write-IsWhole outside late w) (direct_write-Succeeds late w up)

    carry_out-Completed :
        (n : ℕ) (args : Arguments) (o : Outcome Routes) (w : W)
        → ReportsOnce outside
        → args.dry_run ≡ false
        → o ≡ returned (sorted outside max_replays rs)
        → Completed max_replays rs (carry_out outside n args o w).0
    carry_out-Completed n args o w once wet h =
        let again = (sorted outside max_replays rs).reinject in
        rw (h, wet)
          (after_reinject-Completed n args.has_report (reinject_step outside again w)
            (reinject_step-IsWhole outside again w once) (reinject_step-Succeeds again w up))

  -- If `int` reads the replay count of every record, the stages are texts, it is no dry run, and nothing
  -- is raised by the producer's construction and its flush, by the connection to Cassandra and by the
  -- files of the parked records and of the report, the drain raises nothing, and each record is tried
  -- or parked as it should: as many re-injections are tried as records are below the ceiling and from
  -- the sink or the producer, as many direct writes as records are below it and late, and all others
  -- are parked. A message or a statement that fails makes no difference to that.
  pub drain-Completed :
      (args : Arguments) (rs : List Read) (w : W)
      → ReportsOnce outside
      → args.dry_run ≡ false
      → IsUp
      → All (IsRead outside args.max_replays) rs
      → Completed args.max_replays rs (drain outside args (map (λ (r : Read). r.row) rs) w).0
  unfolding drain
  drain-Completed args [] w once wet up h = refl
  drain-Completed args (r ∷ rs) w once wet up h =
      let recs = map (λ (r : Read). r.row) (r ∷ rs) in
      carry_out-Completed args.max_replays (r ∷ rs) up (length recs) args
        (route_all outside args.max_replays recs no_routes) w once wet
        (route_all_lem outside args.max_replays (r ∷ rs) h)
