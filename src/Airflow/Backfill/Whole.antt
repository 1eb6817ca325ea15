-- ===== src/Airflow/Backfill/Whole.antt =====
-- A backfill as a whole, and the rollups of its hours (airflow/dags/trips_backfill.py and
-- trips_batch_rollup.py).
use real_time_data_pipeline.Base.{
  ℕ, zero, ◌⊎◌, inl, inr, suc, ◌+◌, ◌*◌, ◌≤◌, ◌<◌, ◌≡◌, refl, ap, ◌∙◌, sym, String, List, [], ◌++◌,
  length, length-append, Option, none, some, arith, ◌==◌,
}
use real_time_data_pipeline.Base.Errors.{Outcome, returned, raised}
use real_time_data_pipeline.Bench.Act.{Act, finished, ◌>>◌}
use real_time_data_pipeline.Bench.Act.Inversion.{finished-eq-returned, after-keeps}
use real_time_data_pipeline.Airflow.{Services, Python, TripRow, Load, cities, one_hour, floor_hour}
use real_time_data_pipeline.Airflow.Payload.{payload_of}
use real_time_data_pipeline.Airflow.Stage.{Stage, IsStage, Answers, rows_of, landing, landed}
use real_time_data_pipeline.Airflow.Stage.Landing.{landing-append, landed-twice}
use real_time_data_pipeline.Airflow.Rollup.{Loaded, extract_and_load_hour}
use real_time_data_pipeline.Airflow.Rollup.Reload.{
  length-payload_of, extract_and_load_hour-HasLanded,
}
use real_time_data_pipeline.Airflow.Backfill.{
  Plan, Totals, Reprocessed, closing, told, reprocessed, no_rows, connect, reprocess_window,
  is_empty_window,
}
use real_time_data_pipeline.Airflow.Backfill.Window.{
  payload_of-append, carried-eq-returned, Lands, hours_from, rows_in, count_empty, walk-IsWalked,
}

told-eq-returned :
    {W : Type 0} (plan : Plan) (m : Option (Outcome Totals × W)) {r : Reprocessed} {w' : W}
    → told plan m ≡ some (returned r, w')
    → (t : Totals) × (m ≡ some (returned t, w')) × (reprocessed plan t ≡ r)
told-eq-returned plan none h = ground (arith, h)
told-eq-returned plan (some (returned t, w)) h = (t, ground (arith, h), ground (arith, h))
told-eq-returned plan (some (raised e, w)) h = ground (arith, h)

closing-eq-returned :
    {W : Type 0} {A : Type 0} (k : Act W (Unit {0})) (m : Option (Outcome A × W)) {a : A} {w' : W}
    → closing k m ≡ some (returned a, w')
    → (w1 : W) × (m ≡ some (returned a, w1)) × ((k w1).1 ≡ w')
closing-eq-returned k none h = ground (arith, h)
closing-eq-returned k (some (o, w)) {a} {w'} h =
    let e : finished o (k w) ≡ (returned a, w') = ground (arith, h) in
    let (f, g) = finished-eq-returned o (k w) e in (w, ap (λ q. some (q, w)) f, g)

module _ {W : Type 0} (services : Services W) (python : Python) (stage : Stage W)
    (laws : IsStage services stage) (rows : String → ℕ → List TripRow)
    (answers : Answers services rows) where
  -- A window of so many hours, the last of them perhaps not a whole one.
  abbrev pub Spans : ℕ → Plan → Type 0
  Spans n plan =
      (plan.end ≤ plan.start + n * one_hour) × (plan.start + n * one_hour < plan.end + one_hour)

  -- What a window's backfill comes to.
  abbrev pub IsReprocessed : ℕ → Plan → Reprocessed → W → W → Type 0
  IsReprocessed n plan r w w' =
      (p : List Load) × Lands python stage (rows_in rows (hours_from n plan.start)) p w w'
      × (r.rows_read ≡ length p)
      × (r.rows_loaded ≡ length p)
      × (r.empty_hours ≡ count_empty rows (hours_from n plan.start))
      × (r.plan ≡ plan)

  pub reprocess_window-IsReprocessed :
      (fuel n : ℕ) (plan : Plan) (w w' : W) (r : Reprocessed)
      → reprocess_window services python fuel plan w ≡ some (returned r, w')
      → Spans n plan
      → IsReprocessed n plan r w w'
  unfolding reprocess_window
  reprocess_window-IsReprocessed fuel n plan w w' r h span =
      let (u, w1, c, h1) = carried-eq-returned _ (connect services python w) h in
      let (t, h2, e) = told-eq-returned plan _ h1 in
      let (w2, h3, k) = closing-eq-returned (services.shutdown >> services.close) _ h2 in
      let (p, (i, s), x, y, z) =
        walk-IsWalked services python stage laws rows answers n fuel plan.end plan.start no_rows t
          w1 w2 h3 span.0 span.1 in
      (
        p,
        (
          i,
          ap (λ v. stage.row (stage.sees v)) (sym k)
              ∙ ap stage.row (
                  after-keeps stage.sees (services.shutdown w2) (λ _. services.close)
                    (λ _ v. laws.closes v)
                  ∙ laws.shuts w2)
              ∙ s
              ∙ ap (λ v. landing p (stage.row v))
                  (ap (λ m. stage.sees m.1) (sym c)
                    ∙ after-keeps stage.sees (services.cassandra_session w) (λ _. services.pg_conn)
                        (λ _ v. laws.connects v)
                    ∙ laws.opens w),
        ),
        omega (arith, x, ap (λ v. v.rows_read) e),
        omega (arith, y, ap (λ v. v.rows_loaded) e),
        omega (arith, z, ap (λ v. v.empty_hours) e),
        ap (λ v. v.plan) (sym e),
      )

  -- The rollups of so many hours, one after the other.
  abbrev pub Rolls : ℕ → ℕ → W → W → Type 0
  Rolls zero hour w w' = w ≡ w'
  Rolls (suc n) hour w w' =
      (r : Loaded) × (w1 : W) × (extract_and_load_hour services python hour w ≡ (returned r, w1))
      × Rolls n (hour + one_hour) w1 w'

  Rolls-Lands :
      (n hour : ℕ) (w w' : W)
      → floor_hour hour ≡ hour
      → Rolls n hour w w'
      → (p : List Load) × Lands python stage (rows_in rows (hours_from n hour)) p w w'
  unfolding landed payload_of floor_hour
  Rolls-Lands zero hour w w' whole h = ([], (refl, ap (λ v. stage.row (stage.sees v)) (sym h)))
  Rolls-Lands (suc n) hour w w' whole (r, w1, h, k) =
      let ((p, i, st), _, _) =
        extract_and_load_hour-HasLanded services python stage laws rows answers hour w w1 h in
      let (q, (j, s)) = Rolls-Lands n (hour + one_hour) w1 w' (omega (arith, whole)) k in
      (
        p ++ q,
        (
          payload_of-append python (rows_of rows hour cities)
              (rows_in rows (hours_from n (hour + one_hour))) p q
              (ap (λ y. payload_of python (rows_of rows y cities)) (sym whole) ∙ i) j,
          s ∙ ap (landing q) st.0 ∙ sym (landing-append p q (stage.row (stage.sees w))),
        ),
      )

  -- A backfill leaves the rows as the rollups of its hours do, before them or after them.
  pub reprocess_window-Rolls :
      (fuel n : ℕ) (plan : Plan) (w w1 v v' : W) (r : Reprocessed) (trip_id : String)
      → floor_hour plan.start ≡ plan.start
      → Spans n plan
      → Rolls n plan.start w w1
      → (stage.sees v ≡ stage.sees w) ⊎ (stage.sees v ≡ stage.sees w1)
      → reprocess_window services python fuel plan v ≡ some (returned r, v')
      → stage.row (stage.sees v') trip_id ≡ stage.row (stage.sees w1) trip_id
  reprocess_window-Rolls fuel n plan w w1 v v' r trip_id whole span rolls from h =
      let (p, (i, s)) = Rolls-Lands n plan.start w w1 whole rolls in
      let (q, (j, z), _, _, _, _) = reprocess_window-IsReprocessed fuel n plan v v' r h span in
      let same : q ≡ p = ground (arith, i, j) in
      let first = ap (λ t. t trip_id) s in
      let second =
        ap (λ t. t trip_id) z
        ∙ ap (λ y. landed trip_id y (stage.row (stage.sees v) trip_id)) same in
      elim (from) [
        | inl e ↦ second ∙ ap (λ t. landed trip_id p (stage.row t trip_id)) e ∙ sym first
        | inr e ↦
            second
            ∙ ap (λ t. landed trip_id p (stage.row t trip_id)) e
            ∙ ap (landed trip_id p) first
            ∙ landed-twice trip_id p (stage.row (stage.sees w) trip_id)
            ∙ sym first
      ]

  count_empty-rows_in :
      (n hour : ℕ)
      → (count_empty rows (hours_from n hour) ≤ n)
        × ((count_empty rows (hours_from n hour) == n)
            ≡ (length (rows_in rows (hours_from n hour)) == 0))
  count_empty-rows_in zero hour = (omega arith, refl)
  count_empty-rows_in (suc n) hour =
      let (a, b) = count_empty-rows_in n (hour + one_hour) in
      let size =
        length-append (rows_of rows hour cities) (rows_in rows (hours_from n (hour + one_hour))) in
      (ground (arith, a), ground (arith, a, b, size))

  -- A window of whole hours counts as empty exactly if no row was read.
  pub reprocess_window-is_empty_window :
      (fuel : ℕ) (plan : Plan) (w w' : W) (r : Reprocessed)
      → reprocess_window services python fuel plan w ≡ some (returned r, w')
      → plan.end ≡ plan.start + plan.hours * one_hour
      → is_empty_window r ≡ (r.rows_read == 0)
  reprocess_window-is_empty_window fuel plan w w' r h whole =
      let (p, (i, s), x, y, z, same) =
        reprocess_window-IsReprocessed fuel plan.hours plan w w' r h
          (omega (arith, whole), omega (arith, whole)) in
      let size = length-payload_of python (rows_in rows (hours_from plan.hours plan.start)) p i in
      rw same (rw z (rw x (rw size (count_empty-rows_in plan.hours plan.start).1)))
