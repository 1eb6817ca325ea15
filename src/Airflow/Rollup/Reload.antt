-- ===== src/Airflow/Rollup/Reload.antt =====
-- What `extract_and_load_hour` of airflow/dags/trips_batch_rollup.py leaves in the stage table, and
-- what `verify_hour` then finds.
use real_time_data_pipeline.Base.{
  ℕ, ◌≡◌, refl, ap, ◌∙◌, sym, String, List, [], ◌∷◌, ◌++◌, map, length, arith,
}
use real_time_data_pipeline.Base.Errors.{returned, >>=-eq-returned}
use real_time_data_pipeline.Bench.Act.{pure, after, finally}
use real_time_data_pipeline.Bench.Act.Inversion.{
  after-returned, after-eq-returned, finished-eq-returned,
}
use real_time_data_pipeline.Airflow.{Services, Python, TripRow, Load, cities}
use real_time_data_pipeline.Airflow.Payload.{payload_row, payload_of}
use real_time_data_pipeline.Airflow.Stage.{
  Stage, IsStage, IsStored, IsStored-between, Answers, rows_of, landed,
}
use real_time_data_pipeline.Airflow.Stage.Landing.{landed-twice}
use real_time_data_pipeline.Airflow.Rollup.{
  Loaded, hour_for, extract, load_rows, load_hour, extract_and_load_hour,
}

pub length-payload_of :
    (python : Python) (rows : List (String × TripRow)) (p : List Load)
    → payload_of python rows ≡ returned p
    → length p ≡ length rows
unfolding payload_of
length-payload_of python [] p h = ground (arith, h)
length-payload_of python ((c, r) ∷ rows) p h =
    let (l, _, h1) = >>=-eq-returned (payload_row python c r) _ h in
    let (ls, e, h2) = >>=-eq-returned (payload_of python rows) _ h1 in
    ground (arith, h2, length-payload_of python rows ls e)

module _ {W : Type 0} (services : Services W) (python : Python) (stage : Stage W)
    (laws : IsStage services stage) (rows : String → ℕ → List TripRow)
    (answers : Answers services rows) where
  -- The extract reads the rows of the hour, and changes nothing.
  pub extract_lem :
      (hour : ℕ) (cs : List String) (w : W)
      → ((extract services python hour cs w).0 ≡ returned (rows_of rows hour cs))
        × (stage.sees (extract services python hour cs w).1 ≡ stage.sees w)
  unfolding extract
  extract_lem hour [] w = (refl, refl)
  extract_lem hour (c ∷ cs) w =
      let w1 = (services.select c hour w).1 in
      let ih = extract_lem hour cs w1 in
      rw
        (after-returned (services.select c hour w)
          (λ res w'.
            after (extract services python hour cs w')
              (λ more. pure (map (λ r. (c, r)) res ++ more)))
          (rows c hour) (answers c hour w))
        (rw
          (after-returned (extract services python hour cs w1)
            (λ more. pure (map (λ r. (c, r)) (rows c hour) ++ more)) (rows_of rows hour cs) ih.0)
          (refl, ih.1 ∙ laws.selects c hour w))

  -- A load that ends well has stored the payload of its rows.
  abbrev pub HasLanded : List (String × TripRow) → W → W → Type 0
  HasLanded rs w w' =
      (p : List Load) × (payload_of python rs ≡ returned p)
      × IsStored stage p (stage.sees w) (stage.sees w')

  load_rows-HasLanded :
      (rs : List (String × TripRow)) (w w' : W) {n : ℕ}
      → load_rows services python rs w ≡ (returned n, w')
      → HasLanded rs w w'
  unfolding load_rows
  load_rows-HasLanded rs w w' h =
      let (p, v, e, h1) = after-eq-returned (payload_of python rs, w) _ h in
      let (u, w1, x, h2) = after-eq-returned (services.execute_values p v) _ h1 in
      let (n', w2, c, h3) = after-eq-returned (services.rowcount w1) _ h2 in
      let (u', w3, k, h4) = after-eq-returned (services.commit w2) _ h3 in
      (
        p,
        ap (λ m. m.0) e,
        IsStored-between stage p (ap (λ m. stage.sees m.1) (sym e)) (ap (λ m. stage.sees m.1) h4) (
            laws.stores p v w1 w3 x
              (ap services.commit (sym (laws.rowcount_reads w1) ∙ ap (λ m. m.1) c) ∙ k)),
      )

  load_hour-HasLanded :
      (hour : ℕ) (rs : List (String × TripRow)) (w w' : W) {r : Loaded}
      → load_hour services python hour rs w ≡ (returned r, w')
      → HasLanded rs w w' × (r.extracted ≡ length rs) × (r.hour ≡ hour)
  unfolding load_hour payload_of landed
  load_hour-HasLanded hour [] w w' h =
      let e = ap (λ m. stage.sees m.1) h in
      (
        ([], refl, IsStored-between stage [] refl e (refl, (λ a b d. refl))),
        (ground (arith, h)),
        (ground (arith, h)),
      )
  load_hour-HasLanded hour (x ∷ rs) w w' h =
      let (u, w1, c, h1) = after-eq-returned (services.pg_conn w) _ h in
      let (n, w2, f, h2) =
        after-eq-returned (finally (load_rows services python (x ∷ rs)) services.close w1) _ h1 in
      let (o, k) =
        finished-eq-returned (load_rows services python (x ∷ rs) w1).0
          (services.close (load_rows services python (x ∷ rs) w1).1) f in
      let (p, q, st) =
        load_rows-HasLanded (x ∷ rs) w1 (load_rows services python (x ∷ rs) w1).1
          (ap (λ q. (q, (load_rows services python (x ∷ rs) w1).1)) o) in
      (
        (
          p,
          q,
          IsStored-between stage p (ap (λ m. stage.sees m.1) (sym c) ∙ laws.connects w)
              (sym (laws.closes (load_rows services python (x ∷ rs) w1).1)
                ∙ ap stage.sees (k ∙ ap (λ m. m.1) h2))
              st,
        ),
        ground (arith, h2),
        ground (arith, h2),
      )

  pub extract_and_load_hour-HasLanded :
      (logical : ℕ) (w w' : W) {r : Loaded}
      → extract_and_load_hour services python logical w ≡ (returned r, w')
      → HasLanded (rows_of rows (hour_for logical) cities) w w'
        × (r.extracted ≡ length (rows_of rows (hour_for logical) cities))
        × (r.hour ≡ hour_for logical)
  unfolding extract_and_load_hour
  extract_and_load_hour-HasLanded logical w w' h =
      let hour = hour_for logical in
      let (u, w1, c, h1) = after-eq-returned (services.cassandra_session w) _ h in
      let x = extract services python hour cities w1 in
      let (rs, w2, f, h2) =
        after-eq-returned (finally (extract services python hour cities) services.shutdown w1) _
          h1 in
      let (o, k) = finished-eq-returned x.0 (services.shutdown x.1) f in
      let (e, s) = extract_lem hour cities w1 in
      let same : rows_of rows hour cities ≡ rs = ground (arith, o, e) in
      let ((p, q, st), n, m) =
        load_hour-HasLanded hour (rows_of rows hour cities) w2 w'
          (ap (λ y. load_hour services python hour y w2) same ∙ h2) in
      (
        (
          p,
          q,
          IsStored-between stage p
              (sym (ap stage.sees k)
                ∙ laws.shuts x.1
                ∙ s
                ∙ ap (λ v. stage.sees v.1) (sym c)
                ∙ laws.opens w)
              refl st,
        ),
        n,
        m,
      )

  -- Loading an hour a second time leaves every row as it is, if Cassandra answers by the same rows.
  pub extract_and_load_hour-twice :
      (logical : ℕ) (w w1 w2 : W) (r r' : Loaded) (trip_id : String)
      → extract_and_load_hour services python logical w ≡ (returned r, w1)
      → extract_and_load_hour services python logical w1 ≡ (returned r', w2)
      → stage.row (stage.sees w2) trip_id ≡ stage.row (stage.sees w1) trip_id
  extract_and_load_hour-twice logical w w1 w2 r r' trip_id h k =
      let ((p, e, st), _, _) = extract_and_load_hour-HasLanded logical w w1 h in
      let ((q, e', st'), _, _) = extract_and_load_hour-HasLanded logical w1 w2 k in
      let same : p ≡ q = ground (arith, e, e') in
      let first = ap (λ t. t trip_id) st.0 in
      ap (λ t. t trip_id) st'.0
      ∙ ap (λ y. landed trip_id y (stage.row (stage.sees w1) trip_id)) (sym same)
      ∙ ap (landed trip_id p) first
      ∙ landed-twice trip_id p (stage.row (stage.sees w) trip_id)
      ∙ sym first
