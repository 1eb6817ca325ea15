-- ===== src/Airflow/Rollup/Drift.antt =====
-- What `verify_hour` of airflow/dags/trips_batch_rollup.py finds after the load of an hour.
use real_time_data_pipeline.Base.{
  ℕ, zero, suc, ◌+◌, ◌≡◌, refl, ap, ◌∙◌, sym, String, List, arith, false, if◌then◌else◌,
}
use real_time_data_pipeline.Base.Errors.{Outcome, returned, raised, value_error}
use real_time_data_pipeline.Value.{ℤ, pos, negsuc}
use real_time_data_pipeline.Value.Int.{◌-ℤ◌, diff}
use real_time_data_pipeline.Bench.Act.{Act, finally, lift, pure, ◌>>=◌}
use real_time_data_pipeline.Bench.Act.Sound.{Returns, after-Returns, Returns-any}
use real_time_data_pipeline.Bench.Act.Inversion.{after-returned, finished-returned}
use real_time_data_pipeline.Airflow.{
  Services, Python, TripRow, Load, cities, hour_bounds, emit_alert,
}
use real_time_data_pipeline.Airflow.Payload.{payload_of}
use real_time_data_pipeline.Airflow.Stage.{
  Stage, IsStage, IsStored, IsUp, Answers, rows_of, IsDistinct, trip_ids, held_among,
}
use real_time_data_pipeline.Airflow.Stage.Landing.{AreIn, held_among-landing}
use real_time_data_pipeline.Airflow.Rollup.{
  Loaded, Verified, hour_for, is_drift, drift_payload, settled, extract_and_load_hour, verify_hour,
}
use real_time_data_pipeline.Airflow.Rollup.Reload.{
  length-payload_of, extract_and_load_hour-HasLanded,
}

-- The check of a load, where so many rows of other trips lie in the hour: without any the hour is
-- verified with no drift; with some the check returns only where nothing was extracted.
abbrev pub IsChecked : ℕ → Loaded → Outcome Verified → Type 0
IsChecked zero r o = o ≡ returned (record { result = r; in_postgres = r.extracted; drift = pos 0 })
IsChecked (suc n) r o = Returns (λ _. r.extracted ≡ 0) o

zero_add : (n : ℕ) → 0 + n ≡ n
zero_add n = omega arith

less_itself : (n : ℕ) → pos n -ℤ pos n ≡ pos 0
unfolding ◌-ℤ◌ diff
less_itself n = ground arith

less_more : (n k : ℕ) → pos n -ℤ pos (suc k + n) ≡ negsuc k
unfolding ◌-ℤ◌ diff
less_more n k = ground arith

is_drift-none : (n : ℕ) → is_drift n (pos 0) ≡ false
is_drift-none zero = refl
is_drift-none (suc n) = refl

module _ {W : Type 0} (services : Services W) (python : Python) where
  abbrev seen : Loaded → ℕ → Verified
  seen r n = record { result = r; in_postgres = n; drift = pos r.extracted -ℤ pos n }

  -- A task that raises after its alert returns nothing.
  drifted :
      (P : Type 0) (e k : ℕ) (d : ℤ) (m : Act W (Unit {0})) (v : Verified) (w : W)
      → d ≡ negsuc k
      → (e ≡ 0 → P)
      → Returns
          (λ _. P)
          ((if is_drift e d
              then (m >>= λ u. lift (raised (value_error "rollup drift")))
              else pure v)
            w).0
  drifted P zero k d m v w q h = h refl
  drifted P (suc e) k d m v w q h = rw q (
      after-Returns (λ _. Unit {0}) (λ _. P) (m w) (λ u. lift (raised (value_error "rollup drift")))
        (Returns-any (m w).0) (λ a s _. tt))

  settled-IsChecked :
      (others : ℕ) (r : Loaded) (w : W)
      → IsChecked others r (settled services python (seen r (others + r.extracted)) w).0
  unfolding settled
  settled-IsChecked zero r w =
      rw (zero_add r.extracted) (rw (less_itself r.extracted) (rw (is_drift-none r.extracted) refl))
  settled-IsChecked (suc k) r w =
      drifted (r.extracted ≡ 0) r.extracted k (pos r.extracted -ℤ pos (suc k + r.extracted))
        (emit_alert services python "rollup_drift" (drift_payload (seen r (suc k + r.extracted))))
        (seen r (suc k + r.extracted)) w (less_more r.extracted k) (λ e. e)

module _ {W : Type 0} (services : Services W) (python : Python) (stage : Stage W)
    (laws : IsStage services stage) (up : IsUp services stage) (rows : String → ℕ → List TripRow)
    (answers : Answers services rows) where
  -- The check counts what the stage holds of the hour.
  verify_hour_lem :
      (r : Loaded) (w : W)
      → (v : W) × ((verify_hour services python r w).0
          ≡ (settled services python
              (seen services python r
                (stage.held (stage.sees w) (hour_bounds r.hour).0 (hour_bounds r.hour).1))
              v).0)
  unfolding verify_hour
  verify_hour_lem r w =
      let w1 = (services.pg_conn w).1 in
      let (a, b) = hour_bounds r.hour in
      let x = services.count_between a b w1 in
      let n = stage.held (stage.sees w) a b in
      rw
        (after-returned (services.pg_conn w)
          (λ u. finally (services.count_between a b) services.close >>= λ k.
            settled services python (seen services python r k))
          tt (up.reaches w))
        (rw (finished-returned x.0 (services.close x.1) (up.ends x.1)) (
          rw
            (after-returned (x.0, (services.close x.1).1)
              (λ k. settled services python (seen services python r k)) n
              (up.answers a b w1 ∙ ap (λ s. returned (stage.held s a b)) (laws.connects w)))
            ((services.close x.1).1, refl)))

  pub verify_hour-IsChecked :
      (logical others : ℕ) (w w' : W) (r : Loaded) (p : List Load)
      → extract_and_load_hour services python logical w ≡ (returned r, w')
      → payload_of python (rows_of rows (hour_for logical) cities) ≡ returned p
      → IsDistinct (trip_ids p)
      → AreIn (hour_bounds (hour_for logical)).0 (hour_bounds (hour_for logical)).1 p
      → stage.held
          (stage.sees w)
          (hour_bounds (hour_for logical)).0
          (hour_bounds (hour_for logical)).1
        ≡ others
          + held_among
              (hour_bounds (hour_for logical)).0
              (hour_bounds (hour_for logical)).1
              (stage.row (stage.sees w))
              (trip_ids p)
      → IsChecked others r (verify_hour services python r w').0
  verify_hour-IsChecked logical others w w' r p h e distinct inside rest =
      let ((q, e', st), n, m) =
        extract_and_load_hour-HasLanded services python stage laws rows answers logical w w' h in
      let same : q ≡ p = ground (arith, e, e') in
      let (v, k) = verify_hour_lem r w' in
      let (a, b) = hour_bounds (hour_for logical) in
      let (lands, counts) : IsStored stage p (stage.sees w) (stage.sees w') = rw (sym same) st in
      let count : stage.held (stage.sees w') a b ≡ others + r.extracted = omega (
        arith,
        counts a b distinct,
        rest,
        ap (λ t. held_among a b t (trip_ids p)) lands,
        held_among-landing a b p (stage.row (stage.sees w)) inside,
        length-payload_of python (rows_of rows (hour_for logical) cities) p e,
        n,
      ) in
      let eq =
        k
        ∙ ap (λ i. (settled services python (seen services python r i) v).0)
            (ap (λ y. stage.held (stage.sees w') (hour_bounds y).0 (hour_bounds y).1) m ∙ count) in
      rw eq (settled-IsChecked services python others r v)
