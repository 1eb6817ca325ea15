-- ===== src/Airflow/Backfill/Fuel.antt =====
-- The loop of `reprocess_window` in airflow/dags/trips_backfill.py ends.
use real_time_data_pipeline.Base.{
  ℕ, zero, suc, ◌+◌, ◌-◌, ◌*◌, ◌/◌, ◌≤◌, ◌<◌, ◌≡◌, refl, Option, none, some, arith, ltb, leb,
  if◌then◌else◌, if_elim, ltb→lt,
}
use real_time_data_pipeline.Base.Errors.{Outcome, returned, raised, value_error}
use real_time_data_pipeline.Bench.Act.{Act, pure, lift, finally, ◌>>=◌, ◌>>◌}
use real_time_data_pipeline.Bench.Act.Sound.{Returns, Returns-weaken, after-Returns, Returns-any}
use real_time_data_pipeline.Airflow.{Services, Python, one_hour}
use real_time_data_pipeline.Airflow.Backfill.{
  Plan, Totals, carried, closing, told, max_hours, no_rows, plan_window, reprocess_hour, walk,
  connect, reprocess_window,
}

-- Whether a run has ended within its fuel.
abbrev pub HasEnded : {A : Type 0} → Option A → Type 0
HasEnded {A} o = (a : A) × (o ≡ some a)

carried-HasEnded :
    {W : Type 0} {A B : Type 0} (rest : A → W → Option (Outcome B × W)) (m : Outcome A × W)
    → ((a : A) → HasEnded (rest a m.1))
    → HasEnded (carried rest m)
carried-HasEnded rest (returned a, w) h = h a
carried-HasEnded rest (raised e, w) h = (_, refl)

closing-HasEnded :
    {W : Type 0} {A : Type 0} (k : Act W (Unit {0})) (m : Option (Outcome A × W))
    → HasEnded m
    → HasEnded (closing k m)
closing-HasEnded k none h = ground (arith, h.1)
closing-HasEnded k (some (o, w)) h = (_, refl)

told-HasEnded :
    {W : Type 0} (plan : Plan) (m : Option (Outcome Totals × W))
    → HasEnded m
    → HasEnded (told plan m)
told-HasEnded plan none h = ground (arith, h.1)
told-HasEnded plan (some (o, w)) h = (_, refl)

module _ {W : Type 0} (services : Services W) (python : Python) where
  walk-HasEnded :
      (fuel end hour : ℕ) (t : Totals) (w : W)
      → 1 ≤ fuel
      → end + one_hour ≤ hour + fuel * one_hour
      → HasEnded (walk services python fuel end hour t w)
  unfolding walk
  walk-HasEnded zero end hour t w one le = absurd (omega (arith, one))
  walk-HasEnded (suc fuel) end hour t w one le =
      if_elim (λ m. HasEnded (m)) (ltb hour end)
        (carried (walk services python fuel end (hour + one_hour))
          (reprocess_hour services python hour t w))
        (some (returned t, w))
        (λ e.
          let lt = ltb→lt hour end e in
          carried-HasEnded (walk services python fuel end (hour + one_hour))
            (reprocess_hour services python hour t w)
            (λ t'.
              walk-HasEnded fuel end (hour + one_hour) t'
                (reprocess_hour services python hour t w).1 (omega (arith, lt, le))
                (omega (arith, lt, le))))
        (λ _. (_, refl))

  -- A plan that is within the ceiling.
  abbrev pub IsPlanned : Plan → Type 0
  IsPlanned plan =
      (plan.start < plan.end)
      × (plan.hours ≡ (plan.end - plan.start) / one_hour)
      × (plan.hours ≤ max_hours)

  -- What `plan_window` returns for a window.
  abbrev IsPlanOf : ℕ → ℕ → Plan → Type 0
  IsPlanOf start end plan = IsPlanned plan × (plan.start ≡ start) × (plan.end ≡ end)

  pub plan_window-IsPlanned :
      (start end : ℕ) (w : W)
      → Returns (IsPlanOf start end) (plan_window services python start end w).0
  unfolding plan_window
  plan_window-IsPlanned start end w =
      let hours = (end - start) / one_hour in
      let plan_of : ℕ → Plan =
        λ id. record { start = start; end = end; hours = hours; audit_id = id } in
      let Sound : Act W Plan → Type 0 = λ m. Returns (IsPlanOf start end) (m w).0 in
      let audited : Act W ℕ =
        finally (services.insert_audit start end hours >>= λ id. services.commit >> pure id)
          services.close in
      let planned : Act W Plan = (services.pg_conn >>= λ u. audited >>= λ id. pure (plan_of id)) in
      if_elim Sound (leb end start) (lift (raised (value_error "end must be after start")))
        (if ltb max_hours hours
          then lift (raised (value_error "window above the ceiling"))
          else planned)
        (λ _. tt)
        (λ e.
          if_elim Sound (ltb max_hours hours)
            (lift (raised (value_error "window above the ceiling"))) planned (λ _. tt)
            (λ le.
              after-Returns (λ _. Unit {0}) (IsPlanOf start end) (services.pg_conn w) _
                (Returns-any (services.pg_conn w).0)
                (λ u v _.
                  after-Returns (λ _. Unit {0}) (IsPlanOf start end) (audited v) _
                    (Returns-any (audited v).0)
                    (λ id x _. ((ground (arith, e), refl, ground (arith, le)), refl, refl)))))

  -- Fuel for two turns more than the ceiling has hours is enough for a plan.
  reprocess_window-HasEnded :
      (plan : Plan) (w : W)
      → IsPlanned plan
      → HasEnded (reprocess_window services python (max_hours + 2) plan w)
  unfolding reprocess_window
  reprocess_window-HasEnded plan w h = carried-HasEnded _ (connect services python w) (λ u.
      told-HasEnded plan _ (
        closing-HasEnded _ _ (
          walk-HasEnded (max_hours + 2) plan.end plan.start no_rows (connect services python w).1
            (omega arith) (omega (arith, h.0, h.1, h.2)))))

  -- Whatever window is asked for: a plan that is returned is one that is carried out in full.
  pub plan_window-HasEnded :
      (start end : ℕ) (w v : W)
      → Returns
          (λ (plan : Plan). HasEnded (reprocess_window services python (max_hours + 2) plan v))
          (plan_window services python start end w).0
  plan_window-HasEnded start end w v =
      Returns-weaken (IsPlanOf start end) _ (plan_window services python start end w).0
        (λ plan h. reprocess_window-HasEnded plan v h.0) (plan_window-IsPlanned start end w)
