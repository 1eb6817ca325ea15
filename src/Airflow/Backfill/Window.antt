-- ===== src/Airflow/Backfill/Window.antt =====
-- What `reprocess_window` of airflow/dags/trips_backfill.py leaves in the stage table, and what it counts.
use real_time_data_pipeline.Base.{
  ℕ, zero, suc, ◌+◌, ◌*◌, ◌≤◌, ◌<◌, ◌≡◌, refl, ap, ◌∙◌, sym, String, List, [], ◌∷◌, ◌++◌, map,
  length, length-append, Option, some, arith, ltb, ◌==◌, if◌then◌else◌, Bool-cases, inl, inr,
  ltb→lt,
}
use real_time_data_pipeline.Base.Errors.{Outcome, returned, raised, >>=-eq-returned}
use real_time_data_pipeline.Bench.Act.Inversion.{after-eq-returned}
use real_time_data_pipeline.Airflow.{Services, Python, TripRow, Load, cities, one_hour}
use real_time_data_pipeline.Airflow.Payload.{payload_row, payload_of}
use real_time_data_pipeline.Airflow.Stage.{Stage, IsStage, Answers, rows_of, landing, landed}
use real_time_data_pipeline.Airflow.Stage.Landing.{landing-append}
use real_time_data_pipeline.Airflow.Rollup.Reload.{length-payload_of}
use real_time_data_pipeline.Airflow.Backfill.{
  Totals, carried, counted, gather, store, reprocess_hour, walk,
}

pub payload_of-append :
    (python : Python) (xs ys : List (String × TripRow)) (p q : List Load)
    → payload_of python xs ≡ returned p
    → payload_of python ys ≡ returned q
    → payload_of python (xs ++ ys) ≡ returned (p ++ q)
unfolding payload_of
payload_of-append python [] ys p q h k =
    let same : [] ≡ p = ground (arith, h) in k ∙ ap (λ y. returned (y ++ q)) same
payload_of-append python ((c, r) ∷ xs) ys p q h k =
    let (l, e, h1) = >>=-eq-returned (payload_row python c r) _ h in
    let (ls, f, h2) = >>=-eq-returned (payload_of python xs) _ h1 in
    let same : (l ∷ ls) ≡ p = ground (arith, h2) in
    rw e (rw (payload_of-append python xs ys ls q f k) (ap (λ y. returned (y ++ q)) same))

counted_lem :
    (n : ℕ) (t : Totals)
    → ((counted n t).total_read ≡ t.total_read + n)
      × ((counted n t).total_loaded ≡ t.total_loaded + n)
      × ((counted n t).empty_hours ≡ t.empty_hours + (if n == 0 then 1 else 0))
unfolding counted
counted_lem zero t = (omega arith, omega arith, refl)
counted_lem (suc n) t = (refl, refl, ground arith)

pub carried-eq-returned :
    {W : Type 0} {A B : Type 0} (rest : A → W → Option (Outcome B × W)) (m : Outcome A × W) {b : B}
    {w' : W}
    → carried rest m ≡ some (returned b, w')
    → (a : A) × (w1 : W) × (m ≡ (returned a, w1)) × (rest a w1 ≡ some (returned b, w'))
carried-eq-returned rest (returned a, w) h = (a, w, refl, h)
carried-eq-returned rest (raised e, w) h = ground (arith, h)

-- The payload of some rows has landed between two worlds.
abbrev pub Lands :
    {W : Type 0} → Python → Stage W → List (String × TripRow) → List Load → W → W → Type 0
Lands python stage rs p w w' =
    (payload_of python rs ≡ returned p)
    × (stage.row (stage.sees w') ≡ landing p (stage.row (stage.sees w)))

-- The hours of a window, and the rows in them.
abbrev pub hours_from : ℕ → ℕ → List ℕ
hours_from zero hour = []
hours_from (suc n) hour = hour ∷ hours_from n (hour + one_hour)

abbrev pub rows_in : (String → ℕ → List TripRow) → List ℕ → List (String × TripRow)
rows_in rows [] = []
rows_in rows (hour ∷ hours) = rows_of rows hour cities ++ rows_in rows hours

-- How many of the hours have no rows.
abbrev pub count_empty : (String → ℕ → List TripRow) → List ℕ → ℕ
count_empty rows [] = 0
count_empty rows (hour ∷ hours) =
    (if length (rows_of rows hour cities) == 0 then 1 else 0) + count_empty rows hours

module _ {W : Type 0} (services : Services W) (python : Python) (stage : Stage W)
    (laws : IsStage services stage) (rows : String → ℕ → List TripRow)
    (answers : Answers services rows) where
  gather_lem :
      (hour : ℕ) (cs : List String) (w w' : W) (p : List Load)
      → gather services python hour cs w ≡ (returned p, w')
      → (payload_of python (rows_of rows hour cs) ≡ returned p) × (stage.sees w' ≡ stage.sees w)
  unfolding gather
  gather_lem hour [] w w' p h = (ap (λ m. m.0) h, ap (λ m. stage.sees m.1) (sym h))
  gather_lem hour (c ∷ cs) w w' p h =
      let (res, w1, e, h1) = after-eq-returned (services.select c hour w) _ h in
      let (ls, w2, f, h2) =
        after-eq-returned (payload_of python (map (λ r. (c, r)) res), w1) _ h1 in
      let (more, w3, g, h3) = after-eq-returned (gather services python hour cs w2) _ h2 in
      let (i, s) = gather_lem hour cs w2 w3 more g in
      let same : rows c hour ≡ res = ground (arith, answers c hour w, ap (λ m. m.0) e) in
      (
        payload_of-append python (map (λ r. (c, r)) (rows c hour)) (rows_of rows hour cs) ls more
              (ap (λ y. payload_of python (map (λ r. (c, r)) y)) same ∙ ap (λ m. m.0) f) i
            ∙ ap (λ m. m.0) h3,
        ap (λ m. stage.sees m.1) (sym h3)
            ∙ s
            ∙ ap (λ m. stage.sees m.1) (sym f)
            ∙ ap (λ m. stage.sees m.1) (sym e)
            ∙ laws.selects c hour w,
      )

  store-landing :
      (p : List Load) (w w' : W)
      → store services python p w ≡ (returned tt, w')
      → stage.row (stage.sees w') ≡ landing p (stage.row (stage.sees w))
  unfolding landed
  store-landing [] w w' h = ap (λ m. stage.row (stage.sees m.1)) (sym h)
  store-landing (l ∷ p) w w' h =
      let (u, w1, e, h1) = after-eq-returned (services.execute_values (l ∷ p) w) _ h in
      (laws.stores (l ∷ p) w w1 w' e h1).0

  reprocess_hour-Lands :
      (hour : ℕ) (t t' : Totals) (w w' : W)
      → reprocess_hour services python hour t w ≡ (returned t', w')
      → (p : List Load) × Lands python stage (rows_of rows hour cities) p w w'
        × (counted (length p) t ≡ t')
  unfolding reprocess_hour
  reprocess_hour-Lands hour t t' w w' h =
      let (p, w1, e, h1) = after-eq-returned (gather services python hour cities w) _ h in
      let (u, w2, f, h2) = after-eq-returned (store services python p w1) _ h1 in
      let (i, s) = gather_lem hour cities w w1 p e in
      let same : counted (length p) t ≡ t' = ground (arith, ap (λ m. m.0) h2) in
      (
        p,
        (
          i,
          ap (λ m. stage.row (stage.sees m.1)) (sym h2)
              ∙ store-landing p w1 w2 f
              ∙ ap (λ v. landing p (stage.row v)) s,
        ),
        same,
      )

  -- What the loop comes to over so many hours.
  abbrev pub IsWalked : ℕ → ℕ → Totals → Totals → W → W → Type 0
  IsWalked n hour t t' w w' =
      (p : List Load) × Lands python stage (rows_in rows (hours_from n hour)) p w w'
      × (t'.total_read ≡ t.total_read + length p)
      × (t'.total_loaded ≡ t.total_loaded + length p)
      × (t'.empty_hours ≡ t.empty_hours + count_empty rows (hours_from n hour))

  walked :
      (n hour : ℕ) (t t1 t' : Totals) (w w1 w' : W)
      → reprocess_hour services python hour t w ≡ (returned t1, w1)
      → IsWalked n (hour + one_hour) t1 t' w1 w'
      → IsWalked (suc n) hour t t' w w'
  unfolding landed
  walked n hour t t1 t' w w1 w' h (q, (i, s), a, b, c) =
      let (p, (j, r), same) = reprocess_hour-Lands hour t t1 w w1 h in
      let (x, y, z) = counted_lem (length p) t in
      let size = length-payload_of python (rows_of rows hour cities) p j in
      let empty = ap {B = ℕ} (λ y. if y == 0 then 1 else 0) size in
      (
        p ++ q,
        (
          payload_of-append python (rows_of rows hour cities)
              (rows_in rows (hours_from n (hour + one_hour))) p q j i,
          s ∙ ap (landing q) r ∙ sym (landing-append p q (stage.row (stage.sees w))),
        ),
        omega (arith, a, x, ap (λ v. v.total_read) same, length-append p q),
        omega (arith, b, y, ap (λ v. v.total_loaded) same, length-append p q),
        omega (arith, c, z, ap (λ v. v.empty_hours) same, empty),
      )

  pub walk-IsWalked :
      (n fuel end hour : ℕ) (t t' : Totals) (w w' : W)
      → walk services python fuel end hour t w ≡ some (returned t', w')
      → end ≤ hour + n * one_hour
      → hour + n * one_hour < end + one_hour
      → IsWalked n hour t t' w w'
  unfolding walk landed
  walk-IsWalked n zero end hour t t' w w' h a b = ground (arith, h)
  walk-IsWalked zero (suc fuel) end hour t t' w w' h a b = elim (Bool-cases (ltb hour end)) [
    | inl e ↦ absurd (omega (arith, a, ltb→lt hour end e))
    | inr e ↦
        let eq =
          ap
            (λ i.
              if i
              then carried (walk services python fuel end (hour + one_hour))
                  (reprocess_hour services python hour t w)
              else some (returned t, w))
            (sym e)
          ∙ h in
        let same : t ≡ t' = ground (arith, eq) in
        let here : w ≡ w' = ground (arith, eq) in
        (
          [],
          (refl, ap (λ v. stage.row (stage.sees v)) (sym here)),
          omega (arith, ap (λ v. v.total_read) same),
          omega (arith, ap (λ v. v.total_loaded) same),
          omega (arith, ap (λ v. v.empty_hours) same),
        )
  ]
  walk-IsWalked (suc n) (suc fuel) end hour t t' w w' h a b = elim (Bool-cases (ltb hour end)) [
    | inl e ↦
        let (t1, w1, f, g) =
          carried-eq-returned (walk services python fuel end (hour + one_hour))
            (reprocess_hour services python hour t w)
            (ap
                (λ i.
                  if i
                  then carried (walk services python fuel end (hour + one_hour))
                      (reprocess_hour services python hour t w)
                  else some (returned t, w))
                (sym e)
              ∙ h) in
        walked n hour t t1 t' w w1 w' f (
          walk-IsWalked n fuel end (hour + one_hour) t1 t' w1 w' g (omega (arith, a))
            (omega (arith, b)))
    | inr e ↦ absurd (ground (arith, e, b))
  ]
