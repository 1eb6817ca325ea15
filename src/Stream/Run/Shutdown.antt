-- ===== src/Stream/Run/Shutdown.antt =====
-- How a run of the stream job ends (streaming/stream_job.py).
use real_time_data_pipeline.Base.{
  ℕ, zero, suc, ◌+◌, ◌*◌, ◌≤◌, ◌≡◌, refl, ap, ◌∙◌, sym, ◌⊎◌, inl, inr, Bool, true, false, Option,
  none, some, ltb, arith, if◌then◌else◌, if_elim,
}
use real_time_data_pipeline.Base.Errors.{Outcome, returned, raised}
use real_time_data_pipeline.Bench.Act.{Act, pure, after, finished, ◌>>◌}
use real_time_data_pipeline.Bench.Act.Inversion.{after-keeps, after-returned, after-eq-returned}
use real_time_data_pipeline.Stream.Run.{
  StreamQuery, query, rollup_query, RunArgs, Job, going, closing, when, is_over, is_told, waited,
  turn, watch, stop_if_active, shut_down, start_up, run,
}

module _ {W : Type 0} (job : Job W) (args : RunArgs) (time : W → ℕ) (is_running : W → Bool)
    (summaries : W → ℕ) where
  -- A clock that no call turns back; a wait of two seconds that ends early only where the query has
  -- terminated; and a count of the summaries that only write_summary changes.
  pub record IsSteady : Type 0 where
    pub tells : (w : W) → (job.now w).0 ≡ returned (time w)
    pub waits :
        (w : W)
        → (time w + 2000 ≤ time (job.await_termination w).1)
          ⊎ (is_running (job.await_termination w).1 ≡ false)
    pub sees : (w : W) → (job.is_active query w).0 ≡ returned (is_running w)
    pub now_keeps : (w : W) → (job.now w).1 ≡ w
    pub is_active_keeps : (q : StreamQuery) (w : W) → (job.is_active q w).1 ≡ w
    pub exists_keeps : (w : W) → (job.exists_stop_file w).1 ≡ w
    pub is_stop_set_keeps : (w : W) → (job.is_stop_set w).1 ≡ w
    pub waits_quietly : (w : W) → summaries (job.await_termination w).1 ≡ summaries w

  -- The calls that end a run raise nothing.
  pub record IsQuiet : Type 0 where
    pub answers : (q : StreamQuery) (w : W) → (b : Bool) × ((job.is_active q w).0 ≡ returned b)
    pub stops : (q : StreamQuery) (w : W) → (job.stop q w).0 ≡ returned tt
    pub stop_keeps : (q : StreamQuery) (w : W) → summaries (job.stop q w).1 ≡ summaries w
    pub writes : (w : W) → summaries (job.write_summary w).1 ≡ summaries w + 1
    pub stop_spark_keeps : (w : W) → summaries (job.stop_spark w).1 ≡ summaries w

  finished_state : (o : Outcome (Unit {0})) (m : Outcome (Unit {0}) × W) → (finished o m).1 ≡ m.1
  finished_state o (returned u, w) = refl
  finished_state o (raised e, w) = refl

  if_goes :
      (b : Bool) (m : Act W Bool) (w w1 : W)
      → (if b then pure false else m) w ≡ (returned true, w1)
      → (b ≡ false) × (m w ≡ (returned true, w1))
  if_goes true m w w1 h = ground (arith, ap (λ r. r.0) h)
  if_goes false m w w1 h = (refl, h)

  module _ (steady : IsSteady) where
    is_over-before :
        (d : ℕ) (w w1 : W)
        → is_over job args (some d) w ≡ (returned false, w1)
        → (time w ≤ d) × (w1 ≡ w)
    unfolding is_over
    is_over-before d w w1 h =
        let (t, v, e, k) = after-eq-returned (job.now w) _ h in
        let same : t ≡ time w = ground (arith, ap (λ r. r.0) e, steady.tells w) in
        let late : ltb d t ≡ false = ground (arith, ap (λ r. r.0) k) in
        (
          ground (arith, same, late),
          sym (ap (λ r. r.1) k) ∙ sym (ap (λ r. r.1) e) ∙ steady.now_keeps w,
        )

    -- A turn that goes on has waited, and neither was the query terminated nor the time over.
    waited-goes :
        (d : ℕ) (w w1 : W)
        → waited job args (some d) w ≡ (returned true, w1)
        → (time w ≤ d) × (w1 ≡ (job.await_termination w).1)
    unfolding waited
    waited-goes d w w1 h =
        let (set, v, e, k) = after-eq-returned (job.is_stop_set w) _ h in
        let here : v ≡ w = sym (ap (λ r. r.1) e) ∙ steady.is_stop_set_keeps w in
        let (over, x, f, g) =
          after-eq-returned ((if set then pure true else is_over job args (some d)) v) _ k in
        let (late, i) = if_goes over (job.await_termination >> pure true) x w1 g in
        let (u, y, a, b) = after-eq-returned (job.await_termination x) _ i in
        let (le, there) = not_set set v x over f late in
        (
          rw (sym here) le,
          sym (ap (λ r. r.1) b)
              ∙ sym (ap (λ r. r.1) a)
              ∙ ap (λ v. (job.await_termination v).1) (there ∙ here),
        )
      where
        not_set :
            (set : Bool) (v x : W) (over : Bool)
            → (if set then pure true else is_over job args (some d)) v ≡ (returned over, x)
            → over ≡ false
            → (time v ≤ d) × (x ≡ v)
        not_set true v x over f late = ground (arith, ap (λ r. r.0) f, late)
        not_set false v x over f late = is_over-before d v x (f ∙ ap (λ o. (returned o, x)) late)

    is_told_keeps :
        (active : Bool) (w : W) → ((if active then is_told job args else pure true) w).1 ≡ w
    is_told_keeps false w = refl
    is_told_keeps true w =
        if_elim (λ (m : Act W Bool). (m w).1 ≡ w) args.has_stop_file job.exists_stop_file
          (pure false) (λ _. steady.exists_keeps w) (λ _. refl)

    told_active :
        (active told : Bool) (v x : W)
        → (if active then is_told job args else pure true) v ≡ (returned told, x)
        → told ≡ false
        → active ≡ true
    told_active true told v x h k = refl
    told_active false told v x h k = ground (arith, ap (λ r. r.0) h, k)

    turn-goes :
        (d : ℕ) (w w1 : W)
        → turn job args (some d) w ≡ (returned true, w1)
        → (is_running w ≡ true) × (time w ≤ d) × (w1 ≡ (job.await_termination w).1)
    unfolding turn
    turn-goes d w w1 h =
        let (active, v, e, k) = after-eq-returned (job.is_active query w) _ h in
        let here : v ≡ w = sym (ap (λ r. r.1) e) ∙ steady.is_active_keeps query w in
        let same : active ≡ is_running w = ground (arith, ap (λ r. r.0) e, steady.sees w) in
        let (told, x, f, g) =
          after-eq-returned ((if active then is_told job args else pure true) v) _ k in
        let there : x ≡ v = sym (ap (λ r. r.1) f) ∙ is_told_keeps active v in
        let (late, i) = if_goes told (waited job args (some d)) x w1 g in
        let (le, next) = waited-goes d x w1 i in
        (
          sym same ∙ told_active active told v x f late,
          rw (sym (there ∙ here)) le,
          next ∙ ap (λ y. (job.await_termination y).1) (there ∙ here),
        )

    -- Whether the loop ends.
    abbrev HasEnded : Option (Outcome (Unit {0}) × W) → Type 0
    HasEnded o = (r : Outcome (Unit {0}) × W) × (o ≡ some r)

    going-HasEnded :
        (rest : W → Option (Outcome (Unit {0}) × W)) (m : Outcome Bool × W)
        → ((w1 : W) → m ≡ (returned true, w1) → HasEnded (rest w1))
        → HasEnded (going rest m)
    going-HasEnded rest (returned true, w) h = h w refl
    going-HasEnded rest (returned false, w) h = (_, refl)
    going-HasEnded rest (raised e, w) h = (_, refl)

    watch-HasEnded :
        (fuel d : ℕ) (w : W)
        → 1 ≤ fuel
        → (d + 4000 ≤ time w + fuel * 2000) ⊎ (is_running w ≡ false)
        → HasEnded (watch job args fuel (some d) w)
    unfolding watch
    watch-HasEnded zero d w one h = absurd (omega (arith, one))
    watch-HasEnded (suc fuel) d w one h =
        going-HasEnded (watch job args fuel (some d)) (turn job args (some d) w) (λ w1 e.
          let (runs, le, next) = turn-goes d w w1 e in
          elim (h) [
            | inr dead ↦ ground (arith, runs, dead)
            | inl enough ↦
                watch-HasEnded fuel d w1 (omega (arith, enough, le)) (elim (steady.waits w) [
                  | inl later ↦ inl (rw next (omega (arith, later, enough)))
                  | inr dead ↦ inr (rw next dead)
                ])
          ])

    is_over_keeps :
        (set : Bool) (deadline : Option ℕ) (w : W)
        → ((if set then pure true else is_over job args deadline) w).1 ≡ w
    unfolding is_over
    is_over_keeps true deadline w = refl
    is_over_keeps false none w = refl
    is_over_keeps false (some d) w =
        after-keeps (λ s. s) (job.now w) _ (λ _ _. refl) ∙ steady.now_keeps w

    waited-quiet :
        (deadline : Option ℕ) (w : W) → summaries (waited job args deadline w).1 ≡ summaries w
    unfolding waited
    waited-quiet deadline w =
        after-keeps summaries (job.is_stop_set w) _ (λ set v.
          after-keeps summaries ((if set then pure true else is_over job args deadline) v) _
            (λ over x.
              if_elim (λ (m : Act W Bool). summaries (m x).1 ≡ summaries x) over (pure false)
                (job.await_termination >> pure true) (λ _. refl)
                (λ _.
                  after-keeps summaries (job.await_termination x) (λ _. pure true) (λ _ _. refl)
                  ∙ steady.waits_quietly x))
          ∙ ap summaries (is_over_keeps set deadline v))
        ∙ ap summaries (steady.is_stop_set_keeps w)

    turn-quiet :
        (deadline : Option ℕ) (w : W) → summaries (turn job args deadline w).1 ≡ summaries w
    unfolding turn
    turn-quiet deadline w =
        after-keeps summaries (job.is_active query w) _ (λ active v.
          after-keeps summaries ((if active then is_told job args else pure true) v) _ (λ told x.
            if_elim (λ (m : Act W Bool). summaries (m x).1 ≡ summaries x) told (pure false)
              (waited job args deadline) (λ _. refl) (λ _. waited-quiet deadline x))
          ∙ ap summaries (is_told_keeps active v))
        ∙ ap summaries (steady.is_active_keeps query w)

    abbrev state_of : W → Option (Outcome (Unit {0}) × W) → W
    state_of w none = w
    state_of w (some r) = r.1

    going-quiet :
        (rest : W → Option (Outcome (Unit {0}) × W)) (m : Outcome Bool × W)
        (r : Outcome (Unit {0}) × W)
        → ((w : W) → rest w ≡ some r → summaries r.1 ≡ summaries w)
        → going rest m ≡ some r
        → summaries r.1 ≡ summaries m.1
    going-quiet rest (returned true, w) r h k = h w k
    going-quiet rest (returned false, w) r h k = sym (ap (λ o. summaries (state_of w o)) k)
    going-quiet rest (raised e, w) r h k = sym (ap (λ o. summaries (state_of w o)) k)

    watch-quiet :
        (fuel : ℕ) (deadline : Option ℕ) (w : W) (r : Outcome (Unit {0}) × W)
        → watch job args fuel deadline w ≡ some r
        → summaries r.1 ≡ summaries w
    unfolding watch
    watch-quiet zero deadline w r h = ground (arith, h)
    watch-quiet (suc fuel) deadline w r h =
        going-quiet (watch job args fuel deadline) (turn job args deadline w) r
          (λ v k. watch-quiet fuel deadline v r k) h
        ∙ turn-quiet deadline w

    module _ (quiet : IsQuiet) where
      stop_if_active-quiet :
          (q : StreamQuery) (w : W)
          → ((stop_if_active job args q w).0 ≡ returned tt)
            × (summaries (stop_if_active job args q w).1 ≡ summaries w)
      unfolding stop_if_active
      stop_if_active-quiet q w =
          let (b, e) = quiet.answers q w in
          rw (after-returned (job.is_active q w) (λ active. when job args active (job.stop q)) b e)
            (stopped b (job.is_active q w).1 (steady.is_active_keeps q w))
        where
          stopped :
              (b : Bool) (v : W)
              → v ≡ w
              → ((when job args b (job.stop q) v).0 ≡ returned tt)
                × (summaries (when job args b (job.stop q) v).1 ≡ summaries w)
          stopped true v e = (quiet.stops q v, quiet.stop_keeps q v ∙ ap summaries e)
          stopped false v e = (refl, ap summaries e)

      rollup_stopped :
          (b : Bool) (w : W)
          → ((when job args b (stop_if_active job args rollup_query) w).0 ≡ returned tt)
            × (summaries (when job args b (stop_if_active job args rollup_query) w).1 ≡ summaries w)
      rollup_stopped true w = stop_if_active-quiet rollup_query w
      rollup_stopped false w = (refl, refl)

      -- The end of a run writes one summary, whatever has ended the loop.
      shut_down-summaries : (w : W) → summaries (shut_down job args w).1 ≡ summaries w + 1
      unfolding shut_down
      shut_down-summaries w =
          let rollup = when job args args.with_rollup (stop_if_active job args rollup_query) w in
          let (a, b) = rollup_stopped args.with_rollup w in
          let first = after rollup (λ _. stop_if_active job args query) in
          let there : first ≡ stop_if_active job args query rollup.1 =
            after-returned rollup (λ _. stop_if_active job args query) tt a in
          let (c, d) = stop_if_active-quiet query rollup.1 in
          let ok : first.0 ≡ returned tt = ap (λ m. m.0) there ∙ c in
          rw (after-returned first (λ _. job.write_summary) tt ok) (
            after-keeps summaries (job.write_summary first.1) (λ _. job.stop_spark)
              (λ _ v. quiet.stop_spark_keeps v)
            ∙ quiet.writes first.1
            ∙ ap (λ n. n + 1) (ap (λ m. summaries m.1) there ∙ d ∙ b))

      closing-summaries :
          (m : Option (Outcome (Unit {0}) × W)) (r : Outcome (Unit {0}) × W)
          → m ≡ some r
          → (o : Outcome (Unit {0}) × W) × (closing (shut_down job args) m ≡ some o)
            × (summaries o.1 ≡ summaries r.1 + 1)
      closing-summaries m r h = rw h (
        finished r.0 (shut_down job args r.1),
        refl,
        ap summaries (finished_state r.0 (shut_down job args r.1)) ∙ shut_down-summaries r.1,
      )

      pub run-HasEnded :
          (fuel d : ℕ) (w w1 : W)
          → start_up job args w ≡ (returned (some d), w1)
          → 1 ≤ fuel
          → d + 4000 ≤ time w1 + fuel * 2000
          → (r : Outcome (Unit {0}) × W) × (run job args fuel w ≡ some r)
            × (summaries r.1 ≡ summaries w1 + 1)
      unfolding run
      run-HasEnded fuel d w w1 h one enough =
          let (r, e) = watch-HasEnded fuel d w1 one (inl enough) in
          let (o, k, n) = closing-summaries (watch job args fuel (some d) w1) r e in
          let same = watch-quiet fuel (some d) w1 r e in rw h (o, k, omega (arith, n, same))
