-- ===== src/Bench/Analytics/Verdict.antt =====
-- Which queries bench/analytics_bench.py times.
use mathlib.Core.List.{Permᴰ}
use mathlib.Core.List.Permᴰ
use mathlib.Core.Path.{subst}
use text.Mathlib.TextEquality.{eq_iff}
use real_time_data_pipeline.Base.{
  ℕ, ◌≡◌, refl, sym, ap, ◌∙◌, String, Bool, true, Option, none, some, List, [], ◌∷◌, map, All,
  length, if_elim, arith, ◌==◌,
}
use real_time_data_pipeline.Base.Errors.{Outcome, returned}
use real_time_data_pipeline.Bench.Act.{Act, pure, ◌>>=◌}
use real_time_data_pipeline.Bench.Act.Sound.{Returns, Returns-weaken, after-Returns, Returns-any}
use real_time_data_pipeline.Bench.Analytics.{
  Row, Show, norm_row, sorted, same_texts, same_rows, Timing, Query, Database, Result, is_timed,
  both_timed, mismatch, normalize, run_query, warm, time_runs, timed_runs, summarize, bench_query,
  bench_all, main,
}
use real_time_data_pipeline.Bench.Analytics.Order.{IsOrder, sorted-perm, sorted-Perm}

same_texts_lem : (xs ys : List String) → same_texts xs ys ≡ true → xs ≡ ys
unfolding same_texts
same_texts_lem [] [] h = refl
same_texts_lem [] (y ∷ ys) h = ground (arith, h)
same_texts_lem (x ∷ xs) [] h = ground (arith, h)
same_texts_lem (x ∷ xs) (y ∷ ys) h = ground (arith, h, eq_iff x y, same_texts_lem xs ys)

same_texts_refl : (xs : List String) → same_texts xs xs ≡ true
unfolding same_texts
same_texts_refl [] = refl
same_texts_refl (x ∷ xs) = ground (arith, eq_iff x x, same_texts_refl xs)

same_rows_lem : (xs ys : List (List String)) → same_rows xs ys ≡ true → xs ≡ ys
unfolding same_rows
same_rows_lem [] [] h = refl
same_rows_lem [] (y ∷ ys) h = ground (arith, h)
same_rows_lem (x ∷ xs) [] h = ground (arith, h)
same_rows_lem (x ∷ xs) (y ∷ ys) h = ground (arith, h, same_texts_lem x y, same_rows_lem xs ys)

same_rows_refl : (xs : List (List String)) → same_rows xs xs ≡ true
unfolding same_rows
same_rows_refl [] = refl
same_rows_refl (x ∷ xs) = ground (arith, same_texts_refl x, same_rows_refl xs)

Returns-eq {ℓ} : {A : Type ℓ} (o : Outcome A) (a : A) → o ≡ returned a → Returns (λ x. x ≡ a) o
Returns-eq o a h = rw h refl

module _ {W : Type 0} (db : Database W) (show : Show) (le : List String → List String → Bool)
    (order : IsOrder le) (answers : String → List Row) where
  -- The database answers a query always by the same rows.
  abbrev pub IsStable : Type 0
  IsStable = (sql : String) (w : W) → (db.execute sql w).0 ≡ returned (answers sql)

  -- The two forms of a query give the same rows, as texts and up to their order.
  abbrev pub AreEquivalent : Query → Type 0
  AreEquivalent q =
      Permᴰ (map (norm_row show) (answers q.baseline)) (map (norm_row show) (answers q.star))

  -- An entry is a timing exactly where the two forms are equivalent.
  abbrev pub IsJudged : Query × Result → Type 0
  IsJudged e = (is_timed e.1 ≡ true → AreEquivalent e.0) × (AreEquivalent e.0 → is_timed e.1 ≡ true)

  same_rows-AreEquivalent :
      (q : Query)
      → same_rows
          (normalize db show le (answers q.baseline))
          (normalize db show le (answers q.star))
        ≡ true
      → AreEquivalent q
  unfolding normalize
  same_rows-AreEquivalent q h =
      let same =
        same_rows_lem (normalize db show le (answers q.baseline))
          (normalize db show le (answers q.star)) h in
      Permᴰ.trans (Permᴰ.symm (sorted-perm le (map (norm_row show) (answers q.baseline)))) (
        subst (λ s. Permᴰ s (map (norm_row show) (answers q.star))) (sym same)
          (sorted-perm le (map (norm_row show) (answers q.star))))

  AreEquivalent-same_rows :
      (q : Query)
      → AreEquivalent q
      → same_rows
          (normalize db show le (answers q.baseline))
          (normalize db show le (answers q.star))
        ≡ true
  unfolding normalize
  AreEquivalent-same_rows q h =
      rw (sorted-Perm le order h)
        (same_rows_refl (sorted le (map (norm_row show) (answers q.star))))

  module _ (stable : IsStable) where
    run_query-answers :
        (sql : String) (w : W) → Returns (λ p. p.1 ≡ answers sql) (run_query db show le sql w).0
    unfolding run_query
    run_query-answers sql w =
        after-Returns (λ _. Unit {0}) (λ p. p.1 ≡ answers sql) (db.perf_counter w) _
          (Returns-any (db.perf_counter w).0)
          (λ t0 w1 _.
            after-Returns (λ rows. rows ≡ answers sql) (λ p. p.1 ≡ answers sql) (db.execute sql w1)
              _ (Returns-eq (db.execute sql w1).0 (answers sql) (stable sql w1))
              (λ rows w2 h.
                after-Returns (λ _. Unit {0}) (λ p. p.1 ≡ answers sql) (db.perf_counter w2) _
                  (Returns-any (db.perf_counter w2).0) (λ t1 w3 _. h)))

    both_timed-timed :
        (n : ℕ) (b s : Option Timing) (w : W)
        → Returns (λ r. is_timed r ≡ true) (both_timed db show le n b s w).0
    both_timed-timed n none s w = tt
    both_timed-timed n (some b) none w = tt
    both_timed-timed n (some b) (some s) w = refl

    timed_runs-timed :
        (warmups iterations n : ℕ) (q : Query) (w : W)
        → Returns (λ r. is_timed r ≡ true) (timed_runs db show le warmups iterations n q w).0
    unfolding timed_runs
    timed_runs-timed warmups iterations n q w =
        let IsTimed : Result → Type 0 = λ r. is_timed r ≡ true in
        after-Returns (λ _. Unit {0}) IsTimed (warm db show le warmups q w) _
          (Returns-any (warm db show le warmups q w).0)
          (λ u w1 _.
            after-Returns (λ _. Unit {0}) IsTimed (time_runs db show le iterations q w1) _
              (Returns-any (time_runs db show le iterations q w1).0)
              (λ ts w2 _. both_timed-timed n (summarize ts.0) (summarize ts.1) w2))

    bench_query-IsJudged :
        (warmups iterations : ℕ) (q : Query) (w : W)
        → Returns (λ r. IsJudged (q, r)) (bench_query db show le warmups iterations q w).0
    unfolding bench_query
    bench_query-IsJudged warmups iterations q w =
        let Judged : Result → Type 0 = λ r. IsJudged (q, r) in
        after-Returns (λ p. p.1 ≡ answers q.baseline) Judged (run_query db show le q.baseline w) _
          (run_query-answers q.baseline w)
          (λ base w1 h.
            after-Returns (λ p. p.1 ≡ answers q.star) Judged (run_query db show le q.star w1) _
              (run_query-answers q.star w1)
              (λ star w2 k.
                let test = same_rows (normalize db show le base.1) (normalize db show le star.1) in
                let same : test
                    ≡ same_rows (normalize db show le (answers q.baseline))
                        (normalize db show le (answers q.star)) =
                  ap (λ rows. same_rows (normalize db show le rows) (normalize db show le star.1)) h
                  ∙ ap
                      (λ rows.
                        same_rows (normalize db show le (answers q.baseline))
                          (normalize db show le rows))
                      k in
                if_elim (λ (m : Act W Result). Returns Judged (m w2).0) test
                  (timed_runs db show le warmups iterations (length base.1) q)
                  (pure (mismatch (length base.1) (length star.1)))
                  (λ e.
                    let there = same_rows-AreEquivalent q (sym same ∙ e) in
                    Returns-weaken (λ r. is_timed r ≡ true) Judged
                      (timed_runs db show le warmups iterations (length base.1) q w2).0
                      (λ r i. ((λ _. there), λ _. i))
                      (timed_runs-timed warmups iterations (length base.1) q w2))
                  (λ e.
                    ((λ i. ground (arith, i)), λ p. sym e ∙ same ∙ AreEquivalent-same_rows q p))))

    -- The entries of a benchmark.
    abbrev AreJudged : List Query → List (Query × Result) → Type 0
    AreJudged queries results = (map (λ e. e.0) results ≡ queries) × All IsJudged results

    bench_all-AreJudged :
        (warmups iterations : ℕ) (queries : List Query) (w : W)
        → Returns (AreJudged queries) (bench_all db show le warmups iterations queries w).0
    unfolding bench_all
    bench_all-AreJudged warmups iterations [] w = (refl, tt)
    bench_all-AreJudged warmups iterations (q ∷ qs) w =
        after-Returns (λ r. IsJudged (q, r)) (AreJudged (q ∷ qs))
          (bench_query db show le warmups iterations q w) _
          (bench_query-IsJudged warmups iterations q w)
          (λ r w1 h.
            after-Returns (AreJudged qs) (AreJudged (q ∷ qs))
              (bench_all db show le warmups iterations qs w1) (λ rest. pure ((q, r) ∷ rest))
              (bench_all-AreJudged warmups iterations qs w1)
              (λ rest w2 k. (ap (λ l. q ∷ l) k.0, (h, k.1))))

    -- What `main` returns: nothing, or an entry for each query.
    abbrev pub IsBenchmark : List Query → Option (List (Query × Result)) → Type 0
    IsBenchmark queries none = Unit
    IsBenchmark queries (some results) = (map (λ e. e.0) results ≡ queries) × All IsJudged results

    pub main-IsBenchmark :
        (warmups iterations : ℕ) (queries : List Query) (w : W)
        → Returns (IsBenchmark queries) (main db show le warmups iterations queries w).0
    unfolding main
    main-IsBenchmark warmups iterations queries w =
        after-Returns (λ _. Unit {0}) (IsBenchmark queries) (db.count_rows "trips_wide" w) _
          (Returns-any (db.count_rows "trips_wide" w).0)
          (λ wide w1 _.
            after-Returns (λ _. Unit {0}) (IsBenchmark queries) (db.count_rows "fact_trip" w1) _
              (Returns-any (db.count_rows "fact_trip" w1).0)
              (λ fact w2 _.
                if_elim
                  (λ (m : Act W (Option (List (Query × Result)))).
                    Returns (IsBenchmark queries) (m w2).0)
                  (wide == fact)
                  (bench_all db show le warmups iterations queries >>= λ rs. pure (some rs))
                  (pure none)
                  (λ _.
                    after-Returns (AreJudged queries) (IsBenchmark queries)
                      (bench_all db show le warmups iterations queries w2) (λ rs. pure (some rs))
                      (bench_all-AreJudged warmups iterations queries w2) (λ rs w3 h. h))
                  (λ _. tt)))
