-- ===== src/Bench/Analytics.antt =====
-- bench/analytics_bench.py: two forms of a query are timed only where they give the same rows. A row is a
-- list of Python values, a Decimal as a float by its text; times are thousandths of a millisecond. `le` is
-- Python's order on tuples of texts, and `show` has its texts for values.
pub mod Order
pub mod Verdict
pub mod Texts
mod Examples
use text.Mathlib.Text.{◌==◌ as str_eq}
use real_time_data_pipeline.Base.{
  ℕ, zero, suc, ◌+◌, ◌-◌, ◌*◌, ◌/◌, String, Bool, true, false, not, ◌&&◌, Option, none, some, List,
  [], ◌∷◌, map, length, get_or, min, ltb, ◌==◌, if◌then◌else◌,
}
use real_time_data_pipeline.Base.Errors.{returned, raised, value_error}
use real_time_data_pipeline.Base.Sorted.{sort_by}
use real_time_data_pipeline.Value.{Value, float, time, date, Datetime}
use real_time_data_pipeline.Base.Rounding.{round_div}
use real_time_data_pipeline.Bench.Act.{Act, pure, lift, ◌>>=◌, ◌>>◌}
use real_time_data_pipeline.Bench.Chaos.{Agg, figures}

abbrev pub Row : Type 0
Row = List Value

-- `f"{float(v):.2f}"`, the two `isoformat`s, and `str`.
pub record Show : Type 0 where
  pub two_decimals : String → String
  pub datetime : ℕ → String
  pub day : ℕ → String
  pub text : Value → String

unfoldable pub norm_cell : Show → Value → String
norm_cell show (float s) = show.two_decimals s
norm_cell show (time t) = show.datetime t.wall
norm_cell show (date d) = show.day d
norm_cell show v = show.text v

abbrev pub norm_row : Show → Row → List String
norm_row show r = map (norm_cell show) r

-- `sorted`, by an order with a Boolean test.
module _ {A : Type 0} (le : A → A → Bool) where
  unfoldable pub insert_row : A → List A → List A
  insert_row x [] = x ∷ []
  insert_row x (y ∷ ys) = let rest = insert_row x ys in if le x y then x ∷ y ∷ ys else y ∷ rest

  unfoldable pub sorted : List A → List A
  unfolding insert_row
  sorted [] = []
  sorted (x ∷ xs) = insert_row x (sorted xs)

-- `nb == ns`
unfoldable pub same_texts : List String → List String → Bool
same_texts [] [] = true
same_texts [] (b ∷ ys) = false
same_texts (a ∷ xs) [] = false
same_texts (a ∷ xs) (b ∷ ys) = str_eq a b && same_texts xs ys

unfoldable pub same_rows : List (List String) → List (List String) → Bool
unfolding same_texts
same_rows [] [] = true
same_rows [] (b ∷ ys) = false
same_rows (a ∷ xs) [] = false
same_rows (a ∷ xs) (b ∷ ys) = same_texts a b && same_rows xs ys

-- What `summarize` gives but for the standard deviation.
pub record Timing : Type 0 where
  pub figures : Agg
  pub p95 : ℕ

-- `statistics.median` raises for no samples.
abbrev pub timing_of : List ℕ → Option Agg → Option Timing
timing_of s none = none
timing_of s (some a) = some (record {
  figures = a;
  p95 = get_or s (min (length s - 1) (round_div (95 * (length s - 1)) 100)) 0;
})

unfoldable pub summarize : List ℕ → Option Timing
unfolding sort_by figures round_div
summarize samples = let s = sort_by (λ v. v) samples in timing_of s (figures s)

pub record Query : Type 0 where
  pub name : String
  pub baseline : String
  pub star : String

pub record Database (W : Type 0) : Type 0 where
  pub execute : String → Act W (List Row)
  pub perf_counter : Act W ℕ
  pub count_rows : String → Act W ℕ

-- An entry of `results`, without the plans.
pub data Result : Type 0 where
  mismatch : ℕ → ℕ → Result
  timed : ℕ → Timing → Timing → Option ℕ → Result

abbrev pub is_timed : Result → Bool
is_timed (mismatch b s) = false
is_timed (timed n b s x) = true

-- `b["median_ms"] / s["median_ms"]` in thousandths, if the latter is not 0.
abbrev pub speedup : Timing → Timing → Option ℕ
speedup b s =
    if s.figures.median == 0
    then none
    else some (round_div (1000 * b.figures.median) s.figures.median)

module _ {W : Type 0} (db : Database W) (show : Show) (le : List String → List String → Bool) where
  unfoldable pub normalize : List Row → List (List String)
  unfolding norm_cell sorted
  normalize rows = sorted le (map (norm_row show) rows)

  unfoldable pub run_query : String → Act W (ℕ × List Row)
  run_query sql = do
    t0 ← db.perf_counter
    rows ← db.execute sql
    t1 ← db.perf_counter
    pure (t1 - t0, rows)

  unfoldable pub warm : ℕ → Query → Act W (Unit {0})
  unfolding run_query
  warm zero q = pure tt
  warm (suc n) q = do b ← run_query q.baseline; s ← run_query q.star; warm n q

  -- The interleaved timed runs.
  unfoldable pub time_runs : ℕ → Query → Act W (List ℕ × List ℕ)
  unfolding run_query
  time_runs zero q = pure ([], [])
  time_runs (suc n) q = do
    b ← run_query q.baseline
    s ← run_query q.star
    rest ← time_runs n q
    pure (b.0 ∷ rest.0, s.0 ∷ rest.1)

  abbrev pub both_timed : ℕ → Option Timing → Option Timing → Act W Result
  both_timed n (some b) (some s) = pure (timed n b s (speedup b s))
  both_timed n b s = lift (raised (value_error "no median for empty data"))

  unfoldable pub timed_runs : ℕ → ℕ → ℕ → Query → Act W Result
  unfolding warm time_runs summarize
  timed_runs warmups iterations n q = do
    u ← warm warmups q
    ts ← time_runs iterations q
    both_timed n (summarize ts.0) (summarize ts.1)

  -- The body of the loop over the queries.
  unfoldable pub bench_query : ℕ → ℕ → Query → Act W Result
  unfolding run_query normalize same_rows timed_runs
  bench_query warmups iterations q = do
    base ← run_query q.baseline
    star ← run_query q.star
    (if same_rows (normalize base.1) (normalize star.1)
        then timed_runs warmups iterations (length base.1) q
        else pure (mismatch (length base.1) (length star.1)))

  unfoldable pub bench_all : ℕ → ℕ → List Query → Act W (List (Query × Result))
  unfolding bench_query
  bench_all warmups iterations [] = pure []
  bench_all warmups iterations (q ∷ qs) = do
    r ← bench_query warmups iterations q
    rest ← bench_all warmups iterations qs
    pure ((q, r) ∷ rest)

  -- `main`: none where it refuses to benchmark.
  unfoldable pub main : ℕ → ℕ → List Query → Act W (Option (List (Query × Result)))
  unfolding bench_all
  main warmups iterations queries = do
    wide ← db.count_rows "trips_wide"
    fact ← db.count_rows "fact_trip"
    (if wide == fact
        then (bench_all warmups iterations queries >>= λ rs. pure (some rs))
        else pure none)
