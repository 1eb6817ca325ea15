-- ===== src/Bench/Analytics/Examples.antt =====
-- A benchmark of one query, whose two forms give the same two rows in another order.
use text.Mathlib.Text.{◌==◌ as str_eq}
use real_time_data_pipeline.Base.{
  ℕ, ◌+◌, String, map, Bool, true, none, some, ◌≡◌, refl, Option, List, [], ◌∷◌, if◌then◌else◌,
}
use real_time_data_pipeline.Base.Errors.{returned}
use real_time_data_pipeline.Value.{Value, str, float}
use real_time_data_pipeline.Bench.Act.Sound.{Returns}
use real_time_data_pipeline.Bench.Analytics.{Row, Show, Query, Database, Result, is_timed, main}
use real_time_data_pipeline.Bench.Analytics.Texts.{lex, le_row, le_row-IsOrder}
use real_time_data_pipeline.Bench.Analytics.Verdict.{IsBenchmark, main-IsBenchmark}

abbrev nyc : Row
nyc = str "nyc" ∷ float "12.5" ∷ []

abbrev chi : Row
chi = str "chi" ∷ float "9.0" ∷ []

abbrev text_of : Value → String
text_of (str s) = s
text_of v = ""

abbrev show : Show
show = record {
  two_decimals = λ s. s;
  datetime = λ t. "2026-06-01T00:00:00";
  day = λ d. "2026-06-01";
  text = text_of;
}

abbrev answers : String → List Row
answers sql = if str_eq sql "star" then chi ∷ nyc ∷ [] else nyc ∷ chi ∷ []

-- The world is the clock.
abbrev db : Database ℕ
db = record {
  execute = λ sql t. (returned (answers sql), t + 3);
  perf_counter = λ t. (returned t, t + 1);
  count_rows = λ table t. (returned 2, t);
}

abbrev revenue : Query
revenue = record { name = "revenue"; baseline = "baseline"; star = "star" }

main-IsBenchmark_example :
    Returns
      (IsBenchmark db show le_row le_row-IsOrder answers (λ sql w. refl) (revenue ∷ []))
      (main db show le_row 1 2 (revenue ∷ []) 0).0
main-IsBenchmark_example =
    main-IsBenchmark db show le_row le_row-IsOrder answers (λ sql w. refl) 1 2 (revenue ∷ []) 0

abbrev verdicts : Option (List (Query × Result)) → List Bool
verdicts none = []
verdicts (some rs) = map (λ e. is_timed e.1) rs

-- The query is timed.
revenue_timed : Returns (λ rs. verdicts rs ≡ true ∷ []) (main db show le_row 1 2 (revenue ∷ []) 0).0
unfolding main real_time_data_pipeline.Bench.Analytics.Texts.lex
revenue_timed = refl
