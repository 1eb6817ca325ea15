-- ===== src/Replay/Inspect/Examples.antt =====
-- The groups of a DLQ with three records, of which one has no reason.
use real_time_data_pipeline.Base.{◌≡◌, refl, List, [], ◌∷◌, String}
use real_time_data_pipeline.Base.Dict.{Dict}
use real_time_data_pipeline.Base.Errors.{returned}
use real_time_data_pipeline.Value.{Value, str, null}
use real_time_data_pipeline.Replay.Inspect.{summarize}

abbrev repr : Value → String
repr (str s) = s
repr v = "None"

abbrev dead : Value → Dict Value
dead reason = ("failure_stage", str "cassandra_sink") ∷ ("failure_reason", reason) ∷ []

abbrev records : List (Dict Value)
records = dead (str "WriteTimeout: quorum") ∷ dead null ∷ dead (str "WriteTimeout") ∷ []

three_records :
    summarize repr records
    ≡ returned (record {
      total = 3;
      by_stage = ("cassandra_sink", 3) ∷ [];
      by_reason = ("WriteTimeout", 2) ∷ ("?", 1) ∷ [];
    })
unfolding summarize
three_records = refl
