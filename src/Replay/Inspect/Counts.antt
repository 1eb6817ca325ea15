-- ===== src/Replay/Inspect/Counts.antt =====
-- What the groups of `summarize` in common/dlq.py add up to.
use real_time_data_pipeline.Base.{◌≡◌, refl, ◌+◌, String, List, [], ◌∷◌, length, All, arith}
use real_time_data_pipeline.Base.Dict.{Dict, total, bump, total-bump}
use real_time_data_pipeline.Base.Errors.{returned}
use real_time_data_pipeline.Value.{Value}
use real_time_data_pipeline.Replay.Inspect.{Groups, reason_of, stage_of, group_from, summarize}

-- The record's reason is a text, or is missing.
abbrev pub HasReason : Dict Value → Type 0
HasReason r = (reason : String) × (reason_of r ≡ returned reason)

module _ (repr : Value → String) where
  group_from_returned :
      (rs : List (Dict Value)) (g : Groups)
      → All HasReason rs
      → (h : Groups) × (group_from repr rs g ≡ returned h)
        × (h.total ≡ g.total + length rs)
        × (total h.by_stage ≡ total g.by_stage + length rs)
        × (total h.by_reason ≡ total g.by_reason + length rs)
  unfolding group_from
  group_from_returned [] g k = (g, refl, omega arith, omega arith, omega arith)
  group_from_returned (r ∷ rs) g k =
      let (reason, e) = k.0 in
      let (h, f, l, m, n) =
        group_from_returned rs
          (record {
            total = g.total + 1;
            by_stage = bump (stage_of repr r) 1 g.by_stage;
            by_reason = bump reason 1 g.by_reason;
          })
          k.1 in
      (
        h,
        rw e f,
        omega (arith, l),
        omega (arith, m, total-bump (stage_of repr r) 1 g.by_stage),
        omega (arith, n, total-bump reason 1 g.by_reason),
      )

  -- Records whose reasons are texts or missing can be summarized: the counters of the stages add up to
  -- the number of records, and so do those of the reasons.
  pub summarize_returned :
      (rs : List (Dict Value))
      → All HasReason rs
      → (g : Groups) × (summarize repr rs ≡ returned g)
        × (g.total ≡ length rs)
        × (total g.by_stage ≡ length rs)
        × (total g.by_reason ≡ length rs)
  unfolding summarize total
  summarize_returned rs k =
      let (g, e, l, m, n) =
        group_from_returned rs (record { total = 0; by_stage = []; by_reason = [] }) k in
      (g, e, omega (arith, l), omega (arith, m), omega (arith, n))
