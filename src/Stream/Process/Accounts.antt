-- ===== src/Stream/Process/Accounts.antt =====
-- What `_process_batch` of streaming/stream_job.py reports of a batch.
use mathlib.Core.Path.{subst}
use real_time_data_pipeline.Base.{
  ℕ, ◌+◌, ◌≡◌, refl, Option, none, some, List, [], ◌∷◌, ◌++◌, map, arith, length, length-append,
  concat, sum, All,
}
use real_time_data_pipeline.Base.Dict.{Dict}
use real_time_data_pipeline.Base.Errors.{Outcome, returned, raised}
use real_time_data_pipeline.Value.{Value}
use real_time_data_pipeline.Sink.Statements.{Statement}
use real_time_data_pipeline.Sink.Partition.{Session, Conf, Part}
use real_time_data_pipeline.Sink.Partition.Steps.{write_partition}
use real_time_data_pipeline.Sink.Partition.Accounts.{IsSound}
use real_time_data_pipeline.Sink.Partition.Accounts.Loops.{settled, After}
use real_time_data_pipeline.Sink.Partition.Accounts.Due.{due}
use real_time_data_pipeline.Sink.Partition.Accounts.Whole.{write_partition-IsDone}
use real_time_data_pipeline.Stream.Batch.{BatchRow, StreamConf, route, next_mark}
use real_time_data_pipeline.Stream.Merge.{
  IsConsistent, yielded_by, merge_stats, merge_stats-IsConsistent, merge_stats-rows, empty_agg,
  empty-IsConsistent,
}
use real_time_data_pipeline.Stream.Process.{
  Spark, BatchReport, StreamState, after, write_rows, bad_envelope, late_envelope, cutoff_text,
  part_of, write_partitions, write_yielded, record_batch, conclude_batch, process_batch,
}

After-after :
    {W A B : Type 0} (P : A → Type 0) (Q : B → Type 0) (o : Outcome A × W)
    → (f : A → W → Outcome B × W) → After o.0 P
    → ((a : A) (w : W) → P a → After (f a w).0 Q)
    → After (after o f).0 Q
After-after P Q (raised e, w) f h k = tt
After-after P Q (returned a, w) f h k = k a w h

After-any : {A : Type 0} (o : Outcome A) → After o (λ _. Unit)
After-any (raised e) = tt
After-any (returned a) = tt

abbrev rows_of : List BatchRow → List (Dict Value)
rows_of rs = map (λ (r : BatchRow). r.row) rs

module _ {W : Type 0} (spark : Spark W) (session : Session W) (sink_conf : Conf)
    (conf : StreamConf) where
  -- One for each statement of each row that can be built, and one for each row that cannot.
  abbrev pub dues : List BatchRow → ℕ
  dues rs = sum (map (due session.parse_uuid sink_conf.tables) (rows_of rs))

  -- The account of a batch: its report, what the report says, and the mark.
  abbrev pub BatchAccount : List BatchRow → StreamState → StreamState → Type 0
  BatchAccount batch s s' =
      let r = route conf s.max_event_ms batch in
      (rep : BatchReport) × (s'.batch_reports ≡ s.batch_reports ++ rep ∷ [])
      × (s'.max_event_ms ≡ next_mark conf s.max_event_ms batch)
      × (rep.input_rows ≡ length batch)
      × (rep.unparseable ≡ length r.bad)
      × (rep.late ≡ r.n_late)
      × IsConsistent rep.dlq rep.agg
      × (rep.agg.rows_written + rep.dlq ≡ dues r.good)

  module _
      (answers : (sts : List Statement) (w : W)
        → length (session.execute_concurrent sts w).0 ≡ length sts)
      (whole : (rs : List BatchRow) → concat (spark.partitions rs) ≡ rs) where
    abbrev AreDone : ℕ → List Part → Type 0
    AreDone n ps =
        All IsSound ps × (sum (map (λ (p : Part). p.rows_written) ps) + length (yielded_by ps) ≡ n)

    part_of-After :
        (o : Outcome (Unit {0})) (p : Part) (w : W) (n : ℕ)
        → IsSound p
        → After o (λ _. settled p ≡ n)
        → After
            (part_of spark session sink_conf conf o p w).0
            (λ p. IsSound p × (p.rows_written + length p.yields ≡ n))
    part_of-After (raised e) p w n v h = tt
    part_of-After (returned u) p w n v h = (v, omega (arith, h, v.yielded))

    dues-append : (xs ys : List BatchRow) → dues (xs ++ ys) ≡ dues xs + dues ys
    dues-append [] ys = omega arith
    dues-append (x ∷ xs) ys = omega (arith, dues-append xs ys)

    write_partitions-AreDone :
        (parts : List (List BatchRow)) (w : W)
        → After
            (write_partitions spark session sink_conf conf parts w).0
            (AreDone (dues (concat parts)))
    unfolding write_partitions
    write_partitions-AreDone [] w = (tt, omega arith)
    write_partitions-AreDone (rows ∷ rest) w =
        let run = write_partition session sink_conf (rows_of rows) w in
        let d = write_partition-IsDone session sink_conf answers (rows_of rows) w in
        After-after (λ p. IsSound p × (p.rows_written + length p.yields ≡ dues rows))
          (AreDone (dues (rows ++ concat rest)))
          (part_of spark session sink_conf conf run.result run.part run.world)
          (λ p w'.
            after (write_partitions spark session sink_conf conf rest w')
              (λ ps w''. (returned (p ∷ ps), w'')))
          (part_of-After run.result run.part run.world (dues rows) d.0 d.1)
          (λ p w' v.
            After-after (AreDone (dues (concat rest))) (AreDone (dues (rows ++ concat rest)))
              (write_partitions spark session sink_conf conf rest w')
              (λ ps w''. (returned (p ∷ ps), w'')) (write_partitions-AreDone rest w')
              (λ ps w'' vs. (
                (v.0, vs.0),
                omega (
                  arith,
                  v.1,
                  vs.1,
                  dues-append rows (concat rest),
                  length-append p.yields (yielded_by ps),
                ),
              )))

    conclude_batch-Account :
        (batch_id : ℕ) (batch : List BatchRow) (s : StreamState) (parts : List Part)
        → let r = route conf s.max_event_ms batch in
          AreDone (dues r.good) parts
          → BatchAccount batch s
              (conclude_batch spark session sink_conf conf batch_id (length batch) r parts s)
    unfolding next_mark
    conclude_batch-Account batch_id batch s parts v =
        let r = route conf s.max_event_ms batch in
        (
          record {
            batch_id = batch_id;
            input_rows = length batch;
            unparseable = length r.bad;
            late = r.n_late;
            dlq = length (yielded_by parts);
            agg = merge_stats parts;
          },
          refl,
          refl,
          refl,
          refl,
          refl,
          merge_stats-IsConsistent parts v.0,
          omega (arith, v.1, merge_stats-rows parts),
        )

    mark-empty : (mark : Option ℕ) → mark ≡ next_mark conf mark []
    unfolding next_mark
    mark-empty none = refl
    mark-empty (some m) = ground arith

    route-empty :
        (mark : Option ℕ)
        → let r = route conf mark [] in (0 ≡ length r.bad) × (0 ≡ r.n_late) × (0 ≡ dues r.good)
    unfolding route
    route-empty none = (refl, refl, refl)
    route-empty (some m) = ground arith

    empty_batch-Account :
        (batch_id : ℕ) (s : StreamState)
        → BatchAccount [] s (record_batch spark session sink_conf conf batch_id empty_agg 0 0 0 0 s)
    empty_batch-Account batch_id s =
        let r = route-empty s.max_event_ms in
        (
          record {
            batch_id = batch_id;
            input_rows = 0;
            unparseable = 0;
            late = 0;
            dlq = 0;
            agg = empty_agg;
          },
          refl,
          mark-empty s.max_event_ms,
          refl,
          r.0,
          r.1,
          empty-IsConsistent,
          r.2,
        )

    -- If `_process_batch` returns, it has added one report: of all rows of the batch, those that are
    -- unparseable and those that are late, and of statistics that are sound, with `dlq` the number of
    -- records that the sink has yielded. The rows written and these records add up to one for each
    -- statement of each row that was routed to the sink and can be built, and one for each such row
    -- that cannot. The mark is the next mark of the batch. The conditions are that the driver answers
    -- for each statement of a concurrent batch, and that Spark's partitions hold each row once and in
    -- order.
    pub process_batch-BatchAccount :
        (batch_id : ℕ) (batch : List BatchRow) (s : StreamState) (w : W)
        → After
            (process_batch spark session sink_conf conf batch_id batch s w).0
            (BatchAccount batch s)
    unfolding process_batch
    process_batch-BatchAccount batch_id [] s w = empty_batch-Account batch_id s
    process_batch-BatchAccount batch_id (row ∷ rows) s w =
        let batch = row ∷ rows in
        let r = route conf s.max_event_ms batch in
        let bad = write_rows spark session sink_conf conf bad_envelope r.bad in
        let late =
          write_rows spark session sink_conf conf
            (late_envelope (cutoff_text spark session sink_conf conf s.max_event_ms)) r.late in
        let write = write_partitions spark session sink_conf conf (spark.partitions r.good) in
        After-after (λ _. Unit) (BatchAccount batch s) (bad w) _ (After-any (bad w).0)
          (λ _ w1 _.
            After-after (λ _. Unit) (BatchAccount batch s) (late w1) _ (After-any (late w1).0)
              (λ _ w2 _.
                After-after (AreDone (dues r.good)) (BatchAccount batch s) (write w2) _
                  (subst (λ rs. After (write w2).0 (AreDone (dues rs))) (whole r.good)
                    (write_partitions-AreDone (spark.partitions r.good) w2))
                  (λ parts w3 v.
                    let out = write_yielded spark session sink_conf conf (yielded_by parts) in
                    After-after (λ _. Unit) (BatchAccount batch s) (out w3) _ (After-any (out w3).0)
                      (λ _ w4 _. conclude_batch-Account batch_id batch s parts v))))
