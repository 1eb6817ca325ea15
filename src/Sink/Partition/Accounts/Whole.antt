-- ===== src/Sink/Partition/Accounts/Whole.antt =====
-- The counters of a whole run of `write_partition` (streaming/cassandra_sink.py).
use mathlib.Core.Path.{subst}
use real_time_data_pipeline.Base.{
  ℕ, ◌+◌, ◌≡◌, refl, Option, none, some, List, [], ◌∷◌, ◌++◌, map, arith, length, length-append,
  length-map, concat, sum, Bool-cases, inl, inr, ◌*◌, ◌≤◌, max,
}
use real_time_data_pipeline.Base.Dict.{Dict}
use real_time_data_pipeline.Base.Errors.{Exc, Outcome, returned, raised, is_instance}
use real_time_data_pipeline.Value.{Value, ℤ, get}
use real_time_data_pipeline.Retry.Batches.{batched, batched_lem}
use real_time_data_pipeline.Dlq.{stage_parse}
use real_time_data_pipeline.Sink.Statements.{Statement, build_statements}
use real_time_data_pipeline.Sink.Partition.{
  Session, Conf, Part, Work, initial, add_latency, latency,
}
use real_time_data_pipeline.Sink.Partition.Steps.{
  Sample, Run, Collected, add_work, sample, reject, collect_row, collect, write_work, write_chunk,
  write_chunks, write_partition,
}
use real_time_data_pipeline.Sink.Partition.Accounts.{
  IsSound, initial-IsSound, Quarantined, quarantine-Quarantined,
}
use real_time_data_pipeline.Sink.Partition.Accounts.Due.{amount, due, build_amount}
use real_time_data_pipeline.Sink.Partition.Accounts.Loops.{
  settled, After, Done, IsDone, Done-and_then, write_work-IsDone, Quarantined-IsSound,
}

-- A rejected event counts as a rejection and as an envelope.
rejected-IsSound :
    (p q : Part)
    → Quarantined (record p { validation_rejects = p.validation_rejects + 1 }) q
    → IsSound p
    → IsSound q
rejected-IsSound p q d v = ground arith

mean_step : (s c m l : ℕ) → s ≤ c * m → s + l ≤ (c + 1) * max m l
mean_step s c m l h = grind arith

add_latency-IsSound : (o : Option ℕ) (p : Part) → IsSound p → IsSound (add_latency o p)
add_latency-IsSound none p v = v
add_latency-IsSound (some l) p v =
    ground (arith, mean_step p.latency_sum p.latency_count p.latency_max l)

settled-add_latency : (o : Option ℕ) (p : Part) → settled (add_latency o p) ≡ settled p
settled-add_latency none p = refl
settled-add_latency (some l) p = refl

Done-map :
    {W A : Type 0} (P Q : A → ℕ → Type 0) (r : Run W A)
    → ((a : A) (m : ℕ) → P a m → Q a m)
    → Done r P
    → Done r Q
Done-map {A} P Q r f d = (d.0, go r.result d.1)
  where
    go : (x : Outcome A) → After x (λ a. P a (settled r.part)) → After x (λ a. Q a (settled r.part))
    go (returned a) h = f a (settled r.part) h
    go (raised e) h = tt

module _ {W : Type 0} (session : Session W) (conf : Conf) where
  reject-IsDone :
      (row : Dict Value) (e : Exc) (p : Part) (w : W)
      → IsSound p
      → let q = (reject session conf row e p w).0 in IsSound q × (settled q ≡ settled p + 1)
  unfolding reject
  reject-IsDone row e p w v = elim (Bool-cases (is_instance ("PermanentDefect" ∷ []) e)) [
    | inl y ↦
        let p' : Part = record p { validation_rejects = p.validation_rejects + 1 } in
        let d = quarantine-Quarantined session conf row e stage_parse 0 p' w in
        rw y (rejected-IsSound p _ d v, omega arith)
    | inr n ↦
        let d = quarantine-Quarantined session conf row e stage_parse 0 p w in
        rw n (Quarantined-IsSound p _ d v, omega arith)
  ]

  sample-IsDone :
      (row : Dict Value) (n : ℕ) (p : Part) (w : W)
      → IsSound p
      → Done (sample session conf row n p w) (λ _ m. m ≡ settled p)
  unfolding sample
  sample-IsDone row n p w v = elim (Bool-cases (session.is_sampled w).0) [
    | inl y ↦ rw (y, Done) (go (session.to_int (get row "produced_at_ms")))
    | inr no_sample ↦ rw (no_sample, Done) (v, refl)
  ]
    where
      go :
          (x : Outcome ℤ)
          → Done {W = W} {A = List Sample}
              (elim x [
                | raised e ↦ record {
                  result = raised e;
                  part = p;
                  world = (session.is_sampled w).1;
                }
                | returned z ↦ record {
                  result = returned (elim (latency n z) [ none ↦ [] | some lat ↦ (z, lat) ∷ [] ]);
                  part = add_latency (latency n z) p;
                  world = (session.is_sampled w).1;
                }
              ])
              (λ _ m. m ≡ settled p)
      go (raised e) = (v, tt)
      go (returned z) = (add_latency-IsSound (latency n z) p v, settled-add_latency (latency n z) p)

  -- The rows that are still to be decided after a chunk's loop, and those that are.
  abbrev Collects : ℕ → Collected → Collected → ℕ → Type 0
  Collects n c c' m = m + length c'.work ≡ n + length c.work

  collect_row-Done :
      (x : Outcome (List Statement)) (row : Dict Value) (n k : ℕ) (c : Collected) (p : Part) (w : W)
      → (rest : Collected → Part → W → Run W Collected)
      → ((c' : Collected) (p' : Part) (w' : W)
          → IsSound p'
          → Done (rest c' p' w') (Collects (settled p' + k) c'))
      → IsSound p
      → Done (collect_row session conf x row n c p w rest) (Collects (settled p + (amount x + k)) c)
  collect_row-Done (raised e) row n k c p w rest ih v =
      let q = reject session conf row e p w in
      let d = reject-IsDone row e p w v in
      Done-map (Collects (settled q.0 + k) c) (Collects (settled p + (1 + k)) c) (rest c q.0 q.1)
        (λ c' m h. omega (arith, d.1)) (ih c q.0 q.1 d.0)
  collect_row-Done (returned sts) row n k c p w rest ih v =
      Done-and_then (λ _ m. m ≡ settled p) (Collects (settled p + (length sts + k)) c)
        (sample session conf row n p w) (λ taken p' w'. rest (add_work row sts taken c) p' w')
        (sample-IsDone row n p w v)
        (λ taken p' w' v' e.
          let c' = add_work row sts taken c in
          Done-map (Collects (settled p' + k) c') (Collects (settled p + (length sts + k)) c)
            (rest c' p' w')
            (λ c'' m h. omega (
              arith,
              e,
              length-append c.work (map (λ st. (row, st)) sts),
              length-map {B = Work} sts (λ st. (row, st)),
            ))
            (ih c' p' w' v'))

  collect-Done :
      (rows : List (Dict Value)) (n : ℕ) (c : Collected) (p : Part) (w : W)
      → IsSound p
      → Done
          (collect session conf rows n c p w)
          (Collects (settled p + sum (map (due session.parse_uuid conf.tables) rows)) c)
  unfolding collect
  collect-Done [] n c p w v = (v, omega arith)
  collect-Done (row ∷ rows) n c p w v =
      subst
        (λ d.
          Done (collect session conf (row ∷ rows) n c p w)
            (Collects (settled p + (d + sum (map (due session.parse_uuid conf.tables) rows))) c))
        (build_amount session.parse_uuid row conf.tables n)
        (collect_row-Done (build_statements session.parse_uuid row conf.tables n) row n
          (sum (map (due session.parse_uuid conf.tables) rows)) c p w _
          (λ c' p' w' v'. collect-Done rows n c' p' w' v') v)

  module _
      (answers : (sts : List Statement) (w : W)
        → length (session.execute_concurrent sts w).0 ≡ length sts) where
    abbrev dues : List (Dict Value) → ℕ
    dues rows = sum (map (due session.parse_uuid conf.tables) rows)

    write_chunk-IsDone :
        (chunk : List (Dict Value)) (p : Part) (w : W)
        → IsSound p
        → IsDone (write_chunk session conf chunk p w) (settled p + dues chunk)
    unfolding write_chunk
    write_chunk-IsDone chunk p w v =
        let (ingested, w1) = session.clock_ms w in
        Done-and_then (Collects (settled p + dues chunk) (record { work = []; samples = [] }))
          (λ _ m. m ≡ settled p + dues chunk)
          (collect session conf chunk ingested (record { work = []; samples = [] }) p w1)
          (write_work session conf)
          (collect-Done chunk ingested (record { work = []; samples = [] }) p w1 v)
          (λ c p' w' v' e.
            Done-map (λ _ m. m ≡ settled p' + length c.work) (λ _ m. m ≡ settled p + dues chunk)
              (write_work session conf c p' w') (λ _ m h. omega arith)
              (write_work-IsDone session conf c p' w' answers v'))

    dues-append : (xs ys : List (Dict Value)) → dues (xs ++ ys) ≡ dues xs + dues ys
    dues-append [] ys = omega arith
    dues-append (x ∷ xs) ys = omega (arith, dues-append xs ys)

    write_chunks-IsDone :
        (chunks : List (List (Dict Value))) (p : Part) (w : W)
        → IsSound p
        → IsDone (write_chunks session conf chunks p w) (settled p + dues (concat chunks))
    unfolding write_chunks
    write_chunks-IsDone [] p w v = (v, omega arith)
    write_chunks-IsDone (chunk ∷ chunks) p w v =
        Done-and_then (λ _ m. m ≡ settled p + dues chunk)
          (λ _ m. m ≡ settled p + dues (chunk ++ concat chunks))
          (write_chunk session conf chunk p w) (λ _ p' w'. write_chunks session conf chunks p' w')
          (write_chunk-IsDone chunk p w v)
          (λ _ p' w' v' e.
            Done-map (λ _ m. m ≡ settled p' + dues (concat chunks))
              (λ _ m. m ≡ settled p + dues (chunk ++ concat chunks))
              (write_chunks session conf chunks p' w')
              (λ _ m h. omega (arith, dues-append chunk (concat chunks)))
              (write_chunks-IsDone chunks p' w' v'))

    -- Whatever Cassandra does, the counters of a partition are sound when the generator ends, also by
    -- an exception: every attempt is a success or has its reason counted, the successes are the rows
    -- written, the retries are those of the retried writes, as many records were yielded to the DLQ
    -- as were counted, with the rejects and the exhausted writes among them, and the latency sum is
    -- at most the count times the maximum. If it ends without an exception, the rows written and the
    -- records yielded add up to one for each statement of each event that can be built, and one for
    -- each event that cannot. The condition is that the driver answers for each statement of a
    -- concurrent batch.
    pub write_partition-IsDone :
        (rows : List (Dict Value)) (w : W)
        → IsDone (write_partition session conf rows w) (dues rows)
    unfolding write_partition
    write_partition-IsDone rows w =
        subst
          (λ l.
            IsDone (write_chunks session conf (batched conf.chunk_size rows) initial w) (dues l))
          (batched_lem conf.chunk_size rows).0
          (Done-map (λ _ m. m ≡ settled initial + dues (concat (batched conf.chunk_size rows)))
            (λ _ m. m ≡ dues (concat (batched conf.chunk_size rows)))
            (write_chunks session conf (batched conf.chunk_size rows) initial w)
            (λ _ m h. omega arith)
            (write_chunks-IsDone (batched conf.chunk_size rows) initial w initial-IsSound))
