-- ===== src/Sink/Partition/Steps.antt =====
-- The loops of `write_partition` of streaming/cassandra_sink.py: collecting a chunk's statements, the
-- concurrent first attempt, the retries, and the whole partition.
use real_time_data_pipeline.Base.{
  ℕ, ◌+◌, Option, none, some, List, [], ◌∷◌, ◌++◌, map, if◌then◌else◌,
}
use real_time_data_pipeline.Base.Dict.{Dict}
use real_time_data_pipeline.Base.Errors.{Exc, Outcome, returned, raised, is_instance}
use real_time_data_pipeline.Value.{Value, ℤ, get}
use real_time_data_pipeline.Retry.Stats.{RetryStats, fresh, record_reason, merge}
use real_time_data_pipeline.Retry.Policy.{is_empty}
use real_time_data_pipeline.Retry.Call.{
  value, exhausted, propagated, Callables, Ended, call_with_retry,
}
use real_time_data_pipeline.Retry.Batches.{batched}
use real_time_data_pipeline.Dlq.{stage_parse, stage_cassandra_sink}
use real_time_data_pipeline.Sink.Statements.{Statement, build_statements}
use real_time_data_pipeline.Sink.Partition.{
  Session, Conf, Part, initial, Work, retryable, permanent, retry_policy, latency, quarantine,
  add_latency,
}

abbrev pub Failure : Type 0
Failure = Dict Value × Statement × Exc

abbrev pub Sample : Type 0
Sample = ℤ × ℕ

-- What a part of the generator's body leaves: a value or the exception that escapes, and the state.
pub record Run (W A : Type 0) : Type 0 where
  pub result : Outcome A
  pub part : Part
  pub world : W

-- The rest of the body goes on with the value, or is skipped by the exception.
abbrev pub and_then : {W A B : Type 0} → Run W A → (A → Part → W → Run W B) → Run W B
and_then r f = elim r.result [
  | raised e ↦ record { result = raised e; part = r.part; world = r.world }
  | returned a ↦ f a r.part r.world
]

-- `work` and `latency_work`
pub record Collected : Type 0 where
  pub work : List Work
  pub samples : List Sample

-- A row's statements, and its latency sample if one was taken.
abbrev pub add_work : Dict Value → List Statement → List Sample → Collected → Collected
add_work row sts taken c = record {
  work = c.work ++ map (λ st. (row, st)) sts;
  samples = c.samples ++ taken;
}

-- `zip(work, results)` of the concurrent attempt.
unfoldable pub fast_path : List Work → List (Option Exc) → Part → List Failure → Part × List Failure
unfolding record_reason
fast_path [] rs p fs = (p, fs)
fast_path (w ∷ ws) [] p fs = (p, fs)
fast_path (w ∷ ws) (none ∷ rs) p fs =
    fast_path ws rs
      (record p {
        stats = record p.stats {
          attempts = p.stats.attempts + 1;
          successes = p.stats.successes + 1;
        };
        rows_written = p.rows_written + 1;
      })
      fs
fast_path ((row, st) ∷ ws) (some e ∷ rs) p fs =
    fast_path ws rs
      (record p { stats = record_reason e (record p.stats { attempts = p.stats.attempts + 1 }) })
      (fs ++ (row, st, e) ∷ [])

module _ {W : Type 0} (session : Session W) (conf : Conf) where
  -- One latency sample, if the row is drawn. `produced_at_ms` is a column of whole numbers, so that
  -- `// 60000` works wherever `int` does; the id has been read as a UUID before.
  unfoldable pub sample : Dict Value → ℕ → Part → W → Run W (List Sample)
  unfolding latency
  sample row ingested p w =
      let (drawn, w') = session.is_sampled w in
      if drawn
      then (elim (session.to_int (get row "produced_at_ms")) [
        | raised e ↦ record { result = raised e; part = p; world = w' }
        | returned z ↦ record {
          result = returned (elim (latency ingested z) [ none ↦ [] | some lat ↦ (z, lat) ∷ [] ]);
          part = add_latency (latency ingested z) p;
          world = w';
        }
      ])
      else record { result = returned []; part = p; world = w' }

  -- The two `except` clauses around `build_statements`; all that it raises is an `Exception`.
  unfoldable pub reject : Dict Value → Exc → Part → W → Part × W
  unfolding quarantine
  reject row e p w =
      let p' =
        if is_instance ("PermanentDefect" ∷ []) e
        then record p { validation_rejects = p.validation_rejects + 1 }
        else p in
      quarantine session conf row e stage_parse 0 p' w

  -- The body of the loop over a chunk, given what `build_statements` does, and the rest of the loop.
  abbrev pub collect_row :
      Outcome (List Statement)
      → Dict Value
      → ℕ
      → Collected
      → Part
      → W
      → (Collected → Part → W → Run W Collected)
      → Run W Collected
  collect_row (raised e) row ingested c p w rest = let (p', w') = reject row e p w in rest c p' w'
  collect_row (returned sts) row ingested c p w rest =
      and_then (sample row ingested p w) (λ taken p' w'. rest (add_work row sts taken c) p' w')

  -- `for spark_row in chunk`
  unfoldable pub collect : List (Dict Value) → ℕ → Collected → Part → W → Run W Collected
  collect [] ingested c p w = record { result = returned c; part = p; world = w }
  collect (row ∷ rows) ingested c p w =
      collect_row (build_statements session.parse_uuid row conf.tables ingested) row ingested c p w
        (λ c' p' w'. collect rows ingested c' p' w')

  abbrev pub retry_call : Statement → Callables W (Unit {0})
  retry_call st = record {
    fn = session.execute st;
    sleep = session.sleep;
    on_retry = λ k e w. w;
    retry_on = retryable;
    give_up_on = permanent;
  }

  -- A write that has succeeded on the retry path.
  abbrev pub recovered : RetryStats → Part → Part
  recovered attempt_stats p =
      let s = merge p.stats attempt_stats in
      record p {
        stats = record s { retries_before_success = s.retries_before_success + 1 };
        rows_written = p.rows_written + 1;
        retried_writes = p.retried_writes + 1;
        retried_writes_retries =
            p.retried_writes_retries + (attempt_stats.retries_before_success + 1);
      }

  -- What follows `call_with_retry`, on success and under `except RetriesExhausted`.
  unfoldable pub conclude : Dict Value → Part → Ended W (Unit {0}) → Run W (Unit {0})
  unfolding quarantine
  conclude row p r = elim r.result [
    | value _ ↦ record { result = returned tt; part = recovered r.stats p; world = r.world }
    | exhausted attempts x ↦
        let (p', w') =
          quarantine session conf row x stage_cassandra_sink (attempts + 1) p r.world in
        record {
          result = returned tt;
          part = record p' { stats = merge p'.stats r.stats };
          world = w';
        }
    | propagated x ↦ record { result = raised x; part = p; world = r.world }
  ]

  -- `for row, key, params, first_exc in failures`
  unfoldable pub retry_one : Failure → Part → W → Run W (Unit {0})
  unfolding quarantine retry_policy conclude
  retry_one (row, st, e) p w =
      if is_instance permanent e
      then (let (p', w') = quarantine session conf row e stage_cassandra_sink 0 p w in
          record { result = returned tt; part = p'; world = w' })
      else conclude row p
          (call_with_retry (retry_call st) (retry_policy conf.retry) (session.draws w) fresh w)

  unfoldable pub retry_all : List Failure → Part → W → Run W (Unit {0})
  retry_all [] p w = record { result = returned tt; part = p; world = w }
  retry_all (f ∷ fs) p w = and_then (retry_one f p w) (λ _ p' w'. retry_all fs p' w')

  -- `if latency_work`
  abbrev pub write_latency : List Sample → Unit {0} → Part → W → Run W (Unit {0})
  write_latency samples _ p w = record {
    result = returned tt;
    part = p;
    world = if is_empty samples then w else session.write_samples samples w;
  }

  -- The writes of a chunk: nothing, latency samples included, if it has no statement.
  unfoldable pub write_work : Collected → Part → W → Run W (Unit {0})
  unfolding fast_path retry_all
  write_work c p w = elim c.work [
    | [] ↦ record { result = returned tt; part = p; world = w }
    | _ ∷ _ ↦
        let (results, w1) = session.execute_concurrent (map (λ x. x.1) c.work) w in
        let (p1, failures) = fast_path c.work results p [] in
        and_then (retry_all failures p1 w1) (write_latency c.samples)
  ]

  unfoldable pub write_chunk : List (Dict Value) → Part → W → Run W (Unit {0})
  unfolding collect write_work
  write_chunk chunk p w =
      let (ingested, w1) = session.clock_ms w in
      and_then (collect chunk ingested (record { work = []; samples = [] }) p w1) write_work

  unfoldable pub write_chunks : List (List (Dict Value)) → Part → W → Run W (Unit {0})
  unfolding write_chunk
  write_chunks [] p w = record { result = returned tt; part = p; world = w }
  write_chunks (chunk ∷ chunks) p w =
      and_then (write_chunk chunk p w) (λ _ p' w'. write_chunks chunks p' w')

  -- The whole generator: what it yields to the DLQ, and the counters of the statistics that it
  -- yields last, if it comes so far.
  unfoldable pub write_partition : List (Dict Value) → W → Run W (Unit {0})
  unfolding write_chunks batched
  write_partition rows w = write_chunks (batched conf.chunk_size rows) initial w
