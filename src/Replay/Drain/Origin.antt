-- ===== src/Replay/Drain/Origin.antt =====
-- Where `drain` of replay/dlq_tools.py sends what streaming/cassandra_sink.py and
-- streaming/stream_job.py put into the DLQ.
use mathlib.Core.List.{append-nil}
use Prim.Native.String.{◌++◌ as ◌++ₛ◌}
use real_time_data_pipeline.Base.{
  ℕ, ◌+◌, ◌<◌, String, ◌≡◌, refl, sym, ◌∙◌, List, [], ◌∷◌, ◌++◌, arith, All, if◌then◌else◌,
  Bool-cases, inl, inr,
}
use real_time_data_pipeline.Base.Dict.{Dict, lookup}
use real_time_data_pipeline.Base.Errors.{Exc, returned, contains, is_instance}
use real_time_data_pipeline.Value.{Value, pos, str}
use real_time_data_pipeline.Dlq.{
  number, as_dict, build, stage_cassandra_sink, stage_producer, stage_late, stage_parse,
}
use real_time_data_pipeline.Retry.Call.{CallResult, value, exhausted, propagated, call_with_retry}
use real_time_data_pipeline.Retry.Stats.{RetryStats, fresh}
use real_time_data_pipeline.Sink.Statements.{Statement}
use real_time_data_pipeline.Sink.Partition.{
  Session, Conf, Part, Yield, dlq, permanent, quarantine, retry_policy,
}
use real_time_data_pipeline.Sink.Partition.Steps.{conclude, retry_call, retry_one, reject}
use real_time_data_pipeline.Stream.Batch.{BatchRow}
use real_time_data_pipeline.Stream.Process.{bad_envelope, late_envelope}
use real_time_data_pipeline.Replay.Drain.{Outside, Route, to_reinject, to_direct, to_park, route_of}
use real_time_data_pipeline.Replay.Drain.Routing.{IsRead, route_of_lem}

module _ {W V : Type 0} (outside : Outside V) (max_replays : ℕ) (session : Session W)
    (conf : Conf) where
  abbrev pub parked_as : String → Route
  parked_as stage =
      to_park ("stage " ++ₛ outside.repr (str stage) ++ₛ " is not automatically recoverable")

  -- The drain sends the record there.
  abbrev pub Goes : Route → Dict Value → Type 0
  Goes to d = route_of outside max_replays d ≡ returned to

  abbrev pub GoesAs : Route → Yield → Type 0
  GoesAs to (dlq key rec) = Goes to (as_dict rec)

  -- A step of the sink has added some records for the DLQ, and the drain sends all of them there.
  abbrev pub Adds : Route → List Yield → List Yield → Type 0
  Adds to before after = (new : List Yield) × (after ≡ before ++ new) × All (GoesAs to) new

  -- Where a record of the stage goes that has not been replayed.
  abbrev route_at : String → Route
  route_at stage =
      if contains (stage_cassandra_sink ∷ stage_producer ∷ []) stage
      then to_reinject
      else if contains (stage_late ∷ []) stage
      then to_direct
      else parked_as stage

  module _ (h : 0 < max_replays) (zero_count : outside.to_int (number 0) ≡ returned (pos 0)) where
    at_stage :
        (d : Dict Value) (stage : String)
        → IsRead outside max_replays (record { row = d; replays = pos 0; stage = stage })
        → Goes (route_at stage) d
    at_stage d stage r =
        route_of_lem outside max_replays (record { row = d; replays = pos 0; stage = stage }) r
        ∙ ground (arith, h)

    quarantine-Adds :
        (row : Dict Value) (e : Exc) (stage : String) (retries : ℕ) (p : Part) (w : W)
        → Adds (route_at stage) p.yields (quarantine session conf row e stage retries p w).0.yields
    unfolding quarantine as_dict build
    quarantine-Adds row e stage retries p w = (_, refl, (at_stage _ stage (zero_count, refl), tt))

    nothing-Adds : (to : Route) (ys : List Yield) → Adds to ys ys
    nothing-Adds to ys = ([], sym (append-nil ys), tt)

    conclude-Adds :
        (row : Dict Value) (p : Part) (o : CallResult (Unit {0})) (stats : RetryStats) (w : W)
        → Adds to_reinject p.yields
            (conclude session conf row p
              (record { result = o; stats = stats; world = w })).part.yields
    unfolding conclude
    conclude-Adds row p (value u) stats w = nothing-Adds to_reinject p.yields
    conclude-Adds row p (exhausted attempts x) stats w =
        quarantine-Adds row x stage_cassandra_sink (attempts + 1) p w
    conclude-Adds row p (propagated x) stats w = nothing-Adds to_reinject p.yields

    retry_one-Adds :
        (row : Dict Value) (st : Statement) (e : Exc) (p : Part) (w : W)
        → Adds to_reinject p.yields (retry_one session conf (row, st, e) p w).part.yields
    unfolding retry_one
    retry_one-Adds row st e p w = elim (Bool-cases (is_instance permanent e)) [
      | inl d ↦ rw d (quarantine-Adds row e stage_cassandra_sink 0 p w)
      | inr d ↦
          let r =
            call_with_retry (retry_call session conf st) (retry_policy conf.retry) (session.draws w)
              fresh w in
          rw d (conclude-Adds row p r.result r.stats r.world)
    ]

    reject-Adds :
        (row : Dict Value) (e : Exc) (p : Part) (w : W)
        → Adds (parked_as stage_parse) p.yields (reject session conf row e p w).0.yields
    unfolding reject
    reject-Adds row e p w = elim (Bool-cases (is_instance ("PermanentDefect" ∷ []) e)) [
      | inl d ↦ rw d (
          quarantine-Adds row e stage_parse 0
            (record p { validation_rejects = p.validation_rejects + 1 }) w)
      | inr d ↦ rw d (quarantine-Adds row e stage_parse 0 p w)
    ]

    -- Where the drain sends what the stream puts into the DLQ, for a ceiling of at least 1. What the
    -- sink quarantines of a failed statement, at once or after its retries, is re-injected; a row that
    -- it rejects, or that the parser could not read, is parked as of the stage "parse"; a late row is
    -- written directly. This holds for any statement, row, error and state of the sink, and so however
    -- often a row has come from the drain before: the ceiling stops none of these records.
    pub pipeline_routes :
        (row : Dict Value) (st : Statement) (e : Exc) (p : Part) (w : W) (cutoff : String) (now : ℕ)
        (batch_row : BatchRow)
        → Adds to_reinject p.yields (retry_one session conf (row, st, e) p w).part.yields
          × Adds (parked_as stage_parse) p.yields (reject session conf row e p w).0.yields
          × Goes (parked_as stage_parse) (bad_envelope now batch_row).1
          × Goes to_direct (late_envelope cutoff now batch_row).1
    unfolding bad_envelope late_envelope lookup
    pipeline_routes row st e p w cutoff now batch_row = (
      retry_one-Adds row st e p w,
      reject-Adds row e p w,
      at_stage (bad_envelope now batch_row).1 stage_parse (zero_count, refl),
      at_stage (late_envelope cutoff now batch_row).1 stage_late (zero_count, refl),
    )
