-- ===== src/Replay/Drain.antt =====
-- `drain` and `_direct_write` of replay/dlq_tools.py. What `read_all` has read is an argument. Kafka,
-- Cassandra, the clock and the file of the parked records act on a world of any type. The exceptions
-- here are those that `except Exception` catches. Printing and the
-- shutdown of the driver are left out.
pub mod Routing
pub mod Accounts
pub mod Whole
pub mod Origin
use Prim.Native.String.{◌++◌ as ◌++ₛ◌}
use real_time_data_pipeline.Base.{
  ℕ, ◌+◌, ◌-◌, String, Bool, true, false, Option, none, some, List, [], ◌∷◌, ◌++◌, length, leb,
  if◌then◌else◌,
}
use real_time_data_pipeline.Base.Dict.{Dict, lookup, insert}
use real_time_data_pipeline.Base.Errors.{
  Outcome, returned, raised, contains, type_error, value_error, attribute_error, ◌>>=◌,
}
use real_time_data_pipeline.Value.{
  Value, ℤ, pos, negsuc, int, str, arr, obj, entries, truthy, get, at,
}
use real_time_data_pipeline.Dlq.{
  Codec, number, field_or, stage_producer, stage_cassandra_sink, stage_parse, stage_late,
}
use real_time_data_pipeline.Sink.Tables.{all_tables}
use real_time_data_pipeline.Sink.Statements.{Statement, build_statements}

abbrev pub reinject_stages : List String
reinject_stages = stage_cassandra_sink ∷ stage_producer ∷ []

abbrev pub direct_write_stages : List String
direct_write_stages = stage_late ∷ []

pub record Report : Type 0 where
  pub records_read : ℕ
  pub reinjected : ℕ
  pub reinject_failed : ℕ
  pub direct_written : ℕ
  pub direct_write_failed : ℕ
  pub parked : ℕ
  pub accounted_for : ℕ
  pub unaccounted : ℕ

-- What the drain calls outside of this repository. `flush` is told how many messages have been handed
-- over since the start, and gives the delivery errors that it reports.
pub record Outside (W : Type 0) : Type 0 where
  pub codec : Codec
  -- `int(v)` and `repr(v)`
  pub to_int : Value → Outcome ℤ
  pub repr : Value → String
  pub parse_uuid : String → Option String
  -- `datetime.fromisoformat(v.replace("Z", "+00:00"))`
  pub from_iso : Value → Outcome Value
  -- `Producer(…)`
  pub open_producer : W → Outcome (Unit {0}) × W
  pub produce : Value → Value → W → Outcome (Unit {0}) × W
  pub flush : ℕ → W → Outcome (List String) × W
  -- `Cluster(…)`, `connect` and the three `prepare`s
  pub connect : W → Outcome (Unit {0}) × W
  pub execute : Statement → W → Outcome (Unit {0}) × W
  pub clock_ms : W → ℕ × W
  -- `os.makedirs`, `open` and the writes of the parked records' file, and those of the report's
  pub write_parked : List (Dict Value) → W → Outcome (Unit {0}) × W
  pub write_report : Report → W → Outcome (Unit {0}) × W

pub record Arguments : Type 0 where
  pub has_report : Bool
  pub max_replays : ℕ
  pub dry_run : Bool

-- `v in stages`, for a set: a list or a dict is unhashable.
unfoldable pub in_set : List String → Value → Outcome Bool
in_set stages (str s) = returned (contains stages s)
in_set stages (arr vs) = raised (type_error "unhashable type: 'list'")
in_set stages (obj fs) = raised (type_error "unhashable type: 'dict'")
in_set stages v = returned false

-- `n >= max_replays`
abbrev pub at_least : ℤ → ℕ → Bool
at_least (pos n) m = leb m n
at_least (negsuc n) m = false

pub record Routes : Type 0 where
  pub reinject : List (Dict Value)
  pub direct : List (Dict Value)
  pub park : List (Dict Value)

abbrev pub no_routes : Routes
no_routes = record { reinject = []; direct = []; park = [] }

pub data Route : Type 0 where
  to_reinject : Route
  to_direct : Route
  to_park : String → Route

pub data Result : Type 0 where
  empty : Result
  preview : ℕ → Routes → Result
  drained : Report → Result

module _ {W : Type 0} (outside : Outside W) where
  -- The branches of the routing loop.
  unfoldable pub by_stage : Value → Outcome Route
  unfolding in_set
  by_stage stage = do
    again ← in_set reinject_stages stage
    late ← (if again then returned false else in_set direct_write_stages stage)
    returned (
        if again
        then to_reinject
        else if late
        then to_direct
        else to_park ("stage " ++ₛ outside.repr stage ++ₛ " is not automatically recoverable"))

  unfoldable pub route_of : ℕ → Dict Value → Outcome Route
  unfolding by_stage lookup
  route_of max_replays r = do
    n ← outside.to_int (field_or r "replay_count" (number 0))
    (if at_least n max_replays
        then returned (to_park ("replay_count >= " ++ₛ outside.repr (number max_replays)))
        else by_stage (field_or r "failure_stage" (str "?")))

  abbrev pub add_route : Dict Value → Route → Routes → Routes
  add_route r to_reinject acc = record acc { reinject = acc.reinject ++ r ∷ [] }
  add_route r to_direct acc = record acc { direct = acc.direct ++ r ∷ [] }
  add_route r (to_park reason) acc = record acc {
    park = acc.park ++ insert "_park_reason" (str reason) r ∷ [];
  }

  unfoldable pub route_all : ℕ → List (Dict Value) → Routes → Outcome Routes
  unfolding route_of insert
  route_all max_replays [] acc = returned acc
  route_all max_replays (r ∷ recs) acc =
      route_of max_replays r >>= λ to. route_all max_replays recs (add_route r to acc)

  -- `json.loads(v)`
  unfoldable pub loads : Value → Outcome Value
  loads (str s) = elim (outside.codec.loads s) [
    | none ↦ raised (value_error "JSONDecodeError")
    | some v ↦ returned v
  ]
  loads v = raised (type_error "the JSON object must be str, bytes or bytearray")

  -- The dict behind `payload.get` and `payload["event_time"]`.
  abbrev pub dict_of : Value → Outcome (Dict Value)
  dict_of (obj fs) = returned (entries fs)
  dict_of v = raised (attribute_error "no dict")

  abbrev pub or_value : Value → Value → Value
  or_value a b = if truthy a then a else b

  -- The body of the re-inject loop, behind its `try`: the key and the payload to produce.
  unfoldable pub message_of : Dict Value → Outcome (Value × Value)
  unfolding at loads get truthy
  message_of r = do
    raw ← at r "original_payload"
    loaded ← loads raw
    payload ← dict_of loaded
    returned (or_value (get payload "trip_id") (or_value (get r "event_id") (str "unknown")), raw)

  abbrev pub send : Outcome (Value × Value) → W → Outcome (Unit {0}) × W
  send (raised e) w = (raised e, w)
  send (returned m) w = outside.produce m.0 m.1 w

  -- How many of some records have gone well and how many have failed, and the world.
  pub record Tally : Type 0 where
    pub done : ℕ
    pub failed : ℕ
    pub world : W

  abbrev pub count : Outcome (Unit {0}) × W → ℕ → ℕ → Tally
  count (returned u, w) done failed = record { done = done + 1; failed = failed; world = w }
  count (raised e, w) done failed = record { done = done; failed = failed + 1; world = w }

  unfoldable pub reinject_loop : List (Dict Value) → Tally → Tally
  unfolding message_of
  reinject_loop [] t = t
  reinject_loop (r ∷ recs) t =
      reinject_loop recs (count (send (message_of r) t.world) t.done t.failed)

  -- The end of the step, with the delivery errors of `flush` taken off.
  abbrev pub flushed : Tally → Outcome (List String) × W → Outcome Tally × W
  flushed t (raised e, w) = (raised e, w)
  flushed t (returned errors, w) = (
    returned
        (record { done = t.done - length errors; failed = t.failed + length errors; world = w }),
    w,
  )

  abbrev pub reinject_all : List (Dict Value) → Outcome (Unit {0}) × W → Outcome Tally × W
  reinject_all recs (raised e, w) = (raised e, w)
  reinject_all recs (returned u, w) =
      let t = reinject_loop recs (record { done = 0; failed = 0; world = w }) in
      flushed t (outside.flush t.done t.world)

  -- The whole step. An exception of the producer or of its `flush` is not caught.
  unfoldable pub reinject_step : List (Dict Value) → W → Outcome Tally × W
  unfolding reinject_loop
  reinject_step [] w = (returned (record { done = 0; failed = 0; world = w }), w)
  reinject_step (r ∷ recs) w = reinject_all (r ∷ recs) (outside.open_producer w)

  -- `_direct_write`: the row, its statements, and their execution, one after the other.
  unfoldable pub direct_statements : ℕ → Dict Value → Outcome (List Statement)
  unfolding at loads insert
  direct_statements now_ms rec = do
    raw ← at rec "original_payload"
    loaded ← loads raw
    payload ← dict_of loaded
    v ← at payload "event_time"
    et ← outside.from_iso v
    build_statements outside.parse_uuid (insert "event_time" et payload) all_tables now_ms

  unfoldable pub execute_all : List Statement → W → Outcome (Unit {0}) × W
  execute_all [] w = (returned tt, w)
  execute_all (s ∷ ss) w =
      let (o, w') = outside.execute s w in
      elim o [ returned u ↦ execute_all ss w' | raised e ↦ (raised e, w') ]

  abbrev pub execute_built : Outcome (List Statement) → W → Outcome (Unit {0}) × W
  execute_built (raised e) w = (raised e, w)
  execute_built (returned ss) w = execute_all ss w

  unfoldable pub direct_loop : ℕ → List (Dict Value) → Tally → Tally
  unfolding direct_statements execute_all
  direct_loop now_ms [] t = t
  direct_loop now_ms (rec ∷ recs) t =
      direct_loop now_ms recs
        (count (execute_built (direct_statements now_ms rec) t.world) t.done t.failed)

  -- The rest of `_direct_write` after the attempt to connect.
  abbrev pub write_all : List (Dict Value) → Outcome (Unit {0}) → W → Outcome Tally × W
  write_all recs (raised e) w = (raised e, w)
  write_all recs (returned u) w =
      let (now_ms, w') = outside.clock_ms w in
      let t = direct_loop now_ms recs (record { done = 0; failed = 0; world = w' }) in
      (returned t, t.world)

  unfoldable pub direct_write : List (Dict Value) → W → Outcome Tally × W
  unfolding direct_loop
  direct_write [] w = (returned (record { done = 0; failed = 0; world = w }), w)
  direct_write (rec ∷ recs) w = let (o, w') = outside.connect w in write_all (rec ∷ recs) o w'

  abbrev pub park_step : List (Dict Value) → W → Outcome (Unit {0}) × W
  park_step [] w = (returned tt, w)
  park_step (r ∷ recs) w = outside.write_parked (r ∷ recs) w

  abbrev pub report : ℕ → Tally → Tally → ℕ → Report
  report n again late parked = record {
    records_read = n;
    reinjected = again.done;
    reinject_failed = again.failed;
    direct_written = late.done;
    direct_write_failed = late.failed;
    parked = parked;
    accounted_for = again.done + late.done + parked;
    unaccounted = n - (again.done + late.done + parked);
  }

  -- What follows the parking: the file of the report, if one is asked for, and the result.
  abbrev pub saved : Report → Outcome (Unit {0}) × W → Outcome Result × W
  saved r (raised e, w) = (raised e, w)
  saved r (returned u, w) = (returned (drained r), w)

  abbrev pub reported : Bool → Report → Outcome (Unit {0}) × W → Outcome Result × W
  reported has_report r (raised e, w) = (raised e, w)
  reported has_report r (returned u, w) =
      if has_report then saved r (outside.write_report r w) else (returned (drained r), w)

  abbrev pub finish : Bool → ℕ → Tally → List (Dict Value) → Outcome Tally × W → Outcome Result × W
  finish has_report n again park (raised e, w) = (raised e, w)
  finish has_report n again park (returned late, w) =
      reported has_report (report n again late (length park)) (park_step park w)

  abbrev pub after_reinject : Bool → ℕ → Routes → Outcome Tally × W → Outcome Result × W
  after_reinject has_report n routes (raised e, w) = (raised e, w)
  after_reinject has_report n routes (returned again, w) =
      finish has_report n again routes.park (direct_write routes.direct w)

  abbrev pub carry_out : ℕ → Arguments → Outcome Routes → W → Outcome Result × W
  carry_out n args (raised e) w = (raised e, w)
  carry_out n args (returned routes) w =
      if args.dry_run
      then (returned (preview n routes), w)
      else after_reinject args.has_report n routes (reinject_step routes.reinject w)

  unfoldable pub drain : Arguments → List (Dict Value) → W → Outcome Result × W
  unfolding route_all reinject_step direct_write
  drain args [] w = (returned empty, w)
  drain args (r ∷ recs) w =
      carry_out (length (r ∷ recs)) args (route_all args.max_replays (r ∷ recs) no_routes) w
