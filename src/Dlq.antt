-- ===== src/Dlq.antt =====
-- common/dlq.py: the envelope of a quarantined record. Python does not check the types of a
-- dataclass's fields, so each of them holds any value. `json.loads` and `json.dumps` on texts are
-- arguments: a codec.
pub mod Envelope
mod Examples
use Prim.Native.String
use Prim.Native.String.{◌++◌ as ◌++ₛ◌}
use real_time_data_pipeline.Base.{
  ℕ, zero, suc, String, ◌≡◌, Bool, true, false, Option, none, some, List, [], ◌∷◌, if◌then◌else◌,
}
use real_time_data_pipeline.Base.Dict.{Dict, lookup, insert}
use real_time_data_pipeline.Base.Errors.{
  Exc, Outcome, returned, raised, contains, type_error, ◌>>=◌,
}
use real_time_data_pipeline.Value.{
  Value, null, int, pos, str, obj, Fields, entries, fields, truthy, get, at,
}

-- `json.loads` on a text, with none where it raises, and `json.dumps`.
pub record Codec : Type 0 where
  pub loads : String → Option Value
  pub dumps : Value → String

pub record DlqRecord : Type 0 where
  pub original_payload : Value
  pub failure_reason : Value
  pub failure_stage : Value
  pub retry_count : Value
  pub first_failed_at_ms : Value
  pub quarantined_at_ms : Value
  pub event_id : Value
  pub source_topic : Value
  pub source_partition : Value
  pub source_offset : Value
  pub replay_count : Value
  pub host : Value
  pub dlq_schema_version : Value

abbrev pub number : ℕ → Value
number n = int (pos n)

abbrev pub stage_producer : String
stage_producer = "producer"

abbrev pub stage_cassandra_sink : String
stage_cassandra_sink = "cassandra_sink"

abbrev pub stage_parse : String
stage_parse = "parse"

abbrev pub stage_late : String
stage_late = "late_event"

-- `asdict`: the fields in the order of the class.
unfoldable pub as_dict : DlqRecord → Dict Value
as_dict r =
    ("original_payload", r.original_payload)
    ∷ ("failure_reason", r.failure_reason)
    ∷ ("failure_stage", r.failure_stage)
    ∷ ("retry_count", r.retry_count)
    ∷ ("first_failed_at_ms", r.first_failed_at_ms)
    ∷ ("quarantined_at_ms", r.quarantined_at_ms)
    ∷ ("event_id", r.event_id)
    ∷ ("source_topic", r.source_topic)
    ∷ ("source_partition", r.source_partition)
    ∷ ("source_offset", r.source_offset)
    ∷ ("replay_count", r.replay_count)
    ∷ ("host", r.host)
    ∷ ("dlq_schema_version", r.dlq_schema_version)
    ∷ []

-- A field of the class with its default, and one without.
abbrev pub field_or : Dict Value → String → Value → Value
field_or d k default = elim (lookup k d) [ none ↦ default | some v ↦ v ]

abbrev pub field_required : Dict Value → String → Outcome Value
field_required d k = elim (lookup k d) [
  | none ↦ raised (type_error ("missing argument: '" ++ₛ k ++ₛ "'"))
  | some v ↦ returned v
]

-- `from_json` behind `json.loads`: `dlq_schema_version` is popped, so it takes its default, and
-- what is no field of the class is left out.
unfoldable pub from_dict : Dict Value → Outcome DlqRecord
from_dict d = do
  payload ← field_required d "original_payload"
  reason ← field_required d "failure_reason"
  stage ← field_required d "failure_stage"
  retries ← field_required d "retry_count"
  first ← field_required d "first_failed_at_ms"
  quarantined ← field_required d "quarantined_at_ms"
  returned (record {
    original_payload = payload;
    failure_reason = reason;
    failure_stage = stage;
    retry_count = retries;
    first_failed_at_ms = first;
    quarantined_at_ms = quarantined;
    event_id = field_or d "event_id" null;
    source_topic = field_or d "source_topic" null;
    source_partition = field_or d "source_partition" null;
    source_offset = field_or d "source_offset" null;
    replay_count = field_or d "replay_count" (number 0);
    host = field_or d "host" (str "");
    dlq_schema_version = number 1;
  })

unfoldable pub to_json : Codec → DlqRecord → String
unfolding as_dict
to_json c r = c.dumps (obj (fields (as_dict r)))

abbrev pub from_loaded : Option Value → Outcome DlqRecord
from_loaded (some (obj fs)) = from_dict (entries fs)
from_loaded _ = raised (type_error "not an object")

unfoldable pub from_json : Codec → String → Outcome DlqRecord
unfolding from_dict
from_json c raw = from_loaded (c.loads raw)

-- `s[:n]`
unfoldable pub take_chars : ℕ → String → String
take_chars zero s = String.[]
take_chars (suc n) String.[] = String.[]
take_chars (suc n) (String.◌∷◌ c s) = String.◌∷◌ c (take_chars n s)

-- `json.loads(payload).get("event_id")`, with None for whatever is raised.
unfoldable pub event_id_of : Codec → Value → Value
unfolding get
event_id_of c (str s) = elim (c.loads s) [ some (obj fs) ↦ get (entries fs) "event_id" | _ ↦ null ]
event_id_of c v = null

-- The optional arguments of `build`.
pub record Source : Type 0 where
  pub first_failed_at_ms : Option ℕ
  pub topic : Value
  pub partition : Value
  pub offset : Value
  pub replay_count : ℕ

abbrev pub from_topic : Value → Source
from_topic t = record {
  first_failed_at_ms = none;
  topic = t;
  partition = null;
  offset = null;
  replay_count = 0;
}

-- `first_failed_at_ms or now`
abbrev pub or_now : Option ℕ → ℕ → ℕ
or_now none now = now
or_now (some zero) now = now
or_now (some (suc n)) now = suc n

-- `build`, at the time `now` on the host `host`.
unfoldable pub build : Codec → String → ℕ → Value → String → String → ℕ → Source → DlqRecord
unfolding take_chars event_id_of
build c host now payload reason stage retry_count src = record {
  original_payload = payload;
  failure_reason = str (take_chars 2000 reason);
  failure_stage = str stage;
  retry_count = number retry_count;
  first_failed_at_ms = number (or_now src.first_failed_at_ms now);
  quarantined_at_ms = number now;
  event_id = event_id_of c payload;
  source_topic = src.topic;
  source_partition = src.partition;
  source_offset = src.offset;
  replay_count = number src.replay_count;
  host = str host;
  dlq_schema_version = number 1;
}
