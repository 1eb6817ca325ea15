-- ===== src/Dlq/Examples.antt =====
-- An envelope of common/dlq.py, written and read again.
use real_time_data_pipeline.Base.{◌≡◌, refl, none, some}
use real_time_data_pipeline.Base.Errors.{returned}
use real_time_data_pipeline.Value.{str, obj, fields}
use real_time_data_pipeline.Dlq.{
  Codec, DlqRecord, number, as_dict, build, from_topic, stage_parse, to_json, from_json,
}
use real_time_data_pipeline.Dlq.Envelope.{from_json-to_json}

abbrev envelope : DlqRecord
envelope =
    build (record { loads = λ s. none; dumps = λ v. "" }) "worker-1" 1700000000900 (str "not json")
      "JsonParseError: value did not match event schema" stage_parse 0
      (from_topic (str "trips.raw"))

-- A codec for this one envelope.
abbrev codec : Codec
codec = record { loads = λ s. some (obj (fields (as_dict envelope))); dumps = λ v. "envelope" }

from_json-to_json_example :
    from_json codec (to_json codec envelope)
    ≡ returned (record envelope { dlq_schema_version = number 1 })
from_json-to_json_example = from_json-to_json codec envelope refl
