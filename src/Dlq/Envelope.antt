-- ===== src/Dlq/Envelope.antt =====
-- `to_json` and `from_json` of common/dlq.py, around a codec that reads what it writes.
use real_time_data_pipeline.Base.{◌≡◌, refl, ap, ◌∙◌, some}
use real_time_data_pipeline.Base.Dict.{lookup}
use real_time_data_pipeline.Base.Errors.{returned}
use real_time_data_pipeline.Value.{obj, fields, entries-fields}
use real_time_data_pipeline.Dlq.{
  Codec, DlqRecord, number, as_dict, from_dict, from_loaded, to_json, from_json,
}

from_dict-as_dict :
    (r : DlqRecord) → from_dict (as_dict r) ≡ returned (record r { dlq_schema_version = number 1 })
unfolding from_dict as_dict lookup
from_dict-as_dict r = refl

-- An envelope that is written and read again is the same envelope in every field but its schema
-- version, which the reader sets to the current one, if the codec reads back the object written.
pub from_json-to_json :
    (c : Codec) (r : DlqRecord)
    → c.loads (c.dumps (obj (fields (as_dict r)))) ≡ some (obj (fields (as_dict r)))
    → from_json c (to_json c r) ≡ returned (record r { dlq_schema_version = number 1 })
unfolding from_json to_json
from_json-to_json c r h =
    ap from_loaded h ∙ ap from_dict (entries-fields (as_dict r)) ∙ from_dict-as_dict r
