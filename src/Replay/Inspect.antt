-- ===== src/Replay/Inspect.antt =====
-- `read_all` and `inspect` of replay/dlq_tools.py, and `summarize` of common/dlq.py. A poll of the consumer
-- is an event with the time after it; a value that is the key of a counter is kept as its text. The sample
-- and the mean of the retries are left out.
pub mod Counts
mod Examples
use text.Mathlib.Text.{◌==◌ as str_eq}
use Prim.Native.String
use Prim.Native.Char.{code}
use real_time_data_pipeline.Base.{
  ℕ, ◌+◌, ◌-◌, String, Bool, true, false, not, ◌&&◌, Option, none, some, List, [], ◌∷◌, ◌++◌,
  length, ltb, leb, if◌then◌else◌,
}
use real_time_data_pipeline.Base.Dict.{Dict, lookup, insert, bump}
use real_time_data_pipeline.Base.Errors.{
  Exc, Outcome, returned, raised, contains, type_error, attribute_error, ◌>>=◌,
}
use real_time_data_pipeline.Base.Text.{is_colon, split}
use real_time_data_pipeline.Value.{Value, null, str, int, arr, obj, entries, get, truthy}
use real_time_data_pipeline.Dlq.{number, field_or, stage_parse}
use real_time_data_pipeline.Replay.Drain.{reinject_stages, direct_write_stages, in_set}

-- What `c.poll(1.0)` gives: nothing, an error, or a message with its value, its partition and its offset.
pub data Polled : Type 0 where
  nothing : Polled
  partition_eof : Polled
  failed : Exc → Polled
  message : String → ℕ → ℕ → Polled

-- `idle_timeout` in milliseconds.
pub record ReadConf : Type 0 where
  pub idle_timeout : ℕ
  pub limit : ℕ
  pub loads : String → Option Value

-- A record that is no JSON is kept under a stage of its own.
abbrev pub decoded : String → Option Value → Outcome (Dict Value)
decoded raw none =
    returned (("failure_stage", str "unreadable_dlq_record") ∷ ("original_payload", str raw) ∷ [])
decoded raw (some (obj fs)) = returned (entries fs)
decoded raw (some v) = raised (type_error "object does not support item assignment")

unfoldable pub located : ℕ → ℕ → Dict Value → Dict Value
unfolding insert
located partition offset rec =
    insert "_offset" (number offset) (insert "_partition" (number partition) rec)

-- `if limit and len(records) >= limit`
abbrev pub is_full : ReadConf → List (Dict Value) → Bool
is_full conf records = ltb 0 conf.limit && leb conf.limit (length records)

-- What follows a message: the record is added, or its exception goes through.
abbrev pub received :
    ReadConf
    → Outcome (Dict Value)
    → List (Dict Value)
    → (List (Dict Value) → Option (Outcome (List (Dict Value))))
    → Option (Outcome (List (Dict Value)))
received conf (raised e) records rest = some (raised e)
received conf (returned rec) records rest =
    let records' = records ++ rec ∷ [] in
    if is_full conf records' then some (returned records') else rest records'

abbrev pub over_locate : ℕ → ℕ → Outcome (Dict Value) → Outcome (Dict Value)
over_locate p o (raised e) = raised e
over_locate p o (returned rec) = returned (located p o rec)

-- The loop, over the polls that there are; it is `none` while it would poll on.
unfoldable pub read_from :
    ReadConf → List (Polled × ℕ) → ℕ → List (Dict Value) → Option (Outcome (List (Dict Value)))
unfolding located
read_from conf [] last_msg records = none
read_from conf ((nothing, t) ∷ polls) last_msg records =
    let rest = read_from conf polls last_msg records in
    if ltb conf.idle_timeout (t - last_msg) then some (returned records) else rest
read_from conf ((partition_eof, t) ∷ polls) last_msg records = read_from conf polls last_msg records
read_from conf ((failed e, t) ∷ polls) last_msg records = some (raised e)
read_from conf ((message raw p o, t) ∷ polls) last_msg records =
    received conf (over_locate p o (decoded raw (conf.loads raw))) records (read_from conf polls t)

unfoldable pub read_all : ReadConf → ℕ → List (Polled × ℕ) → Option (Outcome (List (Dict Value)))
unfolding read_from
read_all conf start polls = read_from conf polls start []

-- `(r.get("failure_reason") or "?").split(":")[0]`
abbrev pub first_part : List String → String
first_part [] = ""
first_part (w ∷ ws) = w

abbrev pub before_colon : Value → Outcome String
before_colon (str s) = returned (first_part (split is_colon s))
before_colon v = raised (attribute_error "split")

unfoldable pub reason_of : Dict Value → Outcome String
unfolding split truthy get
reason_of r =
    before_colon (if truthy (get r "failure_reason") then get r "failure_reason" else str "?")

pub record Groups : Type 0 where
  pub total : ℕ
  pub by_stage : Dict ℕ
  pub by_reason : Dict ℕ

module _ (repr : Value → String) where
  -- The text of `r.get("failure_stage", "?")`.
  unfoldable pub stage_of : Dict Value → String
  unfolding lookup
  stage_of r = repr (field_or r "failure_stage" (str "?"))

  abbrev pub grouped : Dict Value → Outcome String → (String → Outcome Groups) → Outcome Groups
  grouped r (raised e) rest = raised e
  grouped r (returned reason) rest = rest reason

  -- The loop of `summarize`; `inspect` counts the same with two `Counter`s.
  unfoldable pub group_from : List (Dict Value) → Groups → Outcome Groups
  unfolding stage_of reason_of bump
  group_from [] g = returned g
  group_from (r ∷ rs) g = grouped r (reason_of r) (λ reason. group_from rs (record {
    total = g.total + 1;
    by_stage = bump (stage_of r) 1 g.by_stage;
    by_reason = bump reason 1 g.by_reason;
  }))

  unfoldable pub summarize : List (Dict Value) → Outcome Groups
  unfolding group_from
  summarize rs = group_from rs (record { total = 0; by_stage = []; by_reason = [] })

-- The counts of `inspect` besides those of the groups.
pub record Preview : Type 0 where
  pub distinct_event_ids : List Value
  pub without_event_id : ℕ
  pub reinject : ℕ
  pub direct_write : ℕ
  pub park : ℕ

abbrev pub park_stages : List String
park_stages = stage_parse ∷ []

abbrev pub add_if : Bool → ℕ → ℕ
add_if true n = n + 1
add_if false n = n

module _ (same : Value → Value → Bool) where
  abbrev pub has_value : Value → List Value → Bool
  has_value v [] = false
  has_value v (w ∷ ws) = if same v w then true else has_value v ws

  -- Adding to a set.
  abbrev pub add_value : Value → List Value → List Value
  add_value v ws = if has_value v ws then ws else v ∷ ws

  unfoldable pub preview_from : List (Dict Value) → Preview → Outcome Preview
  unfolding get truthy
  preview_from [] p = returned p
  preview_from (r ∷ rs) p = in_set reinject_stages (get r "failure_stage") >>= λ again.
      in_set direct_write_stages (get r "failure_stage") >>= λ late.
      in_set park_stages (get r "failure_stage") >>= λ parked. preview_from rs (record {
        distinct_event_ids =
            if truthy (get r "event_id")
            then add_value (get r "event_id") p.distinct_event_ids
            else p.distinct_event_ids;
        without_event_id = add_if (not (truthy (get r "event_id"))) p.without_event_id;
        reinject = add_if again p.reinject;
        direct_write = add_if late p.direct_write;
        park = add_if parked p.park;
      })
