-- ===== src/Bench/Scenario/Offsets.antt =====
-- What bench/run_scenario.py reads from Kafka's and Cassandra's own tools: end offsets, row counts and
-- the containers that run.
pub mod Listing
use Prim.Native.String
use Prim.Native.String.{◌++◌ as ◌++ₛ◌}
use Prim.Native.Char.{Char, code}
use text.Mathlib.Text.{◌==◌ as str_eq}
use real_time_data_pipeline.Base.{
  ℕ, ◌+◌, ◌*◌, String, Bool, true, false, not, ◌&&◌, Option, none, some, List, [], ◌∷◌, map, keep,
  leb, if◌then◌else◌, ◌++◌, ◌==◌,
}
use real_time_data_pipeline.Base.Dict.{Dict, lookup, insert}
use real_time_data_pipeline.Base.Errors.{Exc, Outcome, returned, raised, contains, is_instance}
use real_time_data_pipeline.Base.Text.{
  strip, split, splitlines, is_newline, is_colon, is_empty_text, has_none,
}
use real_time_data_pipeline.Value.{
  ℤ, pos, negsuc, Value, int, str, arr, obj, Items, nil, cons, fields, entries,
}
use real_time_data_pipeline.Value.Int.{sum_int, same_int}
use real_time_data_pipeline.Bench.Act.{Act, pure, lift, ◌>>=◌, ◌>>◌, except}
use real_time_data_pipeline.Bench.Scenario.{
  CompletedProcess, Host, Scenario, dexec, runtime_error, kafka_containers, cassandra_containers,
  trip_tables,
}

-- `returncode != 0`
abbrev pub has_failed : CompletedProcess → Bool
has_failed r = not (same_int r.returncode (pos 0))

-- A dict from partitions to offsets, and `out[p] = o`.
abbrev pub Offsets : Type 0
Offsets = List (ℤ × ℤ)

unfoldable pub put : ℤ → ℤ → Offsets → Offsets
unfolding same_int
put p o [] = (p, o) ∷ []
put p o ((q, n) ∷ out) = if same_int q p then (q, o) ∷ out else (q, n) ∷ put p o out

abbrev pub offsets : Offsets → List ℤ
offsets [] = []
offsets ((p, o) ∷ out) = o ∷ offsets out

module _ (to_int : String → Outcome ℤ) where
  abbrev pub stored : Outcome ℤ → Outcome ℤ → Offsets → Outcome Offsets
  stored (raised e) p out = raised e
  stored (returned o) (raised e) out = raised e
  stored (returned o) (returned p) out = returned (put p o out)

  -- `if len(parts) == 3 and parts[0] == topic`; the value is read before the key.
  abbrev pub read_parts : String → List String → Offsets → Outcome Offsets
  read_parts topic (t ∷ p ∷ o ∷ []) out =
      if str_eq t topic then stored (to_int o) (to_int p) out else returned out
  read_parts topic parts out = returned out

  abbrev pub and_then : Outcome Offsets → (Offsets → Outcome Offsets) → Outcome Offsets
  and_then (returned out) f = f out
  and_then (raised e) f = raised e

  unfoldable pub read_lines : String → List String → Offsets → Outcome Offsets
  unfolding put split strip
  read_lines topic [] out = returned out
  read_lines topic (line ∷ ls) out =
      and_then (read_parts topic (split is_colon (strip line)) out) (read_lines topic ls)

abbrev pub get_offsets : String → List String
get_offsets topic =
    "/opt/kafka/bin/kafka-get-offsets.sh" ∷ "--bootstrap-server" ∷ "kafka1:9092" ∷ "--topic" ∷ topic
    ∷ "--time" ∷ "-1" ∷ []

module _ {W : Type 0} (host : Host W) where
  unfoldable pub topic_end_offsets : String → Act W Offsets
  unfolding dexec read_lines splitlines same_int
  topic_end_offsets topic = dexec host "rtdp-kafka1" (get_offsets topic) >>= λ r.
      if has_failed r
      then lift (raised (runtime_error ("kafka-get-offsets failed: " ++ₛ strip r.stderr)))
      else lift (read_lines host.to_int topic (splitlines r.stdout) [])

  unfoldable pub topic_count : String → Act W ℤ
  unfolding topic_end_offsets sum_int
  topic_count topic = topic_end_offsets topic >>= λ out. pure (sum_int (offsets out))

  -- The records that `kafka-delete-records.sh` gets.
  abbrev pub purge_spec : String → Offsets → Items
  purge_spec topic [] = nil
  purge_spec topic ((p, o) ∷ out) =
      cons (obj (fields (("topic", str topic) ∷ ("partition", int p) ∷ ("offset", int o) ∷ [])))
        (purge_spec topic out)

  -- The exit codes of the two calls are not looked at.
  unfoldable pub purge_topic : String → Act W Offsets
  unfolding topic_end_offsets dexec
  purge_topic topic = do
    ends ← topic_end_offsets topic
    r1 ← dexec host "rtdp-kafka1" (
        "bash"
        ∷ "-lc"
        ∷ ("cat > /tmp/purge.json <<'EOF'\n"
            ++ₛ host.dumps (obj (fields (("partitions", arr (purge_spec topic ends)) ∷ [])))
            ++ₛ "\nEOF")
        ∷ [])
    r2 ← dexec host "rtdp-kafka1" (
        "/opt/kafka/bin/kafka-delete-records.sh" ∷ "--bootstrap-server" ∷ "kafka1:9092"
        ∷ "--offset-json-file" ∷ "/tmp/purge.json" ∷ [])
    pure ends

  unfoldable pub cqlsh : String → ℕ → Act W String
  unfolding dexec same_int
  cqlsh query timeout =
      dexec host "rtdp-cassandra1"
        ("cqlsh" ∷ "--request-timeout" ∷ host.show timeout ∷ "-e" ∷ query ∷ [])
      >>= λ r.
          if has_failed r
          then lift (raised (runtime_error ("cqlsh failed: " ++ₛ strip r.stderr)))
          else pure r.stdout

  -- `try: … except classes: log`
  abbrev pub quietly {ℓ} : {A : Type ℓ} → List String → Act W A → Act W (Unit {0})
  quietly classes m =
      except (m >>= λ _. pure tt) (λ e. if is_instance classes e then pure tt else lift (raised e))

  unfoldable pub truncate_tables : List String → Act W (Unit {0})
  unfolding cqlsh is_instance
  truncate_tables [] = pure tt
  truncate_tables (t ∷ ts) =
      quietly ("RuntimeError" ∷ []) (cqlsh ("TRUNCATE rtdp." ++ₛ t ++ₛ ";") 300)
      >> truncate_tables ts

  unfoldable pub truncate : Act W (Unit {0})
  unfolding truncate_tables purge_topic is_instance
  truncate =
      truncate_tables trip_tables
      >> quietly ("Exception" ∷ []) (purge_topic "trips.raw")
      >> quietly ("Exception" ∷ []) (purge_topic "trips.dlq")

  unfoldable pub clean_checkpoint : Act W (Unit {0})
  unfolding dexec
  clean_checkpoint =
      dexec host "rtdp-spark-driver" ("bash" ∷ "-lc" ∷ "rm -rf /opt/checkpoints/* || true" ∷ [])
      >>= λ _. pure tt

  -- The containers that run, by name, from a listing with a tab in each line.
  abbrev pub with_status : Option (String × String) → Dict String → Dict String
  with_status none running = running
  with_status (some (name, status)) running = insert name status running

  abbrev pub push_char : Char → Option (String × String) → Option (String × String)
  push_char c none = none
  push_char c (some (n, s)) = some (String.◌∷◌ c n, s)

  abbrev pub cut_tab : String → Option (String × String)
  cut_tab String.[] = none
  cut_tab (String.◌∷◌ c s) =
      let rest = cut_tab s in if code c == 9 then some (String.[], s) else push_char c rest

  unfoldable pub running_of : List String → Dict String → Dict String
  unfolding insert
  running_of [] running = running
  running_of (line ∷ ls) running = running_of ls (with_status (cut_tab line) running)

  abbrev pub is_missing : Dict String → String → Bool
  is_missing running c = elim (lookup c running) [ none ↦ true | some v ↦ false ]

  abbrev pub count_newlines : String → ℕ
  count_newlines String.[] = 0
  count_newlines (String.◌∷◌ c s) =
      let rest = count_newlines s in if is_newline (code c) then rest + 1 else rest

  abbrev pub gate : Dict String → Act W (Dict String × ℕ)
  gate running = elim (keep (is_missing running) (kafka_containers ++ cassandra_containers)) [
    | c ∷ missing ↦ lift (raised (runtime_error "required containers not running"))
    | [] ↦
        cqlsh "SELECT peer FROM system.peers;" 300 >>= λ nodes. pure (running, count_newlines nodes)
  ]

  unfoldable pub health_gate : Act W (Dict String × ℕ)
  unfolding running_of cqlsh splitlines lookup
  health_gate = host.run ("docker" ∷ "ps" ∷ "--format" ∷ "{{.Names}}\t{{.Status}}" ∷ []) >>= λ r.
      gate (running_of (splitlines r.stdout) [])

  -- `s.isdigit()`, and the first line of an output that is a number.
  abbrev pub is_digits : String → Bool
  is_digits s = not (is_empty_text s) && has_none (λ c. not (leb 48 c && leb c 57)) s

  abbrev pub first_number : List String → Outcome ℤ
  first_number [] = returned (pos 0)
  first_number (line ∷ ls) =
      let rest = first_number ls in
      if is_digits (strip line) then host.to_int (strip line) else rest

  -- `counts[t]`: -1 where `cqlsh` failed.
  unfoldable pub count_table : String → Act W ℤ
  unfolding cqlsh splitlines strip has_none is_instance
  count_table t =
      except
        (cqlsh ("CONSISTENCY ALL; SELECT COUNT(*) FROM rtdp." ++ₛ t ++ₛ ";") 600 >>= λ out.
          lift (first_number (splitlines out)))
        (λ e. if is_instance ("RuntimeError" ∷ []) e then pure (negsuc 0) else lift (raised e))

  unfoldable pub count_tables : List String → Act W (Dict ℤ)
  unfolding count_table
  count_tables [] = pure []
  count_tables (t ∷ ts) = do n ← count_table t; counts ← count_tables ts; pure ((t, n) ∷ counts)

  unfoldable pub count_cassandra : Act W (Dict ℤ)
  unfolding count_tables
  count_cassandra = count_tables ("trips_by_id" ∷ "trips_by_driver_day" ∷ "trips_by_city_hour" ∷ [])

  -- `s[s.index("{"):]`
  abbrev pub from_brace : String → Option String
  from_brace String.[] = none
  from_brace (String.◌∷◌ c s) =
      let rest = from_brace s in if code c == 123 then some (String.◌∷◌ c s) else rest

  -- An inspection that failed has -1 records and -1 events.
  abbrev pub failed_inspection : Dict Value
  failed_inspection = ("records", int (negsuc 0)) ∷ ("distinct_event_ids", int (negsuc 0)) ∷ []

  abbrev pub inspected : Option String → Dict Value
  inspected none = failed_inspection
  inspected (some s) = elim (host.loads s) [ some (obj fs) ↦ entries fs | _ ↦ failed_inspection ]

  unfoldable pub dlq_distinct_events : Act W (Dict Value)
  unfolding dexec same_int
  dlq_distinct_events =
      dexec host "rtdp-producer"
        ("python" ∷ "-m" ∷ "replay.dlq_tools" ∷ "inspect" ∷ "--idle-timeout" ∷ "4" ∷ [])
      >>= λ r. pure (if has_failed r then failed_inspection else inspected (from_brace r.stdout))
