-- ===== src/Config.antt =====
-- common/config.py, and `parse_watermark_seconds` of streaming/stream_job.py. The environment is a
-- function; `int` and `float` on a text are arguments, and a float is kept as a text.
pub mod RoundTrip
pub mod Strokes
mod Examples
use Prim.Native.String
use Prim.Native.String.{◌++◌ as ◌++ₛ◌}
use text.Mathlib.Text.{◌==◌ as str_eq}
use real_time_data_pipeline.Base.{
  ℕ, zero, suc, ◌+◌, ◌*◌, ◌/◌, String, Bool, Option, none, some, List, [], ◌∷◌, if◌then◌else◌,
}
use real_time_data_pipeline.Base.Text.{is_empty_text, is_comma, rstrip, strip, split, words}
use real_time_data_pipeline.Base.Errors.{Outcome, returned, raised, key_error, value_error, ◌>>=◌}
use real_time_data_pipeline.Value.{ℤ, pos, negsuc}
use Prim.Native.Char.{code}
use real_time_data_pipeline.Base.{◌==◌}

abbrev pub Environment : Type 0
Environment = String → Option String

-- `os.environ.get(key, default)`
abbrev pub get_env : Environment → String → String → String
get_env env key default = elim (env key) [ none ↦ default | some v ↦ v ]

-- `_env` without a default.
abbrev pub required_env : Environment → String → Outcome String
required_env env key = elim (env key) [
  | none ↦ raised (key_error ("required environment variable " ++ₛ key ++ₛ " is not set"))
  | some v ↦ returned v
]

-- The numbers of a list, with the exception of the first that is none.
abbrev pub ints : (String → Outcome ℤ) → List String → Outcome (List ℤ)
ints to_int [] = returned []
ints to_int (w ∷ ws) =
    let rest = ints to_int ws in
    if is_empty_text (strip w)
    then rest
    else (to_int (strip w) >>= λ n. rest >>= λ ns. returned (n ∷ ns))

unfoldable pub ms_list : (String → Outcome ℤ) → String → Outcome (List ℤ)
unfolding strip split
ms_list to_int raw =
    if is_empty_text (strip raw) then returned [] else ints to_int (split is_comma (strip raw))

pub record KafkaConfig : Type 0 where
  pub bootstrap : String
  pub topic_trips : String
  pub topic_dlq : String
  pub partitions : ℤ
  pub replication : ℤ
  pub min_isr : ℤ
  pub consumer_group : String

pub record CassandraConfig : Type 0 where
  pub hosts : List String
  pub keyspace : String
  pub replication_factor : ℤ
  pub write_consistency : String
  pub read_consistency : String

pub record PostgresConfig : Type 0 where
  pub host : String
  pub port : ℤ
  pub user : String
  pub password : String
  pub database : String

-- `RetryConfig` as it is read.
pub record RetrySettings : Type 0 where
  pub backoff_schedule_ms : List ℤ
  pub max_attempts : ℤ
  pub jitter_ratio : String

pub record StreamConfig : Type 0 where
  pub master : String
  pub checkpoint_dir : String
  pub max_offsets_per_trigger : ℤ
  pub watermark_delay : String
  pub late_event_policy : String
  pub latency_sample_rate : String
  pub run_id : String

-- `dsn`, with the text of the port.
abbrev pub dsn : (ℤ → String) → PostgresConfig → String
dsn show c =
    "host="
    ++ₛ c.host
    ++ₛ " port="
    ++ₛ show c.port
    ++ₛ " user="
    ++ₛ c.user
    ++ₛ " password="
    ++ₛ c.password
    ++ₛ " dbname="
    ++ₛ c.database

module _ (to_int : String → Outcome ℤ) (env : Environment) where
  -- `_int`
  abbrev pub int_env : String → String → Outcome ℤ
  int_env key default = to_int (get_env env key default)

  unfoldable pub kafka_config : Outcome KafkaConfig
  kafka_config = do
    partitions ← int_env "TOPIC_PARTITIONS" "6"
    replication ← int_env "TOPIC_REPLICATION" "3"
    min_isr ← int_env "TOPIC_MIN_ISR" "2"
    returned (record {
      bootstrap =
          get_env env "KAFKA_BOOTSTRAP"
            (get_env env "KAFKA_BOOTSTRAP_INTERNAL" "kafka1:9092,kafka2:9092,kafka3:9092");
      topic_trips = get_env env "TOPIC_TRIPS" "trips.raw";
      topic_dlq = get_env env "TOPIC_DLQ" "trips.dlq";
      partitions = partitions;
      replication = replication;
      min_isr = min_isr;
      consumer_group = get_env env "CONSUMER_GROUP" "rtdp-spark-trips";
    })

  unfoldable pub cassandra_config : Outcome CassandraConfig
  unfolding split
  cassandra_config = do
    rf ← int_env "CASSANDRA_REPLICATION_FACTOR" "3"
    returned (record {
      hosts = split is_comma (get_env env "CASSANDRA_HOSTS" "cassandra1,cassandra2,cassandra3");
      keyspace = get_env env "CASSANDRA_KEYSPACE" "rtdp";
      replication_factor = rf;
      write_consistency = get_env env "CASSANDRA_WRITE_CONSISTENCY" "QUORUM";
      read_consistency = get_env env "CASSANDRA_READ_CONSISTENCY" "QUORUM";
    })

  unfoldable pub postgres_config : Outcome PostgresConfig
  postgres_config = do
    port ← int_env "POSTGRES_PORT" "5432"
    returned (record {
      host = get_env env "POSTGRES_HOST" "postgres";
      port = port;
      user = get_env env "POSTGRES_USER" "rtdp";
      password = get_env env "POSTGRES_PASSWORD" "rtdp";
      database = get_env env "POSTGRES_DB" "rtdp";
    })

  unfoldable pub retry_settings : (String → Outcome String) → Outcome RetrySettings
  unfolding ms_list
  retry_settings to_float = do
    schedule ← ms_list to_int (get_env env "RETRY_BACKOFF_SCHEDULE_MS" "1000,2000,4000")
    attempts ← int_env "RETRY_MAX_ATTEMPTS" "4"
    ratio ← to_float (get_env env "RETRY_JITTER_RATIO" "0.1")
    returned
        (record { backoff_schedule_ms = schedule; max_attempts = attempts; jitter_ratio = ratio })

  unfoldable pub stream_config : (String → Outcome String) → Outcome StreamConfig
  stream_config to_float = do
    max_offsets ← int_env "SPARK_MAX_OFFSETS_PER_TRIGGER" "200000"
    rate ← to_float (get_env env "LATENCY_SAMPLE_RATE" "0.05")
    returned (record {
      master = get_env env "SPARK_MASTER_URL" "spark://spark-master:7077";
      checkpoint_dir = get_env env "SPARK_CHECKPOINT_DIR" "/opt/checkpoints/trips";
      max_offsets_per_trigger = max_offsets;
      watermark_delay = get_env env "WATERMARK_DELAY" "2 minutes";
      late_event_policy = get_env env "LATE_EVENT_POLICY" "dlq";
      latency_sample_rate = rate;
      run_id = get_env env "RUN_ID" "adhoc";
    })

-- `int(n * factor)`, for a factor that is a whole number, and for 0.001: `int` cuts off.
abbrev pub negative : ℕ → ℤ
negative zero = pos 0
negative (suc n) = negsuc n

abbrev pub scale : ℕ → ℤ → ℤ
scale k (pos n) = pos (n * k)
scale k (negsuc n) = negative ((n + 1) * k)

abbrev pub thousandth : ℤ → ℤ
thousandth (pos n) = pos (n / 1000)
thousandth (negsuc n) = negative ((n + 1) / 1000)

abbrev pub is_s : ℕ → Bool
is_s c = c == 115

-- The dict of factors.
unfoldable pub in_seconds : String → ℤ → Outcome ℤ
in_seconds unit n =
    if str_eq unit "second"
    then returned (scale 1 n)
    else if str_eq unit "minute"
    then returned (scale 60 n)
    else if str_eq unit "hour"
    then returned (scale 3600 n)
    else if str_eq unit "millisecond"
    then returned (thousandth n)
    else raised (key_error unit)

-- `parts[0]` and `parts[1]`, of exactly two.
abbrev pub of_parts : (String → Outcome ℤ) → String → List String → Outcome ℤ
of_parts to_int spec (n ∷ unit ∷ []) = to_int n >>= in_seconds (rstrip is_s unit)
of_parts to_int spec parts = raised (value_error ("cannot parse watermark spec " ++ₛ spec))

unfoldable pub parse_watermark_seconds : (String → Outcome ℤ) → String → Outcome ℤ
unfolding in_seconds strip words
parse_watermark_seconds to_int spec = of_parts to_int spec (words (strip spec))
