-- ===== src/Producer.antt =====
-- `ProducerRunner` of producer/produce.py: the send paths, the delivery reports and the main loop. The
-- Kafka client is a function on a world of any type. Delivery reports come in where the client is
-- polled or flushed. Which events are sent between two polls, duplicates included, is an argument:
-- the generator, the pacing and the deadline decide it. `log.error` counts in the state.
pub mod Accounts
pub mod Generator
pub mod Pacing
mod Examples
use Prim.Native.String.{◌++◌ as ◌++ₛ◌}
use real_time_data_pipeline.Base.{
  ℕ, ◌+◌, String, Bool, Option, none, some, List, [], ◌∷◌, ◌++◌, if◌then◌else◌,
}
use real_time_data_pipeline.Base.Errors.{Exc, Outcome, returned, raised, is_instance}
use real_time_data_pipeline.Value.{Value, str, truthy}
use real_time_data_pipeline.Retry.Stats.{RetryStats, fresh}
use real_time_data_pipeline.Retry.Policy.{RetryConfig}
use real_time_data_pipeline.Retry.Call.{
  value, exhausted, propagated, CallResult, Callables, Ended, call_with_retry,
}
use real_time_data_pipeline.Dlq.{Codec, build, to_json, from_topic, stage_producer}

-- A delivery report: the error, if there was one, and the payload of the message.
abbrev pub Delivery : Type 0
Delivery = Option String × String

abbrev pub Message : Type 0
Message = String × String

-- A turn of the main loop: the budget is used up, or some events are sent.
pub data Turn : Type 0 where
  idle : Turn
  burst : List Message → Turn

-- `produce` to a topic with a key and a payload; `flush` with its time limit in seconds.
pub record Client (W : Type 0) : Type 0 where
  pub produce : String → String → String → W → Outcome (Unit {0}) × W
  pub produce_dlq : Value → String → W → Outcome (Unit {0}) × W
  pub poll : W → List Delivery × W
  pub flush : ℕ → W → List Delivery × W
  pub clock_ms : W → ℕ × W
  pub sleep : ℕ → W → W
  pub draws : W → ℕ → ℕ
  pub codec : Codec
  pub host : String

pub record RunnerConf : Type 0 where
  pub topic : String
  pub retry_cfg : RetryConfig
  pub flush_timeout : ℕ

-- The object's counters and the payloads that have failed, and the client's world.
pub record Runner (W : Type 0) : Type 0 where
  pub sent : ℕ
  pub acked : ℕ
  pub failed : ℕ
  pub dlq_count : ℕ
  pub logged_lost : ℕ
  pub failed_payloads : List Message
  pub world : W

abbrev buffer_error : List String
buffer_error = "BufferError" ∷ []

module _ {W : Type 0} (client : Client W) (conf : RunnerConf) where
  -- `_on_delivery`, and for the reports of a poll one after the other.
  unfoldable pub on_delivery : Delivery → Runner W → Runner W
  on_delivery (some err, payload) p = record p {
    failed = p.failed + 1;
    failed_payloads = p.failed_payloads ++ (payload, err) ∷ [];
  }
  on_delivery (none, payload) p = record p { acked = p.acked + 1 }

  unfoldable pub on_deliveries : List Delivery → Runner W → Runner W
  unfolding on_delivery
  on_deliveries [] p = p
  on_deliveries (d ∷ ds) p = on_deliveries ds (on_delivery d p)

  abbrev pub poll : Runner W → Runner W
  poll p = let (ds, w) = client.poll p.world in on_deliveries ds (record p { world = w })

  abbrev pub flush : ℕ → Runner W → Runner W
  flush n p = let (ds, w) = client.flush n p.world in on_deliveries ds (record p { world = w })

  -- The function `attempt` of `_send`, given what `produce` does.
  abbrev pub attempted : Outcome (Unit {0}) → Runner W → Outcome (Unit {0}) × Runner W
  attempted (returned u) p = (returned u, p)
  attempted (raised e) p = (raised e, if is_instance buffer_error e then poll p else p)

  unfoldable pub attempt : Message → Runner W → Outcome (Unit {0}) × Runner W
  unfolding on_deliveries
  attempt (key, payload) p =
      let (o, w) = client.produce conf.topic key payload p.world in
      attempted o (record p { world = w })

  abbrev pub send_call : Message → Callables (Runner W) (Unit {0})
  send_call m = record {
    fn = attempt m;
    sleep = λ n p. record p { world = client.sleep n p.world };
    on_retry = λ k e p. p;
    retry_on = "BufferError" ∷ "KafkaException" ∷ [];
    give_up_on = [];
  }

  -- The end of `_to_dlq`, given what `produce` does.
  abbrev pub dlq_written : Outcome (Unit {0}) → Runner W → Runner W
  dlq_written (returned u) p = record p { dlq_count = p.dlq_count + 1 }
  dlq_written (raised e) p = record p { logged_lost = p.logged_lost + 1 }

  unfoldable pub to_dlq : String → String → String → ℕ → Runner W → Runner W
  to_dlq payload reason stage retries p =
      let (now, w) = client.clock_ms p.world in
      let rec =
        build client.codec client.host now (str payload) reason stage retries
          (from_topic (str conf.topic)) in
      let (o, w') =
        client.produce_dlq (if truthy rec.event_id then rec.event_id else str "unknown")
          (to_json client.codec rec) w in
      dlq_written o (record p { world = w' })

  -- What follows `call_with_retry` in `_send`.
  abbrev pub sent_or_dlq :
      Message → CallResult (Unit {0}) → Runner W → Outcome (Unit {0}) × Runner W
  sent_or_dlq m (value u) p = (returned tt, record p { sent = p.sent + 1 })
  sent_or_dlq (key, payload) (exhausted attempts e) p =
      (returned tt, to_dlq payload (e.name ++ₛ ": " ++ₛ e.message) stage_producer attempts p)
  sent_or_dlq m (propagated e) p = (raised e, p)

  -- `_send`; the statistics of the retries go on from `stats`.
  unfoldable pub send :
      Message → RetryStats → Runner W → (Outcome (Unit {0}) × Runner W) × RetryStats
  unfolding attempt to_dlq
  send m stats p =
      let r = call_with_retry (send_call m) conf.retry_cfg (client.draws p.world) stats p in
      (sent_or_dlq m r.result r.world, r.stats)

  -- The loop of `_drain_failures`, and the whole.
  unfoldable pub drain_loop : List Message → Runner W → Runner W
  unfolding to_dlq
  drain_loop [] p = p
  drain_loop ((payload, reason) ∷ pending) p =
      drain_loop pending (to_dlq payload reason stage_producer conf.retry_cfg.max_attempts p)

  unfoldable pub drain_failures : Runner W → Runner W
  unfolding drain_loop
  drain_failures p = drain_loop p.failed_payloads (record p { failed_payloads = [] })

  -- An exception ends the rest.
  abbrev pub Sending : Type 0
  Sending = (Outcome (Unit {0}) × Runner W) × RetryStats

  abbrev pub go_on : Sending → (RetryStats → Runner W → Sending) → Sending
  go_on ((raised e, p), stats) rest = ((raised e, p), stats)
  go_on ((returned u, p), stats) rest = rest stats p

  -- The sends of one turn of the main loop.
  unfoldable pub send_all : List Message → RetryStats → Runner W → Sending
  unfolding send
  send_all [] stats p = ((returned tt, p), stats)
  send_all (m ∷ ms) stats p = go_on (send m stats p) (λ stats' p'. send_all ms stats' p')

  -- The main loop, turn by turn, and what stands behind it.
  unfoldable pub finish_run : Runner W → Runner W
  unfolding on_deliveries drain_failures
  finish_run p = flush 10 (drain_failures (flush conf.flush_timeout p))

  unfoldable pub turns_from : List Turn → RetryStats → Runner W → Sending
  unfolding send_all
  turns_from [] stats p = ((returned tt, p), stats)
  turns_from (idle ∷ turns) stats p = turns_from turns stats (poll p)
  turns_from (burst ms ∷ turns) stats p =
      go_on (send_all ms stats p) (λ stats' p'. turns_from turns stats' (drain_failures (poll p')))

  unfoldable pub run : List Turn → RetryStats → Runner W → Sending
  unfolding turns_from finish_run
  run turns stats p =
      go_on (turns_from turns stats p) (λ stats' p'. ((returned tt, finish_run p'), stats'))
