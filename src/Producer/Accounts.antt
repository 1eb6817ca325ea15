-- ===== src/Producer/Accounts.antt =====
-- The counters of the producer (producer/produce.py) and the events that it was given to send.
use mathlib.Core.Path.{subst}
use Prim.Native.String.{◌++◌ as ◌++ₛ◌}
use real_time_data_pipeline.Base.{
  ℕ, ◌+◌, ◌≡◌, refl, ap, String, none, some, List, [], ◌∷◌, ◌++◌, arith, length, length-append,
}
use real_time_data_pipeline.Base.Errors.{Outcome, returned, raised}
use real_time_data_pipeline.Retry.Stats.{RetryStats}
use real_time_data_pipeline.Retry.Call.{value, exhausted, propagated, CallResult, call_with_retry}
use real_time_data_pipeline.Retry.Call.Kept.{Together, call_with_retry-Together}
use real_time_data_pipeline.Dlq.{stage_producer}
use real_time_data_pipeline.Producer.{
  Delivery, Message, Turn, idle, burst, Client, RunnerConf, Runner, on_delivery, on_deliveries,
  poll, flush, attempted, attempt, send_call, to_dlq, sent_or_dlq, send, drain_loop, drain_failures,
  Sending, go_on, send_all, turns_from, finish_run, run,
}

-- Where the events are: handed to Kafka, in the DLQ, logged as lost, or failed and not yet drained.
abbrev pub placed : {W : Type 0} → Runner W → ℕ
placed p = p.sent + p.dlq_count + p.logged_lost + length p.failed_payloads

-- Of `n` events each is in one of these places. One that was handed to Kafka and failed there is
-- counted twice, under `sent` and where it came to be after it failed.
abbrev pub IsAccounted : {W : Type 0} → ℕ → Runner W → Type 0
IsAccounted n p = placed p ≡ n + p.failed

abbrev failures : {W : Type 0} → Runner W → ℕ
failures p = p.failed

-- The events of some turns.
abbrev pub events : List Turn → List Message
events [] = []
events (idle ∷ turns) = events turns
events (burst ms ∷ turns) = ms ++ events turns

-- An invariant where nothing was raised.
abbrev pub Unless : {W : Type 0} → (Runner W → Type 0) → Outcome (Unit {0}) × Runner W → Type 0
Unless P (raised e, p) = Unit
Unless P (returned u, p) = P p

module _ {W : Type 0} (client : Client W) (conf : RunnerConf) where
  on_deliveries-Together :
      (ds : List Delivery) (p : Runner W)
      → Together placed failures p (on_deliveries client conf ds p)
  unfolding on_deliveries on_delivery
  on_deliveries-Together [] p = refl
  on_deliveries-Together ((none, payload) ∷ ds) p =
      on_deliveries-Together ds (on_delivery client conf (none, payload) p)
  on_deliveries-Together ((some err, payload) ∷ ds) p = omega (
    arith,
    on_deliveries-Together ds (on_delivery client conf (some err, payload) p),
    length-append p.failed_payloads ((payload, err) ∷ []),
  )

  attempted-Together :
      (o : Outcome (Unit {0})) (p : Runner W)
      → Together placed failures p (attempted client conf o p).1
  attempted-Together (returned u) p = refl
  attempted-Together (raised e) p =
      let (ds, w) = client.poll p.world in
      ground (arith, on_deliveries-Together ds (record p { world = w }))

  attempt-Together :
      (m : Message) (p : Runner W) → Together placed failures p (attempt client conf m p).1
  unfolding attempt
  attempt-Together (key, payload) p =
      let (o, w) = client.produce conf.topic key payload p.world in
      attempted-Together o (record p { world = w })

  to_dlq-placed :
      (payload reason stage : String) (retries : ℕ) (p : Runner W)
      → let q = to_dlq client conf payload reason stage retries p in
        (placed q ≡ placed p + 1) × (q.failed ≡ p.failed) × (q.failed_payloads ≡ p.failed_payloads)
  unfolding to_dlq
  to_dlq-placed payload reason stage retries p = ground arith

  sent_or_dlq-IsAccounted :
      (m : Message) (r : CallResult (Unit {0})) (n : ℕ) (p : Runner W)
      → IsAccounted n p
      → Unless (IsAccounted (n + 1)) (sent_or_dlq client conf m r p)
  sent_or_dlq-IsAccounted m (value u) n p h = omega (arith, h)
  sent_or_dlq-IsAccounted (key, payload) (exhausted k e) n p h =
      let t = to_dlq-placed payload (e.name ++ₛ ": " ++ₛ e.message) stage_producer k p in
      omega (arith, h, t.0, t.1)
  sent_or_dlq-IsAccounted m (propagated e) n p h = tt

  send-IsAccounted :
      (m : Message) (stats : RetryStats) (n : ℕ) (p : Runner W)
      → IsAccounted n p
      → Unless (IsAccounted (n + 1)) (send client conf m stats p).0
  unfolding send
  send-IsAccounted m stats n p h =
      let r =
        call_with_retry (send_call client conf m) conf.retry_cfg (client.draws p.world) stats p in
      sent_or_dlq-IsAccounted m r.result n r.world (
        omega (
          arith,
          h,
          call_with_retry-Together (send_call client conf m) conf.retry_cfg (client.draws p.world)
              placed failures (attempt-Together m) (λ k q. refl) (λ k e q. refl) stats p,
        ))

  drain_loop-placed :
      (pending : List Message) (p : Runner W)
      → let q = drain_loop client conf pending p in
        (placed q ≡ placed p + length pending)
        × (q.failed ≡ p.failed)
        × (length q.failed_payloads ≡ length p.failed_payloads)
  unfolding drain_loop
  drain_loop-placed [] p = (omega arith, refl, refl)
  drain_loop-placed ((payload, reason) ∷ pending) p =
      let t = to_dlq-placed payload reason stage_producer conf.retry_cfg.max_attempts p in
      let q = to_dlq client conf payload reason stage_producer conf.retry_cfg.max_attempts p in
      let k = drain_loop-placed pending q in
      (
        omega (arith, t.0, k.0),
        omega (arith, t.1, k.1),
        omega (arith, ap (λ (l : List Message). length l) t.2, k.2),
      )

  -- The failures that are waiting go to the DLQ, or are logged as lost, and none is left waiting.
  drain_failures-IsAccounted :
      (n : ℕ) (p : Runner W)
      → IsAccounted n p
      → let q = drain_failures client conf p in IsAccounted n q × (length q.failed_payloads ≡ 0)
  unfolding drain_failures
  drain_failures-IsAccounted n p h =
      let k = drain_loop-placed p.failed_payloads (record p { failed_payloads = [] }) in
      (omega (arith, h, k.0, k.1), k.2)

  poll-IsAccounted : (n : ℕ) (p : Runner W) → IsAccounted n p → IsAccounted n (poll client conf p)
  poll-IsAccounted n p h =
      let (ds, w) = client.poll p.world in
      omega (arith, h, on_deliveries-Together ds (record p { world = w }))

  flush-IsAccounted :
      (n t : ℕ) (p : Runner W) → IsAccounted n p → IsAccounted n (flush client conf t p)
  flush-IsAccounted n t p h =
      let (ds, w) = client.flush t p.world in
      omega (arith, h, on_deliveries-Together ds (record p { world = w }))

  go_on-Unless :
      (P Q : Runner W → Type 0) (x : Sending client conf)
      → (rest : RetryStats → Runner W → Sending client conf) → Unless P x.0
      → ((stats : RetryStats) (p : Runner W) → P p → Unless Q (rest stats p).0)
      → Unless Q (go_on client conf x rest).0
  go_on-Unless P Q ((raised e, p), stats) rest h k = tt
  go_on-Unless P Q ((returned u, p), stats) rest h k = k stats p h

  shift :
      (n k : ℕ) (o : Outcome (Unit {0}) × Runner W) {m : ℕ}
      → n + k ≡ m
      → Unless (IsAccounted (n + k)) o
      → Unless (IsAccounted m) o
  shift n k o e h = subst (λ x. Unless (IsAccounted x) o) e h

  send_all-IsAccounted :
      (ms : List Message) (stats : RetryStats) (n : ℕ) (p : Runner W)
      → IsAccounted n p
      → Unless (IsAccounted (n + length ms)) (send_all client conf ms stats p).0
  unfolding send_all
  send_all-IsAccounted [] stats n p h = omega (arith, h)
  send_all-IsAccounted (m ∷ ms) stats n p h =
      go_on-Unless (IsAccounted (n + 1)) (IsAccounted (n + length (m ∷ ms)))
        (send client conf m stats p) (λ stats' p'. send_all client conf ms stats' p')
        (send-IsAccounted m stats n p h)
        (λ stats' p' k.
          shift (n + 1) (length ms) (send_all client conf ms stats' p').0 (omega arith)
            (send_all-IsAccounted ms stats' (n + 1) p' k))

  turns_from-IsAccounted :
      (turns : List Turn) (stats : RetryStats) (n : ℕ) (p : Runner W)
      → IsAccounted n p
      → Unless (IsAccounted (n + length (events turns))) (turns_from client conf turns stats p).0
  unfolding turns_from
  turns_from-IsAccounted [] stats n p h = omega (arith, h)
  turns_from-IsAccounted (idle ∷ turns) stats n p h =
      turns_from-IsAccounted turns stats n (poll client conf p) (poll-IsAccounted n p h)
  turns_from-IsAccounted (burst ms ∷ turns) stats n p h =
      go_on-Unless (IsAccounted (n + length ms))
        (IsAccounted (n + length (events (burst ms ∷ turns)))) (send_all client conf ms stats p)
        (λ stats' p'.
          turns_from client conf turns stats' (drain_failures client conf (poll client conf p')))
        (send_all-IsAccounted ms stats n p h)
        (λ stats' p' k.
          let q = drain_failures client conf (poll client conf p') in
          let d =
            drain_failures-IsAccounted (n + length ms) (poll client conf p')
              (poll-IsAccounted (n + length ms) p' k) in
          shift (n + length ms) (length (events turns)) (turns_from client conf turns stats' q).0
            (omega (arith, length-append ms (events turns)))
            (turns_from-IsAccounted turns stats' (n + length ms) q d.0))

  -- From counters that account for `n` events, a run that ends without an exception leads to counters
  -- that account for these and for all events of its turns: the events handed to Kafka, those in the
  -- DLQ, those logged as lost, and the failures left waiting behind the last flush are as many as
  -- the events and the failures that Kafka has reported.
  pub run-IsAccounted :
      (turns : List Turn) (stats : RetryStats) (n : ℕ) (p : Runner W)
      → IsAccounted n p
      → Unless (IsAccounted (n + length (events turns))) (run client conf turns stats p).0
  unfolding run finish_run
  run-IsAccounted turns stats n p h =
      let total = n + length (events turns) in
      go_on-Unless (IsAccounted total) (IsAccounted total) (turns_from client conf turns stats p)
        (λ stats' p'. ((returned tt, finish_run client conf p'), stats'))
        (turns_from-IsAccounted turns stats n p h)
        (λ stats' p' k.
          let q = flush client conf conf.flush_timeout p' in
          let d =
            drain_failures-IsAccounted total q (flush-IsAccounted total conf.flush_timeout p' k) in
          flush-IsAccounted total 10 (drain_failures client conf q) d.0)
