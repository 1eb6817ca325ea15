-- ===== src/Sink/Partition/Accounts/Loops.antt =====
-- The counters of `write_partition` (streaming/cassandra_sink.py) through its loops: the concurrent
-- attempt and the retries.
use mathlib.Core.Path.{subst}
use real_time_data_pipeline.Base.{
  ℕ, ◌+◌, ◌≡◌, Option, none, some, List, [], ◌∷◌, ◌++◌, map, arith, length, length-append,
  length-map, ◌∙◌, Bool-cases, inl, inr,
}
use real_time_data_pipeline.Base.Dict.{Dict, total-bump}
use real_time_data_pipeline.Base.Errors.{Exc, Outcome, returned, raised, is_instance}
use real_time_data_pipeline.Retry.Stats.{
  RetryStats, fresh, merge, record_reason, total-merge_reasons, IsBalanced, fresh-IsBalanced,
}
use real_time_data_pipeline.Retry.Call.{CallResult, value, exhausted, propagated, call_with_retry}
use real_time_data_pipeline.Retry.Call.Account.{
  Settled, EndCounts, call_with_retry-IsBalanced, call_with_retry-EndCounts,
}
use real_time_data_pipeline.Value.{Value}
use real_time_data_pipeline.Dlq.{stage_cassandra_sink}
use real_time_data_pipeline.Sink.Statements.{Statement}
use real_time_data_pipeline.Sink.Partition.{
  Session, Conf, Part, Work, permanent, retry_policy, quarantine,
}
use real_time_data_pipeline.Sink.Partition.Steps.{
  Failure, Sample, Run, and_then, Collected, fast_path, retry_call, recovered, conclude, retry_one,
  retry_all, write_latency, write_work,
}
use real_time_data_pipeline.Sink.Partition.Accounts.{IsSound, Quarantined, quarantine-Quarantined}

-- What has been decided: the rows written and the envelopes yielded.
abbrev pub settled : Part → ℕ
settled p = p.rows_written + p.dlq_emitted

-- A fact about the value and about what has been decided, where nothing was raised.
abbrev pub After : {A : Type 0} → Outcome A → (A → Type 0) → Type 0
After (returned a) P = P a
After (raised _) P = Unit

abbrev pub Done : {W A : Type 0} → Run W A → (A → ℕ → Type 0) → Type 0
Done r P = IsSound r.part × After r.result (λ a. P a (settled r.part))

abbrev pub IsDone : {W A : Type 0} → Run W A → ℕ → Type 0
IsDone r n = Done r (λ _ m. m ≡ n)

pub Done-and_then :
    {W A B : Type 0} (P : A → ℕ → Type 0) (Q : B → ℕ → Type 0)
    → (r : Run W A) (f : A → Part → W → Run W B) → Done r P
    → ((a : A) (p : Part) (w : W) → IsSound p → P a (settled p) → Done (f a p w) Q)
    → Done (and_then r f) Q
Done-and_then {W} {A} {B} P Q r f d k = go r.result d.1
  where
    go :
        (x : Outcome A)
        → After x (λ a. P a (settled r.part))
        → Done {W = W} {A = B}
            (elim x [
              | raised e ↦ record { result = raised e; part = r.part; world = r.world }
              | returned a ↦ f a r.part r.world
            ])
            Q
    go (raised e) h = (d.0, tt)
    go (returned a) h = k a r.part r.world d.0 h

success-IsSound :
    (p : Part)
    → IsSound p
    → IsSound (record p {
      stats = record p.stats { attempts = p.stats.attempts + 1; successes = p.stats.successes + 1 };
      rows_written = p.rows_written + 1;
    })
success-IsSound p v = ground arith

failure-IsSound :
    (e : Exc) (p : Part)
    → IsSound p
    → IsSound
        (record p { stats = record_reason e (record p.stats { attempts = p.stats.attempts + 1 }) })
unfolding record_reason
failure-IsSound e p v = ground (arith, total-bump e.name 1 p.stats.failure_reasons)

pub fast_path-IsSound :
    (ws : List Work) (rs : List (Option Exc)) (p : Part) (fs : List Failure)
    → length rs ≡ length ws
    → IsSound p
    → let (q, gs) = fast_path ws rs p fs in
      IsSound q × (settled q + length gs ≡ settled p + length fs + length ws)
unfolding fast_path
fast_path-IsSound [] rs p fs h v = (v, omega arith)
fast_path-IsSound (w ∷ ws) [] p fs h v = absurd (omega arith)
fast_path-IsSound (w ∷ ws) (none ∷ rs) p fs h v =
    let r =
      fast_path-IsSound ws rs
        (record p {
          stats = record p.stats {
            attempts = p.stats.attempts + 1;
            successes = p.stats.successes + 1;
          };
          rows_written = p.rows_written + 1;
        })
        fs (omega arith) (success-IsSound p v) in
    (r.0, omega arith)
fast_path-IsSound (w ∷ ws) (some e ∷ rs) p fs h v =
    let r =
      fast_path-IsSound ws rs
        (record p { stats = record_reason e (record p.stats { attempts = p.stats.attempts + 1 }) })
        (fs ++ (w.0, w.1, e) ∷ []) (omega arith) (failure-IsSound e p v) in
    (r.0, omega (arith, length-append fs ((w.0, w.1, e) ∷ [])))

-- An envelope more, and nothing else.
pub Quarantined-IsSound : (p q : Part) → Quarantined p q → IsSound p → IsSound q
Quarantined-IsSound p q d v = ground arith

-- An envelope more, with the statistics of a call that was exhausted.
exhausted-IsSound :
    (p q : Part) (t : RetryStats)
    → Quarantined p q
    → IsBalanced t
    → (t.successes ≡ 0) × (t.failures_exhausted ≡ 1) × (t.retries_before_success ≡ 0)
    → IsSound p
    → IsSound (record q { stats = merge q.stats t })
unfolding merge
exhausted-IsSound p q t d b k v =
    ground (arith, total-merge_reasons p.stats.failure_reasons t.failure_reasons)

recovered-IsSound :
    {W : Type 0} (session : Session W) (conf : Conf) (t : RetryStats) (p : Part)
    → IsBalanced t
    → (t.successes ≡ 1) × (t.failures_exhausted ≡ 0)
    → IsSound p
    → IsSound (recovered session conf t p)
unfolding merge
recovered-IsSound session conf t p b k v =
    ground (arith, total-merge_reasons p.stats.failure_reasons t.failure_reasons)

module _ {W : Type 0} (session : Session W) (conf : Conf) where
  conclude-IsDone :
      (row : Dict Value) (p : Part) (res : CallResult (Unit {0})) (t : RetryStats) (w : W)
      → Settled res t
      → EndCounts fresh res t
      → IsSound p
      → IsDone
          (conclude session conf row p (record { result = res; stats = t; world = w }))
          (settled p + 1)
  unfolding conclude
  conclude-IsDone row p (value u) t w b k v =
      (recovered-IsSound session conf t p b (omega arith) v, omega arith)
  conclude-IsDone row p (exhausted n x) t w b k v =
      let d = quarantine-Quarantined session conf row x stage_cassandra_sink (n + 1) p w in
      (
        exhausted-IsSound p (quarantine session conf row x stage_cassandra_sink (n + 1) p w).0 t d b
            (omega arith) v,
        omega arith,
      )
  conclude-IsDone row p (propagated x) t w b k v = (v, tt)

  retry_one-IsDone :
      (f : Failure) (p : Part) (w : W)
      → IsSound p
      → IsDone (retry_one session conf f p w) (settled p + 1)
  unfolding retry_one
  retry_one-IsDone (row, st, e) p w v = elim (Bool-cases (is_instance permanent e)) [
    | inl permanent_error ↦
        let d = quarantine-Quarantined session conf row e stage_cassandra_sink 0 p w in
        rw (permanent_error, IsDone, Done) (Quarantined-IsSound p _ d v, omega arith)
    | inr transient ↦
        let c = retry_call session conf st in
        let cfg = retry_policy conf.retry in
        let r = call_with_retry c cfg (session.draws w) fresh w in
        rw (transient, IsDone, Done)
          (conclude-IsDone row p r.result r.stats r.world
            (call_with_retry-IsBalanced c cfg (session.draws w) fresh w fresh-IsBalanced)
            (call_with_retry-EndCounts c cfg (session.draws w) fresh w) v)
  ]

  retry_all-IsDone :
      (fs : List Failure) (p : Part) (w : W)
      → IsSound p
      → IsDone (retry_all session conf fs p w) (settled p + length fs)
  unfolding retry_all
  retry_all-IsDone [] p w v = (v, omega arith)
  retry_all-IsDone (f ∷ fs) p w v =
      Done-and_then (λ _ m. m ≡ settled p + 1) (λ _ m. m ≡ settled p + length (f ∷ fs))
        (retry_one session conf f p w) (λ _ p' w'. retry_all session conf fs p' w')
        (retry_one-IsDone f p w v)
        (λ _ p' w' v' e.
          let n : settled p' + length fs ≡ settled p + length (f ∷ fs) = omega arith in
          subst (IsDone (retry_all session conf fs p' w')) n (retry_all-IsDone fs p' w' v'))

  work_IsDone :
      (ws : List Work) (samples : List Sample) (p : Part) (w : W)
      → ((sts : List Statement) (w : W) → length (session.execute_concurrent sts w).0 ≡ length sts)
      → IsSound p
      → IsDone
          (write_work session conf (record { work = ws; samples = samples }) p w)
          (settled p + length ws)
  unfolding write_work
  work_IsDone [] samples p w answers v = (v, omega arith)
  work_IsDone (x ∷ ws) samples p w answers v =
      let sts = map (λ (y : Work). y.1) (x ∷ ws) in
      let rs = (session.execute_concurrent sts w).0 in
      let q = (fast_path (x ∷ ws) rs p []).0 in
      let fs = (fast_path (x ∷ ws) rs p []).1 in
      let fast =
        fast_path-IsSound (x ∷ ws) rs p [] (answers sts w ∙ length-map (x ∷ ws) (λ y. y.1)) v in
      Done-and_then (λ _ m. m ≡ settled q + length fs) (λ _ m. m ≡ settled p + length (x ∷ ws))
        (retry_all session conf fs q (session.execute_concurrent sts w).1)
        (write_latency session conf samples)
        (retry_all-IsDone fs q (session.execute_concurrent sts w).1 fast.0)
        (λ _ p' w' v' e. (v', omega (arith, fast.1)))

  -- Where the driver answers for every statement, each one is written or has an envelope.
  pub write_work-IsDone :
      (c : Collected) (p : Part) (w : W)
      → ((sts : List Statement) (w : W) → length (session.execute_concurrent sts w).0 ≡ length sts)
      → IsSound p
      → IsDone (write_work session conf c p w) (settled p + length c.work)
  write_work-IsDone c p w = work_IsDone c.work c.samples p w
