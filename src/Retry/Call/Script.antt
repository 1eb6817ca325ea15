-- ===== src/Retry/Call/Script.antt =====
-- `call_with_retry` of common/retry.py against a script: the outcomes that `fn` will have, one after
-- the other, and the waits that `sleep` has recorded, as in the tests of the repository.
use mathlib.Core.Path.{subst}
use mathlib.Core.List.{append-nil, append_assoc}
use real_time_data_pipeline.Base.{
  ℕ, zero, suc, ◌+◌, ◌-◌, ◌<◌, ◌≡◌, refl, ap, ◌∙◌, true, false, Option, none, some, List, [], ◌∷◌,
  ◌++◌, map, arith, length, All, ltb, if◌then◌else◌, String, ◌==◌,
}
use real_time_data_pipeline.Base.Errors.{Exc, Outcome, returned, raised, is_instance}
use real_time_data_pipeline.Retry.Stats.{RetryStats, record_reason}
use real_time_data_pipeline.Retry.Policy.{RetryConfig, delay_ms}
use real_time_data_pipeline.Retry.Call.{
  CallResult, value, exhausted, propagated, Callables, budget, again, round, attempt_loop,
  add_backoff, pause, call_with_retry,
}

pub record Play (A : Type 0) : Type 0 where
  pub script : List (Outcome A)
  pub slept : List ℕ

abbrev script_end : Exc
script_end = record {
  name = "IndexError";
  bases = "LookupError" ∷ [];
  message = "pop from empty list";
}

abbrev pop : {A : Type 0} → List (Outcome A) → List ℕ → Outcome A × Play A
pop [] ds = (raised script_end, record { script = []; slept = ds })
pop (o ∷ os) ds = (o, record { script = os; slept = ds })

module _ {A : Type 0} (retry_on give_up_on : List String) where
  abbrev pub scripted : Callables (Play A) A
  scripted = record {
    fn = λ p. pop p.script p.slept;
    sleep = λ n p. record p { slept = p.slept ++ n ∷ [] };
    on_retry = λ k e p. p;
    retry_on = retry_on;
    give_up_on = give_up_on;
  }

module _ (retry_on give_up_on : List String) where
  -- An error that is worth another attempt.
  abbrev pub IsTransient : Exc → Type 0
  IsTransient e = (is_instance give_up_on e ≡ false) × (is_instance retry_on e ≡ true)

  -- How a call ends on the first outcome that is no transient error, after `k` of those.
  abbrev pub verdict : {A : Type 0} → ℕ → Outcome A → CallResult A
  verdict k (returned a) = value a
  verdict k (raised e) = if is_instance give_up_on e then exhausted (k + 1) e else propagated e

  abbrev pub IsFinal : {A : Type 0} → Outcome A → Type 0
  IsFinal (returned a) = Unit
  IsFinal (raised e) = is_instance give_up_on e ≡ false → is_instance retry_on e ≡ false

-- The wait of the retry numbered `i`, and those of `n` retries from it on: a wait of no length is
-- not slept.
abbrev pub delay : RetryConfig → (ℕ → ℕ) → ℕ → List ℕ
delay cfg draws i = if ltb 0 (delay_ms cfg (draws i) i) then delay_ms cfg (draws i) i ∷ [] else []

abbrev pub delays : RetryConfig → (ℕ → ℕ) → ℕ → ℕ → List ℕ
delays cfg draws i zero = []
delays cfg draws i (suc n) = delay cfg draws i ++ delays cfg draws (i + 1) n

abbrev pub start : {A : Type 0} → List (Outcome A) → List ℕ → Play A
start os ds = record { script = os; slept = ds }

module _ {A : Type 0} (retry_on give_up_on : List String) (cfg : RetryConfig) (draws : ℕ → ℕ) where
  abbrev c : Callables (Play A) A
  c = scripted retry_on give_up_on

  pause-delay :
      (attempt : ℕ) (e : Exc) (os : List (Outcome A)) (ds : List ℕ)
      → pause c cfg draws attempt e (start os ds) ≡ start os (ds ++ delay cfg draws attempt)
  unfolding pause
  pause-delay attempt e os ds = ground (arith, append-nil ds)

  round_transient :
      (attempt : ℕ) (s : RetryStats) (e : Exc) (os : List (Outcome A)) (ds : List ℕ)
      → IsTransient retry_on give_up_on e
      → attempt + 1 < budget cfg
      → round c cfg draws attempt s (start (raised e ∷ os) ds)
        ≡ again e
            (add_backoff c cfg draws attempt
              (record_reason e (record s { attempts = s.attempts + 1 })))
            (start os (ds ++ delay cfg draws attempt))
  unfolding round
  round_transient attempt s e os ds t h = rw (t.0, t.1, other, ← pause-delay attempt e os ds) refl
    where
      other : (attempt == (budget cfg - 1)) ≡ false
      other = ground arith

  loop_settles :
      (es : List Exc) (o : Outcome A) (rest : List (Outcome A)) (ds : List ℕ)
      → (left attempt : ℕ) (last : Option Exc) (s : RetryStats) → attempt + suc left ≡ budget cfg
      → length es < suc left
      → All (IsTransient retry_on give_up_on) es
      → IsFinal retry_on give_up_on o
      → let r =
          attempt_loop c cfg draws
            (suc left)
            attempt
            last
            s
            (start (map raised es ++ o ∷ rest) ds) in
        (r.result ≡ verdict retry_on give_up_on (attempt + length es) o)
        × (r.world ≡ start rest (ds ++ delays cfg draws attempt (length es)))
  unfolding attempt_loop
  loop_settles [] (returned a) rest ds left attempt last s h lt ts f =
      unfold round in (refl, rw append-nil)
  loop_settles [] (raised e) rest ds left attempt last s h lt ts f =
      unfold round in (ground arith, ground (arith, append-nil ds))
  loop_settles (e ∷ es) o rest ds zero attempt last s h lt ts f = absurd (omega arith)
  loop_settles (e ∷ es) o rest ds (suc left) attempt last s h lt ts f =
      let rec =
        loop_settles es o rest (ds ++ delay cfg draws attempt) left (attempt + 1) (some e)
          (add_backoff c cfg draws attempt
            (record_reason e (record s { attempts = s.attempts + 1 })))
          (omega arith) (omega arith) ts.1 f in
      rw (round_transient attempt s e (map raised es ++ o ∷ rest) ds ts.0 (omega arith)) (
        rec.0 ∙ ap (λ n. verdict retry_on give_up_on n o) (omega arith),
        rec.1 ∙ ap (start rest) (append_assoc ds (delay cfg draws attempt) _),
      )

  loop_exhausts :
      (es : List Exc) (e : Exc) (rest : List (Outcome A)) (ds : List ℕ)
      → (left attempt : ℕ) (last : Option Exc) (s : RetryStats) → attempt + suc left ≡ budget cfg
      → length es ≡ left
      → All (IsTransient retry_on give_up_on) es
      → IsTransient retry_on give_up_on e
      → let r =
          attempt_loop c cfg draws
            (suc left)
            attempt
            last
            s
            (start (map raised es ++ raised e ∷ rest) ds) in
        (r.result ≡ exhausted (budget cfg) e)
        × (r.world ≡ start rest (ds ++ delays cfg draws attempt (length es)))
  unfolding attempt_loop
  loop_exhausts [] e rest ds zero attempt last s h eq ts t =
      unfold round in (ground arith, ground (arith, append-nil ds))
  loop_exhausts [] e rest ds (suc left) attempt last s h eq ts t = absurd (omega arith)
  loop_exhausts (x ∷ es) e rest ds zero attempt last s h eq ts t = absurd (omega arith)
  loop_exhausts (x ∷ es) e rest ds (suc left) attempt last s h eq ts t =
      let rec =
        loop_exhausts es e rest (ds ++ delay cfg draws attempt) left (attempt + 1) (some x)
          (add_backoff c cfg draws attempt
            (record_reason x (record s { attempts = s.attempts + 1 })))
          (omega arith) (omega arith) ts.1 t in
      rw (round_transient attempt s x (map raised es ++ raised e ∷ rest) ds ts.0 (omega arith))
        (rec.0, rec.1 ∙ ap (start rest) (append_assoc ds (delay cfg draws attempt) _))

  -- If `fn` fails with fewer transient errors than the budget has attempts, and then has an outcome
  -- that is no transient error, the call ends by that outcome: its value, RetriesExhausted with
  -- the number of attempts for an error of `give_up_on`, or the error itself. It has slept the
  -- delays of the schedule, one for each transient error and none after the last outcome, and has
  -- called `fn` no further.
  pub call_with_retry-settles :
      (es : List Exc) (o : Outcome A) (rest : List (Outcome A)) (ds : List ℕ) (s : RetryStats)
      → length es < budget cfg
      → All (IsTransient retry_on give_up_on) es
      → IsFinal retry_on give_up_on o
      → let r = call_with_retry c cfg draws s (start (map raised es ++ o ∷ rest) ds) in
        (r.result ≡ verdict retry_on give_up_on (length es) o)
        × (r.world ≡ start rest (ds ++ delays cfg draws 0 (length es)))
  unfolding call_with_retry
  call_with_retry-settles es o rest ds s lt ts f =
      let e : budget cfg ≡ suc (budget cfg - 1) = omega arith in
      rw e (
        let k =
          loop_settles es o rest ds (budget cfg - 1) 0 none s (omega arith) (omega arith) ts f in
        (k.0 ∙ ap (λ n. verdict retry_on give_up_on n o) (omega arith), k.1))

  -- If every attempt of the budget fails with a transient error, the call raises RetriesExhausted
  -- with the budget and the last of the errors. It has slept once between any two attempts.
  pub call_with_retry-exhausts :
      (es : List Exc) (e : Exc) (rest : List (Outcome A)) (ds : List ℕ) (s : RetryStats)
      → length es + 1 ≡ budget cfg
      → All (IsTransient retry_on give_up_on) es
      → IsTransient retry_on give_up_on e
      → let r = call_with_retry c cfg draws s (start (map raised es ++ raised e ∷ rest) ds) in
        (r.result ≡ exhausted (budget cfg) e)
        × (r.world ≡ start rest (ds ++ delays cfg draws 0 (length es)))
  unfolding call_with_retry
  call_with_retry-exhausts es e rest ds s eq ts t =
      let n_eq : suc (length es) ≡ budget cfg = omega arith in
      subst
        (λ n.
          let r =
            attempt_loop c cfg draws n 0 none s (start (map raised es ++ raised e ∷ rest) ds) in
          (r.result ≡ exhausted (budget cfg) e)
          × (r.world ≡ start rest (ds ++ delays cfg draws 0 (length es))))
        n_eq (loop_exhausts es e rest ds (length es) 0 none s (omega arith) refl ts t)
