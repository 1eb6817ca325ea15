-- ===== src/Retry/Call/Examples.antt =====
-- `call_with_retry` of common/retry.py on the schedule 1000, 2000, 5000, with the errors of
-- tests/test_retry.py.
use real_time_data_pipeline.Base.{ℕ, ◌+◌, ◌-◌, ◌≤◌, ◌≡◌, refl, String, List, [], ◌∷◌, arith}
use real_time_data_pipeline.Base.Errors.{Exc, returned, raised, is_instance}
use real_time_data_pipeline.Retry.Stats.{fresh, fresh-IsBalanced}
use real_time_data_pipeline.Retry.Policy.{RetryConfig, delay_ms}
use real_time_data_pipeline.Retry.Call.{exhausted, Callables, call_with_retry}
use real_time_data_pipeline.Retry.Call.Account.{
  Traced, instrument, Counts, Settled, call_with_retry-Counts, call_with_retry-IsBalanced,
}
use real_time_data_pipeline.Retry.Call.Script.{
  Play, scripted, verdict, start, call_with_retry-settles, call_with_retry-exhausts,
}

abbrev transient : Exc
transient = record { name = "Transient"; bases = "Exception" ∷ []; message = "node down" }

abbrev fatal : Exc
fatal = record { name = "Permanent"; bases = "Exception" ∷ []; message = "bad schema" }

abbrev retry_on : List String
retry_on = "Transient" ∷ []

abbrev give_up_on : List String
give_up_on = "Permanent" ∷ []

abbrev cfg : RetryConfig
cfg = record { backoff_schedule_ms = 1000 ∷ 2000 ∷ 5000 ∷ []; max_attempts = 4; jitter_ratio = 0 }

abbrev draws : ℕ → ℕ
draws i = 500

abbrev calls : Callables (Play ℕ) ℕ
calls = scripted retry_on give_up_on

-- Two errors, then a value.
call_with_retry-settles_example :
    let r =
      call_with_retry calls cfg draws fresh
        (start (raised transient ∷ raised transient ∷ returned 7 ∷ []) []) in
    (r.result ≡ verdict retry_on give_up_on 2 (returned 7))
    × (r.world ≡ start [] (1000000000 ∷ 2000000000 ∷ []))
unfolding is_instance delay_ms
call_with_retry-settles_example =
    call_with_retry-settles retry_on give_up_on cfg draws (transient ∷ transient ∷ []) (returned 7)
      [] [] fresh (omega arith) ((refl, refl), ((refl, refl), tt)) tt

call_with_retry-exhausts_example :
    let r =
      call_with_retry calls cfg draws fresh (
        start
          (raised transient ∷ raised transient ∷ raised transient ∷ raised transient ∷ [])
          []) in
    (r.result ≡ exhausted 4 transient)
    × (r.world ≡ start [] (1000000000 ∷ 2000000000 ∷ 5000000000 ∷ []))
unfolding is_instance delay_ms
call_with_retry-exhausts_example =
    call_with_retry-exhausts retry_on give_up_on cfg draws (transient ∷ transient ∷ transient ∷ [])
      transient [] [] fresh refl ((refl, refl), ((refl, refl), ((refl, refl), tt))) (refl, refl)

abbrev untouched : Traced (Play ℕ)
untouched = record {
  calls = 0;
  slept = 0;
  waits = 0;
  inner = start (raised transient ∷ returned 7 ∷ []) [];
}

call_with_retry-Counts_example :
    let r = call_with_retry (instrument calls) cfg draws fresh untouched in
    (0 + 1 ≤ r.world.calls)
    × (r.world.calls ≤ 0 + 4)
    × (r.stats.attempts + 0 ≡ 0 + r.world.calls)
    × Counts (r.world.calls - 0) fresh r.stats r.result
call_with_retry-Counts_example = call_with_retry-Counts calls cfg draws fresh untouched

call_with_retry-IsBalanced_example :
    let r =
      call_with_retry calls cfg draws fresh (start (raised transient ∷ raised fatal ∷ []) []) in
    Settled r.result r.stats
call_with_retry-IsBalanced_example =
    call_with_retry-IsBalanced calls cfg draws fresh
      (start (raised transient ∷ raised fatal ∷ []) []) fresh-IsBalanced
