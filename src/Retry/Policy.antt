-- ===== src/Retry/Policy.antt =====
-- `RetryConfig` of common/config.py and `BackoffPolicy` of common/retry.py.
-- A delay is a number of millionths of a millisecond. The jitter ratio and the draw that
-- `random.uniform` makes from [0, 1) are numbers of thousandths.
use real_time_data_pipeline.Base.{
  ℕ, ◌+◌, ◌-◌, ◌*◌, ◌≤◌, min, ◌≡◌, Bool, true, false, not, List, [], ◌∷◌, arith, length, get_or,
  leb, if◌then◌else◌, refl,
}

pub record RetryConfig : Type 0 where
  pub backoff_schedule_ms : List ℕ
  pub max_attempts : ℕ
  pub jitter_ratio : ℕ

-- `not sched`, for a list
abbrev pub is_empty {ℓ} : {A : Type ℓ} → List A → Bool
is_empty [] = true
is_empty (x ∷ xs) = false

-- `RetryConfig.enabled`
unfoldable pub enabled : RetryConfig → Bool
enabled cfg = not (is_empty cfg.backoff_schedule_ms)

-- `random.uniform(a, b)` is a + (b - a) * random(), for a ≤ b, at a draw of `u` thousandths.
-- Here a = base - spread and b = base + spread, and `max(0.0, …)` is what `-` on ℕ does.
unfoldable pub jittered : ℕ → ℕ → ℕ → ℕ
jittered base ratio u = base * 1000000 + 2 * (base * ratio) * u - base * ratio * 1000

-- `sched[min(retry_index, len(sched) - 1)]`: the last entry serves past the end.
unfoldable pub entry : RetryConfig → ℕ → ℕ
entry cfg i = get_or cfg.backoff_schedule_ms (min i (length cfg.backoff_schedule_ms - 1)) 0

unfoldable pub delay_ms : RetryConfig → ℕ → ℕ → ℕ
unfolding jittered entry
delay_ms cfg u retry_index =
    if is_empty cfg.backoff_schedule_ms
    then 0
    else let base = entry cfg retry_index in
      if leb cfg.jitter_ratio 0 then base * 1000000 else jittered base cfg.jitter_ratio u

get_or-empty : (xs : List ℕ) (i : ℕ) → is_empty xs ≡ true → get_or xs i 0 ≡ 0
get_or-empty [] i h = refl
get_or-empty (x ∷ xs) i h = cc

jittered_band :
    (b r u : ℕ)
    → u ≤ 1000
    → (b * 1000000 ≤ jittered b r u + b * r * 1000) × (jittered b r u ≤ b * 1000000 + b * r * 1000)
unfolding jittered
jittered_band b r u h = (grind arith, grind arith)

entry-empty :
    (cfg : RetryConfig) (i : ℕ) → is_empty cfg.backoff_schedule_ms ≡ true → entry cfg i ≡ 0
unfolding entry
entry-empty cfg i h = get_or-empty cfg.backoff_schedule_ms _ h

-- A delay differs from the schedule's entry of its retry (the last one past the end, and 0 where the
-- schedule is empty) by at most the jitter ratio, for any draw of at most 1000 thousandths.
pub delay_ms-band :
    (cfg : RetryConfig) (u i : ℕ)
    → u ≤ 1000
    → (entry cfg i * 1000000 ≤ delay_ms cfg u i + entry cfg i * cfg.jitter_ratio * 1000)
      × (delay_ms cfg u i ≤ entry cfg i * 1000000 + entry cfg i * cfg.jitter_ratio * 1000)
unfolding delay_ms
delay_ms-band cfg u i h =
    ground (arith, entry-empty cfg i, jittered_band (entry cfg i) cfg.jitter_ratio u h)
