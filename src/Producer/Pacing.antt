-- ===== src/Producer/Pacing.antt =====
-- The pacing of `run` in producer/produce.py: how many events a turn of the main loop generates. Times are
-- microseconds since the start, and rates events a second. A turn reads the clock twice, for the loop's
-- condition and for its budget.
use real_time_data_pipeline.Base.{
  ℕ, ◌+◌, ◌-◌, ◌*◌, ◌/◌, ◌≤◌, ◌<◌, min, max, leb, ◌⊎◌, inl, inr, Bool-cases, ◌≡◌, List, [], ◌∷◌,
  sum, All, ltb, arith, mul_mono, if◌then◌else◌, if_elim,
}

-- The budget of a turn; 0 is a turn that only polls and sleeps.
unfoldable pub budget : ℕ → ℕ → ℕ → ℕ
budget rate now generated = if ltb 0 rate then min (now * rate / 1000000 - generated) 2000 else 2000

-- The bursts of the turns until the deadline, and how many events are generated in the end.
unfoldable pub pace : ℕ → ℕ → List (ℕ × ℕ) → ℕ → List ℕ × ℕ
unfolding budget
pace rate deadline [] generated = ([], generated)
pace rate deadline ((check, now) ∷ readings) generated =
    let n = budget rate now generated in
    let rest = pace rate deadline readings (generated + n) in
    if ltb check deadline then (n ∷ rest.0, rest.1) else ([], generated)

-- Bursts that are all within the cap, that make up what is generated from `generated` on, and that are
-- not ahead of the rate at the time `latest`.
abbrev pub IsPaced : ℕ → ℕ → ℕ → List ℕ × ℕ → Type 0
IsPaced rate latest generated r =
    All (λ (n : ℕ). n ≤ 2000) r.0 × (generated + sum r.0 ≡ r.1) × (r.1 ≤ latest * rate / 1000000)

div_mono : (a b : ℕ) → a ≤ b → a / 1000000 ≤ b / 1000000
div_mono a b h = omega (arith, h)

budget-le : (rate now generated : ℕ) → budget rate now generated ≤ 2000
unfolding budget
budget-le rate now generated = ground arith

budget-le-rate :
    (rate now generated latest : ℕ)
    → 0 < rate
    → now ≤ latest
    → generated ≤ latest * rate / 1000000
    → generated + budget rate now generated ≤ latest * rate / 1000000
unfolding budget
budget-le-rate rate now generated latest h le g =
    ground (arith, h, g, div_mono (now * rate) (latest * rate) (mul_mono rate now latest le))

push-IsPaced :
    (rate latest generated n : ℕ) (rest : List ℕ × ℕ)
    → n ≤ 2000
    → IsPaced rate latest (generated + n) rest
    → IsPaced rate latest generated (n ∷ rest.0, rest.1)
push-IsPaced rate latest generated n rest h k = ((h, k.0), omega (arith, k.1), k.2)

pace-IsPaced_from :
    (rate deadline latest : ℕ) (readings : List (ℕ × ℕ)) (generated : ℕ)
    → 0 < rate
    → All (λ (r : ℕ × ℕ). r.1 ≤ latest) readings
    → generated ≤ latest * rate / 1000000
    → IsPaced rate latest generated (pace rate deadline readings generated)
unfolding pace
pace-IsPaced_from rate deadline latest [] generated h k g = (tt, omega arith, g)
pace-IsPaced_from rate deadline latest ((check, now) ∷ readings) generated h k g =
    let n = budget rate now generated in
    let rest = pace rate deadline readings (generated + n) in
    if_elim (IsPaced rate latest generated) (ltb check deadline) (n ∷ rest.0, rest.1)
      ([], generated)
      (λ _. push-IsPaced rate latest generated n rest (budget-le rate now generated) (
        pace-IsPaced_from rate deadline latest readings (generated + n) h k.1
          (budget-le-rate rate now generated latest h k.0 g)))
      (λ _. (tt, omega arith, g))

budget_lem :
    (rate now generated : ℕ)
    → 0 < rate
    → (generated + budget rate now generated ≡ max generated (now * rate / 1000000))
      ⊎ (budget rate now generated ≡ 2000)
unfolding budget
budget_lem rate now generated h = elim (Bool-cases (leb 2000 (now * rate / 1000000 - generated))) [
  | inl e ↦ inr (ground (arith, h, e))
  | inr e ↦ inl (ground (arith, h, e))
]

-- With a target rate the producer is never ahead of it: what it has generated by the latest reading of the
-- clock is at most the rate times that time, in bursts of at most 2000 events each. And it does not fall
-- behind: any turn catches up with the rate, unless its burst is cut at 2000.
pub pace-IsPaced :
    (rate deadline latest now generated : ℕ) (readings : List (ℕ × ℕ))
    → 0 < rate
    → All (λ (r : ℕ × ℕ). r.1 ≤ latest) readings
    → IsPaced rate latest 0 (pace rate deadline readings 0)
      × ((generated + budget rate now generated ≡ max generated (now * rate / 1000000))
          ⊎ (budget rate now generated ≡ 2000))
pace-IsPaced rate deadline latest now generated readings h k = (
  pace-IsPaced_from rate deadline latest readings 0 h k (omega arith),
  budget_lem rate now generated h,
)
