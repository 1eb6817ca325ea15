-- ===== src/Base/Rounding.antt =====
-- Python's `int(round(n / d))`, as `_write_summary` of streaming/stream_job.py and the figures of bench/
-- use it: the nearest whole number.
use native.Mathlib.Nat.{div-add-mod', le-div_iff_mul-le, div-le_of_le-mul}
use Prim.Native.Nat.{ℕ, ◌+◌, ◌*◌, ◌/◌, ◌%◌, ◌≤◌, ◌<◌}
use mathlib.Core.Path.{◌≡◌}
use mathlib.Core.Logic.{◌⊎◌, inl, inr}
use native.Mathlib.Omega.{arith}
use real_time_data_pipeline.Base.Tests.{ltb, ◌==◌, if◌then◌else◌, Bool-cases, mul_mono}

-- A half goes to the even neighbour.
unfoldable pub round_div : ℕ → ℕ → ℕ
round_div n d =
    let q = n / d in
    let r = n % d in
    if ltb (2 * r) d then q else if ltb d (2 * r) then q + 1 else if q % 2 == 0 then q else q + 1

pub round_div_mono : (n m : ℕ) → n ≤ m → round_div n 100 ≤ round_div m 100
unfolding round_div
round_div_mono n m h = ground (arith, h)

abbrev pub Between : ℕ → ℕ → ℕ → Type 0
Between lo x hi = (lo ≤ x) × (x ≤ hi)

-- A quotient rounded to the nearest lies between two numbers if the exact one does.
pub round_div-Between :
    (s d lo hi : ℕ) → 1 ≤ d → lo * d ≤ s → s ≤ hi * d → Between lo (round_div s d) hi
unfolding round_div
round_div-Between s d lo hi one a b =
    let low : lo ≤ s / d = (le-div_iff_mul-le {k = d} {x = lo} {y = s} (omega (arith, one))).1 a in
    let high : s / d ≤ hi = div-le_of_le-mul d (omega (arith, b)) in
    let edge : (s / d < hi) ⊎ (s % d ≡ 0) = elim (Bool-cases (ltb (s / d) hi)) [
      | inl e ↦ inl (ground (arith, e))
      | inr e ↦ inr (omega (arith, div-add-mod' s d, mul_mono d hi (s / d) (ground (arith, e)), b))
    ] in
    elim (edge) [
      | inl lt ↦ (ground (arith, low), ground (arith, lt))
      | inr r ↦ (ground (arith, low), ground (arith, r, one, high))
    ]
