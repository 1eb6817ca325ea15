-- ===== src/Bench/Latency/Percentile.antt =====
-- What the percentiles of bench/latency_report.py promise of sorted samples.
use real_time_data_pipeline.Base.{
  ℕ, zero, suc, ◌≡◌, refl, ap, ◌∙◌, ◌+◌, ◌-◌, ◌*◌, ◌/◌, ◌%◌, ◌≤◌, ◌<◌, Option, none, some, List, [],
  ◌∷◌, length, get_or, keep, arith, ltb, ◌==◌, Bool-cases, inl, inr,
}
use real_time_data_pipeline.Base.Sorted.{
  IsSorted, sort_by, sort_by-IsSorted, length-sort_by, get_or_mono,
}
use real_time_data_pipeline.Bench.Latency.{
  ceil, interpolate, percentile, LatencyReport, report, build_report,
}

abbrev AreSorted : List ℕ → Type 0
AreSorted = IsSorted (λ v. v)

floor_of : (k q r : ℕ) → k ≡ q * 1000 + r → r < 1000 → k / 1000 ≡ q
floor_of k q r e h = omega (arith, e, h)

rest_of : (k q r : ℕ) → k ≡ q * 1000 + r → r < 1000 → k % 1000 ≡ r
rest_of k q r e h = omega (arith, e, h)

ceil_whole : (k q : ℕ) → k ≡ q * 1000 + 0 → ceil k ≡ q
ceil_whole k q e = omega (arith, e)

ceil_part : (k q r : ℕ) → k ≡ q * 1000 + suc r → suc r < 1000 → ceil k ≡ suc q
ceil_part k q r e h = omega (arith, e, h)

-- Between two whole numbers the value is on the line between their elements.
interpolate-line :
    (xs : List ℕ) (k q r : ℕ)
    → k ≡ q * 1000 + r
    → r < 1000
    → interpolate xs k ≡ get_or xs q 0 * 1000 + (get_or xs (suc q) 0 - get_or xs q 0) * r
unfolding interpolate
interpolate-line xs k q zero e h = rw (floor_of k q 0 e h, ceil_whole k q e) (ground arith)
interpolate-line xs k q (suc r) e h =
    rw (floor_of k q (suc r) e h, ceil_part k q r e h, rest_of k q (suc r) e h) (ground arith)

-- A point on a line that rises from `a` to `b`, and its neighbour.
line_suc : (a b r : ℕ) → a * 1000 + (b - a) * r ≤ a * 1000 + (b - a) * suc r
line_suc a b r = omega arith

line_end : (a b c : ℕ) → a ≤ b → a * 1000 + (b - a) * 999 ≤ b * 1000 + (c - b) * 0
line_end a b c h = omega (arith, h)

interpolate-suc :
    (xs : List ℕ) (k : ℕ)
    → AreSorted xs
    → suc k ≤ (length xs - 1) * 1000
    → interpolate xs k ≤ interpolate xs (suc k)
interpolate-suc xs k h lt = step (k / 1000) (k % 1000) (omega arith) (omega arith)
  where
    step : (q r : ℕ) → k ≡ q * 1000 + r → r < 1000 → interpolate xs k ≤ interpolate xs (suc k)
    step q r e g = elim (Bool-cases (r == 999)) [
      | inl d ↦
          rw
            (
              interpolate-line xs k q 999 (ground (arith, e, d)) (omega arith),
              interpolate-line xs (suc k) (suc q) 0 (ground (arith, e, d)) (omega arith),
            )
            (line_end (get_or xs q 0) (get_or xs (suc q) 0) (get_or xs (suc (suc q)) 0)
              (get_or_mono xs q (suc q) h (omega arith) (ground (arith, e, d, lt))))
      | inr d ↦
          rw
            (
              interpolate-line xs k q r e g,
              interpolate-line xs (suc k) q (suc r) (omega (arith, e)) (ground (arith, d, g)),
            )
            (line_suc (get_or xs q 0) (get_or xs (suc q) 0) r)
    ]

zero_add : (k : ℕ) → 0 + k ≡ k
zero_add k = omega arith

suc_add : (d k : ℕ) → suc d + k ≡ suc (d + k)
suc_add d k = omega arith

interpolate_mono :
    (xs : List ℕ) (k d : ℕ)
    → AreSorted xs
    → d + k ≤ (length xs - 1) * 1000
    → interpolate xs k ≤ interpolate xs (d + k)
interpolate_mono xs k zero h lt = rw (zero_add k) (omega arith)
interpolate_mono xs k (suc d) h lt = rw (suc_add d k) (
    omega (
      arith,
      interpolate_mono xs k d h (omega (arith, lt)),
      interpolate-suc xs (d + k) h (omega (arith, lt)),
    ))

sub_add : (j k : ℕ) → k ≤ j → (j - k) + k ≡ j
sub_add j k h = omega (arith, h)

-- The percentile of a list that is not empty, at its position.
percentile_lem :
    (y : ℕ) (ys : List ℕ) (p : ℕ)
    → percentile (y ∷ ys) p ≡ some (interpolate (y ∷ ys) (length ys * p))
unfolding percentile interpolate
percentile_lem y [] p = ground arith
percentile_lem y (z ∷ zs) p = refl

mul_mono : (l p q : ℕ) → p ≤ q → l * p ≤ l * q
mul_mono zero p q h = omega arith
mul_mono (suc l) p q h = omega (arith, h, mul_mono l p q h)

interpolate_rising :
    (y : ℕ) (ys : List ℕ) (p q : ℕ)
    → AreSorted (y ∷ ys)
    → p ≤ q
    → q ≤ 1000
    → interpolate (y ∷ ys) (length ys * p) ≤ interpolate (y ∷ ys) (length ys * q)
interpolate_rising y ys p q h le top =
    let j = length ys * q in
    let k = length ys * p in
    let lt = mul_mono (length ys) p q le in
    omega (
      arith,
      ap (λ i. interpolate (y ∷ ys) i) (sub_add j k lt),
      interpolate_mono (y ∷ ys) k (j - k) h
          (omega (arith, sub_add j k lt, mul_mono (length ys) q 1000 top)),
    )

interpolate_first : (y : ℕ) (ys : List ℕ) → interpolate (y ∷ ys) (length ys * 0) ≡ y * 1000
unfolding interpolate
interpolate_first y ys = ground arith

interpolate_last :
    (y : ℕ) (ys : List ℕ)
    → interpolate (y ∷ ys) (length ys * 1000) ≡ get_or (y ∷ ys) (length ys) 0 * 1000
interpolate_last y ys =
    interpolate-line (y ∷ ys) (length ys * 1000) (length ys) 0 (omega arith) (omega arith)
    ∙ omega arith

-- Percentiles that are there, that do not fall, and that lie between two bounds.
abbrev pub AreRising : ℕ → List (Option ℕ) → ℕ → Type 0
AreRising a [] b = a ≤ b
AreRising a (none ∷ vs) b = ⊥
AreRising a (some v ∷ vs) b = (a ≤ v) × AreRising v vs b

-- The figures of a report that are about one and the same list.
abbrev pub IsConsistent : ℕ → LatencyReport → Type 0
IsConsistent n r =
    (r.samples ≡ n)
    × AreRising (r.min_ms * 1000) (r.p50 ∷ r.p90 ∷ r.p95 ∷ r.p99 ∷ r.p999 ∷ []) (r.max_ms * 1000)
    × (r.under_500ms ≤ r.under_1s)
    × (r.under_1s ≤ n)

length-keep-le : (xs : List ℕ) → length (keep (λ v. ltb v 1000) xs) ≤ length xs
length-keep-le [] = omega arith
length-keep-le (x ∷ xs) = ground (arith, length-keep-le xs)

length-keep-500 :
    (xs : List ℕ) → length (keep (λ v. ltb v 500) xs) ≤ length (keep (λ v. ltb v 1000) xs)
length-keep-500 [] = omega arith
length-keep-500 (x ∷ xs) = ground (arith, length-keep-500 xs)

are_rising :
    (y : ℕ) (ys : List ℕ)
    → AreSorted (y ∷ ys)
    → let s = y ∷ ys in
      AreRising
        (y * 1000)
        (percentile s 500
          ∷ percentile s 900
          ∷ percentile s 950
          ∷ percentile s 990
          ∷ percentile s 999
          ∷ [])
        (get_or s (length ys) 0 * 1000)
are_rising y ys h =
    rw
      (
        percentile_lem y ys 500,
        percentile_lem y ys 900,
        percentile_lem y ys 950,
        percentile_lem y ys 990,
        percentile_lem y ys 999,
      )
      (
        omega (arith, interpolate_first y ys, up 0 500 (omega arith) (omega arith)),
        (
          up 500 900 (omega arith) (omega arith),
          (
            up 900 950 (omega arith) (omega arith),
            (
              up 950 990 (omega arith) (omega arith),
              (
                up 990 999 (omega arith) (omega arith),
                omega (arith, interpolate_last y ys, up 999 1000 (omega arith) (omega arith)),
              ),
            ),
          ),
        ),
      )
  where
    up :
        (p q : ℕ)
        → p ≤ q
        → q ≤ 1000
        → interpolate (y ∷ ys) (length ys * p) ≤ interpolate (y ∷ ys) (length ys * q)
    up p q = λ le top. interpolate_rising y ys p q h le top

report_of :
    (s : List ℕ) (n : ℕ)
    → AreSorted s
    → length s ≡ suc n
    → (r : LatencyReport) × (report s ≡ some r) × IsConsistent (suc n) r
unfolding report
report_of [] n h e = absurd (omega (arith, e))
report_of (y ∷ ys) n h e = (
  _,
  refl,
  (e, are_rising y ys h, length-keep-500 (y ∷ ys), omega (arith, length-keep-le (y ∷ ys), e)),
)

-- For any samples but none there is a report, in whatever order they come: it counts them all, its
-- percentiles lie between the least and the greatest sample and do not fall from the median to the
-- 99.9th, and no more samples are below 500 ms than below a second.
pub build_report-IsConsistent :
    (x : ℕ) (xs : List ℕ)
    → (r : LatencyReport) × (build_report (x ∷ xs) ≡ some r) × IsConsistent (suc (length xs)) r
unfolding build_report
build_report-IsConsistent x xs =
    report_of (sort_by (λ v. v) (x ∷ xs)) (length xs) (sort_by-IsSorted (λ v. v) (x ∷ xs))
      (length-sort_by (λ v. v) (x ∷ xs))
