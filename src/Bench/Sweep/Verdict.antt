-- ===== src/Bench/Sweep/Verdict.antt =====
-- Which rate bench/throughput_sweep.py reports as sustained.
use real_time_data_pipeline.Base.{
  ℕ, ◌≡◌, ◌≤◌, ◌<◌, true, false, Option, none, some, List, [], ◌∷◌, All, arith, if_elim,
}
use real_time_data_pipeline.Base.Sorted.{
  sort_by, IsSorted, sort_by-IsSorted, sort_by-All, All-sort_by,
}
use real_time_data_pipeline.Bench.Sweep.{Step, last_sustained, sustainable}

-- Every step that is slower than `r` has sustained its rate.
abbrev IsClearBelow : ℕ → Step → Type 0
IsClearBelow r x = x.rate < r → x.sustained ≡ true

-- The steps up to the rate `q` have sustained it, or are no faster than `r`.
abbrev IsClearTo : ℕ → Step → Type 0
IsClearTo q x = x.rate ≤ q → x.sustained ≡ true

abbrev IsReached : ℕ → ℕ → Step → Type 0
IsReached q r x = x.rate ≤ q → x.rate ≤ r

-- The greatest rate below which all steps have sustained theirs: every step slower than `t` has, and
-- where every step up to some rate has, `t` is as fast as they are. Without one, no step has a rate up
-- to which all have.
abbrev pub IsGreatest : List Step → Option Step → Type 0
IsGreatest steps none = (q : ℕ) → All (IsClearTo q) steps → All (λ (x : Step). q < x.rate) steps
IsGreatest steps (some t) =
    (t.sustained ≡ true)
    × All (IsClearBelow t.rate) steps
    × ((q : ℕ) → All (IsClearTo q) steps → All (IsReached q t.rate) steps)

above : (b : ℕ) (xs : List Step) → All (λ (x : Step). b ≤ x.rate) xs → All (IsClearBelow b) xs
above b [] h = tt
above b (x ∷ xs) h = ((λ lt. absurd (omega (arith, lt, h.0))), above b xs h.1)

-- After a step that failed nothing is reached.
beyond :
    (x : Step) (q : ℕ) (ys : List Step)
    → x.sustained ≡ false
    → IsClearTo q x
    → All (λ (y : Step). x.rate ≤ y.rate) ys
    → All (λ (y : Step). q < y.rate) ys
beyond x q [] e k h = tt
beyond x q (y ∷ ys) e k h = (ground (arith, e, k, h.0), beyond x q ys e k h.1)

unreached : (r q : ℕ) (ys : List Step) → All (λ (y : Step). q < y.rate) ys → All (IsReached q r) ys
unreached r q [] h = tt
unreached r q (y ∷ ys) h = ((λ le. absurd (omega (arith, le, h.0))), unreached r q ys h.1)

abbrev IsLast : Step → List Step → Option Step → Type 0
IsLast b xs none = ⊥
IsLast b xs (some t) = (b.rate ≤ t.rate) × IsGreatest xs (some t)

later :
    (b x : Step) (xs : List Step) (o : Option Step)
    → x.sustained ≡ true
    → b.rate ≤ x.rate
    → IsLast x xs o
    → IsLast b (x ∷ xs) o
later b x xs none d h k = k
later b x xs (some t) d h k =
    (omega (arith, h, k.0), (k.1.0, ((λ lt. d), k.1.1), λ q c. ((λ le. k.0), k.1.2 q c.1)))

last_sustained-IsLast :
    (b : Step) (xs : List Step)
    → b.sustained ≡ true
    → IsSorted Step.rate (b ∷ xs)
    → IsLast b xs (last_sustained xs (some b))
unfolding last_sustained
last_sustained-IsLast b [] e h = (omega arith, (e, tt, λ q c. tt))
last_sustained-IsLast b (x ∷ xs) e h =
    if_elim (IsLast b (x ∷ xs)) x.sustained (last_sustained xs (some x)) (some b)
      (λ d. later b x xs _ d h.0.0 (last_sustained-IsLast x xs d h.1))
      (λ d. (
        omega arith,
        (
          e,
          above b.rate (x ∷ xs) h.0,
          λ q c. unreached b.rate q (x ∷ xs) (beyond x q (x ∷ xs) d c.0 (omega arith, h.1.0)),
        ),
      ))

of_last :
    (x : Step) (xs : List Step) (o : Option Step)
    → x.sustained ≡ true
    → IsLast x xs o
    → IsGreatest (x ∷ xs) o
of_last x xs none d k = absurd k
of_last x xs (some t) d k = (k.1.0, ((λ lt. d), k.1.1), λ q c. ((λ le. k.0), k.1.2 q c.1))

last_sustained-IsGreatest :
    (xs : List Step) → IsSorted Step.rate xs → IsGreatest xs (last_sustained xs none)
unfolding last_sustained
last_sustained-IsGreatest [] h = λ q c. tt
last_sustained-IsGreatest (x ∷ xs) h =
    if_elim (IsGreatest (x ∷ xs)) x.sustained (last_sustained xs (some x)) none
      (λ d. of_last x xs _ d (last_sustained-IsLast x xs d h))
      (λ d q c. beyond x q (x ∷ xs) d c.0 (omega arith, h.0))

unsorted :
    (steps : List Step) (o : Option Step)
    → IsGreatest (sort_by Step.rate steps) o
    → IsGreatest steps o
unsorted steps none h = λ q c.
    All-sort_by Step.rate (λ x. q < x.rate) steps
      (h q (sort_by-All Step.rate (IsClearTo q) steps c))
unsorted steps (some t) h = (
  h.0,
  All-sort_by Step.rate (IsClearBelow t.rate) steps h.1,
  λ q c.
      All-sort_by Step.rate (IsReached q t.rate) steps
        (h.2 q (sort_by-All Step.rate (IsClearTo q) steps c)),
)

-- In whatever order the steps were run, the step that the sweep reports has sustained its rate, and so
-- has every slower one; no rate up to which all steps have sustained theirs is reached by a faster step.
-- It reports none only where no step has a rate up to which all have.
pub sustainable-IsGreatest : (steps : List Step) → IsGreatest steps (sustainable steps)
unfolding sustainable
sustainable-IsGreatest steps =
    unsorted steps _
      (last_sustained-IsGreatest (sort_by Step.rate steps) (sort_by-IsSorted Step.rate steps))
