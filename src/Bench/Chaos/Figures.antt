-- ===== src/Bench/Chaos/Figures.antt =====
-- What the figures of bench/chaos_suite.py say of the runs.
use real_time_data_pipeline.Base.{
  ℕ, zero, suc, ◌+◌, ◌*◌, ◌/◌, ◌%◌, ◌-◌, ◌≤◌, ◌<◌, ◌≡◌, refl, sym, Bool, true, false, Option, none,
  some, List, [], ◌∷◌, length, sum, get_or, All, leb, ◌==◌, arith, if_elim,
}
use real_time_data_pipeline.Base.Sorted.{
  sort_by, sort_by-IsSorted, length-sort_by, IsSorted, get_or_mono, sort_by-All, All-sort_by,
}
use real_time_data_pipeline.Value.{Value}
use real_time_data_pipeline.Base.Rounding.{round_div, Between, round_div-Between}
use real_time_data_pipeline.Bench.Chaos.{Agg, present, median_of, figures, agg, all_lossless}

same_test : (a b : Bool) → (a ≡ true → b ≡ true) → (b ≡ true → a ≡ true) → a ≡ b
same_test true b f g = sym (f refl)
same_test false true f g = g refl
same_test false false f g = refl

sum-Between :
    (lo hi : ℕ) (xs : List ℕ)
    → All (λ (x : ℕ). Between lo x hi) xs
    → (lo * length xs ≤ sum xs) × (sum xs ≤ hi * length xs)
sum-Between lo hi [] h = (omega arith, omega arith)
sum-Between lo hi (x ∷ xs) h =
    let (a, b) = sum-Between lo hi xs h.1 in (omega (arith, a, h.0.0), omega (arith, b, h.0.1))

get_or-All : (P : ℕ → Type 0) (xs : List ℕ) (i : ℕ) → All P xs → i < length xs → P (get_or xs i 0)
get_or-All P [] i h lt = absurd (omega (arith, lt))
get_or-All P (x ∷ xs) zero h lt = h.0
get_or-All P (x ∷ xs) (suc i) h lt = get_or-All P xs i h.1 (omega (arith, lt))

All-get_or :
    (P : ℕ → Type 0) (xs : List ℕ) → ((i : ℕ) → i < length xs → P (get_or xs i 0)) → All P xs
All-get_or P [] h = tt
All-get_or P (x ∷ xs) h =
    (h 0 (omega arith), All-get_or P xs (λ i lt. h (suc i) (omega (arith, lt))))

-- Sorted numbers lie between the first and the last of them.
sorted-Between :
    (x : ℕ) (xs : List ℕ)
    → IsSorted (λ v. v) (x ∷ xs)
    → All (λ (y : ℕ). Between x y (get_or (x ∷ xs) (length xs) 0)) (x ∷ xs)
sorted-Between x xs h =
    All-get_or (λ y. Between x y (get_or (x ∷ xs) (length xs) 0)) (x ∷ xs)
      (λ i lt. (
        get_or_mono (x ∷ xs) 0 i h (omega arith) lt,
        get_or_mono (x ∷ xs) i (length xs) h (omega (arith, lt)) (omega arith),
      ))

median_of-Between :
    (s : List ℕ) (lo hi : ℕ)
    → 1 ≤ length s
    → All (λ (x : ℕ). Between lo x hi) s
    → Between lo (median_of s) hi
unfolding median_of
median_of-Between s lo hi one h =
    let n = length s in
    let at : (i : ℕ) → i < n → Between lo (get_or s i 0) hi =
      λ i lt. get_or-All (λ x. Between lo x hi) s i h lt in
    if_elim (λ m. Between lo m hi) (n % 2 == 1) (get_or s (n / 2) 0)
      (round_div (get_or s (n / 2 - 1) 0 + get_or s (n / 2) 0) 2)
      (λ _. at (n / 2) (omega (arith, one)))
      (λ _.
        let (a, b) = at (n / 2 - 1) (omega (arith, one)) in
        let (c, d) = at (n / 2) (omega (arith, one)) in
        round_div-Between (get_or s (n / 2 - 1) 0 + get_or s (n / 2) 0) 2 lo hi (omega arith)
          (omega (arith, a, c)) (omega (arith, b, d)))

-- Figures on so many readings.
abbrev pub IsFaithful : ℕ → Option Agg → Type 0
IsFaithful n none = n ≡ 0
IsFaithful n (some a) =
    (1 ≤ n)
    × (a.n ≡ n)
    × ((a.least ≤ a.mean) × (a.mean ≤ a.greatest))
    × ((a.least ≤ a.median) × (a.median ≤ a.greatest))

figures-IsFaithful : (s : List ℕ) → IsSorted (λ v. v) s → IsFaithful (length s) (figures s)
unfolding figures
figures-IsFaithful [] h = refl
figures-IsFaithful (x ∷ xs) h =
    let hi = get_or (x ∷ xs) (length xs) 0 in
    let all = sorted-Between x xs h in
    let (a, b) = sum-Between x hi (x ∷ xs) all in
    (
      omega arith,
      refl,
      round_div-Between (sum (x ∷ xs)) (length (x ∷ xs)) x hi (omega arith) a b,
      median_of-Between (x ∷ xs) x hi (omega arith) all,
    )

pub agg-IsFaithful : (values : List (Option ℕ)) → IsFaithful (length (present values)) (agg values)
unfolding agg
agg-IsFaithful values = rw (sym (length-sort_by (λ v. v) (present values))) (
    figures-IsFaithful (sort_by (λ v. v) (present values))
      (sort_by-IsSorted (λ v. v) (present values)))

-- The verdict that the greatest of the figures would give.
abbrev pub is_lossless_at_most : Option Agg → Bool
is_lossless_at_most none = true
is_lossless_at_most (some a) = leb a.greatest 0

module _ (loads_number : Value → Option ℕ) where
  all_lossless-All :
      (vs : List (Option ℕ))
      → all_lossless loads_number vs ≡ true
      → All (λ (x : ℕ). x ≤ 0) (present vs)
  unfolding present
  all_lossless-All [] h = tt
  all_lossless-All (none ∷ vs) h = all_lossless-All vs h
  all_lossless-All (some v ∷ vs) h = (ground (arith, h), all_lossless-All vs (ground (arith, h)))

  All-all_lossless :
      (vs : List (Option ℕ))
      → All (λ (x : ℕ). x ≤ 0) (present vs)
      → all_lossless loads_number vs ≡ true
  unfolding present
  All-all_lossless [] h = refl
  All-all_lossless (none ∷ vs) h = All-all_lossless vs h
  All-all_lossless (some v ∷ vs) h = ground (arith, h.0, All-all_lossless vs h.1)

  figures-lossless :
      (s : List ℕ)
      → IsSorted (λ v. v) s
      → (All (λ (x : ℕ). x ≤ 0) s → is_lossless_at_most (figures s) ≡ true)
        × (is_lossless_at_most (figures s) ≡ true → All (λ (x : ℕ). x ≤ 0) s)
  unfolding figures
  figures-lossless [] h = ((λ _. refl), λ _. tt)
  figures-lossless (x ∷ xs) h = (
    (λ a.
        let le = get_or-All (λ y. y ≤ 0) (x ∷ xs) (length xs) a (omega arith) in
        ground (arith, le)),
    λ e.
        All-get_or (λ y. y ≤ 0) (x ∷ xs)
          (λ i lt.
            let le = get_or_mono (x ∷ xs) i (length xs) h (omega (arith, lt)) (omega arith) in
            ground (arith, le, e)),
  )

  -- The verdict on the loss is the one that the greatest loss gives; without a reading it is that there
  -- was none.
  pub all_lossless-agg :
      (vs : List (Option ℕ)) → all_lossless loads_number vs ≡ is_lossless_at_most (agg vs)
  unfolding agg
  all_lossless-agg vs =
      let s = sort_by (λ v. v) (present vs) in
      let (to, from) = figures-lossless s (sort_by-IsSorted (λ v. v) (present vs)) in
      same_test (all_lossless loads_number vs) (is_lossless_at_most (figures s))
        (λ h. to (sort_by-All (λ v. v) (λ x. x ≤ 0) (present vs) (all_lossless-All vs h)))
        (λ h. All-all_lossless vs (All-sort_by (λ v. v) (λ x. x ≤ 0) (present vs) (from h)))
