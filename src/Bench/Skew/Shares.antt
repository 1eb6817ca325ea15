-- ===== src/Bench/Skew/Shares.antt =====
-- How many events `analyse` of bench/partition_skew.py finds in the partitions, and what that says of
-- the hottest and the coldest one.
use real_time_data_pipeline.Base.{
  ℕ, zero, suc, ◌≡◌, refl, ap, sym, ◌∙◌, ◌+◌, ◌*◌, mul_mono, ◌%◌, min, ◌≤◌, ◌<◌, ◌&&◌, List, [],
  ◌∷◌, length, length-map, sum, map, leb, ltb, ◌==◌, arith, if◌then◌else◌,
}
use real_time_data_pipeline.Base.Errors.{returned}
use real_time_data_pipeline.Bench.Skew.{
  murmur2, to_positive, partition_for, Counter, count_at, count_one, count_keys, counts, range_from,
  hottest_of, coldest_of, analyse,
}

-- A partition number is below the number of partitions, when there are any.
partition_for_returned :
    (key : List ℕ) (n : ℕ) → 0 < n → (p : ℕ) × (partition_for key n ≡ returned p) × (p < n)
unfolding partition_for
partition_for_returned key n h =
    (to_positive (murmur2 key) % n, ground (arith, h), omega (arith, h))

count_at-count_one :
    (q p : ℕ) (c : Counter) → count_at q (count_one p c) ≡ count_at q c + (if p == q then 1 else 0)
unfolding count_at count_one
count_at-count_one q p [] = ground arith
count_at-count_one q p ((r, n) ∷ c) = ground (arith, count_at-count_one q p c)

sum-counts-count_one : (p : ℕ) (c : Counter) → sum (counts (count_one p c)) ≡ sum (counts c) + 1
unfolding count_one
sum-counts-count_one p [] = refl
sum-counts-count_one p ((q, n) ∷ c) = ground (arith, sum-counts-count_one p c)

abbrev shares : Counter → ℕ → ℕ → List ℕ
shares c start n = map (λ p. count_at p c) (range_from start n)

sum-shares-count_one :
    (p : ℕ) (c : Counter) (start n : ℕ)
    → sum (shares (count_one p c) start n)
      ≡ sum (shares c start n) + (if leb start p && ltb p (start + n) then 1 else 0)
sum-shares-count_one p c start zero = ground arith
sum-shares-count_one p c start (suc n) =
    ground (arith, count_at-count_one start p c, sum-shares-count_one p c (start + 1) n)

-- Every event that a counter has counted is in a partition below `n`.
abbrev IsShared : ℕ → Counter → Type 0
IsShared n c = sum (shares c 0 n) ≡ sum (counts c)

count_keys_returned :
    (n : ℕ) (keys : List (List ℕ)) (c : Counter)
    → 0 < n
    → IsShared n c
    → (d : Counter) × (count_keys n keys c ≡ returned d)
      × IsShared n d
      × (sum (counts d) ≡ sum (counts c) + length keys)
unfolding count_keys
count_keys_returned n [] c h k = (c, refl, k, omega arith)
count_keys_returned n (key ∷ keys) c h k =
    let (p, e, lt) = partition_for_returned key n h in
    let one = sum-counts-count_one p c in
    let (d, f, s, t) =
      count_keys_returned n keys (count_one p c) h
        (ground (arith, sum-shares-count_one p c 0 n, k, lt, one)) in
    (d, rw e f, s, omega (arith, t, one))

length-range_from : (start n : ℕ) → length (range_from start n) ≡ n
length-range_from start zero = refl
length-range_from start (suc n) = ap suc (length-range_from (start + 1) n)

sum-le-hottest_of : (xs : List ℕ) → sum xs ≤ hottest_of xs * length xs
unfolding hottest_of
sum-le-hottest_of [] = omega arith
sum-le-hottest_of (x ∷ []) = omega arith
sum-le-hottest_of (x ∷ y ∷ ys) = grind (arith, sum-le-hottest_of (y ∷ ys))

min-mul-le : (x t l s : ℕ) → t * l ≤ s → min x t * suc l ≤ x + s
min-mul-le x t l s h = omega (arith, h, mul_mono l (min x t) t (omega arith))

coldest_of-le-sum : (xs : List ℕ) → coldest_of xs * length xs ≤ sum xs
unfolding coldest_of
coldest_of-le-sum [] = omega arith
coldest_of-le-sum (x ∷ []) = omega arith
coldest_of-le-sum (x ∷ y ∷ ys) =
    min-mul-le x (coldest_of (y ∷ ys)) (length (y ∷ ys)) (sum (y ∷ ys)) (coldest_of-le-sum (y ∷ ys))

length-per : (c : Counter) (n : ℕ) → length (shares c 0 n) ≡ n
length-per c n = length-map (range_from 0 n) (λ p. count_at p c) ∙ length-range_from 0 n

shares-empty : (start n : ℕ) → sum (shares [] start n) ≡ 0
unfolding count_at
shares-empty start zero = refl
shares-empty start (suc n) = omega (arith, shares-empty (start + 1) n)

-- With at least one partition every key is counted: the shares of the partitions add up to the number
-- of events, and the even share lies between the coldest partition's and the hottest one's.
pub analyse-count_keys :
    (n : ℕ) (keys : List (List ℕ))
    → 0 < n
    → (c : Counter) × (count_keys n keys [] ≡ returned c)
      × (let r = analyse c n in
          (r.total_events ≡ length keys)
          × (sum r.per_partition ≡ length keys)
          × (r.coldest * n ≤ length keys)
          × (length keys ≤ r.hottest * n))
unfolding analyse
analyse-count_keys n keys h =
    let (c, e, s, t) = count_keys_returned n keys [] h (shares-empty 0 n) in
    let per = shares c 0 n in
    (
      c,
      e,
      (
        omega (arith, t),
        omega (arith, s, t),
        transport_le (coldest_of per) (length-per c n) (omega (arith, s, t))
            (coldest_of-le-sum per),
        transport_ge (hottest_of per) (length-per c n) (omega (arith, s, t))
            (sum-le-hottest_of per),
      ),
    )
  where
    transport_le : (k : ℕ) {l s : ℕ} → l ≡ n → s ≡ length keys → k * l ≤ s → k * n ≤ length keys
    transport_le k e f g = rw (sym e, sym f) g

    transport_ge : (k : ℕ) {l s : ℕ} → l ≡ n → s ≡ length keys → s ≤ k * l → length keys ≤ k * n
    transport_ge k e f g = rw (sym e, sym f) g
