-- ===== src/Bench/Skew.antt =====
-- bench/partition_skew.py: the partitions that Kafka's default partitioner gives to keys, and the
-- report on how even they are. `& 0xFFFFFFFF` is the remainder by 2 ^ 32, a shift a product or a
-- quotient; a percentage or a ratio is kept as the two numbers that it divides.
pub mod Shares
use Prim.Native.Nat.{bit_xor, bit_or}
use real_time_data_pipeline.Base.{
  ℕ, zero, suc, ◌+◌, ◌-◌, ◌*◌, ◌/◌, ◌%◌, min, max, Bool, List, [], ◌∷◌, length, get_or, keep, sum,
  map, leb, ltb, ◌==◌, if◌then◌else◌,
}
use real_time_data_pipeline.Base.Errors.{Exc, Outcome, returned, raised, ◌>>=◌}

abbrev pub wrap : ℕ → ℕ
wrap x = x % 4294967296

abbrev pub m : ℕ
m = 1540483477

-- One round of the loop, with the four bytes at `i4`.
unfoldable pub mix : ℕ → ℕ → ℕ → ℕ → ℕ → ℕ
mix h b0 b1 b2 b3 =
    let k =
      bit_or (bit_or (bit_or (b0 % 256) (b1 % 256 * 256)) (b2 % 256 * 65536))
        (b3 % 256 * 16777216) in
    let k' = wrap (k * m) in
    let k'' = bit_xor k' (k' / 16777216) in bit_xor (wrap (h * m)) (wrap (k'' * m))

-- The loop over the data, four bytes at a time, then the bytes that remain.
unfoldable pub absorb : ℕ → List ℕ → ℕ
unfolding mix
absorb h [] = h
absorb h (b0 ∷ []) = wrap (bit_xor h (b0 % 256) * m)
absorb h (b0 ∷ b1 ∷ []) = wrap (bit_xor (bit_xor h (b1 % 256 * 256)) (b0 % 256) * m)
absorb h (b0 ∷ b1 ∷ b2 ∷ []) =
    wrap (bit_xor (bit_xor (bit_xor h (b2 % 256 * 65536)) (b1 % 256 * 256)) (b0 % 256) * m)
absorb h (b0 ∷ b1 ∷ b2 ∷ b3 ∷ rest) = absorb (mix h b0 b1 b2 b3) rest

unfoldable pub murmur2 : List ℕ → ℕ
unfolding absorb
murmur2 data_bytes =
    let h = absorb (wrap (bit_xor 2538058380 (length data_bytes))) data_bytes in
    let h' = wrap (bit_xor h (h / 8192) * m) in wrap (bit_xor h' (h' / 32768))

-- `x & 0x7FFFFFFF`
abbrev pub to_positive : ℕ → ℕ
to_positive x = x % 2147483648

abbrev pub zero_division : Exc
zero_division = record {
  name = "ZeroDivisionError";
  bases = "ArithmeticError" ∷ "Exception" ∷ "BaseException" ∷ [];
  message = "integer modulo by zero";
}

-- The key is given by its bytes.
unfoldable pub partition_for : List ℕ → ℕ → Outcome ℕ
unfolding murmur2
partition_for key num_partitions =
    if num_partitions == 0
    then raised zero_division
    else returned (to_positive (murmur2 key) % num_partitions)

-- A `Counter` of partitions.
abbrev pub Counter : Type 0
Counter = List (ℕ × ℕ)

unfoldable pub count_at : ℕ → Counter → ℕ
count_at p [] = 0
count_at p ((q, n) ∷ c) = if q == p then n else count_at p c

-- `counter[p] += 1`
unfoldable pub count_one : ℕ → Counter → Counter
count_one p [] = (p, 1) ∷ []
count_one p ((q, n) ∷ c) = if q == p then (q, n + 1) ∷ c else (q, n) ∷ count_one p c

-- The loop of `main` over the keys of the events, for one strategy.
unfoldable pub count_keys : ℕ → List (List ℕ) → Counter → Outcome Counter
unfolding count_one partition_for
count_keys n [] c = returned c
count_keys n (key ∷ keys) c = partition_for key n >>= λ p. count_keys n keys (count_one p c)

abbrev pub counts : Counter → List ℕ
counts [] = []
counts ((p, n) ∷ c) = n ∷ counts c

-- `range(n)`, and `max` and `min` of a list, 0 for an empty one.
abbrev pub range_from : ℕ → ℕ → List ℕ
range_from start zero = []
range_from start (suc n) = start ∷ range_from (start + 1) n

unfoldable pub hottest_of : List ℕ → ℕ
hottest_of [] = 0
hottest_of (x ∷ []) = x
hottest_of (x ∷ y ∷ ys) = max x (hottest_of (y ∷ ys))

unfoldable pub coldest_of : List ℕ → ℕ
coldest_of [] = 0
coldest_of (x ∷ []) = x
coldest_of (x ∷ y ∷ ys) = min x (coldest_of (y ∷ ys))

pub record Skew : Type 0 where
  pub total_events : ℕ
  pub partitions : ℕ
  pub per_partition : List ℕ
  pub hottest : ℕ
  pub coldest : ℕ
  pub empty_partitions : ℕ

unfoldable pub analyse : Counter → ℕ → Skew
unfolding count_at hottest_of coldest_of
analyse c num_partitions =
    let per = map (λ p. count_at p c) (range_from 0 num_partitions) in
    record {
      total_events = sum (counts c);
      partitions = num_partitions;
      per_partition = per;
      hottest = hottest_of per;
      coldest = coldest_of per;
      empty_partitions = length (keep (λ n. n == 0) per);
    }
