-- ===== src/Value/Int.antt =====
-- Python's integers: sums, differences and comparisons.
use real_time_data_pipeline.Base.{
  ℕ, zero, suc, ◌≡◌, refl, ◌+◌, ◌-◌, ◌⊎◌, inl, inr, Bool, true, false, List, [], ◌∷◌, arith, leb,
  ◌==◌, if◌then◌else◌,
}
use real_time_data_pipeline.Value.{ℤ, pos, negsuc}

-- The difference of two natural numbers.
unfoldable pub diff : ℕ → ℕ → ℤ
diff a b = if leb b a then pos (a - b) else negsuc (b - a - 1)

infixl 60 ◌+ℤ◌ ◌-ℤ◌
unfoldable pub ◌+ℤ◌ : ℤ → ℤ → ℤ
unfolding diff
pos a +ℤ pos b = pos (a + b)
pos a +ℤ negsuc b = diff a (b + 1)
negsuc a +ℤ pos b = diff b (a + 1)
negsuc a +ℤ negsuc b = negsuc (a + b + 1)

unfoldable pub ◌-ℤ◌ : ℤ → ℤ → ℤ
unfolding diff
pos a -ℤ pos b = diff a b
pos a -ℤ negsuc b = pos (a + b + 1)
negsuc a -ℤ pos b = negsuc (a + b)
negsuc a -ℤ negsuc b = diff b a

-- `a == b` and `a <= b`.
unfoldable pub same_int : ℤ → ℤ → Bool
same_int (pos a) (pos b) = a == b
same_int (pos a) (negsuc b) = false
same_int (negsuc a) (pos b) = false
same_int (negsuc a) (negsuc b) = a == b

unfoldable pub is_le : ℤ → ℤ → Bool
is_le (pos a) (pos b) = leb a b
is_le (pos a) (negsuc b) = false
is_le (negsuc a) (pos b) = true
is_le (negsuc a) (negsuc b) = leb b a

unfoldable pub min_int : ℤ → ℤ → ℤ
unfolding is_le
min_int a b = if is_le a b then a else b

unfoldable pub max_int : ℤ → ℤ → ℤ
unfolding is_le
max_int a b = if is_le a b then b else a

-- `-a`
abbrev pub negated : ℤ → ℤ
negated a = pos 0 -ℤ a

unfoldable pub sum_int : List ℤ → ℤ
unfolding ◌+ℤ◌
sum_int [] = pos 0
sum_int (x ∷ xs) = x +ℤ sum_int xs

-- The lesser of two numbers, and by how much either is above the other.
pub min_int-add-rest : (a b : ℤ) → min_int a b +ℤ max_int (pos 0) (a -ℤ b) ≡ a
unfolding min_int max_int is_le ◌+ℤ◌ ◌-ℤ◌ diff
min_int-add-rest (pos a) (pos b) = ground arith
min_int-add-rest (pos a) (negsuc b) = ground arith
min_int-add-rest (negsuc a) (pos b) = ground arith
min_int-add-rest (negsuc a) (negsuc b) = ground arith

pub min_int-add-excess : (a b : ℤ) → min_int a b +ℤ max_int (pos 0) (negated (a -ℤ b)) ≡ b
unfolding min_int max_int is_le ◌+ℤ◌ ◌-ℤ◌ diff
min_int-add-excess (pos a) (pos b) = ground arith
min_int-add-excess (pos a) (negsuc b) = ground arith
min_int-add-excess (negsuc a) (pos b) = ground arith
min_int-add-excess (negsuc a) (negsuc b) = ground arith

pub rest-or-excess : (r : ℤ) → (max_int (pos 0) r ≡ pos 0) ⊎ (max_int (pos 0) (negated r) ≡ pos 0)
unfolding max_int is_le ◌-ℤ◌ diff
rest-or-excess (pos zero) = inl refl
rest-or-excess (pos (suc n)) = inr (ground arith)
rest-or-excess (negsuc n) = inl refl
