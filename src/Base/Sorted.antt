-- ===== src/Base/Sorted.antt =====
-- Python's `sorted`, by a key that is a number: stable, and least first.
use Prim.Native.Nat.{ℕ, zero, suc, ◌≤◌, ◌<◌}
use mathlib.Core.Path.{◌≡◌, refl}
use mathlib.Core.Logic.{inl, inr}
use mathlib.Core.List.{List, [], ◌∷◌}
use native.Mathlib.Omega.{arith}
use real_time_data_pipeline.Base.Tests.{leb, if◌then◌else◌, Bool-cases, leb→le}
use real_time_data_pipeline.Base.Lists.{length, get_or, All}

module _ {ℓ} {A : Type ℓ} (key : A → ℕ) where
  unfoldable pub insert_sorted : A → List A → List A
  insert_sorted x [] = x ∷ []
  insert_sorted x (y ∷ ys) =
      let rest = insert_sorted x ys in if leb (key x) (key y) then x ∷ y ∷ ys else y ∷ rest

  unfoldable pub sort_by : List A → List A
  unfolding insert_sorted
  sort_by [] = []
  sort_by (x ∷ xs) = insert_sorted x (sort_by xs)

  abbrev pub IsSorted : List A → Type 0
  IsSorted [] = Unit
  IsSorted (x ∷ xs) = All (λ (y : A). key x ≤ key y) xs × IsSorted xs

  insert_sorted-All {κ} :
      (P : A → Type κ) (x : A) (ys : List A) → P x → All P ys → All P (insert_sorted x ys)
  unfolding insert_sorted
  insert_sorted-All P x [] h k = (h, tt)
  insert_sorted-All P x (y ∷ ys) h k = elim (Bool-cases (leb (key x) (key y))) [
    | inl e ↦ rw e (h, k)
    | inr e ↦ rw e (k.0, insert_sorted-All P x ys h k.1)
  ]

  All-weaken :
      (x y : A) (ys : List A)
      → key x ≤ key y
      → All (λ (z : A). key y ≤ key z) ys
      → All (λ (z : A). key x ≤ key z) ys
  All-weaken x y [] h k = tt
  All-weaken x y (z ∷ zs) h k = (omega (arith, h, k.0), All-weaken x y zs h k.1)

  insert_sorted-IsSorted : (x : A) (ys : List A) → IsSorted ys → IsSorted (insert_sorted x ys)
  unfolding insert_sorted
  insert_sorted-IsSorted x [] h = (tt, tt)
  insert_sorted-IsSorted x (y ∷ ys) h = elim (Bool-cases (leb (key x) (key y))) [
    | inl e ↦ let k = leb→le (key x) (key y) e in rw e ((k, All-weaken x y ys k h.0), h)
    | inr e ↦ rw e (
      insert_sorted-All (λ z. key y ≤ key z) x ys (ground (arith, e)) h.0,
      insert_sorted-IsSorted x ys h.1,
    )
  ]

  pub sort_by-IsSorted : (xs : List A) → IsSorted (sort_by xs)
  unfolding sort_by
  sort_by-IsSorted [] = tt
  sort_by-IsSorted (x ∷ xs) = insert_sorted-IsSorted x (sort_by xs) (sort_by-IsSorted xs)

  pub sort_by-All {κ} : (P : A → Type κ) (xs : List A) → All P xs → All P (sort_by xs)
  unfolding sort_by
  sort_by-All P [] h = tt
  sort_by-All P (x ∷ xs) h = insert_sorted-All P x (sort_by xs) h.0 (sort_by-All P xs h.1)

  length-insert_sorted : (x : A) (ys : List A) → length (insert_sorted x ys) ≡ suc (length ys)
  unfolding insert_sorted
  length-insert_sorted x [] = refl
  length-insert_sorted x (y ∷ ys) = ground (arith, length-insert_sorted x ys)

  pub length-sort_by : (xs : List A) → length (sort_by xs) ≡ length xs
  unfolding sort_by
  length-sort_by [] = refl
  length-sort_by (x ∷ xs) = omega (arith, length-insert_sorted x (sort_by xs), length-sort_by xs)

  All-insert_sorted {κ} :
      (P : A → Type κ) (x : A) (ys : List A) → All P (insert_sorted x ys) → P x × All P ys
  unfolding insert_sorted
  All-insert_sorted P x [] = λ h. h
  All-insert_sorted P x (y ∷ ys) = elim (Bool-cases (leb (key x) (key y))) [
    | inl e ↦ rw e (λ h. (h.0, h.1))
    | inr e ↦ rw e (λ h. let k = All-insert_sorted P x ys h.1 in (k.0, (h.0, k.1)))
  ]

  -- What holds of the sorted elements holds of the elements.
  pub All-sort_by {κ} : (P : A → Type κ) (xs : List A) → All P (sort_by xs) → All P xs
  unfolding sort_by
  All-sort_by P [] h = tt
  All-sort_by P (x ∷ xs) h =
      let k = All-insert_sorted P x (sort_by xs) h in (k.0, All-sort_by P xs k.1)

All-get_or :
    (x : ℕ) (ys : List ℕ) (i : ℕ) → All (λ (y : ℕ). x ≤ y) ys → i < length ys → x ≤ get_or ys i 0
All-get_or x [] i h lt = absurd (omega (arith, lt))
All-get_or x (y ∷ ys) zero h lt = h.0
All-get_or x (y ∷ ys) (suc i) h lt = All-get_or x ys i h.1 (omega (arith, lt))

-- Later elements of sorted numbers are no smaller.
pub get_or_mono :
    (xs : List ℕ) (i j : ℕ)
    → IsSorted (λ v. v) xs
    → i ≤ j
    → j < length xs
    → get_or xs i 0 ≤ get_or xs j 0
get_or_mono [] i j h le lt = absurd (omega (arith, lt))
get_or_mono (x ∷ xs) zero zero h le lt = omega arith
get_or_mono (x ∷ xs) zero (suc j) h le lt = All-get_or x xs j h.0 (omega (arith, lt))
get_or_mono (x ∷ xs) (suc i) zero h le lt = absurd (omega (arith, le))
get_or_mono (x ∷ xs) (suc i) (suc j) h le lt =
    get_or_mono xs i j h.1 (omega (arith, le)) (omega (arith, lt))
