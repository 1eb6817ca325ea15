-- ===== src/Base/Dict.antt =====
-- Python's `dict` from texts to values, as an association list in insertion order.
use Prim.Native.Nat.{ℕ, ◌+◌}
use Prim.Native.String.{String}
use mathlib.Core.Path.{◌≡◌, refl}
use mathlib.Core.Option.{Option, none, some}
use mathlib.Core.List.{List, [], ◌∷◌}
use native.Mathlib.Omega.{arith}
use text.Mathlib.Text.{◌==◌}
use text.Mathlib.TextEquality.{eq_iff}
use real_time_data_pipeline.Base.Tests.{if◌then◌else◌}

abbrev pub Dict {ℓ} : Type ℓ → Type ℓ
Dict V = List (String × V)

module _ {ℓ} {V : Type ℓ} where
  -- `d.get(k)`
  unfoldable pub lookup : String → Dict V → Option V
  lookup k [] = none
  lookup k ((j, v) ∷ d) = if j == k then some v else lookup k d

  -- `d[k] = v`
  unfoldable pub insert : String → V → Dict V → Dict V
  insert k v [] = (k, v) ∷ []
  insert k v ((j, w) ∷ d) = if j == k then (j, v) ∷ d else (j, w) ∷ insert k v d

  pub lookup-insert :
      (k j : String) (v : V) (d : Dict V)
      → lookup j (insert k v d) ≡ (if k == j then some v else lookup j d)
  unfolding lookup insert
  lookup-insert k j v [] = refl
  lookup-insert k j v ((i, w) ∷ d) =
      ground (arith, eq_iff k j, eq_iff i k, eq_iff i j, lookup-insert k j v d)

-- `d.get(k, 0)`
unfoldable pub count_of : String → Dict ℕ → ℕ
unfolding lookup
count_of k d = elim (lookup k d) [ none ↦ 0 | some n ↦ n ]

-- `d[k] = d.get(k, 0) + n`
unfoldable pub bump : String → ℕ → Dict ℕ → Dict ℕ
unfolding insert count_of
bump k n d = insert k (count_of k d + n) d

-- What all counters of a dict add up to.
unfoldable pub total : Dict ℕ → ℕ
total [] = 0
total ((j, n) ∷ d) = n + total d

pub total-bump : (k : String) (n : ℕ) (d : Dict ℕ) → total (bump k n d) ≡ total d + n
unfolding total bump
total-bump k n [] = omega arith
total-bump k n ((j, m) ∷ d) = ground (arith, total-bump k n d)

pub count_of-bump :
    (k j : String) (n : ℕ) (d : Dict ℕ)
    → count_of j (bump k n d) ≡ (if k == j then count_of j d + n else count_of j d)
unfolding count_of bump
count_of-bump k j n d = ground (arith, lookup-insert k j (count_of k d + n) d, eq_iff k j)
