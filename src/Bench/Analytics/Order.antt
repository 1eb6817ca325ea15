-- ===== src/Bench/Analytics/Order.antt =====
-- Sorted rows are equal exactly where the rows are the same up to their order (bench/analytics_bench.py).
use mathlib.Core.List.{Permᴰ}
use mathlib.Core.List.Permᴰ
use real_time_data_pipeline.Base.{
  ◌≡◌, refl, ap, ◌∙◌, Bool, true, false, List, [], ◌∷◌, arith, Bool-cases, inl, inr,
}
use real_time_data_pipeline.Bench.Analytics.{insert_row, sorted}

-- A total order with a Boolean test.
pub record IsOrder {A : Type 0} (le : A → A → Bool) : Type 0 where
  pub total : (a b : A) → le a b ≡ false → le b a ≡ true
  pub antisym : (a b : A) → le a b ≡ true → le b a ≡ true → a ≡ b
  pub trans : (a b c : A) → le a b ≡ true → le b c ≡ true → le a c ≡ true

module _ {A : Type 0} (le : A → A → Bool) where
  insert_row-perm : (x : A) (ys : List A) → Permᴰ (insert_row le x ys) (x ∷ ys)
  unfolding insert_row
  insert_row-perm x [] = Permᴰ.refl (x ∷ [])
  insert_row-perm x (y ∷ ys) = elim (Bool-cases (le x y)) [
    | inl e ↦ rw e (Permᴰ.refl (x ∷ y ∷ ys))
    | inr e ↦ rw e (Permᴰ.trans (Permᴰ.cons refl (insert_row-perm x ys)) (Permᴰ.swap refl refl))
  ]

  pub sorted-perm : (xs : List A) → Permᴰ (sorted le xs) xs
  unfolding sorted
  sorted-perm [] = Permᴰ.nil
  sorted-perm (x ∷ xs) =
      Permᴰ.trans (insert_row-perm x (sorted le xs)) (Permᴰ.cons refl (sorted-perm xs))

  module _ (order : IsOrder le) where
    insert_row_comm :
        (x y : A) (zs : List A)
        → insert_row le x (insert_row le y zs) ≡ insert_row le y (insert_row le x zs)
    unfolding insert_row
    insert_row_comm x y [] = ground (arith, order.total x y, order.antisym x y)
    insert_row_comm x y (z ∷ zs) =
        let ih = insert_row_comm x y zs in
        elim (Bool-cases (le y z)) [
          | inl yz ↦ rw yz (elim (Bool-cases (le x z)) [
            | inl xz ↦ rw xz (ground (arith, order.total x y, order.antisym x y, yz, xz))
            | inr xz ↦ rw xz (ground (arith, order.total x y, order.trans x y z, yz, xz))
          ])
          | inr yz ↦ rw yz (elim (Bool-cases (le x z)) [
            | inl xz ↦ rw xz (ground (arith, order.total y x, order.trans y x z, yz, xz))
            | inr xz ↦ rw xz (ground (arith, ih, yz, xz))
          ])
        ]

    pub sorted-Perm : {xs ys : List A} → Permᴰ xs ys → sorted le xs ≡ sorted le ys
    unfolding sorted
    sorted-Perm Permᴰ.nil = refl
    sorted-Perm (Permᴰ.cons {a = a} {b = b} {l₁ = l} {l₂ = m} e p) =
        ap (insert_row le a) (sorted-Perm p) ∙ ap (λ v. insert_row le v (sorted le m)) e
    sorted-Perm (Permᴰ.swap {a = a} {b = b} {a' = c} {l = l} e f) =
        insert_row_comm a b (sorted le l)
        ∙ ap (λ v. insert_row le v (insert_row le a (sorted le l))) f
        ∙ ap (λ v. insert_row le c (insert_row le v (sorted le l))) e
    sorted-Perm (Permᴰ.trans p q) = sorted-Perm p ∙ sorted-Perm q
