-- ===== src/Bench/Analytics/Texts.antt =====
-- Python's order on texts, by their code points, and on tuples of texts.
use Prim.Native.Char.{code}
use Prim.Native.String.{String}
use text.Mathlib.TextEquality.{codes_equal}
use real_time_data_pipeline.Base.{
  ℕ, ◌≡◌, refl, ap, ◌∙◌, Bool, true, false, List, [], ◌∷◌, leb, if◌then◌else◌, arith,
}
use real_time_data_pipeline.Bench.Analytics.Order.{IsOrder}

leb-IsOrder : IsOrder leb
leb-IsOrder = record {
  total = λ a b h. ground (arith, h);
  antisym = λ a b h k. ground (arith, h, k);
  trans = λ a b c h k. ground (arith, h, k);
}

module _ {A : Type 0} (le : A → A → Bool) where
  -- The first difference decides.
  unfoldable pub lex : List A → List A → Bool
  lex [] ys = true
  lex (x ∷ xs) [] = false
  lex (x ∷ xs) (y ∷ ys) =
      let rest = lex xs ys in if le x y then (if le y x then rest else true) else false

  module _ (order : IsOrder le) where
    lex-total : (xs ys : List A) → lex xs ys ≡ false → lex ys xs ≡ true
    unfolding lex
    lex-total [] ys h = ground (arith, h)
    lex-total (x ∷ xs) [] h = refl
    lex-total (x ∷ xs) (y ∷ ys) h =
        ground (arith, h, lex-total xs ys, order.total x y, order.total y x)

    lex-antisym : (xs ys : List A) → lex xs ys ≡ true → lex ys xs ≡ true → xs ≡ ys
    unfolding lex
    lex-antisym [] [] h k = refl
    lex-antisym [] (y ∷ ys) h k = ground (arith, k)
    lex-antisym (x ∷ xs) [] h k = ground (arith, h)
    lex-antisym (x ∷ xs) (y ∷ ys) h k = ground (arith, h, k, lex-antisym xs ys, order.antisym x y)

    lex_trans : (xs ys zs : List A) → lex xs ys ≡ true → lex ys zs ≡ true → lex xs zs ≡ true
    unfolding lex
    lex_trans [] ys zs h k = refl
    lex_trans (x ∷ xs) [] zs h k = ground (arith, h)
    lex_trans (x ∷ xs) (y ∷ ys) [] h k = ground (arith, k)
    lex_trans (x ∷ xs) (y ∷ ys) (z ∷ zs) h k = ground (
      arith,
      h,
      k,
      lex_trans xs ys zs,
      order.trans x y z,
      order.trans y z x,
      order.trans z x y,
      order.total x z,
    )

    lex-IsOrder : IsOrder lex
    lex-IsOrder = record { total = lex-total; antisym = lex-antisym; trans = lex_trans }

abbrev codes : String → List ℕ
codes String.[] = []
codes (String.◌∷◌ c s) = code c ∷ codes s

-- `s <= t`, for texts and for tuples of texts.
abbrev pub le_text : String → String → Bool
le_text s t = lex leb (codes s) (codes t)

abbrev pub le_row : List String → List String → Bool
le_row a b = lex le_text a b

codes-eq : (s t : String) → codes s ≡ codes t → s ≡ t
codes-eq String.[] String.[] h = refl
codes-eq String.[] (String.◌∷◌ d t) h = ground (arith, h)
codes-eq (String.◌∷◌ c s) String.[] h = ground (arith, h)
codes-eq (String.◌∷◌ c s) (String.◌∷◌ d t) h =
    let heads : code c ≡ code d = ground (arith, h) in
    let tails : codes s ≡ codes t = ground (arith, h) in
    let e = codes_equal c d (ground (arith, heads)) in
    ap (λ k. String.◌∷◌ k s) e ∙ ap (λ r. String.◌∷◌ d r) (codes-eq s t tails)

le_text-IsOrder : IsOrder le_text
le_text-IsOrder =
    let order = lex-IsOrder leb leb-IsOrder in
    record {
      total = λ s t. order.total (codes s) (codes t);
      antisym = λ s t h k. codes-eq s t (order.antisym (codes s) (codes t) h k);
      trans = λ s t u. order.trans (codes s) (codes t) (codes u);
    }

pub le_row-IsOrder : IsOrder le_row
le_row-IsOrder = lex-IsOrder le_text le_text-IsOrder
