-- ===== src/Config/Strokes.antt =====
-- Numbers written as their sign and so many strokes: a way of writing that can be read back.
use Prim.Native.Char.{code}
use real_time_data_pipeline.Base.{
  ℕ, zero, suc, ◌≡◌, refl, ap, String, true, false, ◌==◌, ◌||◌, if◌then◌else◌,
}
use real_time_data_pipeline.Base.Text.{is_empty_text, is_space, is_comma, is_colon, has_none}
use real_time_data_pipeline.Base.Errors.{Outcome, returned, raised, value_error}
use real_time_data_pipeline.Value.{ℤ, pos, negsuc}
use real_time_data_pipeline.Config.RoundTrip.{IsDecimal}

abbrev strokes : ℕ → String
strokes zero = String.[]
strokes (suc n) = String.◌∷◌ "|" (strokes n)

abbrev count : String → ℕ
count String.[] = 0
count (String.◌∷◌ c s) = suc (count s)

abbrev pub show : ℤ → String
show (pos n) = String.◌∷◌ "+" (strokes n)
show (negsuc n) = String.◌∷◌ "-" (strokes n)

abbrev pub to_int : String → Outcome ℤ
to_int String.[] = raised (value_error "invalid literal for int()")
to_int (String.◌∷◌ c s) =
    if code c == 43 then returned (pos (count s)) else returned (negsuc (count s))

count-strokes : (n : ℕ) → count (strokes n) ≡ n
count-strokes zero = refl
count-strokes (suc n) = ap suc (count-strokes n)

strokes_bare : (n : ℕ) → has_none (λ c. is_space c || is_comma c || is_colon c) (strokes n) ≡ true
unfolding has_none
strokes_bare zero = refl
strokes_bare (suc n) = strokes_bare n

to_int-show : (n : ℤ) → to_int (show n) ≡ returned n
to_int-show (pos n) = ap (λ k. returned (pos k)) (count-strokes n)
to_int-show (negsuc n) = ap (λ k. returned (negsuc k)) (count-strokes n)

is_empty_text-show : (n : ℤ) → is_empty_text (show n) ≡ false
is_empty_text-show (pos n) = refl
is_empty_text-show (negsuc n) = refl

show_bare : (n : ℤ) → has_none (λ c. is_space c || is_comma c || is_colon c) (show n) ≡ true
unfolding has_none
show_bare (pos n) = strokes_bare n
show_bare (negsuc n) = strokes_bare n

pub show-IsDecimal : IsDecimal to_int show
show-IsDecimal = record { reads = to_int-show; is_full = is_empty_text-show; is_bare = show_bare }
