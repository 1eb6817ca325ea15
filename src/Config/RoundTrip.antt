-- ===== src/Config/RoundTrip.antt =====
-- What `ms_list` of common/config.py and `parse_watermark_seconds` of streaming/stream_job.py read from
-- the texts that name a list of numbers and a duration.
use Prim.Native.Char.{Char}
use Prim.Native.String.{◌++◌ as ◌++ₛ◌}
use text.Mathlib.TextLemmas.{cons-append}
use real_time_data_pipeline.Base.{
  ℕ, ◌≡◌, refl, ap, ◌∙◌, String, Bool, true, false, ◌||◌, List, [], ◌∷◌, map, All, arith,
  if◌then◌else◌, some,
}
use real_time_data_pipeline.Base.Text.{
  is_empty_text, is_space, is_comma, is_colon, has_none, has_none-append, strip, words, join,
  strip_plain, split-join, split_plain, split-append, rstrip_plain, rstrip, rstrip-append,
  lstrip-append, keep_char,
}
use real_time_data_pipeline.Base.Errors.{Outcome, returned}
use real_time_data_pipeline.Value.{ℤ}
use real_time_data_pipeline.Config.{
  ints, ms_list, Environment, get_env, retry_settings, in_seconds, is_s, parse_watermark_seconds,
  scale, thousandth,
}

-- `int(str(n))` gives `n`, and `str(n)` is neither empty nor has a space, a comma or a colon.
pub record IsDecimal (to_int : String → Outcome ℤ) (show : ℤ → String) : Type 0 where
  pub reads : (n : ℤ) → to_int (show n) ≡ returned n
  pub is_full : (n : ℤ) → is_empty_text (show n) ≡ false
  pub is_bare : (n : ℤ) → has_none (λ c. is_space c || is_comma c || is_colon c) (show n) ≡ true

pub has_none-weaken :
    (p q : ℕ → Bool) (s : String)
    → ((c : ℕ) → p c ≡ true → q c ≡ true)
    → has_none q s ≡ true
    → has_none p s ≡ true
unfolding has_none
has_none-weaken p q String.[] k h = refl
has_none-weaken p q (String.◌∷◌ c s) k h =
    ground (arith, k (Prim.Native.Char.code c), has_none-weaken p q s k, h)

pub data TimeUnit : Type 0 where
  millisecond : TimeUnit
  second : TimeUnit
  minute : TimeUnit
  hour : TimeUnit

abbrev pub unit_name : TimeUnit → Bool → String
unit_name millisecond b = if b then "milliseconds" else "millisecond"
unit_name second b = if b then "seconds" else "second"
unit_name minute b = if b then "minutes" else "minute"
unit_name hour b = if b then "hours" else "hour"

-- So many of the unit, in seconds.
abbrev pub unit_seconds : TimeUnit → ℤ → ℤ
unit_seconds millisecond n = thousandth n
unit_seconds second n = scale 1 n
unit_seconds minute n = scale 60 n
unit_seconds hour n = scale 3600 n

no_space-unit_name : (u : TimeUnit) (b : Bool) → has_none is_space (unit_name u b) ≡ true
unfolding has_none
no_space-unit_name millisecond true = refl
no_space-unit_name millisecond false = refl
no_space-unit_name second true = refl
no_space-unit_name second false = refl
no_space-unit_name minute true = refl
no_space-unit_name minute false = refl
no_space-unit_name hour true = refl
no_space-unit_name hour false = refl

is_empty_text-unit_name : (u : TimeUnit) (b : Bool) → is_empty_text (unit_name u b) ≡ false
is_empty_text-unit_name millisecond true = refl
is_empty_text-unit_name millisecond false = refl
is_empty_text-unit_name second true = refl
is_empty_text-unit_name second false = refl
is_empty_text-unit_name minute true = refl
is_empty_text-unit_name minute false = refl
is_empty_text-unit_name hour true = refl
is_empty_text-unit_name hour false = refl

in_seconds-unit_name :
    (u : TimeUnit) (b : Bool) (n : ℤ)
    → in_seconds (rstrip is_s (unit_name u b)) n ≡ returned (unit_seconds u n)
unfolding in_seconds rstrip
in_seconds-unit_name millisecond true n = refl
in_seconds-unit_name millisecond false n = refl
in_seconds-unit_name second true n = refl
in_seconds-unit_name second false n = refl
in_seconds-unit_name minute true n = refl
in_seconds-unit_name minute false n = refl
in_seconds-unit_name hour true n = refl
in_seconds-unit_name hour false n = refl

keep_char_full :
    (b : Bool) (c : Char) (s : String) → is_empty_text s ≡ false → keep_char b c s ≡ String.◌∷◌ c s
keep_char_full b c String.[] e = ground (arith, e)
keep_char_full b c (String.◌∷◌ d s) e = refl

module _ (to_int : String → Outcome ℤ) (show : ℤ → String) (h : IsDecimal to_int show) where
  no_space : (n : ℤ) → has_none is_space (show n) ≡ true
  no_space n = has_none-weaken is_space _ (show n) (λ c e. ground (arith, e)) (h.is_bare n)

  no_comma : (n : ℤ) → has_none is_comma (show n) ≡ true
  no_comma n = has_none-weaken is_comma _ (show n) (λ c e. ground (arith, e)) (h.is_bare n)

  map-show_bare : (ns : List ℤ) → All (λ (v : String). has_none is_comma v ≡ true) (map show ns)
  map-show_bare [] = tt
  map-show_bare (n ∷ ns) = (no_comma n, map-show_bare ns)

  ints-map : (ns : List ℤ) → ints to_int (map show ns) ≡ returned ns
  ints-map [] = refl
  ints-map (n ∷ ns) =
      rw (strip_plain (show n) (no_space n), h.is_full n, h.reads n, ints-map ns) refl

  has_none-join :
      (c : Char) (ns : List ℤ)
      → is_space (Prim.Native.Char.code c) ≡ false
      → has_none is_space (join c (map show ns)) ≡ true
  unfolding join has_none
  has_none-join c [] e = refl
  has_none-join c (n ∷ []) e = no_space n
  has_none-join c (n ∷ m ∷ ns) e =
      has_none-append is_space (show n) (String.◌∷◌ c (join c (map show (m ∷ ns))))
      ∙ ground (arith, e, no_space n, has_none-join c (m ∷ ns) e)

  is_empty_text-join :
      (c : Char) (n : ℤ) (ns : List ℤ) → is_empty_text (join c (map show (n ∷ ns))) ≡ false
  unfolding join
  is_empty_text-join c n [] = h.is_full n
  is_empty_text-join c n (m ∷ ns) = first (show n) (h.is_full n)
    where
      first :
          (s : String)
          → is_empty_text s ≡ false
          → is_empty_text (s ++ₛ String.◌∷◌ c (join c (map show (m ∷ ns)))) ≡ false
      first String.[] e = ground (arith, e)
      first (String.◌∷◌ d s) e =
          rw (cons-append d s (String.◌∷◌ c (join c (map show (m ∷ ns))))) refl

  -- `_ms_list` reads back every list of numbers that is written with commas.
  pub ms_list-join : (ns : List ℤ) → ms_list to_int (join "," (map show ns)) ≡ returned ns
  unfolding ms_list join
  ms_list-join [] = refl
  ms_list-join (n ∷ ns) =
      rw
        (
          strip_plain (join "," (map show (n ∷ ns))) (has_none-join "," (n ∷ ns) refl),
          is_empty_text-join "," n ns,
          split-join is_comma "," (show n) (map show ns) refl (map-show_bare (n ∷ ns)),
        )
        (ints-map (n ∷ ns))

  -- The retry configuration has the schedule and the number of attempts that the environment gives, the
  -- schedule written with commas and possibly empty, where the jitter's text is a float.
  pub retry_settings-get_env :
      (to_float : String → Outcome String) (env : Environment) (ns : List ℤ) (n : ℤ)
      (ratio : String)
      → env "RETRY_BACKOFF_SCHEDULE_MS" ≡ some (join "," (map show ns))
      → env "RETRY_MAX_ATTEMPTS" ≡ some (show n)
      → to_float (get_env env "RETRY_JITTER_RATIO" "0.1") ≡ returned ratio
      → retry_settings to_int env to_float
        ≡ returned (record { backoff_schedule_ms = ns; max_attempts = n; jitter_ratio = ratio })
  unfolding retry_settings
  retry_settings-get_env to_float env ns n ratio e k r =
      ground (arith, e, k, r, ms_list-join ns, h.reads n)

  words-two :
      (n : ℤ) (unit : String)
      → has_none is_space unit ≡ true
      → is_empty_text unit ≡ false
      → words (show n ++ₛ String.◌∷◌ " " unit) ≡ show n ∷ unit ∷ []
  unfolding words
  words-two n unit e k =
      rw
        (
          split-append is_space " " (show n) unit refl (no_space n),
          split_plain is_space unit e,
          h.is_full n,
          k,
        )
        refl

  -- A number and a unit, with the spaces around them taken off.
  strip-two :
      (n : ℤ) (unit : String)
      → has_none is_space unit ≡ true
      → is_empty_text unit ≡ false
      → strip (show n ++ₛ String.◌∷◌ " " unit) ≡ show n ++ₛ String.◌∷◌ " " unit
  unfolding strip
  strip-two n unit e k =
      ap (rstrip is_space) (lstrip-append (show n) (String.◌∷◌ " " unit) (no_space n) (h.is_full n))
      ∙ rstrip-append is_space (show n) (String.◌∷◌ " " unit)
          (ap (keep_char true " ") (rstrip_plain is_space unit e) ∙ keep_char_full true " " unit k)
          refl

  -- A number, a space and a unit in the singular or in the plural, as in `10 minutes`, is read as that
  -- many seconds; milliseconds are cut off to whole seconds.
  pub parse_watermark_seconds-unit_name :
      (n : ℤ) (u : TimeUnit) (is_plural : Bool)
      → parse_watermark_seconds to_int (show n ++ₛ String.◌∷◌ " " (unit_name u is_plural))
        ≡ returned (unit_seconds u n)
  unfolding parse_watermark_seconds
  parse_watermark_seconds-unit_name n u b =
      let e = no_space-unit_name u b in
      let k = is_empty_text-unit_name u b in
      rw (strip-two n (unit_name u b) e k, words-two n (unit_name u b) e k, h.reads n)
        (in_seconds-unit_name u b n)
