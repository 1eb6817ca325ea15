-- ===== src/Base/Text.antt =====
-- Python's methods on texts, for ASCII: `strip`, `rstrip`, `split`, `splitlines` and `join`.
use Prim.Native.Char.{Char, code}
use Prim.Native.Nat.{ℕ}
use Prim.Native.String.{String, ◌++◌}
use text.Mathlib.TextLemmas.{nil-append, cons-append}
use mathlib.Core.Path.{◌≡◌, refl, ap, ◌∙◌}
use mathlib.Core.Bool.{Bool, true, false, not, ◌&&◌, ◌||◌}
use mathlib.Core.List.{List, [], ◌∷◌}
use native.Mathlib.Omega.{arith}
use real_time_data_pipeline.Base.Tests.{leb, ◌==◌, if◌then◌else◌}
use real_time_data_pipeline.Base.Lists.{keep, All}

abbrev pub is_empty_text : String → Bool
is_empty_text String.[] = true
is_empty_text (String.◌∷◌ c s) = false

-- A space, a tab, or a line's end.
abbrev pub is_space : ℕ → Bool
is_space c = c == 32 || leb 9 c && leb c 13

abbrev pub is_newline : ℕ → Bool
is_newline c = c == 10

abbrev pub is_comma : ℕ → Bool
is_comma c = c == 44

abbrev pub is_colon : ℕ → Bool
is_colon c = c == 58

-- No character of the text passes the test.
unfoldable pub has_none : (ℕ → Bool) → String → Bool
has_none p String.[] = true
has_none p (String.◌∷◌ c s) = not (p (code c)) && has_none p s

-- `s.lstrip()`, `s.rstrip(…)` with the characters that pass a test, and `s.strip()`.
unfoldable pub lstrip : String → String
lstrip String.[] = String.[]
lstrip (String.◌∷◌ c s) = let rest = lstrip s in if is_space (code c) then rest else String.◌∷◌ c s

abbrev pub keep_char : Bool → Char → String → String
keep_char b c String.[] = if b then String.[] else String.◌∷◌ c String.[]
keep_char b c (String.◌∷◌ d s) = String.◌∷◌ c (String.◌∷◌ d s)

unfoldable pub rstrip : (ℕ → Bool) → String → String
rstrip p String.[] = String.[]
rstrip p (String.◌∷◌ c s) = keep_char (p (code c)) c (rstrip p s)

unfoldable pub strip : String → String
unfolding lstrip rstrip
strip s = rstrip is_space (lstrip s)

abbrev pub push_front : Char → List String → List String
push_front c [] = String.◌∷◌ c String.[] ∷ []
push_front c (w ∷ ws) = String.◌∷◌ c w ∷ ws

-- `s.split(c)`, for the characters that pass a test.
unfoldable pub split : (ℕ → Bool) → String → List String
split p String.[] = String.[] ∷ []
split p (String.◌∷◌ c s) =
    let rest = split p s in if p (code c) then String.[] ∷ rest else push_front c rest

-- `s.split()`
unfoldable pub words : String → List String
unfolding split
words s = keep (λ w. not (is_empty_text w)) (split is_space s)

-- `s.splitlines()`, which has no empty last line.
abbrev pub without_end : List String → List String
without_end [] = []
without_end (w ∷ []) = if is_empty_text w then [] else w ∷ []
without_end (w ∷ v ∷ ws) = w ∷ without_end (v ∷ ws)

unfoldable pub splitlines : String → List String
unfolding split
splitlines s = without_end (split is_newline s)

-- `sep.join(ws)`, for a separator of one character.
unfoldable pub join : Char → List String → String
join c [] = String.[]
join c (w ∷ []) = w
join c (w ∷ v ∷ ws) = w ++ String.◌∷◌ c (join c (v ∷ ws))

module _ (p : ℕ → Bool) where
  pub has_none-append : (s t : String) → has_none p (s ++ t) ≡ (has_none p s && has_none p t)
  unfolding has_none
  has_none-append String.[] t = rw (nil-append t) refl
  has_none-append (String.◌∷◌ c s) t = rw (cons-append c s t) (ground (arith, has_none-append s t))

  has_none-tail : (c : Char) (s : String) → has_none p (String.◌∷◌ c s) ≡ true → has_none p s ≡ true
  unfolding has_none
  has_none-tail c s h = ground (arith, h)

  pub rstrip_plain : (s : String) → has_none p s ≡ true → rstrip p s ≡ s
  unfolding rstrip has_none
  rstrip_plain String.[] h = refl
  rstrip_plain (String.◌∷◌ c String.[]) h = ground (arith, h)
  rstrip_plain (String.◌∷◌ c (String.◌∷◌ d s)) h =
      ap (keep_char (p (code c)) c)
        (rstrip_plain (String.◌∷◌ d s) (has_none-tail c (String.◌∷◌ d s) h))

  pub split_plain : (s : String) → has_none p s ≡ true → split p s ≡ s ∷ []
  unfolding split has_none
  split_plain String.[] h = refl
  split_plain (String.◌∷◌ c s) h = ground (arith, h, split_plain s)

  pub split-append :
      (c : Char) (s t : String)
      → p (code c) ≡ true
      → has_none p s ≡ true
      → split p (s ++ String.◌∷◌ c t) ≡ s ∷ split p t
  unfolding split has_none
  split-append c String.[] t e h = rw (nil-append (String.◌∷◌ c t)) (ground (arith, e))
  split-append c (String.◌∷◌ d s) t e h =
      rw (cons-append d s (String.◌∷◌ c t)) (ground (arith, h, split-append c s t e))

  pub split-join :
      (c : Char) (w : String) (ws : List String)
      → p (code c) ≡ true
      → All (λ (v : String). has_none p v ≡ true) (w ∷ ws)
      → split p (join c (w ∷ ws)) ≡ w ∷ ws
  unfolding join
  split-join c w [] e h = split_plain w h.0
  split-join c w (v ∷ ws) e h =
      split-append c w (join c (v ∷ ws)) e h.0 ∙ ap (λ l. w ∷ l) (split-join c v ws e h.1)

pub lstrip_plain : (s : String) → has_none is_space s ≡ true → lstrip s ≡ s
unfolding lstrip has_none
lstrip_plain String.[] h = refl
lstrip_plain (String.◌∷◌ c s) h = ground (arith, h)

pub strip_plain : (s : String) → has_none is_space s ≡ true → strip s ≡ s
unfolding strip
strip_plain s h = ap (rstrip is_space) (lstrip_plain s h) ∙ rstrip_plain is_space s h

pub rstrip-append :
    (p : ℕ → Bool) (s t : String)
    → rstrip p t ≡ t
    → is_empty_text t ≡ false
    → rstrip p (s ++ t) ≡ s ++ t
unfolding rstrip
rstrip-append p String.[] t h e = rw (nil-append t) h
rstrip-append p (String.◌∷◌ c String.[]) (String.◌∷◌ d t) h e =
    rw (cons-append c String.[] (String.◌∷◌ d t), nil-append (String.◌∷◌ d t), h) refl
rstrip-append p (String.◌∷◌ c (String.◌∷◌ d s)) t h e =
    rw (cons-append c (String.◌∷◌ d s) t, rstrip-append p (String.◌∷◌ d s) t h e, cons-append d s t)
      refl
rstrip-append p (String.◌∷◌ c String.[]) String.[] h e = ground (arith, e)

pub lstrip-append :
    (s t : String) → has_none is_space s ≡ true → is_empty_text s ≡ false → lstrip (s ++ t) ≡ s ++ t
unfolding lstrip has_none
lstrip-append String.[] t h e = ground (arith, e)
lstrip-append (String.◌∷◌ c s) t h e = rw (cons-append c s t) (ground (arith, h))

pub has_none-join :
    (p : ℕ → Bool) (c : Char) (ws : List String)
    → p (code c) ≡ false
    → All (λ (v : String). has_none p v ≡ true) ws
    → has_none p (join c ws) ≡ true
unfolding join has_none
has_none-join p c [] e h = refl
has_none-join p c (w ∷ []) e h = h.0
has_none-join p c (w ∷ v ∷ ws) e h =
    has_none-append p w (String.◌∷◌ c (join c (v ∷ ws)))
    ∙ ground (arith, e, h.0, has_none-join p c (v ∷ ws) e h.1)
