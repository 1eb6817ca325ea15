-- ===== src/Bench/Scenario/Offsets/Listing.antt =====
-- What `topic_end_offsets` and `topic_count` of bench/run_scenario.py read from the listing of
-- `kafka-get-offsets.sh`.
use Prim.Native.String.{◌++◌ as ◌++ₛ◌}
use text.Mathlib.TextEquality.{eq_iff}
use real_time_data_pipeline.Base.{
  ℕ, ◌≡◌, refl, sym, ap, ◌∙◌, String, Bool, true, false, ◌||◌, List, [], ◌∷◌, ◌++◌, map, All, arith,
}
use real_time_data_pipeline.Base.Text.{
  is_space, is_newline, is_comma, is_colon, has_none, has_none-join, strip, split, split-append,
  split-join, strip_plain, join, splitlines, without_end,
}
use real_time_data_pipeline.Base.Errors.{returned}
use real_time_data_pipeline.Value.{ℤ, pos}
use real_time_data_pipeline.Value.Int.{same_int, sum_int}
use real_time_data_pipeline.Config.RoundTrip.{IsDecimal, has_none-weaken}
use real_time_data_pipeline.Bench.Scenario.{Host, dexec}
use real_time_data_pipeline.Bench.Scenario.Offsets.{
  Offsets, put, offsets, read_lines, topic_end_offsets, topic_count, get_offsets,
}

-- No partition of the dict is `p`, and the partitions to come are new, each in its turn.
abbrev pub IsNew : ℤ → Offsets → Type 0
IsNew p out = All (λ (e : ℤ × ℤ). same_int e.0 p ≡ false) out

abbrev pub AreNew : Offsets → Offsets → Type 0
AreNew out [] = Unit
AreNew out ((p, o) ∷ ps) = IsNew p out × AreNew (out ++ (p, o) ∷ []) ps

put_new : (p o : ℤ) (out : Offsets) → IsNew p out → put p o out ≡ out ++ (p, o) ∷ []
unfolding put
put_new p o [] h = refl
put_new p o ((q, n) ∷ out) h = rw (h.0) (ap (λ l. (q, n) ∷ l) (put_new p o out h.1))

append_one : (out : Offsets) (e : ℤ × ℤ) (ps : Offsets) → (out ++ e ∷ []) ++ ps ≡ out ++ e ∷ ps
append_one [] e ps = refl
append_one (x ∷ out) e ps = ap (λ l. x ∷ l) (append_one out e ps)

append_nil : (out : Offsets) → out ++ [] ≡ out
append_nil [] = refl
append_nil (x ∷ out) = ap (λ l. x ∷ l) (append_nil out)

-- What a topic's name is without.
abbrev pub is_separator : ℕ → Bool
is_separator c = is_space c || is_comma c || is_colon c

module _ {W : Type 0} (host : Host W) (show : ℤ → String) (h : IsDecimal host.to_int show)
    (topic : String) (plain : has_none is_separator topic ≡ true) where
  -- A line of the tool, and its output.
  abbrev pub line : ℤ × ℤ → String
  line e = join ":" (topic ∷ show e.0 ∷ show e.1 ∷ [])

  abbrev pub listing : Offsets → String
  listing [] = String.[]
  listing (e ∷ ps) = line e ++ₛ String.◌∷◌ "\n" (listing ps)

  weaken :
      (p : ℕ → Bool) (s : String)
      → ((c : ℕ) → p c ≡ true → is_separator c ≡ true)
      → has_none is_separator s ≡ true
      → has_none p s ≡ true
  weaken p s k = has_none-weaken p is_separator s k

  parts_plain :
      (p : ℕ → Bool) (e : ℤ × ℤ)
      → ((c : ℕ) → p c ≡ true → is_separator c ≡ true)
      → All (λ (v : String). has_none p v ≡ true) (topic ∷ show e.0 ∷ show e.1 ∷ [])
  parts_plain p e k = (
    weaken p topic k plain,
    (weaken p (show e.0) k (h.is_bare e.0), (weaken p (show e.1) k (h.is_bare e.1), tt)),
  )

  split-line : (e : ℤ × ℤ) → split is_colon (strip (line e)) ≡ topic ∷ show e.0 ∷ show e.1 ∷ []
  split-line e =
      ap (split is_colon) (
        strip_plain (line e) (
          has_none-join is_space ":" (topic ∷ show e.0 ∷ show e.1 ∷ []) refl
            (parts_plain is_space e (λ c d. ground (arith, d)))))
      ∙ split-join is_colon ":" topic (show e.0 ∷ show e.1 ∷ []) refl
          (parts_plain is_colon e (λ c d. ground (arith, d)))

  split-listing : (ps : Offsets) → split is_newline (listing ps) ≡ map line ps ++ String.[] ∷ []
  unfolding split
  split-listing [] = refl
  split-listing (e ∷ ps) =
      split-append is_newline "\n" (line e) (listing ps) refl (
        has_none-join is_newline ":" (topic ∷ show e.0 ∷ show e.1 ∷ []) refl
          (parts_plain is_newline e (λ c d. ground (arith, d))))
      ∙ ap (λ l. line e ∷ l) (split-listing ps)

  without_end_last : (ws : List String) → without_end (ws ++ String.[] ∷ []) ≡ ws
  without_end_last [] = refl
  without_end_last (w ∷ []) = refl
  without_end_last (w ∷ v ∷ ws) = ap (λ l. w ∷ l) (without_end_last (v ∷ ws))

  splitlines-listing : (ps : Offsets) → splitlines (listing ps) ≡ map line ps
  unfolding splitlines
  splitlines-listing ps = ap without_end (split-listing ps) ∙ without_end_last (map line ps)

  read_lines-map :
      (ps out : Offsets)
      → AreNew out ps
      → read_lines host.to_int topic (map line ps) out ≡ returned (out ++ ps)
  unfolding read_lines
  read_lines-map [] out k = sym (ap returned (append_nil out))
  read_lines-map ((p, o) ∷ ps) out k =
      rw (split-line (p, o), (eq_iff topic topic).1 refl, h.reads o, h.reads p, put_new p o out k.0)
        (read_lines-map ps (out ++ (p, o) ∷ []) k.1 ∙ ap returned (append_one out (p, o) ps))

  -- Where the tool lists each partition of the topic once, a line for each, the count of the topic is the
  -- sum of the end offsets, and the state is that after the call.
  pub topic_count-listing :
      (ps : Offsets) (w w' : W) (stderr : String)
      → AreNew [] ps
      → dexec host "rtdp-kafka1" (get_offsets topic) w
        ≡ (returned (record { returncode = pos 0; stdout = listing ps; stderr = stderr }), w')
      → topic_count host topic w ≡ (returned (sum_int (offsets ps)), w')
  unfolding topic_count topic_end_offsets same_int
  topic_count-listing ps w w' stderr k e =
      rw (e, splitlines-listing ps, read_lines-map ps [] k) refl
