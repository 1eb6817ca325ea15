-- ===== src/Stream/Batch/Routing.antt =====
-- Where `_process_batch` of streaming/stream_job.py sends each row of a batch.
use text.Mathlib.Text.{◌==◌ as str_eq}
use mathlib.Core.Path.{subst}
use real_time_data_pipeline.Base.{
  ℕ, ◌+◌, ◌*◌, ◌&&◌, inl, inr, ap, ◌∙◌, Bool-cases, String, ◌≡◌, refl, sym, Bool, true, false, not,
  Option, none, some, List, [], ◌∷◌, arith, length, keep, ltb, if◌then◌else◌,
}
use real_time_data_pipeline.Stream.Batch.{
  BatchRow, StreamConf, Routed, before, not_before, cutoff_of, route,
}

abbrev pub is_good : BatchRow → Bool
is_good r = not r.unparseable

-- A row that parses and has no event time.
abbrev pub is_timeless : BatchRow → Bool
is_timeless r = elim r.event_time [ none ↦ not r.unparseable | some _ ↦ false ]

split_unparseable :
    (batch : List BatchRow)
    → length (keep (λ (r : BatchRow). r.unparseable) batch) + length (keep is_good batch)
      ≡ length batch
split_unparseable [] = omega arith
split_unparseable (r ∷ batch) = ground (arith, split_unparseable batch)

split_times :
    (cutoff : ℕ) (batch : List BatchRow)
    → length (keep (λ (r : BatchRow). before cutoff r.event_time) (keep is_good batch))
        + length (keep (λ (r : BatchRow). not_before cutoff r.event_time) (keep is_good batch))
        + length (keep is_timeless batch)
      ≡ length (keep is_good batch)
split_times cutoff [] = omega arith
split_times cutoff (r ∷ batch) = ground (arith, split_times cutoff batch)

policy_dlq : (s : String) → s ≡ "dlq" → (str_eq s "process" ≡ false) × (str_eq s "dlq" ≡ true)
policy_dlq s h =
    subst (λ t. (str_eq t "process" ≡ false) × (str_eq t "dlq" ≡ true)) (sym h) (refl, refl)

-- A row whose time lies more than the allowed lateness before the mark, both in microseconds.
abbrev pub is_behind : StreamConf → Option ℕ → BatchRow → Bool
is_behind conf none r = false
is_behind conf (some m) r = elim r.event_time [
  | none ↦ false
  | some t ↦ ltb (t + conf.allowed_lateness_sec * 1000000) (m * 1000)
]

abbrev pub is_late : StreamConf → Option ℕ → BatchRow → Bool
is_late conf mark r = is_good r && is_behind conf mark r

-- A row that a batch with so many late rows writes to Cassandra.
abbrev pub is_written : StreamConf → Option ℕ → ℕ → BatchRow → Bool
is_written conf mark late r =
    is_good r && not (is_behind conf mark r) && not (ltb 0 late && is_timeless r)

-- What `_process_batch` makes of a batch under the policy "dlq".
pub record IsRouted (conf : StreamConf) (mark : Option ℕ) (batch : List BatchRow) (r : Routed)
    : Type 0 where
  pub bad : r.bad ≡ keep (λ (b : BatchRow). b.unparseable) batch
  pub late : r.late ≡ keep (is_late conf mark) batch
  pub counted : r.n_late ≡ length (keep (is_late conf mark) batch)
  pub good : r.good ≡ keep (is_written conf mark (length (keep (is_late conf mark) batch))) batch
  pub whole :
      length r.bad
        + length r.late
        + length r.good
        + (if ltb 0 r.n_late then length (keep is_timeless batch) else 0)
      ≡ length batch

keep-keep {ℓ} :
    {A : Type ℓ} (p q : A → Bool) (xs : List A) → keep q (keep p xs) ≡ keep (λ x. p x && q x) xs
keep-keep p q [] = refl
keep-keep p q (x ∷ xs) = elim (Bool-cases (p x)) [
  | inl e ↦ rw (e, keep-keep p q xs) refl
  | inr e ↦ rw (e, keep-keep p q xs) refl
]

keep_same {ℓ} :
    {A : Type ℓ} (p q : A → Bool) → ((x : A) → p x ≡ q x) → (xs : List A) → keep p xs ≡ keep q xs
keep_same p q h [] = refl
keep_same p q h (x ∷ xs) = rw (h x, keep_same p q h xs) refl

module _ (conf : StreamConf) (m : ℕ) where
  before-is_behind :
      (r : BatchRow) → before (cutoff_of conf m) r.event_time ≡ is_behind conf (some m) r
  unfolding cutoff_of
  before-is_behind r = ground arith

  keep_late :
      (batch : List BatchRow)
      → keep (λ (r : BatchRow). before (cutoff_of conf m) r.event_time) (keep is_good batch)
        ≡ keep (is_late conf (some m)) batch
  keep_late batch =
      keep-keep is_good (λ (r : BatchRow). before (cutoff_of conf m) r.event_time) batch
      ∙ keep_same _ (is_late conf (some m))
          (λ (r : BatchRow). ap (λ b. is_good r && b) (before-is_behind r)) batch

  -- With a late row the filter keeps the rows that have a time and are not late.
  keep_written :
      (late : ℕ) (batch : List BatchRow)
      → ltb 0 late ≡ true
      → keep (λ (r : BatchRow). not_before (cutoff_of conf m) r.event_time) (keep is_good batch)
        ≡ keep (is_written conf (some m) late) batch
  unfolding cutoff_of
  keep_written late batch h =
      keep-keep is_good (λ (r : BatchRow). not_before (cutoff_of conf m) r.event_time) batch
      ∙ keep_same _ (is_written conf (some m) late) (λ (r : BatchRow). ground (arith, h)) batch

-- Without one, every row that parses is written.
keep_good :
    (conf : StreamConf) (mark : Option ℕ) (late : ℕ) (batch : List BatchRow)
    → length (keep (is_late conf mark) batch) ≡ 0
    → ltb 0 late ≡ false
    → keep is_good batch ≡ keep (is_written conf mark late) batch
keep_good conf mark late [] h e = refl
keep_good conf mark late (r ∷ batch) h e = ground (arith, h, e, keep_good conf mark late batch)

no_late : (conf : StreamConf) (batch : List BatchRow) → keep (is_late conf none) batch ≡ []
no_late conf [] = refl
no_late conf (r ∷ batch) = ground (arith, no_late conf batch)

empty {ℓ} : {A : Type ℓ} (xs : List A) → length xs ≡ 0 → [] ≡ xs
empty [] h = refl
empty (x ∷ xs) h = absurd (omega (arith, h))

whole_lem :
    (conf : StreamConf) (mark : Option ℕ) (batch : List BatchRow)
    → conf.late_policy ≡ "dlq"
    → let r = route conf mark batch in
      length r.bad
        + length r.late
        + length r.good
        + (if ltb 0 r.n_late then length (keep is_timeless batch) else 0)
      ≡ length batch
unfolding route
whole_lem conf none batch h = omega (arith, split_unparseable batch)
whole_lem conf (some m) batch h =
    let p = policy_dlq conf.late_policy h in
    ground (arith, p.0, p.1, split_unparseable batch, split_times (cutoff_of conf m) batch)

-- Under the policy "dlq" a batch's unparseable rows go to the DLQ as such; the rows whose time lies
-- more than the allowed lateness before the mark go to the DLQ as late, and are counted; and the other
-- rows go to Cassandra, each list in the order of the batch. There is one exception: if some row of the
-- batch is late, the rows that parse and have no event time go nowhere. No other row is lost.
pub route_accounts :
    (conf : StreamConf) (mark : Option ℕ) (batch : List BatchRow)
    → conf.late_policy ≡ "dlq"
    → IsRouted conf mark batch (route conf mark batch)
unfolding route
route_accounts conf none batch h =
    let zero_late = ap length (no_late conf batch) in
    record {
      bad = refl;
      late = sym (no_late conf batch);
      counted = sym zero_late;
      good = rw zero_late (keep_good conf none 0 batch zero_late refl);
      whole = whole_lem conf none batch h;
    }
route_accounts conf (some m) batch h =
    let p = policy_dlq conf.late_policy h in
    let late = keep_late conf m batch in
    let n = length (keep (is_late conf (some m)) batch) in
    elim (Bool-cases (ltb 0 n)) [
      | inl e ↦ record {
        bad = rw (p.0, p.1, late, e) refl;
        late = rw (p.0, p.1, late, e) refl;
        counted = rw (p.0, p.1, late, e) refl;
        good = rw (p.0, p.1, late, e) (keep_written conf m n batch e);
        whole = whole_lem conf (some m) batch h;
      }
      | inr e ↦
          let zero_late : n ≡ 0 = ground (arith, e) in
          record {
            bad = rw (p.0, late, e) refl;
            late = rw (p.0, late, e) (empty _ zero_late);
            counted = rw (p.0, late, e) (sym zero_late);
            good = rw (p.0, late, e) (keep_good conf (some m) n batch zero_late e);
            whole = whole_lem conf (some m) batch h;
          }
    ]
