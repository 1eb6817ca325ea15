-- ===== src/Stream/Batch/Mark.antt =====
-- The high-water mark of streaming/stream_job.py.
use real_time_data_pipeline.Base.{
  ℕ, ◌-◌, ◌*◌, ◌/◌, ◌≤◌, ◌<◌, max, ◌≡◌, refl, ap, sym, ◌∙◌, Option, none, some, List, [], ◌∷◌, ◌++◌,
  arith, keep, concat,
}
use real_time_data_pipeline.Stream.Batch.{
  BatchRow, StreamConf, not_before, cutoff_of, route, latest, max_time, advance, next_mark, marks,
}
use real_time_data_pipeline.Stream.Batch.Routing.{is_good}

-- The greatest of a mark and the times of some rows, in milliseconds.
unfoldable pub peak : ℕ → List BatchRow → ℕ
peak m [] = m
peak m (r ∷ rs) = elim r.event_time [ none ↦ peak m rs | some t ↦ max (t / 1000) (peak m rs) ]

le-peak : (m : ℕ) (rs : List BatchRow) → m ≤ peak m rs
unfolding peak
le-peak m [] = omega arith
le-peak m (r ∷ rs) = ground (arith, le-peak m rs)

advance-latest :
    (m p : ℕ) (o mt : Option ℕ)
    → advance (some m) mt ≡ some p
    → advance (some m) (latest o mt) ≡ some (elim o [ none ↦ p | some t ↦ max (t / 1000) p ])
unfolding advance
advance-latest m p none mt h = h
advance-latest m p (some t) none h = ground (arith, h)
advance-latest m p (some t) (some u) h = ground (arith, h)

advance-max_time : (m : ℕ) (rs : List BatchRow) → advance (some m) (max_time rs) ≡ some (peak m rs)
unfolding peak max_time
advance-max_time m [] = unfold advance in refl
advance-max_time m (r ∷ rs) =
    advance-latest m (peak m rs) r.event_time (max_time rs) (advance-max_time m rs)

old_time : (t cutoff m p : ℕ) → cutoff ≤ m * 1000 → t < cutoff → m ≤ p → max (t / 1000) p ≡ p
old_time t cutoff m p h k l = omega (arith, h, k, l)

-- Rows before a cutoff that the mark has passed, and rows without a time, do not move the mark.
peak-keep :
    (m cutoff : ℕ) (rs : List BatchRow)
    → cutoff ≤ m * 1000
    → peak m (keep (λ (r : BatchRow). not_before cutoff r.event_time) rs) ≡ peak m rs
unfolding peak
peak-keep m cutoff [] h = refl
peak-keep m cutoff (r ∷ rs) h =
    ground
      (arith, peak-keep m cutoff rs h, le-peak m rs, λ (t : ℕ). old_time t cutoff m (peak m rs) h)

peak-good :
    (conf : StreamConf) (m : ℕ) (batch : List BatchRow)
    → peak m (route conf (some m) batch).good ≡ peak m (keep is_good batch)
unfolding route cutoff_of
peak-good conf m batch = ground (
  arith,
  peak-keep m ((m - conf.allowed_lateness_sec * 1000) * 1000) (keep is_good batch) (omega arith),
)

-- After a batch the mark is the greatest of the mark before and the event times of all rows that
-- parse, in milliseconds: which late rows there are, and what the policy does with them, makes no
-- difference, and the mark never falls.
pub next_mark_lem :
    (conf : StreamConf) (m : ℕ) (batch : List BatchRow)
    → let p = peak m (keep is_good batch) in (next_mark conf (some m) batch ≡ some p) × (m ≤ p)
unfolding next_mark
next_mark_lem conf m batch = (
  advance-max_time m (route conf (some m) batch).good ∙ ap some (peak-good conf m batch),
  le-peak m (keep is_good batch),
)

peak-max : (a m : ℕ) (rs : List BatchRow) → peak (max a m) rs ≡ max a (peak m rs)
unfolding peak
peak-max a m [] = refl
peak-max a m (r ∷ rs) = ground (arith, peak-max a m rs)

later_time :
    (p : ℕ) (o : Option ℕ) (ys : List BatchRow)
    → elim o [ none ↦ peak p ys | some t ↦ max (t / 1000) (peak p ys) ]
      ≡ peak (elim o [ none ↦ p | some t ↦ max (t / 1000) p ]) ys
later_time p none ys = refl
later_time p (some t) ys = sym (peak-max (t / 1000) p ys)

peak-append : (m : ℕ) (xs ys : List BatchRow) → peak m (xs ++ ys) ≡ peak (peak m xs) ys
unfolding peak
peak-append m [] ys = refl
peak-append m (r ∷ xs) ys =
    ap (λ (p : ℕ). elim r.event_time [ none ↦ p | some t ↦ max (t / 1000) p ]) (peak-append m xs ys)
    ∙ later_time (peak m xs) r.event_time ys

keep-append : (xs ys : List BatchRow) → keep is_good (xs ++ ys) ≡ keep is_good xs ++ keep is_good ys
keep-append [] ys = refl
keep-append (r ∷ xs) ys = ground (arith, keep-append xs ys)

-- The mark after a run does not depend on how the rows were cut into batches, nor on the late policy
-- and the allowed lateness: it is the greatest of the first mark and the times of all rows that parse.
pub marks_lem :
    (conf : StreamConf) (m : ℕ) (batches : List (List BatchRow))
    → marks conf (some m) batches ≡ some (peak m (keep is_good (concat batches)))
unfolding marks peak
marks_lem conf m [] = refl
marks_lem conf m (batch ∷ batches) =
    ap (λ o. marks conf o batches) (next_mark_lem conf m batch).0
    ∙ marks_lem conf (peak m (keep is_good batch)) batches
    ∙ ap some (sym (peak-append m (keep is_good batch) (keep is_good (concat batches))))
    ∙ ap (λ rs. some (peak m rs)) (sym (keep-append batch (concat batches)))
