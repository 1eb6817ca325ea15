-- ===== src/Airflow/Stage/Landing.antt =====
-- What the upserts of a payload make of a row of the stage table.
use text.Mathlib.Text.{◌==◌}
use text.Mathlib.TextEquality.{eq_iff}
use real_time_data_pipeline.Base.{
  ℕ, ◌≡◌, refl, ap, ◌∙◌, sym, String, true, ◌⊎◌, inl, inr, Option, none, some, List, [], ◌∷◌, ◌++◌,
  length, length-map, length-keep, All, if◌then◌else◌, Bool-cases, if_elim, arith,
}
use real_time_data_pipeline.Airflow.{Load}
use real_time_data_pipeline.Airflow.Stage.{
  Table, merged, landed, landing, is_in, trip_ids, held_among,
}

-- Two payloads one after the other land as one.
pub landing-append : (p q : List Load) (t : Table) → landing (p ++ q) t ≡ landing q (landing p t)
unfolding landed
landing-append [] q t = refl
landing-append (l ∷ p) q t =
    landing-append p q (λ k. if l.trip_id == k then some (merged l (t k)) else t k)

-- A payload leaves a row alone, or sets its three columns to those of one of its rows.
abbrev Settles : String → List Load → Type 0
Settles k p =
    ((o : Option Load) → landed k p o ≡ o)
    ⊎ ((l : Load) × ((r : Load) → landed k p (some r) ≡ some (merged l (some r)))
        × ((r : Load) × (landed k p none ≡ some (merged l (some r)))))

landed-Settles : (k : String) (p : List Load) → Settles k p
unfolding landed merged
landed-Settles k [] = inl (λ o. refl)
landed-Settles k (l ∷ p) = elim (Bool-cases (l.trip_id == k)) [
  | inl e ↦ rw e (elim (landed-Settles k p) [
    | inl h ↦ inr (l, (λ r. h (some (merged l (some r)))), (l, h (some l)))
    | inr (m, g, n) ↦ inr (m, (λ r. g (merged l (some r))), (l, g l))
  ])
  | inr e ↦ rw e (landed-Settles k p)
]

-- Landing a payload a second time changes nothing.
pub landed-twice :
    (k : String) (p : List Load) (o : Option Load) → landed k p (landed k p o) ≡ landed k p o
unfolding merged
landed-twice k p none = elim (landed-Settles k p) [
  | inl h ↦ h (landed k p none)
  | inr (m, g, (r, n)) ↦ ap (landed k p) n ∙ g (merged m (some r)) ∙ sym n
]
landed-twice k p (some r) = elim (landed-Settles k p) [
  | inl h ↦ h (landed k p (some r))
  | inr (m, g, (r0, n)) ↦ ap (landed k p) (g r) ∙ g (merged m (some r)) ∙ sym (g r)
]

-- Rows whose event time lies in the span.
abbrev pub AreIn : ℕ → ℕ → List Load → Type 0
AreIn start end p = All (λ (l : Load). is_in start end (some l) ≡ true) p

module _ (start end : ℕ) where
  merged-in :
      (l : Load) (o : Option Load)
      → is_in start end (some l) ≡ true
      → is_in start end (some (merged l o)) ≡ true
  unfolding merged
  merged-in l none h = h
  merged-in l (some r) h = h

  landed-in :
      (k : String) (p : List Load) (o : Option Load)
      → AreIn start end p
      → is_in start end o ≡ true
      → is_in start end (landed k p o) ≡ true
  unfolding landed
  landed-in k [] o h i = i
  landed-in k (l ∷ p) o h i = landed-in k p (if l.trip_id == k then some (merged l o) else o) h.1 (
      if_elim (λ x. is_in start end x ≡ true) (l.trip_id == k) (some (merged l o)) o
        (λ _. merged-in l o h.0) (λ _. i))

  landing-in :
      (p : List Load) (t : Table)
      → AreIn start end p
      → All (λ (k : String). is_in start end (landing p t k) ≡ true) (trip_ids p)
  unfolding landed
  landing-in [] t h = tt
  landing-in (l ∷ p) t h = (
    landed-in l.trip_id p
        (if l.trip_id == l.trip_id then some (merged l (t l.trip_id)) else t l.trip_id) h.1
        (if_elim (λ x. is_in start end x ≡ true) (l.trip_id == l.trip_id)
          (some (merged l (t l.trip_id))) (t l.trip_id) (λ _. merged-in l (t l.trip_id) h.0)
          (λ e. absurd (ground (arith, e, eq_iff l.trip_id l.trip_id)))),
    landing-in p (λ k. if l.trip_id == k then some (merged l (t k)) else t k) h.1,
  )

  -- Every row of the payload is held in the span afterwards.
  pub held_among-landing :
      (p : List Load) (t : Table)
      → AreIn start end p
      → held_among start end (landing p t) (trip_ids p) ≡ length p
  held_among-landing p t h =
      length-keep (λ k. is_in start end (landing p t k)) (trip_ids p) (landing-in p t h)
      ∙ length-map p (λ l. l.trip_id)
