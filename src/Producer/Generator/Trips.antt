-- ===== src/Producer/Generator/Trips.antt =====
-- What the events of producer/events.py look like, and what `_validate` of
-- streaming/cassandra_sink.py says of them.
use text.Mathlib.Text.{◌==◌ as str_eq}
use real_time_data_pipeline.Base.{
  ℕ, ◌+◌, ◌*◌, ◌/◌, ◌-◌, ◌≤◌, ◌≡◌, refl, ap, ◌∙◌, ◌⊎◌, inl, inr, String, Bool, true, false, List,
  [], ◌∷◌, arith, length, keep, All, get_or, zero, suc, if◌then◌else◌, Bool-cases,
}
use real_time_data_pipeline.Base.Dict.{Dict, lookup, insert}
use real_time_data_pipeline.Base.Errors.{Outcome, returned, raised}
use real_time_data_pipeline.Value.{Value, is_blank, is_none, get}
use real_time_data_pipeline.Sink.Statements.{permanent_defect, validate, check_required}
use real_time_data_pipeline.Producer.Generator.{
  Draw, GeneratorConf, Generator, Format, distance_of, metered_duration, metered_fare, fare_of,
  duration_of, is_drawn, city_ids, Pricing, pricing_of, surge_of, trip_event, inject_defect,
  next_event, generate,
}

-- What a trip is billed and how long it takes, cancelled or not.
abbrev pub IsBilled : Bool → ℕ → ℕ → Type 0
IsBilled true fare duration = (fare ≡ 0) ⊎ (fare ≡ 500)
IsBilled false fare duration = (300 ≤ fare) × (60 ≤ duration)

le-metered_fare : (p : Pricing) (k t s : ℕ) → 300 ≤ metered_fare p k t s
unfolding metered_fare
le-metered_fare p k t s = omega arith

le-metered_duration : (d : Draw) → 60 ≤ metered_duration d
unfolding metered_duration
le-metered_duration d = omega arith

billed :
    (is_cancelled pays_fee : Bool) (f m s : ℕ)
    → 300 ≤ f
    → 60 ≤ m
    → IsBilled is_cancelled
        (if is_cancelled then (if pays_fee then 500 else 0) else f)
        (if is_cancelled then m * s / 1000 else m)
billed true true f m s h k = inr refl
billed true false f m s h k = inl refl
billed false pays_fee f m s h k = (h, k)

-- Whatever is drawn, a trip is from 400 m to 85 km long. A completed trip costs at least 3.00 and
-- lasts at least a minute, and a cancelled one costs 0.00 or 5.00.
pub trip_event-IsBilled :
    (d : Draw)
    → (400 ≤ distance_of d)
      × (distance_of d ≤ 85000)
      × IsBilled d.is_cancelled (fare_of d) (duration_of d)
unfolding distance_of fare_of duration_of
trip_event-IsBilled d = (
  omega arith,
  omega arith,
  billed d.is_cancelled d.pays_fee
      (metered_fare (pricing_of d) (distance_of d) (metered_duration d) (surge_of d))
      (metered_duration d) d.shortened
      (le-metered_fare (pricing_of d) (distance_of d) (metered_duration d) (surge_of d))
      (le-metered_duration d),
)

-- The texts and the city that make a primary key.
abbrev pub HasIds : Format → GeneratorConf → ℕ → Draw → Type 0
HasIds fmt conf now_ms d =
    (str_eq d.event_id "" ≡ false)
    × (str_eq d.trip_id "" ≡ false)
    × ((n : ℕ) → str_eq (fmt.instant n) "" ≡ false)
    × ((n : ℕ) → str_eq (fmt.driver_id n) "" ≡ false)

abbrev is_raised : Outcome (Unit {0}) → Bool
is_raised (returned _) = false
is_raised (raised _) = true

abbrev pub is_rejected : Dict Value → Bool
is_rejected event = is_raised (validate event)

get_or-All :
    (P : String → Type 0) (xs : List String) (i : ℕ) (x : String)
    → All P xs
    → P x
    → P (get_or xs i x)
get_or-All P [] i x h k = k
get_or-All P (y ∷ xs) zero x h k = h.0
get_or-All P (y ∷ xs) (suc i) x h k = get_or-All P xs i x h.1 k

city-full : (i : ℕ) → str_eq (get_or city_ids i "nyc") "" ≡ false
city-full i =
    get_or-All (λ s. str_eq s "" ≡ false) city_ids i "nyc"
      (refl, (refl, (refl, (refl, (refl, (refl, (refl, (refl, tt)))))))) refl

module _ (fmt : Format) (conf : GeneratorConf) where
  -- The sink's validation lets an event of the generator through, unless it is poisoned: then it is
  -- rejected as a permanent defect for its fare, and never retried.
  pub validate-next_event :
      (now_ms : ℕ) (d : Draw) (g : Generator)
      → HasIds fmt conf now_ms d
      → validate (next_event fmt conf now_ms d g).0 ≡ (
          if is_drawn conf.malformed_ratio d.malformed
          then raised (permanent_defect "fare_amount is null")
          else returned tt)
  unfolding next_event trip_event inject_defect validate check_required lookup insert get is_blank
      is_none
  validate-next_event now_ms d g h = elim (Bool-cases (is_drawn conf.malformed_ratio d.malformed)) [
    | inl e ↦ rw e (
        ground (
          arith,
          h.0,
          h.1,
          h.3 d.driver,
          city-full d.city,
          h.2 (
              now_ms - (if is_drawn conf.late_event_ratio d.late then d.lateness_ms else d.lag_ms)),
        ))
    | inr e ↦ rw e (
        ground (
          arith,
          h.0,
          h.1,
          h.3 d.driver,
          city-full d.city,
          h.2 (
              now_ms - (if is_drawn conf.late_event_ratio d.late then d.lateness_ms else d.lag_ms)),
        ))
  ]

  is_rejected-next_event :
      (now_ms : ℕ) (d : Draw) (g : Generator)
      → HasIds fmt conf now_ms d
      → is_rejected (next_event fmt conf now_ms d g).0 ≡ is_drawn conf.malformed_ratio d.malformed
  is_rejected-next_event now_ms d g h =
      ap is_raised (validate-next_event now_ms d g h)
      ∙ cases (is_drawn conf.malformed_ratio d.malformed)
    where
      cases :
          (b : Bool)
          → is_raised (if b then raised (permanent_defect "fare_amount is null") else returned tt)
            ≡ b
      cases true = refl
      cases false = refl

  malformed_count-next_event :
      (now_ms : ℕ) (d : Draw) (g : Generator)
      → (next_event fmt conf now_ms d g).1.malformed_count
        ≡ g.malformed_count + (if is_drawn conf.malformed_ratio d.malformed then 1 else 0)
  unfolding next_event
  malformed_count-next_event now_ms d g = ground arith

  abbrev pub HaveIds : List (ℕ × Draw) → Type 0
  HaveIds [] = Unit
  HaveIds ((now_ms, d) ∷ ds) = HasIds fmt conf now_ms d × HaveIds ds

  -- Of the events of a run the sink rejects as many as the generator has counted as malformed.
  pub generate-malformed_count :
      (ds : List (ℕ × Draw)) (g : Generator)
      → HaveIds ds
      → let r = generate fmt conf ds g in
        (length r.0 ≡ length ds)
        × (r.1.malformed_count ≡ g.malformed_count + length (keep is_rejected r.0))
  unfolding generate
  generate-malformed_count [] g h = (refl, omega arith)
  generate-malformed_count ((now_ms, d) ∷ ds) g h =
      let g' = (next_event fmt conf now_ms d g).1 in
      let k = generate-malformed_count ds g' h.1 in
      (
        omega (arith, k.0),
        ground (
          arith,
          k.1,
          malformed_count-next_event now_ms d g,
          is_rejected-next_event now_ms d g h.0,
        ),
      )
