-- ===== src/Producer/Generator.antt =====
-- `TripGenerator` of producer/events.py. What the random generator, `uuid4` and the clock give for one
-- event is a `Draw`. Distances are metres, speeds metres per hour, fares and rates cents, surges
-- hundredths and ratios thousandths; a quotient is rounded down, and the fare to the nearest cent.
pub mod Trips
mod Examples
use real_time_data_pipeline.Base.{
  ℕ, ◌+◌, ◌-◌, ◌*◌, ◌/◌, min, max, String, Bool, true, false, ◌&&◌, List, [], ◌∷◌, ltb, get_or,
  if◌then◌else◌,
}
use real_time_data_pipeline.Base.Dict.{Dict, insert}
use real_time_data_pipeline.Value.{Value, null, str, float}
use real_time_data_pipeline.Dlq.{number}

abbrev pub city_ids : List String
city_ids = "nyc" ∷ "chi" ∷ "sfo" ∷ "lax" ∷ "bos" ∷ "sea" ∷ "aus" ∷ "mia" ∷ []

abbrev pub payment_types : List String
payment_types = "card" ∷ "wallet" ∷ "cash" ∷ []

-- A vehicle class with its base fare and its rates for a kilometre and for a minute.
pub record Pricing : Type 0 where
  pub vehicle_class : String
  pub base : ℕ
  pub per_km : ℕ
  pub per_min : ℕ

abbrev price : String → ℕ → ℕ → ℕ → Pricing
price c b k m = record { vehicle_class = c; base = b; per_km = k; per_min = m }

abbrev pub vehicle_pricing : List Pricing
vehicle_pricing =
    price "economy" 250 110 22
    ∷ price "comfort" 350 155 30
    ∷ price "xl" 425 185 36
    ∷ price "black" 700 310 55
    ∷ []

-- What is drawn for one event. `jitter_ms` is counted from its least value, 90 seconds less.
pub record Draw : Type 0 where
  pub city : ℕ
  pub vehicle : ℕ
  pub payment : ℕ
  pub distance : ℕ
  pub speed : ℕ
  pub jitter_ms : ℕ
  pub is_surged : Bool
  pub surge : ℕ
  pub is_cancelled : Bool
  pub pays_fee : Bool
  pub shortened : ℕ
  pub late : ℕ
  pub lateness_ms : ℕ
  pub lag_ms : ℕ
  pub malformed : ℕ
  pub trip_id : String
  pub event_id : String
  pub driver : ℕ
  pub rider : ℕ
  pub pickup : ℕ
  pub dropoff : ℕ

pub record GeneratorConf : Type 0 where
  pub producer_id : String
  pub late_event_ratio : ℕ
  pub malformed_ratio : ℕ

pub record Generator : Type 0 where
  pub late_count : ℕ
  pub malformed_count : ℕ

-- The texts that Python makes: of a fixed-point number with so many decimals, of an instant in
-- milliseconds, and of a driver's or a rider's number.
pub record Format : Type 0 where
  pub decimal : ℕ → ℕ → String
  pub instant : ℕ → String
  pub driver_id : ℕ → String
  pub rider_id : ℕ → String

-- `min(85.0, max(0.4, …))`
unfoldable pub distance_of : Draw → ℕ
distance_of d = min 85000 (max 400 d.distance)

-- `int(max(60, distance / speed * 3600 + jitter))`
unfoldable pub metered_duration : Draw → ℕ
unfolding distance_of
metered_duration d = max 60000 (distance_of d * 3600000 / d.speed + d.jitter_ms - 90000) / 1000

abbrev pub surge_of : Draw → ℕ
surge_of d = if d.is_surged then d.surge else 100

-- `round(max(3.0, (base + distance * per_km + duration / 60 * per_min) * surge), 2)`
unfoldable pub metered_fare : Pricing → ℕ → ℕ → ℕ → ℕ
metered_fare p distance duration surge =
    let n = (p.base * 60000 + distance * p.per_km * 60 + duration * p.per_min * 1000) * surge in
    max 300 ((n + 3000000) / 6000000)

abbrev pub pricing_of : Draw → Pricing
pricing_of d = get_or vehicle_pricing d.vehicle (price "economy" 250 110 22)

-- What a cancelled trip is billed, and for how long it ran.
unfoldable pub fare_of : Draw → ℕ
unfolding metered_fare metered_duration
fare_of d =
    if d.is_cancelled
    then (if d.pays_fee then 500 else 0)
    else metered_fare (pricing_of d) (distance_of d) (metered_duration d) (surge_of d)

unfoldable pub duration_of : Draw → ℕ
unfolding metered_duration
duration_of d =
    if d.is_cancelled then metered_duration d * d.shortened / 1000 else metered_duration d

-- `ratio > 0 and rng.random() < ratio`
abbrev pub is_drawn : ℕ → ℕ → Bool
is_drawn ratio draw = ltb 0 ratio && ltb draw ratio

module _ (fmt : Format) (conf : GeneratorConf) where
  -- The event before a defect is injected.
  unfoldable pub trip_event : ℕ → Draw → Dict Value
  unfolding distance_of duration_of fare_of
  trip_event now_ms d =
      ("event_id", str d.event_id)
      ∷ ("trip_id", str d.trip_id)
      ∷ (
        "event_time",
        str (
            fmt.instant (
              now_ms
              - (if is_drawn conf.late_event_ratio d.late then d.lateness_ms else d.lag_ms))),
      )
      ∷ ("produced_at_ms", number now_ms)
      ∷ ("city_id", str (get_or city_ids d.city "nyc"))
      ∷ ("driver_id", str (fmt.driver_id d.driver))
      ∷ ("rider_id", str (fmt.rider_id d.rider))
      ∷ ("pickup_zone_id", number d.pickup)
      ∷ ("dropoff_zone_id", number d.dropoff)
      ∷ ("vehicle_class", str (pricing_of d).vehicle_class)
      ∷ ("payment_type", str (get_or payment_types d.payment "card"))
      ∷ ("distance_km", float (fmt.decimal 3 (distance_of d)))
      ∷ ("duration_sec", number (duration_of d))
      ∷ ("fare_amount", float (fmt.decimal 2 (fare_of d)))
      ∷ ("surge_multiplier", float (fmt.decimal 2 (surge_of d)))
      ∷ ("status", str (if d.is_cancelled then "cancelled" else "completed"))
      ∷ ("producer_id", str conf.producer_id)
      ∷ ("schema_version", number 1)
      ∷ []

  -- The poison pill.
  unfoldable pub inject_defect : Dict Value → Dict Value
  unfolding insert
  inject_defect event =
      insert "_injected_defect" (str "null_fare_amount") (insert "fare_amount" null event)

  unfoldable pub next_event : ℕ → Draw → Generator → Dict Value × Generator
  unfolding trip_event inject_defect
  next_event now_ms d g =
      let is_bad = is_drawn conf.malformed_ratio d.malformed in
      (
        if is_bad then inject_defect (trip_event now_ms d) else trip_event now_ms d,
        record {
          late_count =
              if is_drawn conf.late_event_ratio d.late then g.late_count + 1 else g.late_count;
          malformed_count = if is_bad then g.malformed_count + 1 else g.malformed_count;
        },
      )

  -- The events of a run, each at its time.
  unfoldable pub generate : List (ℕ × Draw) → Generator → List (Dict Value) × Generator
  unfolding next_event
  generate [] g = ([], g)
  generate ((now_ms, d) ∷ ds) g =
      let (event, g') = next_event now_ms d g in
      let (events, g'') = generate ds g' in (event ∷ events, g'')
