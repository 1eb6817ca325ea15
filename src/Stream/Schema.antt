-- ===== src/Stream/Schema.antt =====
-- EVENT_SCHEMA of streaming/stream_job.py, by which Spark reads the events that
-- producer/events.py makes.
use native.Mathlib.Nat.{div-le_self}
use real_time_data_pipeline.Base.{
  ℕ, ◌*◌, ◌/◌, ◌≤◌, ◌<◌, ◌≡◌, refl, String, Bool, true, false, List, [], ◌∷◌, All, arith, mul_mono,
  ltb, if_elim, Bool-cases, max, min, ◌⊎◌, inl, inr, some, map, ◌++◌, if◌then◌else◌,
}
use real_time_data_pipeline.Base.Dict.{Dict, lookup, insert}
use real_time_data_pipeline.Value.{Value, null, str, int, float, pos, negsuc}
use real_time_data_pipeline.Producer.Generator.{
  Draw, GeneratorConf, Generator, Format, distance_of, metered_duration, duration_of, is_drawn,
  trip_event, inject_defect, next_event,
}

pub data SparkType : Type 0 where
  string_type : SparkType
  long_type : SparkType
  integer_type : SparkType
  double_type : SparkType

abbrev pub event_schema : List (String × SparkType)
event_schema =
    ("event_id", string_type)
    ∷ ("trip_id", string_type)
    ∷ ("event_time", string_type)
    ∷ ("produced_at_ms", long_type)
    ∷ ("city_id", string_type)
    ∷ ("driver_id", string_type)
    ∷ ("rider_id", string_type)
    ∷ ("pickup_zone_id", integer_type)
    ∷ ("dropoff_zone_id", integer_type)
    ∷ ("vehicle_class", string_type)
    ∷ ("payment_type", string_type)
    ∷ ("distance_km", double_type)
    ∷ ("duration_sec", integer_type)
    ∷ ("fare_amount", double_type)
    ∷ ("surge_multiplier", double_type)
    ∷ ("status", string_type)
    ∷ ("producer_id", string_type)
    ∷ ("schema_version", integer_type)
    ∷ []

-- Whether a value that is not null is of the type and within its range.
unfoldable pub has_type : SparkType → Value → Bool
has_type string_type (str s) = true
has_type long_type (int (pos n)) = ltb n 9223372036854775808
has_type long_type (int (negsuc n)) = ltb n 9223372036854775808
has_type integer_type (int (pos n)) = ltb n 2147483648
has_type integer_type (int (negsuc n)) = ltb n 2147483648
has_type double_type (float s) = true
has_type double_type (int n) = true
has_type t v = false

-- The event has the field, with a value of its type; only the fare of an event with the defect is null.
abbrev pub IsTyped : Bool → Dict Value → String × SparkType → Type 0
IsTyped bad event (k, t) =
    (v : Value) × (lookup k event ≡ some v)
    × ((has_type t v ≡ true) ⊎ ((bad ≡ true) × (k ≡ "fare_amount") × (v ≡ null)))

-- The event has the fields of the schema, in their order and with their types, and no other but the
-- mark of the defect.
abbrev pub Conforms : Bool → Dict Value → Type 0
Conforms bad event =
    All (IsTyped bad event) event_schema
    × (map (λ (f : String × Value). f.0) event
        ≡ map (λ (f : String × SparkType). f.0) event_schema
          ++ (if bad then "_injected_defect" ∷ [] else []))

-- What the random generator can draw: at most 240 seconds of jitter over the 90 that `jitter_ms` is
-- counted from, a cancelled trip no longer than a full one, and zones of a city.
abbrev pub IsDrawn : Draw → Type 0
IsDrawn d = (d.jitter_ms ≤ 330000) × (d.shortened ≤ 1000) × (d.pickup < 40) × (d.dropoff < 40)

le-quotient : (a b : ℕ) → a / b ≤ a
le-quotient a b = div-le_self a b

metered_duration-le : (d : Draw) → d.jitter_ms ≤ 330000 → metered_duration d ≤ 306000330
unfolding metered_duration distance_of
metered_duration-le d h =
    omega (arith, h, le-quotient (min 85000 (max 400 d.distance) * 3600000) d.speed)

shortened-le : (m s n : ℕ) → s ≤ 1000 → m ≤ n → m * s / 1000 ≤ n
shortened-le m s n h k = omega (arith, mul_mono m s 1000 h, k)

duration_of-le : (d : Draw) → IsDrawn d → duration_of d ≤ 306000330
unfolding duration_of
duration_of-le d h =
    let le = metered_duration-le d h.0 in
    if_elim (λ n. n ≤ 306000330) d.is_cancelled (metered_duration d * d.shortened / 1000)
      (metered_duration d) (λ _. shortened-le (metered_duration d) d.shortened 306000330 h.1 le)
      (λ _. le)

-- The conditions on the fields, one after the other.
infixr 20 ◌▷◌
◌▷◌ {ℓ κ} : {A : Type ℓ} {B : Type κ} → A → B → A × B
a ▷ b = (a, b)

module _ (fmt : Format) (conf : GeneratorConf) (now_ms : ℕ) (d : Draw) where
  -- The two fields whose range takes a proof, and the zones.
  abbrev InRange : Type 0
  InRange =
      (ltb now_ms 9223372036854775808 ≡ true)
      × (ltb d.pickup 2147483648 ≡ true)
      × (ltb d.dropoff 2147483648 ≡ true)
      × (ltb (duration_of d) 2147483648 ≡ true)

  in_range : now_ms < 9223372036854775808 → IsDrawn d → InRange
  in_range lt h = (
    ground (arith, lt),
    ground (arith, h.2),
    ground (arith, h.3),
    ground (arith, duration_of-le d h),
  )

  trip_event-Conforms : InRange → Conforms false (trip_event fmt conf now_ms d)
  unfolding has_type lookup trip_event
  trip_event-Conforms h = (
    (_, refl, inl refl)
        ▷ (_, refl, inl refl)
        ▷ (_, refl, inl refl)
        ▷ (_, refl, inl h.0)
        ▷ (_, refl, inl refl)
        ▷ (_, refl, inl refl)
        ▷ (_, refl, inl refl)
        ▷ (_, refl, inl h.1)
        ▷ (_, refl, inl h.2)
        ▷ (_, refl, inl refl)
        ▷ (_, refl, inl refl)
        ▷ (_, refl, inl refl)
        ▷ (_, refl, inl h.3)
        ▷ (_, refl, inl refl)
        ▷ (_, refl, inl refl)
        ▷ (_, refl, inl refl)
        ▷ (_, refl, inl refl)
        ▷ (_, refl, inl refl)
        ▷ tt,
    refl,
  )

  inject_defect-Conforms :
      InRange → Conforms true (inject_defect fmt conf (trip_event fmt conf now_ms d))
  unfolding has_type lookup insert inject_defect trip_event
  inject_defect-Conforms h = (
    (_, refl, inl refl)
        ▷ (_, refl, inl refl)
        ▷ (_, refl, inl refl)
        ▷ (_, refl, inl h.0)
        ▷ (_, refl, inl refl)
        ▷ (_, refl, inl refl)
        ▷ (_, refl, inl refl)
        ▷ (_, refl, inl h.1)
        ▷ (_, refl, inl h.2)
        ▷ (_, refl, inl refl)
        ▷ (_, refl, inl refl)
        ▷ (_, refl, inl refl)
        ▷ (_, refl, inl h.3)
        ▷ (null, refl, inr (refl, refl, refl))
        ▷ (_, refl, inl refl)
        ▷ (_, refl, inl refl)
        ▷ (_, refl, inl refl)
        ▷ (_, refl, inl refl)
        ▷ tt,
    refl,
  )

  -- An event of the generator has every field of EVENT_SCHEMA, in its order, with a value of the field's
  -- Spark type and within its range, and no further field. If the defect was drawn, the fare is null
  -- instead, and the mark of the defect comes last. The condition is a time below 2^63 milliseconds and
  -- draws within the bounds of the random generator.
  pub next_event-Conforms :
      (g : Generator)
      → now_ms < 9223372036854775808
      → IsDrawn d
      → Conforms (is_drawn conf.malformed_ratio d.malformed) (next_event fmt conf now_ms d g).0
  unfolding next_event
  next_event-Conforms g lt h = elim (Bool-cases (is_drawn conf.malformed_ratio d.malformed)) [
    | inl e ↦ rw e (inject_defect-Conforms (in_range lt h))
    | inr e ↦ rw e (trip_event-Conforms (in_range lt h))
  ]
