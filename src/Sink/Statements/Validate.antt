-- ===== src/Sink/Statements/Validate.antt =====
-- What `_validate` of streaming/cassandra_sink.py lets through.
use text.Mathlib.Text.{◌==◌}
use text.Mathlib.TextEquality.{eq_iff}
use real_time_data_pipeline.Base.{
  String, ◌≡◌, ◌≢◌, refl, ap, false, List, [], ◌∷◌, arith, All, Bool-cases, inl, inr,
}
use real_time_data_pipeline.Base.Dict.{Dict}
use real_time_data_pipeline.Base.Errors.{Outcome, returned, raised}
use real_time_data_pipeline.Value.{
  Value, null, bool, int, float, str, time, date, uuid, arr, obj, is_blank, is_none, get,
}
use real_time_data_pipeline.Sink.Statements.{required, check_required, validate}

-- The row has a value for the key, and it is no empty text.
abbrev pub IsFilled : Dict Value → String → Type 0
IsFilled row f = (get row f ≢ null) × (get row f ≢ str "")

-- The row has what the primary keys of the three tables are made of, a fare and a production time.
pub record IsComplete (row : Dict Value) : Type 0 where
  pub event : IsFilled row "event_id"
  pub trip : IsFilled row "trip_id"
  pub time : IsFilled row "event_time"
  pub city : IsFilled row "city_id"
  pub driver : IsFilled row "driver_id"
  pub fare : get row "fare_amount" ≢ null
  pub produced : get row "produced_at_ms" ≢ null

abbrev pub Verdict : {A : Type 0} → Type 0 → Outcome A → Type 0
Verdict P (returned _) = P
Verdict P (raised e) = (e.name ≡ "PermanentDefect") × (¬ P)

filled : (row : Dict Value) (f : String) → is_blank (get row f) ≡ false → IsFilled row f
unfolding is_blank
filled row f h = (λ e. cc (ap is_blank e, h), λ e. cc (ap is_blank e, h))

not_blank : (v : Value) → v ≢ null → v ≢ str "" → is_blank v ≡ false
unfolding is_blank
not_blank null a b = absurd (a refl)
not_blank (str s) a b = elim (Bool-cases (s == "")) [
  | inl e ↦ absurd (b (ap str ((eq_iff s "").0 e)))
  | inr e ↦ e
]
not_blank (bool x) a b = refl
not_blank (int x) a b = refl
not_blank (float x) a b = refl
not_blank (time x) a b = refl
not_blank (date x) a b = refl
not_blank (uuid x) a b = refl
not_blank (arr x) a b = refl
not_blank (obj x) a b = refl

given : (v : Value) → is_none v ≡ false → v ≢ null
unfolding is_none
given v h e = cc (ap is_none e, h)

not_none : (v : Value) → v ≢ null → is_none v ≡ false
unfolding is_none
not_none null a = absurd (a refl)
not_none (str s) a = refl
not_none (bool x) a = refl
not_none (int x) a = refl
not_none (float x) a = refl
not_none (time x) a = refl
not_none (date x) a = refl
not_none (uuid x) a = refl
not_none (arr x) a = refl
not_none (obj x) a = refl

-- What the code asks, field by field.
abbrev HasFields : Dict Value → List String → Type 0
HasFields row fs = All (λ f. is_blank (get row f) ≡ false) fs

abbrev Passes : Dict Value → Type 0
Passes row =
    HasFields row required
    × (is_none (get row "fare_amount") ≡ false)
    × (is_none (get row "produced_at_ms") ≡ false)

check_required_lem :
    (row : Dict Value) (fs : List String) → Verdict (HasFields row fs) (check_required row fs)
unfolding check_required
check_required_lem row [] = tt
check_required_lem row (f ∷ fs) = ground (arith, check_required_lem row fs)

validate-Passes : (row : Dict Value) → Verdict (Passes row) (validate row)
unfolding validate
validate-Passes row = ground (arith, check_required_lem row required)

complete : (row : Dict Value) → Passes row → IsComplete row
complete row (fields, fare, produced) = record {
  event = filled row "event_id" fields.0;
  trip = filled row "trip_id" fields.1.0;
  time = filled row "event_time" fields.1.1.0;
  city = filled row "city_id" fields.1.1.1.0;
  driver = filled row "driver_id" fields.1.1.1.1.0;
  fare = given (get row "fare_amount") fare;
  produced = given (get row "produced_at_ms") produced;
}

passes : (row : Dict Value) → IsComplete row → Passes row
passes row h =
    let at_field = λ (f : String) (p : IsFilled row f). not_blank (get row f) p.0 p.1 in
    (
      (
        at_field "event_id" h.event,
        (
          at_field "trip_id" h.trip,
          (
            at_field "event_time" h.time,
            (at_field "city_id" h.city, (at_field "driver_id" h.driver, tt)),
          ),
        ),
      ),
      not_none (get row "fare_amount") h.fare,
      not_none (get row "produced_at_ms") h.produced,
    )

same-Verdict :
    {A : Type 0} (P Q : Type 0) (o : Outcome A) → (P → Q) → (Q → P) → Verdict P o → Verdict Q o
same-Verdict P Q (returned a) f g h = f h
same-Verdict P Q (raised e) f g h = (h.0, λ q. h.1 (g q))

-- `_validate` returns exactly for a row that has an event id, a trip id, an event time, a city and a
-- driver, none of them null or empty, and a fare and a production time that are not null. For any
-- other row it raises PermanentDefect.
pub validate_lem : (row : Dict Value) → Verdict (IsComplete row) (validate row)
validate_lem row =
    same-Verdict (Passes row) (IsComplete row) (validate row) (complete row) (passes row)
      (validate-Passes row)
