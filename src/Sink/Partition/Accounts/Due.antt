-- ===== src/Sink/Partition/Accounts/Due.antt =====
-- What a row has to end as in `write_partition` (streaming/cassandra_sink.py): its statements, or one
-- envelope.
use real_time_data_pipeline.Base.{
  ℕ, String, ◌≡◌, refl, Bool, true, false, Option, List, [], ◌∷◌, arith, length, length-append,
}
use real_time_data_pipeline.Base.Dict.{Dict}
use real_time_data_pipeline.Base.Errors.{Outcome, returned, raised, ◌>>=◌}
use real_time_data_pipeline.Value.{Value, Datetime, int, pos}
use real_time_data_pipeline.Sink.Statements.{
  Statement, trips_by_id, trips_by_driver_day, trips_by_city_hour, append_if, validate, uuid_at,
  time_at, statements_of, build_statements,
}

-- How many statements, or else the one envelope, an attempt to build them amounts to.
abbrev pub amount : Outcome (List Statement) → ℕ
amount (returned sts) = length sts
amount (raised e) = 1

-- What an event has to end as: so many rows or envelopes.
abbrev pub due : (String → Option String) → List String → Dict Value → ℕ
due parse_uuid tables row = amount (build_statements parse_uuid row tables 0)

abbrev is_returned : {A : Type 0} → Outcome A → Bool
is_returned (returned a) = true
is_returned (raised e) = false

amount-append_if :
    (b : Bool) (m m' : Outcome Statement) (out out' : List Statement)
    → is_returned m ≡ is_returned m'
    → length out ≡ length out'
    → amount (append_if b m out) ≡ amount (append_if b m' out')
amount-append_if false m m' out out' h e = e
amount-append_if true (returned s) (returned s') out out' h e =
    omega (arith, length-append out (s ∷ []), length-append out' (s' ∷ []))
amount-append_if true (returned s) (raised x) out out' h e = cc
amount-append_if true (raised x) (returned s) out out' h e = cc
amount-append_if true (raised x) (raised y) out out' h e = refl

module _ (row : Dict Value) (n m trip event : Value) (et : Datetime) where
  same_by_id :
      is_returned (trips_by_id row n trip event et) ≡ is_returned (trips_by_id row m trip event et)
  unfolding trips_by_id
  same_by_id = ground arith

  same_by_driver_day :
      is_returned (trips_by_driver_day row n trip event et)
      ≡ is_returned (trips_by_driver_day row m trip event et)
  unfolding trips_by_driver_day
  same_by_driver_day = ground arith

  same_by_city_hour :
      is_returned (trips_by_city_hour row n trip event et)
      ≡ is_returned (trips_by_city_hour row m trip event et)
  unfolding trips_by_city_hour
  same_by_city_hour = ground arith

  amount-statements_of :
      (tables : List String)
      → amount (statements_of row tables n trip event et)
        ≡ amount (statements_of row tables m trip event et)
  unfolding statements_of
  amount-statements_of tables = ground (arith, same_by_id, same_by_driver_day, same_by_city_hour)

amount-bind :
    {A : Type 0} (m : Outcome A) (f g : A → Outcome (List Statement))
    → ((a : A) → amount (f a) ≡ amount (g a))
    → amount (m >>= f) ≡ amount (m >>= g)
amount-bind (returned a) f g h = h a
amount-bind (raised e) f g h = refl

-- Whether an event can be built, and into how many statements, does not depend on the time.
pub build_amount :
    (parse_uuid : String → Option String) (row : Dict Value) (tables : List String) (ms : ℕ)
    → amount (build_statements parse_uuid row tables ms) ≡ due parse_uuid tables row
unfolding build_statements
build_amount parse_uuid row tables ms = amount-bind (validate row) _ _ (λ _.
    amount-bind (uuid_at parse_uuid row "trip_id") _ _ (λ trip.
      amount-bind (uuid_at parse_uuid row "event_id") _ _ (λ event.
        amount-bind (time_at row) _ _
          (λ et. amount-statements_of row (int (pos ms)) (int (pos 0)) trip event et tables))))
