-- ===== src/Sink/Statements/Built.antt =====
-- All of `build_statements` of streaming/cassandra_sink.py: which statements it makes of an event.
use mathlib.Core.Path.{subst}
use mathlib.Core.List.{append-nil, map-append}
use real_time_data_pipeline.Base.{
  ℕ, String, ◌≡◌, refl, sym, ap, ◌∙◌, Bool, true, false, Option, List, [], ◌∷◌, ◌++◌, map, arith,
  All, All-append, keep, if◌then◌else◌,
}
use real_time_data_pipeline.Base.Dict.{Dict}
use real_time_data_pipeline.Base.Errors.{Outcome, returned, contains, >>=-eq-returned}
use real_time_data_pipeline.Value.{Value, Datetime, int, pos}
use real_time_data_pipeline.Sink.Tables.{all_tables}
use real_time_data_pipeline.Sink.Statements.{
  Statement, validate, uuid_at, time_at, statements_of, trips_by_id, trips_by_driver_day,
  trips_by_city_hour, append_if, build_statements,
}
use real_time_data_pipeline.Sink.Statements.Alignment.{
  IsBound, trips_by_id-IsBound, trips_by_driver_day-IsBound, trips_by_city_hour-IsBound,
  returned-injective,
}

abbrev pub names : List Statement → List String
names sts = map (λ st. st.table) sts

append_if-All :
    {P : Statement → Type 0} (b : Bool) (m : Outcome Statement) (out : List Statement)
    → {out' : List Statement} → ((st : Statement) → m ≡ returned st → P st)
    → All P out
    → append_if b m out ≡ returned out'
    → All P out'
append_if-All {P} false m out each h e = subst (All P) (returned-injective e) h
append_if-All {P} true m out each h e =
    let (st, found, e') = >>=-eq-returned m _ e in
    subst (All P) (returned-injective e') (All-append P out (st ∷ []) h (each st found, tt))

append_if-names :
    (t : String) (b : Bool) (m : Outcome Statement) (out : List Statement) {out' : List Statement}
    → ((st : Statement) → m ≡ returned st → st.table ≡ t)
    → append_if b m out ≡ returned out'
    → names out' ≡ names out ++ (if b then t ∷ [] else [])
append_if-names t false m out each e = rw (← returned-injective e) (sym (append-nil _))
append_if-names t true m out each e =
    let (st, found, e') = >>=-eq-returned m _ e in
    rw (← returned-injective e')
      (map-append _ out (st ∷ []) ∙ ap (λ x. names out ++ x ∷ []) (each st found))

module _ (row : Dict Value) (now : Value) (trip event : Value) (et : Datetime) where
  table_by_id :
      (st : Statement) → trips_by_id row now trip event et ≡ returned st → st.table ≡ "trips_by_id"
  unfolding trips_by_id
  table_by_id st e = ground arith

  table_by_driver_day :
      (st : Statement)
      → trips_by_driver_day row now trip event et ≡ returned st
      → st.table ≡ "trips_by_driver_day"
  unfolding trips_by_driver_day
  table_by_driver_day st e = ground arith

  table_by_city_hour :
      (st : Statement)
      → trips_by_city_hour row now trip event et ≡ returned st
      → st.table ≡ "trips_by_city_hour"
  unfolding trips_by_city_hour
  table_by_city_hour st e = ground arith

names_in_order :
    (a b c : Bool)
    → let one : List String = if a then "trips_by_id" ∷ [] else [] in
      let two : List String = one ++ (if b then "trips_by_driver_day" ∷ [] else []) in
      let city : List String = if c then "trips_by_city_hour" ∷ [] else [] in
      let day : List String = if b then "trips_by_driver_day" ∷ city else city in
      let all : List String = if a then "trips_by_id" ∷ day else day in two ++ city ≡ all
names_in_order true true true = refl
names_in_order true true false = refl
names_in_order true false true = refl
names_in_order true false false = refl
names_in_order false true true = refl
names_in_order false true false = refl
names_in_order false false true = refl
names_in_order false false false = refl

-- What the three `if`s make, when none of them raises.
module _ (row : Dict Value) (tables : List String) (now trip event : Value) (et : Datetime) where
  statements_of-IsBound :
      {sts : List Statement}
      → statements_of row tables now trip event et ≡ returned sts
      → All (IsBound row now trip event et) sts
  unfolding statements_of
  statements_of-IsBound e =
      let (one, g1, e1) =
        >>=-eq-returned
          (append_if (contains tables "trips_by_id") (trips_by_id row now trip event et) []) _ e in
      let (two, g2, e2) =
        >>=-eq-returned
          (append_if (contains tables "trips_by_driver_day")
            (trips_by_driver_day row now trip event et) one)
          _ e1 in
      append_if-All (contains tables "trips_by_city_hour")
        (trips_by_city_hour row now trip event et) two
        (λ st. trips_by_city_hour-IsBound row now trip event et)
        (append_if-All (contains tables "trips_by_driver_day")
          (trips_by_driver_day row now trip event et) one
          (λ st. trips_by_driver_day-IsBound row now trip event et)
          (append_if-All (contains tables "trips_by_id") (trips_by_id row now trip event et) []
            (λ st. trips_by_id-IsBound row now trip event et) tt g1)
          g2)
        e2

  statements_of-names :
      {sts : List Statement}
      → statements_of row tables now trip event et ≡ returned sts
      → names sts ≡ keep (contains tables) all_tables
  unfolding statements_of
  statements_of-names e =
      let (one, g1, e1) =
        >>=-eq-returned
          (append_if (contains tables "trips_by_id") (trips_by_id row now trip event et) []) _ e in
      let (two, g2, e2) =
        >>=-eq-returned
          (append_if (contains tables "trips_by_driver_day")
            (trips_by_driver_day row now trip event et) one)
          _ e1 in
      append_if-names "trips_by_city_hour" (contains tables "trips_by_city_hour")
        (trips_by_city_hour row now trip event et) two (table_by_city_hour row now trip event et) e2
      ∙ ap
          (λ l.
            l ++ (if contains tables "trips_by_city_hour" then "trips_by_city_hour" ∷ [] else []))
          (append_if-names "trips_by_driver_day" (contains tables "trips_by_driver_day")
              (trips_by_driver_day row now trip event et) one
              (table_by_driver_day row now trip event et) g2
            ∙ ap
                (λ l.
                  l
                  ++ (if contains tables "trips_by_driver_day"
                      then "trips_by_driver_day" ∷ []
                      else []))
                (append_if-names "trips_by_id" (contains tables "trips_by_id")
                  (trips_by_id row now trip event et) [] (table_by_id row now trip event et) g1))
      ∙ names_in_order (contains tables "trips_by_id") (contains tables "trips_by_driver_day")
          (contains tables "trips_by_city_hour")

-- The statements of an event, given the two UUIDs and the datetime that were read from it.
pub record Built (parse_uuid : String → Option String) (row : Dict Value) (tables : List String)
    (ms : ℕ) (sts : List Statement) : Type 0 where
  pub trip : Value
  pub event : Value
  pub et : Datetime
  pub trip_read : uuid_at parse_uuid row "trip_id" ≡ returned trip
  pub event_read : uuid_at parse_uuid row "event_id" ≡ returned event
  pub time_read : time_at row ≡ returned et
  pub bound : All (IsBound row (int (pos ms)) trip event et) sts
  pub tables_in_order : names sts ≡ keep (contains tables) all_tables

-- If `build_statements` returns, it returns one statement for each table that was asked for, in
-- the order of ALL_TABLES, and each parameter of a statement is the content of the column that the
-- INSERT names at its position: the event's field of that name, one of its UUIDs, its time, the
-- day or the hour of its time, or the time of ingestion.
pub build_statements_lem :
    (parse_uuid : String → Option String) (row : Dict Value) (tables : List String) (ms : ℕ)
    → {sts : List Statement} → build_statements parse_uuid row tables ms ≡ returned sts
    → Built parse_uuid row tables ms sts
unfolding build_statements
build_statements_lem parse_uuid row tables ms {sts} e =
    let (_, valid, e1) = >>=-eq-returned (validate row) _ e in
    let (trip, t, e2) = >>=-eq-returned (uuid_at parse_uuid row "trip_id") _ e1 in
    let (event, v, e3) = >>=-eq-returned (uuid_at parse_uuid row "event_id") _ e2 in
    let (et, w, e4) = >>=-eq-returned (time_at row) _ e3 in
    record {
      trip = trip;
      event = event;
      et = et;
      trip_read = t;
      event_read = v;
      time_read = w;
      bound = statements_of-IsBound row tables (int (pos ms)) trip event et e4;
      tables_in_order = statements_of-names row tables (int (pos ms)) trip event et e4;
    }
