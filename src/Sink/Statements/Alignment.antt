-- ===== src/Sink/Statements/Alignment.antt =====
-- The parameters of `build_statements` (streaming/cassandra_sink.py) and the columns of the INSERTs.
use text.Mathlib.Text.{◌==◌}
use mathlib.Core.Path.{subst}
use real_time_data_pipeline.Base.{
  String, ◌≡◌, refl, Bool, true, false, ◌&&◌, not, Option, some, List, [], ◌∷◌, ◌++◌, arith,
  if◌then◌else◌,
}
use real_time_data_pipeline.Base.Dict.{Dict, lookup}
use real_time_data_pipeline.Base.Errors.{returned, contains, >>=-eq-returned}
use real_time_data_pipeline.Value.{Value, Datetime, time, at}
use real_time_data_pipeline.Sink.Tables.{columns}
use real_time_data_pipeline.Sink.Statements.{
  Statement, event_date, event_hour, id_fields, day_fields, hour_fields, cells, trips_by_id,
  trips_by_driver_day, trips_by_city_hour,
}

-- The values stand under the columns that they belong to, one for each.
abbrev pub Aligned : (String → Option Value) → List String → List Value → Type 0
Aligned f [] [] = Unit
Aligned f [] (v ∷ vs) = ⊥
Aligned f (k ∷ ks) [] = ⊥
Aligned f (k ∷ ks) (v ∷ vs) = (f k ≡ some v) × Aligned f ks vs

Aligned-append :
    (f : String → Option Value) (ks ls : List String) (vs ws : List Value)
    → Aligned f ks vs
    → Aligned f ls ws
    → Aligned f (ks ++ ls) (vs ++ ws)
Aligned-append f [] ls [] ws h k = k
Aligned-append f [] ls (v ∷ vs) ws h k = absurd h
Aligned-append f (x ∷ ks) ls [] ws h k = absurd h
Aligned-append f (x ∷ ks) ls (v ∷ vs) ws h k = (h.0, Aligned-append f ks ls vs ws h.1 k)

pub returned-injective : {A : Type 0} {a b : A} → returned a ≡ returned b → a ≡ b
returned-injective h = cc

-- The columns that do not hold the event's field of their name as it is.
abbrev pub derived : List String
derived =
    "trip_id" ∷ "event_id" ∷ "event_time" ∷ "event_date" ∷ "event_hour" ∷ "ingested_at_ms" ∷ []

abbrev are_plain : List String → Bool
are_plain [] = true
are_plain (k ∷ ks) = not (contains derived k) && are_plain ks

plain-head :
    (k : String) (ks : List String) → are_plain (k ∷ ks) ≡ true → contains derived k ≡ false
plain-head k ks h = go (contains derived k) h
  where
    go : (b : Bool) → (not b && are_plain ks) ≡ true → b ≡ false
    go true h = cc
    go false h = refl

plain-tail : (k : String) (ks : List String) → are_plain (k ∷ ks) ≡ true → are_plain ks ≡ true
plain-tail k ks h = go (contains derived k) h
  where
    go : (b : Bool) → (not b && are_plain ks) ≡ true → are_plain ks ≡ true
    go true h = cc
    go false h = h

module _ (row : Dict Value) (now : Value) (trip event : Value) (et : Datetime) where
  -- What a column holds: a field of the event, or what is derived from one.
  abbrev pub content : String → Option Value
  content k =
      if contains derived k
      then (if "trip_id" == k
          then some trip
          else if "event_id" == k
          then some event
          else if "event_time" == k
          then some (time et)
          else if "event_date" == k
          then some (event_date et)
          else if "event_hour" == k
          then some (event_hour et)
          else some now)
      else lookup k row

  abbrev pub IsBound : Statement → Type 0
  IsBound st = Aligned content (columns st.table) st.params

  at-lookup : (k : String) (v : Value) → at row k ≡ returned v → lookup k row ≡ some v
  unfolding at
  at-lookup k v h = ground arith

  pub cells-Aligned :
      (ks : List String) {vs : List Value}
      → are_plain ks ≡ true
      → cells row ks ≡ returned vs
      → Aligned content ks vs
  unfolding cells
  cells-Aligned [] {vs = []} h e = tt
  cells-Aligned [] {vs = v ∷ vs} h e = cc
  cells-Aligned (k ∷ ks) h e =
      let (v, found, e') = >>=-eq-returned (at row k) _ e in
      let (ws, rest, e'') = >>=-eq-returned (cells row ks) _ e' in
      subst (Aligned content (k ∷ ks)) (returned-injective e'')
        (rw (plain-head k ks h) (at-lookup k v found), cells-Aligned ks (plain-tail k ks h) rest)

  pub trips_by_id-IsBound :
      {st : Statement} → trips_by_id row now trip event et ≡ returned st → IsBound st
  unfolding trips_by_id columns
  trips_by_id-IsBound e =
      let (p, ep, e') = >>=-eq-returned (cells row _) _ e in
      let (rest, er, e'') = >>=-eq-returned (cells row _) _ e' in
      subst IsBound (returned-injective e'') (
        refl,
        (
          refl,
          (
            refl,
            Aligned-append content ("produced_at_ms" ∷ []) ("ingested_at_ms" ∷ id_fields) p
                (now ∷ rest) (cells-Aligned _ refl ep) (refl, cells-Aligned _ refl er),
          ),
        ),
      )

  pub trips_by_driver_day-IsBound :
      {st : Statement} → trips_by_driver_day row now trip event et ≡ returned st → IsBound st
  unfolding trips_by_driver_day columns
  trips_by_driver_day-IsBound e =
      let (d, ed, e') = >>=-eq-returned (cells row _) _ e in
      let (rest, er, e'') = >>=-eq-returned (cells row _) _ e' in
      subst IsBound (returned-injective e'') (
        Aligned-append content ("driver_id" ∷ [])
          ("event_date"
            ∷ "event_time"
            ∷ "trip_id"
            ∷ "event_id"
            ∷ (day_fields ++ "ingested_at_ms" ∷ []))
          d _ (cells-Aligned _ refl ed)
          (
            refl,
            (
              refl,
              (
                refl,
                (
                  refl,
                  Aligned-append content day_fields ("ingested_at_ms" ∷ []) rest (now ∷ [])
                      (cells-Aligned _ refl er) (refl, tt),
                ),
              ),
            ),
          ))

  pub trips_by_city_hour-IsBound :
      {st : Statement} → trips_by_city_hour row now trip event et ≡ returned st → IsBound st
  unfolding trips_by_city_hour columns
  trips_by_city_hour-IsBound e =
      let (c, ec, e') = >>=-eq-returned (cells row _) _ e in
      let (rest, er, e'') = >>=-eq-returned (cells row _) _ e' in
      subst IsBound (returned-injective e'') (
        Aligned-append content ("city_id" ∷ [])
          ("event_hour"
            ∷ "trip_id"
            ∷ "event_id"
            ∷ "event_time"
            ∷ (hour_fields ++ "ingested_at_ms" ∷ []))
          c _ (cells-Aligned _ refl ec)
          (
            refl,
            (
              refl,
              (
                refl,
                (
                  refl,
                  Aligned-append content hour_fields ("ingested_at_ms" ∷ []) rest (now ∷ [])
                      (cells-Aligned _ refl er) (refl, tt),
                ),
              ),
            ),
          ))
