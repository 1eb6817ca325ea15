-- ===== src/Sink/Ring/Redelivery.antt =====
-- The statements of streaming/cassandra_sink.py, written again at another time.
use text.Mathlib.TextEquality.{eq_iff}
use mathlib.Core.Path.{subst, ap₂}
use mathlib.Core.List.{map-append}
use real_time_data_pipeline.Base.{
  ℕ, String, ◌≡◌, refl, sym, ap, ◌∙◌, true, Option, some, List, [], ◌∷◌, ◌++◌, map, arith, concat,
  All, if◌then◌else◌, Bool-cases, inl, inr,
}
use real_time_data_pipeline.Base.Dict.{Dict}
use real_time_data_pipeline.Base.Errors.{returned}
use real_time_data_pipeline.Value.{Value, Datetime, int, pos}
use real_time_data_pipeline.Sink.Tables.{columns, primary_key}
use real_time_data_pipeline.Sink.Statements.{Statement, build_statements}
use real_time_data_pipeline.Sink.Statements.Alignment.{
  Aligned, content, IsBound, returned-injective,
}
use real_time_data_pipeline.Sink.Statements.Built.{names, build_statements_lem}
use real_time_data_pipeline.Sink.Ring.{
  Ring, Key, cell, key_of, is_event_column, event_cells, write_all, view,
}

module _ (f g : String → Option Value)
    (agree : (c : String) → is_event_column c ≡ true → f c ≡ g c) where
  cell-Aligned :
      (ks : List String) (vs ws : List Value) (c : String)
      → is_event_column c ≡ true
      → Aligned f ks vs
      → Aligned g ks ws
      → cell ks vs c ≡ cell ks ws c
  unfolding cell
  cell-Aligned [] vs ws c e h k = refl
  cell-Aligned (x ∷ ks) [] ws c e h k = absurd h
  cell-Aligned (x ∷ ks) (v ∷ vs) [] c e h k = absurd k
  cell-Aligned (x ∷ ks) (v ∷ vs) (w ∷ ws) c e h k =
      ground (arith, eq_iff x c, agree c e, h.0, k.0, cell-Aligned ks vs ws c e h.1 k.1)

  event_cells-Aligned :
      (ks : List String) (vs ws : List Value)
      → Aligned f ks vs
      → Aligned g ks ws
      → event_cells ks vs ≡ event_cells ks ws
  unfolding event_cells
  event_cells-Aligned [] vs ws h k = refl
  event_cells-Aligned (x ∷ ks) [] ws h k = absurd h
  event_cells-Aligned (x ∷ ks) (v ∷ vs) [] h k = absurd k
  event_cells-Aligned (x ∷ ks) (v ∷ vs) (w ∷ ws) h k =
      ground (arith, agree x, h.0, k.0, event_cells-Aligned ks vs ws h.1 k.1)

-- What a statement writes of an event: the key of the row and the event's own columns.
abbrev pub event_part : Statement → Key × List Value
event_part st = (key_of st, event_cells (columns st.table) st.params)

primary_key-event : (t : String) → All (λ c. is_event_column c ≡ true) (primary_key t)
unfolding primary_key
primary_key-event t = ground arith

content_agrees :
    (row : Dict Value) (n m : Value) (trip event : Value) (et : Datetime) (c : String)
    → is_event_column c ≡ true
    → content row n trip event et c ≡ content row m trip event et c
content_agrees row n m trip event et c h = ground arith

map-cell-Aligned :
    (f g : String → Option Value) (agree : (c : String) → is_event_column c ≡ true → f c ≡ g c)
    → (ks : List String) (vs ws : List Value) (cs : List String)
    → All (λ c. is_event_column c ≡ true) cs
    → Aligned f ks vs
    → Aligned g ks ws
    → map (cell ks vs) cs ≡ map (cell ks ws) cs
map-cell-Aligned f g agree ks vs ws [] e h k = refl
map-cell-Aligned f g agree ks vs ws (c ∷ cs) e h k =
    cc (cell-Aligned f g agree ks vs ws c e.0 h k, map-cell-Aligned f g agree ks vs ws cs e.1 h k)

module _ (row : Dict Value) (n m trip event : Value) (et : Datetime) where
  event_part-eq :
      (t : String) (vs ws : List Value)
      → IsBound row n trip event et (record { table = t; params = vs })
      → IsBound row m trip event et (record { table = t; params = ws })
      → event_part (record { table = t; params = vs })
        ≡ event_part (record { table = t; params = ws })
  unfolding key_of
  event_part-eq t vs ws h k =
      let f = content row n trip event et in
      let g = content row m trip event et in
      let agree = content_agrees row n m trip event et in
      cc (
        map-cell-Aligned f g agree (columns t) vs ws (primary_key t) (primary_key-event t) h k,
        event_cells-Aligned f g agree (columns t) vs ws h k,
      )

  event_part-eq_of_table :
      (st st' : Statement)
      → st.table ≡ st'.table
      → IsBound row n trip event et st
      → IsBound row m trip event et st'
      → event_part st ≡ event_part st'
  event_part-eq_of_table st st' e h k =
      event_part-eq st.table st.params st'.params h (
        subst (λ t. IsBound row m trip event et (record { table = t; params = st'.params })) (sym e)
          k)
      ∙ ap (λ t. event_part (record { table = t; params = st'.params })) e

  -- Bound to the columns of the same tables at two times, the statements have the same event parts.
  event_parts-eq :
      (sts sts' : List Statement)
      → names sts ≡ names sts'
      → All (IsBound row n trip event et) sts
      → All (IsBound row m trip event et) sts'
      → map event_part sts ≡ map event_part sts'
  event_parts-eq [] [] e h k = refl
  event_parts-eq [] (st ∷ sts) e h k = cc
  event_parts-eq (st ∷ sts) [] e h k = cc
  event_parts-eq (st ∷ sts) (st' ∷ sts') e h k =
      let p : st.table ≡ st'.table = cc in
      let q : names sts ≡ names sts' = cc in
      cc (event_part-eq_of_table st st' p h.0 k.0, event_parts-eq sts sts' q h.1 k.1)

-- The same event, built at two times: the same tables, the same keys and the same columns of the
-- event's own, whatever tables were asked for. The primary keys hold nothing of the build's time.
pub build_statements-event_parts :
    (parse_uuid : String → Option String) (row : Dict Value) (tables : List String) (ms ms' : ℕ)
    → {sts sts' : List Statement} → build_statements parse_uuid row tables ms ≡ returned sts
    → build_statements parse_uuid row tables ms' ≡ returned sts'
    → map event_part sts ≡ map event_part sts'
build_statements-event_parts parse_uuid row tables ms ms' {sts} {sts'} e e' =
    let b = build_statements_lem parse_uuid row tables ms e in
    let b' = build_statements_lem parse_uuid row tables ms' e' in
    let p : b'.trip ≡ b.trip = returned-injective (sym b'.trip_read ∙ b.trip_read) in
    let q : b'.event ≡ b.event = returned-injective (sym b'.event_read ∙ b.event_read) in
    let r : b'.et ≡ b.et = returned-injective (sym b'.time_read ∙ b.time_read) in
    event_parts-eq row (int (pos ms)) (int (pos ms')) b.trip b.event b.et sts sts'
      (b.tables_in_order ∙ sym b'.tables_in_order) b.bound
      (subst (λ t. All (IsBound row (int (pos ms')) t b.event b.et) sts') p
        (subst (λ v. All (IsBound row (int (pos ms')) b'.trip v b.et) sts') q
          (subst (λ w. All (IsBound row (int (pos ms')) b'.trip b'.event w) sts') r b'.bound)))

module _ (r : Ring) where
  -- The last of some writes to a key.
  abbrev last_write : List (Key × List Value) → Key → Option (List Value) → Option (List Value)
  last_write [] k o = o
  last_write ((j, vs) ∷ ws) k o = last_write ws k (if r.same j k then some vs else o)

  view-upsert :
      (st : Statement) (s : r.State) (k : Key)
      → view r (r.upsert st s) k
        ≡ (if r.same (key_of st) k then some (event_part st).1 else view r s k)
  unfolding view key_of
  view-upsert st s k = elim (Bool-cases (r.same (key_of st) k)) [
    | inl e ↦
        rw (r.read-upsert, e, view, if◌then◌else◌)
          (ap (λ t. some (event_cells (columns t) st.params)) (sym (r.same_table (key_of st) k e)))
    | inr e ↦ rw (r.read-upsert, e, view, if◌then◌else◌)
  ]

  view-write_all :
      (sts : List Statement) (s : r.State) (k : Key)
      → view r (write_all r sts s) k ≡ last_write (map event_part sts) k (view r s k)
  unfolding write_all
  view-write_all [] s k = refl
  view-write_all (st ∷ sts) s k =
      view-write_all sts (r.upsert st s) k
      ∙ ap (last_write (map event_part sts) k) (view-upsert st s k)

  last_write-last_write :
      (ws : List (Key × List Value)) (k : Key) (o : Option (List Value))
      → last_write ws k (last_write ws k o) ≡ last_write ws k o
  last_write-last_write [] k o = refl
  last_write-last_write ((j, vs) ∷ ws) k o = ground (arith, last_write-last_write ws k o)

  -- Statements with the same event parts, written again, change no view.
  pub redelivery :
      (sts sts' : List Statement) (s : r.State) (k : Key)
      → map event_part sts' ≡ map event_part sts
      → view r (write_all r sts' (write_all r sts s)) k ≡ view r (write_all r sts s) k
  redelivery sts sts' s k e =
      simp view-write_all (rw e (last_write-last_write (map event_part sts) k (view r s k)))

-- `build_statements` of each event of a batch returns.
abbrev pub BuiltAt :
    (String → Option String) → List String → ℕ → List (Dict Value) → List (List Statement) → Type 0
BuiltAt parse_uuid tables ms [] [] = Unit
BuiltAt parse_uuid tables ms [] (b ∷ bs) = ⊥
BuiltAt parse_uuid tables ms (row ∷ rows) [] = ⊥
BuiltAt parse_uuid tables ms (row ∷ rows) (b ∷ bs) =
    (build_statements parse_uuid row tables ms ≡ returned b) × BuiltAt parse_uuid tables ms rows bs

module _ (parse_uuid : String → Option String) (tables : List String) (ms ms' : ℕ) where
  batch_parts :
      (rows : List (Dict Value)) (bs bs' : List (List Statement))
      → BuiltAt parse_uuid tables ms rows bs
      → BuiltAt parse_uuid tables ms' rows bs'
      → map event_part (concat bs') ≡ map event_part (concat bs)
  batch_parts [] [] [] h k = refl
  batch_parts [] [] (b' ∷ bs') h k = absurd k
  batch_parts [] (b ∷ bs) bs' h k = absurd h
  batch_parts (row ∷ rows) [] bs' h k = absurd h
  batch_parts (row ∷ rows) (b ∷ bs) [] h k = absurd k
  batch_parts (row ∷ rows) (b ∷ bs) (b' ∷ bs') h k =
      map-append event_part b' (concat bs')
      ∙ ap₂ (λ x y. x ++ y) (build_statements-event_parts parse_uuid row tables ms' ms k.0 h.0)
          (batch_parts rows bs bs' h.1 k.1)
      ∙ sym (map-append event_part b (concat bs))

  -- A batch of events that is written, and then delivered and written again at another time, leaves
  -- every key with the row that it had after the first delivery: no row is added, and the columns
  -- of the events' own are the same, also where events of the batch share a key.
  pub redelivery_of_batch :
      (r : Ring) (s : r.State) (k : Key) (rows : List (Dict Value)) (bs bs' : List (List Statement))
      → BuiltAt parse_uuid tables ms rows bs
      → BuiltAt parse_uuid tables ms' rows bs'
      → view r (write_all r (concat bs') (write_all r (concat bs) s)) k
        ≡ view r (write_all r (concat bs) s) k
  redelivery_of_batch r s k rows bs bs' h h' =
      redelivery r (concat bs) (concat bs') s k (batch_parts rows bs bs' h h')
