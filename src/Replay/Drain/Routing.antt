-- ===== src/Replay/Drain/Routing.antt =====
-- The routing loop of `drain` in replay/dlq_tools.py.
use mathlib.Core.List.{append-nil, append_assoc}
use text.Mathlib.Text.{◌==◌ as str_eq}
use text.Mathlib.TextEquality.{eq_iff}
use Prim.Native.String.{◌++◌ as ◌++ₛ◌}
use real_time_data_pipeline.Base.{
  ℕ, String, ◌≡◌, refl, ap, sym, ◌∙◌, Bool, true, false, not, ◌&&◌, List, [], ◌∷◌, ◌++◌, map, arith,
  keep, All, if◌then◌else◌,
}
use real_time_data_pipeline.Base.Dict.{Dict, insert}
use real_time_data_pipeline.Base.Errors.{returned, contains, ◌>>=◌}
use real_time_data_pipeline.Value.{Value, ℤ, str}
use real_time_data_pipeline.Dlq.{number, field_or, stage_cassandra_sink, stage_producer, stage_late}
use real_time_data_pipeline.Replay.Drain.{
  Outside, Routes, no_routes, Route, to_reinject, to_direct, to_park, at_least, in_set, by_stage,
  route_of, add_route, route_all,
}

distinct : (a b s : String) → str_eq a b ≡ false → str_eq a s && str_eq b s ≡ false
distinct a b s h = ground (arith, eq_iff a b, eq_iff a s, eq_iff b s, h)

-- A record with its replay count and its stage.
pub record Read : Type 0 where
  pub row : Dict Value
  pub replays : ℤ
  pub stage : String

module _ {W : Type 0} (outside : Outside W) (max_replays : ℕ) where
  -- The record has these, or lacks the keys and these are the defaults.
  abbrev pub IsRead : Read → Type 0
  IsRead r =
      (outside.to_int (field_or r.row "replay_count" (number 0)) ≡ returned r.replays)
      × (field_or r.row "failure_stage" (str "?") ≡ str r.stage)

  -- Where a record belongs.
  abbrev pub is_over : Read → Bool
  is_over r = at_least r.replays max_replays

  abbrev pub goes_again : Read → Bool
  goes_again r = not (is_over r) && contains (stage_cassandra_sink ∷ stage_producer ∷ []) r.stage

  abbrev pub goes_direct : Read → Bool
  goes_direct r = not (is_over r) && contains (stage_late ∷ []) r.stage

  abbrev pub reason : Read → String
  reason r =
      if is_over r
      then "replay_count >= " ++ₛ outside.repr (number max_replays)
      else "stage " ++ₛ outside.repr (str r.stage) ++ₛ " is not automatically recoverable"

  abbrev pub park_row : Read → Dict Value
  park_row r = insert "_park_reason" (str (reason r)) r.row

  abbrev pub stays : Read → Bool
  stays r = not (goes_again r) && not (goes_direct r)

  abbrev destination : Read → Route
  destination r =
      if goes_again r then to_reinject else if goes_direct r then to_direct else to_park (reason r)

  pub route_of_lem :
      (r : Read) → IsRead r → route_of outside max_replays r.row ≡ returned (destination r)
  unfolding route_of by_stage in_set
  route_of_lem r h = ground (arith, h.0, h.1)

  abbrev append_routes : Routes → Routes → Routes
  append_routes a b = record {
    reinject = a.reinject ++ b.reinject;
    direct = a.direct ++ b.direct;
    park = a.park ++ b.park;
  }

  abbrev pub sorted : List Read → Routes
  sorted rs = record {
    reinject = map (λ (r : Read). r.row) (keep goes_again rs);
    direct = map (λ (r : Read). r.row) (keep goes_direct rs);
    park = map park_row (keep stays rs);
  }

  append_none : (a : Routes) → append_routes a no_routes ≡ a
  append_none a =
      let direct = append-nil a.direct in
      let park = append-nil a.park in
      let again = append-nil a.reinject in
      λ i. record { reinject = again i; direct = direct i; park = park i }

  one_way : (r : Read) → goes_again r && goes_direct r ≡ false
  one_way r = ground (
    arith,
    distinct stage_cassandra_sink stage_late r.stage refl,
    distinct stage_producer stage_late r.stage refl,
  )

  add_case :
      (again late : Bool) (r : Read) (xs ys zs : List Read) (acc : Routes)
      → again && late ≡ false
      → append_routes
          (add_route outside r.row
            (if again then to_reinject else if late then to_direct else to_park (reason r))
            acc)
          (record {
            reinject = map (λ (r : Read). r.row) xs;
            direct = map (λ (r : Read). r.row) ys;
            park = map park_row zs;
          })
        ≡ append_routes acc (record {
          reinject = map (λ (r : Read). r.row) (if again then r ∷ xs else xs);
          direct = map (λ (r : Read). r.row) (if late then r ∷ ys else ys);
          park = map park_row (if not again && not late then r ∷ zs else zs);
        })
  add_case true true r xs ys zs acc h = cc
  add_case true false r xs ys zs acc h =
      ap
        (λ l. record {
          reinject = l;
          direct = acc.direct ++ map (λ (r : Read). r.row) ys;
          park = acc.park ++ map park_row zs;
        })
        (append_assoc acc.reinject (r.row ∷ []) (map (λ (r : Read). r.row) xs))
  add_case false true r xs ys zs acc h =
      ap
        (λ l. record {
          reinject = acc.reinject ++ map (λ (r : Read). r.row) xs;
          direct = l;
          park = acc.park ++ map park_row zs;
        })
        (append_assoc acc.direct (r.row ∷ []) (map (λ (r : Read). r.row) ys))
  add_case false false r xs ys zs acc h =
      ap
        (λ l. record {
          reinject = acc.reinject ++ map (λ (r : Read). r.row) xs;
          direct = acc.direct ++ map (λ (r : Read). r.row) ys;
          park = l;
        })
        (append_assoc acc.park (park_row r ∷ []) (map park_row zs))

  add_sorted :
      (r : Read) (rs : List Read) (acc : Routes)
      → append_routes (add_route outside r.row (destination r) acc) (sorted rs)
        ≡ append_routes acc (sorted (r ∷ rs))
  add_sorted r rs acc =
      add_case (goes_again r) (goes_direct r) r (keep goes_again rs) (keep goes_direct rs)
        (keep stays rs) acc (one_way r)

  route_all_acc :
      (rs : List Read) (acc : Routes)
      → All IsRead rs
      → route_all outside max_replays (map (λ (r : Read). r.row) rs) acc
        ≡ returned (append_routes acc (sorted rs))
  unfolding route_all
  route_all_acc [] acc h = ap returned (sym (append_none acc))
  route_all_acc (r ∷ rs) acc h =
      ap
        (λ o. o >>= λ to.
          route_all outside max_replays (map (λ (r : Read). r.row) rs)
            (add_route outside r.row to acc))
        (route_of_lem r h.0)
      ∙ route_all_acc rs (add_route outside r.row (destination r) acc) h.1
      ∙ ap returned (add_sorted r rs acc)

  -- If every record has a replay count that `int` reads and a stage that is a text, the loop raises
  -- nothing, and sorts the records in their order: those over the ceiling are parked whatever their
  -- stage, the stages "cassandra_sink" and "producer" are re-injected, "late_event" is written
  -- directly, and every other stage is parked, with the reason added.
  pub route_all_lem :
      (rs : List Read)
      → All IsRead rs
      → route_all outside max_replays (map (λ (r : Read). r.row) rs) no_routes
        ≡ returned (sorted rs)
  route_all_lem rs h = route_all_acc rs no_routes h
