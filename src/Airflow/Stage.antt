-- ===== src/Airflow/Stage.antt =====
-- The stage table of the rollup as the tasks see it, and what they rely on in PostgreSQL and in
-- Cassandra. The upsert is the INSERT … ON CONFLICT (trip_id) DO UPDATE of trips_batch_rollup.py and
-- trips_backfill.py.
pub mod Landing
use text.Mathlib.Text.{◌==◌}
use real_time_data_pipeline.Base.{
  ℕ, ◌+◌, ◌≤◌, ◌<◌, ◌≡◌, refl, sym, String, Bool, true, false, ◌&&◌, Option, none, some, List, [],
  ◌∷◌, ◌++◌, map, keep, length, All, leb, ltb, if◌then◌else◌,
}
use real_time_data_pipeline.Base.Errors.{Outcome, returned}
use real_time_data_pipeline.Bench.Act.{Act}
use real_time_data_pipeline.Airflow.{Services, Load, TripRow}

-- The rows by their primary key, all columns but `loaded_at`.
abbrev pub Table : Type 0
Table = String → Option Load

-- The row that stands after an INSERT on a key: a new one, or the old one with three columns set.
unfoldable pub merged : Load → Option Load → Load
merged l none = l
merged l (some r) = record r {
  event_time = l.event_time;
  fare_amount = l.fare_amount;
  status = l.status;
}

unfoldable pub landed : String → List Load → Option Load → Option Load
unfolding merged
landed k [] o = o
landed k (l ∷ ls) o = landed k ls (if l.trip_id == k then some (merged l o) else o)

abbrev pub landing : List Load → Table → Table
landing ls t k = landed k ls (t k)

-- `event_time >= start AND event_time < end`, for the row of a key.
abbrev pub is_in : ℕ → ℕ → Option Load → Bool
is_in start end none = false
is_in start end (some r) = leb start r.event_time && ltb r.event_time end

-- No two of them are the same.
abbrev pub IsDistinct : List String → Type 0
IsDistinct [] = Unit
IsDistinct (k ∷ ks) = All (λ (j : String). (k == j) ≡ false) ks × IsDistinct ks

abbrev pub trip_ids : List Load → List String
trip_ids ls = map (λ l. l.trip_id) ls

-- The rows of a table among some keys that lie in an hour.
abbrev pub held_among : ℕ → ℕ → Table → List String → ℕ
held_among start end t ks = length (keep (λ k. is_in start end (t k)) ks)

-- What the tasks see of PostgreSQL: the committed table, and COUNT(*) over a span of time.
pub record Stage (W : Type 0) : Type 1 where
  pub State : Type 0
  pub sees : W → State
  pub row : State → Table
  pub held : State → ℕ → ℕ → ℕ

-- The payload has landed: each row is as its upserts leave it, and COUNT(*) has changed by what has
-- become of the rows of its keys.
abbrev pub IsStored :
    {W : Type 0} (stage : Stage W) → List Load → stage.State → stage.State → Type 0
IsStored stage p s s' =
    (stage.row s' ≡ landing p (stage.row s))
    × ((start end : ℕ)
        → IsDistinct (trip_ids p)
        → stage.held s' start end + held_among start end (stage.row s) (trip_ids p)
          ≡ stage.held s start end + held_among start end (stage.row s') (trip_ids p))

-- Between stages that are the same.
pub IsStored-between :
    {W : Type 0} (stage : Stage W) (p : List Load) {s s1 s2 s3 : stage.State}
    → s1 ≡ s
    → s2 ≡ s3
    → IsStored stage p s1 s2
    → IsStored stage p s s3
IsStored-between stage p e f h = rw (sym e) (rw (sym f) h)

-- Only an INSERT that is committed changes the stage.
pub record IsStage {W : Type 0} (services : Services W) (stage : Stage W) : Type 0 where
  pub stores :
      (p : List Load) (w w1 w2 : W)
      → services.execute_values p w ≡ (returned tt, w1)
      → services.commit w1 ≡ (returned tt, w2)
      → IsStored stage p (stage.sees w) (stage.sees w2)
  pub rowcount_reads : (w : W) → (services.rowcount w).1 ≡ w
  pub opens : (w : W) → stage.sees (services.cassandra_session w).1 ≡ stage.sees w
  pub selects : (c : String) (h : ℕ) (w : W) → stage.sees (services.select c h w).1 ≡ stage.sees w
  pub shuts : (w : W) → stage.sees (services.shutdown w).1 ≡ stage.sees w
  pub connects : (w : W) → stage.sees (services.pg_conn w).1 ≡ stage.sees w
  pub closes : (w : W) → stage.sees (services.close w).1 ≡ stage.sees w

-- PostgreSQL can be reached, and answers COUNT(*) by what the stage holds.
pub record IsUp {W : Type 0} (services : Services W) (stage : Stage W) : Type 0 where
  pub answers :
      (start end : ℕ) (w : W)
      → (services.count_between start end w).0 ≡ returned (stage.held (stage.sees w) start end)
  pub reaches : (w : W) → (services.pg_conn w).0 ≡ returned tt
  pub ends : (w : W) → (services.close w).0 ≡ returned tt

-- Cassandra answers a query always by the same rows.
abbrev pub Answers : {W : Type 0} → Services W → (String → ℕ → List TripRow) → Type 0
Answers {W} services rows =
    (c : String) (h : ℕ) (w : W) → (services.select c h w).0 ≡ returned (rows c h)

-- The rows of an hour, city by city.
abbrev pub rows_of : (String → ℕ → List TripRow) → ℕ → List String → List (String × TripRow)
rows_of rows hour [] = []
rows_of rows hour (city ∷ rest) = map (λ r. (city, r)) (rows city hour) ++ rows_of rows hour rest
