-- ===== src/Value.antt =====
-- The Python values that the pipeline passes about: what JSON can hold, and datetimes, dates and
-- UUIDs. A float is kept by its `repr`; the pipeline hands floats on and does not compute with them.
pub mod Int
use text.Mathlib.Text.{◌==◌}
use real_time_data_pipeline.Base.{
  ℕ, zero, String, ◌≡◌, refl, ap, Bool, true, false, not, ◌||◌, Option, none, some, [], ◌∷◌,
}
use real_time_data_pipeline.Base.Dict.{Dict, lookup}
use real_time_data_pipeline.Base.Errors.{Outcome, returned, raised, key_error}

-- `negsuc n` is -(n + 1).
pub data ℤ : Type 0 where
  pos : ℕ → ℤ
  negsuc : ℕ → ℤ

-- Microseconds of the wall clock since 1970-01-01, and the zone's offset in minutes, if it has one.
pub record Datetime : Type 0 where
  pub wall : ℕ
  pub tzinfo : Option ℤ

mutual
  pub data Value : Type 0 where
    null : Value
    bool : Bool → Value
    int : ℤ → Value
    float : String → Value
    str : String → Value
    time : Datetime → Value
    date : ℕ → Value
    uuid : String → Value
    arr : Items → Value
    obj : Fields → Value

  pub data Fields : Type 0 where
    end : Fields
    field : String → Value → Fields → Fields

  pub data Items : Type 0 where
    nil : Items
    cons : Value → Items → Items

-- The dict that an object is, and the other way round.
abbrev pub entries : Fields → Dict Value
entries end = []
entries (field k v fs) = (k, v) ∷ entries fs

abbrev pub fields : Dict Value → Fields
fields [] = end
fields ((k, v) ∷ d) = field k v (fields d)

pub entries-fields : (d : Dict Value) → entries (fields d) ≡ d
entries-fields [] = refl
entries-fields ((k, v) ∷ d) = ap (λ (r : Dict Value). (k, v) ∷ r) (entries-fields d)

-- `bool(v)`
unfoldable pub truthy : Value → Bool
truthy null = false
truthy (bool b) = b
truthy (int (pos zero)) = false
truthy (float s) = not (s == "0.0" || s == "-0.0")
truthy (str s) = not (s == "")
truthy (arr nil) = false
truthy (obj end) = false
truthy v = true

-- `v in (None, "")`
unfoldable pub is_blank : Value → Bool
is_blank null = true
is_blank (str s) = s == ""
is_blank v = false

-- `v is None`
unfoldable pub is_none : Value → Bool
is_none null = true
is_none v = false

-- `d.get(k)`
unfoldable pub get : Dict Value → String → Value
unfolding lookup
get d k = elim (lookup k d) [ none ↦ null | some v ↦ v ]

-- `d[k]`
unfoldable pub at : Dict Value → String → Outcome Value
unfolding lookup
at d k = elim (lookup k d) [ none ↦ raised (key_error k) | some v ↦ returned v ]
