-- ===== src/Sink/Ring.antt =====
-- The sink's statements as the database sees them (streaming/cassandra_sink.py), and what the
-- sink relies on in Cassandra: an INSERT is an upsert on the table's primary key.
pub mod Redelivery
use real_time_data_pipeline.Base.{
  ℕ, String, ◌≡◌, refl, sym, ap, ◌∙◌, Bool, true, false, ◌||◌, Option, none, some, List, [], ◌∷◌,
  ◌++◌, map, arith, if◌then◌else◌,
}
use real_time_data_pipeline.Value.{Value, null}
use real_time_data_pipeline.Sink.Tables.{columns, primary_key}
use real_time_data_pipeline.Sink.Statements.{Statement}
use text.Mathlib.Text.{◌==◌}

-- The value that a statement binds to a column.
unfoldable pub cell : List String → List Value → String → Value
cell [] vs c = null
cell (k ∷ ks) [] c = null
cell (k ∷ ks) (v ∷ vs) c = if k == c then v else cell ks vs c

abbrev pub Key : Type 0
Key = String × List Value

-- The row that a statement writes to: its table and the values of the primary key.
unfoldable pub key_of : Statement → Key
key_of st = (st.table, map (cell (columns st.table) st.params) (primary_key st.table))

abbrev pub is_event_column : String → Bool
is_event_column c = if "ingested_at_ms" == c then false else true

-- The keyspace. `same` is the database's equality of keys.
-- `read-upsert` is the upsert: an INSERT sets the row of its key and no other.
pub record Ring : Type 1 where
  pub State : Type 0
  pub read : State → Key → Option (List Value)
  pub upsert : Statement → State → State
  pub same : Key → Key → Bool
  pub same_table : (j k : Key) → same j k ≡ true → j.0 ≡ k.0
  pub read-upsert :
      (st : Statement) (s : State) (k : Key)
      → read (upsert st s) k ≡ (if same (key_of st) k then some st.params else read s k)

-- What of a written row is the event's own: all columns but the time of ingestion.
unfoldable pub event_cells : List String → List Value → List Value
event_cells [] vs = []
event_cells (k ∷ ks) [] = []
event_cells (k ∷ ks) (v ∷ vs) =
    if is_event_column k then v ∷ event_cells ks vs else event_cells ks vs

-- `session.execute` of statements one after the other.
unfoldable pub write_all : (r : Ring) → List Statement → Ring.State r → Ring.State r
write_all r [] s = s
write_all r (st ∷ sts) s = write_all r sts (Ring.upsert r st s)

-- What a reader sees of a key: the event's own columns of its row, if there is one.
unfoldable pub view : (r : Ring) → Ring.State r → Key → Option (List Value)
unfolding event_cells
view r s k = elim (r.read s k) [
  | none ↦ none
  | some params ↦ some (event_cells (columns k.0) params)
]
