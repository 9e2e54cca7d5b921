-- ===== src/Connectors/Clickhouse.antt =====
-- connectors/src/data_connectors/destinations/clickhouse/connector.py. The driver's client is a
-- parameter: `execute(sql)` and `execute(sql, rows)` over the state of the database.
pub mod Rows
pub mod Loading
pub mod Fitting
use turbocat.Prelude.{
  ℕ, String, Bool, true, false, not, ◌≡◌, refl, Option, none, some, List, [], ◌∷◌, map, length,
  str_eq, if◌then◌else◌, Result, ok, err, Exc, Kind, key_error,
}
use Prim.Native.String.{◌++◌}
use turbocat.Prelude.Exec.{Exec, pure, raise, lift, ◌>>=◌, ◌>>◌}
use turbocat.Python.Dict.{Dict, get?}
use turbocat.Python.Value.{Value}
use turbocat.Connectors.Base.Schema.{ColumnSchema, TableSchema, column_names}

-- sep.join(texts)
unfoldable pub join : String → List String → String
join sep [] = ""
join sep (s ∷ []) = s
join sep (s ∷ t ∷ rest) = s ++ sep ++ join sep (t ∷ rest)

abbrev pub type_mapping : Dict String
type_mapping =
    ("string", "String")
    ∷ ("integer", "Int64")
    ∷ ("float", "Float64")
    ∷ ("boolean", "UInt8")
    ∷ ("datetime", "DateTime")
    ∷ ("json", "String")
    ∷ []

unfoldable pub map_type : String → String
map_type type = elim (get? type type_mapping) [ none ↦ "String" | some t ↦ t ]

unfoldable pub column_def : ColumnSchema → String
unfolding map_type
column_def col =
    let ch_type = map_type col.type in
    "`" ++ col.name ++ "` " ++ (if col.required then ch_type else "Nullable(" ++ ch_type ++ ")")

unfoldable pub version_col : List ColumnSchema → Option String
version_col [] = none
version_col (col ∷ columns) =
    if str_eq col.name "_extracted_at" then some col.name else version_col columns

abbrev pub engine_of : Option String → String
engine_of none = "ReplacingMergeTree()"
engine_of (some col) =
    if str_eq col "" then "ReplacingMergeTree()" else "ReplacingMergeTree(" ++ col ++ ")"

unfoldable pub create_sql : String → TableSchema → String
unfolding join column_def version_col
create_sql table_name schema =
    "CREATE TABLE IF NOT EXISTS "
    ++ table_name
    ++ " ("
    ++ join ", " (map column_def schema.columns)
    ++ ") ENGINE = "
    ++ engine_of (version_col schema.columns)
    ++ " ORDER BY (id)"

unfoldable pub insert_sql : String → TableSchema → String
unfolding join
insert_sql table_name schema =
    "INSERT INTO " ++ table_name ++ " (" ++ join ", " (column_names schema.columns) ++ ") VALUES"

-- record[name], for each column in turn
unfoldable pub row_of : List String → Dict Value → Result (List Value)
row_of [] r = ok []
row_of (name ∷ names) r = elim (get? name r) [
  | none ↦ err (record { kind = key_error; text = "'" ++ name ++ "'" })
  | some v ↦ elim (row_of names r) [ ok row ↦ ok (v ∷ row) | err e ↦ err e ]
]

unfoldable pub rows_of : List String → List (Dict Value) → Result (List (List Value))
unfolding row_of
rows_of names [] = ok []
rows_of names (r ∷ records) = elim (row_of names r) [
  | ok row ↦ elim (rows_of names records) [ ok rows ↦ ok (row ∷ rows) | err e ↦ err e ]
  | err e ↦ err e
]

module _ {C : Type 0} (execute : String → Option (List (List Value)) → Exec C (Unit {0})) where
  unfoldable pub ensure_table_exists : String → TableSchema → Exec C (Unit {0})
  ensure_table_exists table_name schema = execute (create_sql table_name schema) none

  unfoldable pub execute_batch_insert : String → List (Dict Value) → TableSchema → Exec C (Unit {0})
  execute_batch_insert table_name records schema = do
    rows ← lift (rows_of (column_names schema.columns) records)
    execute (insert_sql table_name schema) (some rows)

  unfoldable pub load : String → List (Dict Value) → TableSchema → Exec C (Dict ℕ)
  unfolding ensure_table_exists execute_batch_insert
  load table_name [] schema = pure (("records_loaded", 0) ∷ ("records_failed", 0) ∷ [])
  load table_name (r ∷ records) schema = do
    ensure_table_exists table_name schema
    execute_batch_insert table_name (r ∷ records) schema
    pure (("records_loaded", length (r ∷ records)) ∷ ("records_failed", 0) ∷ [])
