-- ===== src/Connectors/Clickhouse/Loading.antt =====
-- What `load` sends to the database, and the contract that `sync` asks of a destination.
use turbocat.Prelude.{
  ℕ, String, ◌≡◌, false, Option, none, some, List, [], ◌∷◌, ◌++◌, length, ok, is_ok, arith,
  Result-cases, inl, inr,
}
use turbocat.Prelude.Exec.{Exec}
use turbocat.Python.Dict.{Dict, get?}
use turbocat.Python.Value.{Value}
use turbocat.Connectors.Base.Schema.{TableSchema, column_names}
use turbocat.Connectors.Base.Sync.Accounting.{LoadsAll}
use turbocat.Connectors.Clickhouse.{rows_of, create_sql, insert_sql, load}
use turbocat.Connectors.Clickhouse.Rows.{AreRows, rows_of-AreRows, rows_of_missing, row_of_missing}

module _ {C : Type 0} (execute : String → Option (List (List Value)) → Exec C (Unit {0})) where
  -- The whole effect of a `load` that returns: a CREATE TABLE and then one INSERT.
  pub record Loaded (schema : TableSchema) (table : String) (records : List (Dict Value)) (c c' : C)
      (result : Dict ℕ) : Type 0 where
    pub rows : List (List Value)
    pub between : C
    pub matching : AreRows (column_names schema.columns) records rows
    pub created : execute (create_sql table schema) none c ≡ (ok tt, between)
    pub inserted : execute (insert_sql table schema) (some rows) between ≡ (ok tt, c')
    pub counted : get? "records_loaded" result ≡ some (length records)

  -- A `load` of at least one record that returns has sent exactly two statements, the CREATE TABLE
  -- and one INSERT with a row for each record, in order, of the record's values in the order of the
  -- schema's columns; it reports all the records as loaded.
  pub load-Loaded :
      (table : String) (r : Dict Value) (records : List (Dict Value)) (schema : TableSchema) (c : C)
      (result : Dict ℕ)
      → (load execute table (r ∷ records) schema c).0 ≡ ok result
      → Loaded schema table (r ∷ records) c (load execute table (r ∷ records) schema c).1 result
  unfolding load get?
  load-Loaded table r records schema c result h =
      let created = execute (create_sql table schema) none c in
      elim (Result-cases (rows_of (column_names schema.columns) (r ∷ records))) [
        | inr (e, p) ↦ absurd (ground arith)
        | inl (rows, p) ↦ record {
          rows = rows;
          between = created.1;
          matching = rows_of-AreRows (column_names schema.columns) (r ∷ records) rows p;
          created = ground arith;
          inserted = ground arith;
          counted = ground arith;
        }
      ]

  -- If one record of the batch lacks one column of the schema, `load` raises and sends at most the
  -- CREATE TABLE: no row of the batch is inserted.
  pub load_missing_column :
      (table : String) (schema : TableSchema) (first : List String) (name : String)
      (others : List String) (before : List (Dict Value)) (r : Dict Value)
      (after : List (Dict Value)) (c : C)
      → column_names schema.columns ≡ first ++ name ∷ others
      → get? name r ≡ none
      → (is_ok (load execute table (before ++ r ∷ after) schema c).0 ≡ false)
        × ((load execute table (before ++ r ∷ after) schema c).1
            ≡ (execute (create_sql table schema) none c).1)
  unfolding load
  load_missing_column table schema first name others [] r after c split missing = ground (
    arith,
    rows_of_missing (column_names schema.columns) [] r after
        (rw split (row_of_missing first name others r missing)),
  )
  load_missing_column table schema first name others (b ∷ before) r after c split missing = ground (
    arith,
    rows_of_missing (column_names schema.columns) (b ∷ before) r after
        (rw split (row_of_missing first name others r missing)),
  )

  -- ClickHouse's `load` meets the contract that the counters of `sync` rest on.
  pub load-LoadsAll : (schema : TableSchema) → LoadsAll (load execute) schema
  unfolding load get?
  load-LoadsAll schema [] c result h = ground arith
  load-LoadsAll schema (r ∷ records) c result h =
      (load-Loaded schema.table_name r records schema c result h).counted
