-- ===== src/Tests/Loads.antt =====
-- ClickHouse's `load` into the database of the fixtures.
use turbocat.Prelude.{◌≡◌, refl, [], ◌∷◌}
use turbocat.Python.Dict.{Dict, get?}
use turbocat.Python.Value.{Value, null}
use turbocat.Connectors.Clickhouse.{load, rows_of, create_sql}
use turbocat.Connectors.Clickhouse.Loading.{Loaded, load-Loaded}
use turbocat.Tests.Fixtures.{execute, tiny, row}

create_sql_test :
    create_sql "tiny" tiny
    ≡ "CREATE TABLE IF NOT EXISTS tiny (`id` String) ENGINE = ReplacingMergeTree() ORDER BY (id)"
unfolding create_sql get?
create_sql_test = refl

load-Loaded_example :
    Loaded execute tiny "tiny"
      (row "a" ∷ [])
      []
      (load execute "tiny" (row "a" ∷ []) tiny []).1
      (("records_loaded", 1) ∷ ("records_failed", 0) ∷ [])
unfolding load rows_of get?
load-Loaded_example =
    load-Loaded execute "tiny" (row "a") [] tiny []
      (("records_loaded", 1) ∷ ("records_failed", 0) ∷ []) refl

abbrev other : Dict Value
other = ("name", null) ∷ []
