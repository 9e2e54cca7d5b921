-- ===== src/Connectors/Clickhouse/Fitting.antt =====
-- Records with the columns of their schema as keys: they all become rows.
use turbocat.Prelude.{String, ◌≡◌, refl, true, List, [], ◌∷◌, is_ok, arith, All, eq_refl}
use turbocat.Python.Dict.{Dict, get?, has, keys}
use turbocat.Python.Value.{Value}
use turbocat.Connectors.Base.Schema.{TableSchema, column_names}
use turbocat.Connectors.Clickhouse.{row_of, rows_of}

-- The keys of the record are the names of the columns, in the same order.
abbrev pub Fits : TableSchema → Dict Value → Type 0
Fits schema r = keys r ≡ column_names schema.columns

has-cons : (k j : String) (v : Value) (r : Dict Value) → has k r ≡ true → has k ((j, v) ∷ r) ≡ true
unfolding has get?
has-cons k j v r h = ground arith

weaken :
    (names : List String) (j : String) (v : Value) (r : Dict Value)
    → All (λ k. has k r ≡ true) names
    → All (λ k. has k ((j, v) ∷ r) ≡ true) names
weaken [] j v r h = tt
weaken (k ∷ names) j v r (h, hs) = (has-cons k j v r h, weaken names j v r hs)

has_first : (k : String) (v : Value) (r : Dict Value) → has k ((k, v) ∷ r) ≡ true
unfolding has get?
has_first k v r = ground (arith, eq_refl k)

has-keys : (r : Dict Value) → All (λ k. has k r ≡ true) (keys r)
unfolding keys
has-keys [] = tt
has-keys ((k, v) ∷ r) = (has_first k v r, weaken (keys r) k v r (has-keys r))

row_of-ok :
    (names : List String) (r : Dict Value)
    → All (λ k. has k r ≡ true) names
    → is_ok (row_of names r) ≡ true
unfolding row_of has
row_of-ok [] r h = refl
row_of-ok (k ∷ names) r (h, hs) = ground (arith, row_of-ok names r hs)

-- No batch of records that fit the schema meets a KeyError on its way into the INSERT.
pub rows_of-Fits :
    (schema : TableSchema) (records : List (Dict Value))
    → All (Fits schema) records
    → is_ok (rows_of (column_names schema.columns) records) ≡ true
unfolding rows_of
rows_of-Fits schema [] h = refl
rows_of-Fits schema (r ∷ records) (h, hs) = ground (
  arith,
  rows_of-Fits schema records hs,
  row_of-ok (column_names schema.columns) r (rw h at (has-keys r)),
)
