-- ===== src/Connectors/Clickhouse/Rows.antt =====
-- The rows of the batch INSERT against the records that they are made of.
use turbocat.Prelude.{String, ◌≡◌, false, none, some, List, [], ◌∷◌, ◌++◌, ok, is_ok, arith}
use turbocat.Python.Dict.{Dict, get?}
use turbocat.Python.Value.{Value}
use turbocat.Connectors.Clickhouse.{row_of, rows_of}

-- The row holds the record's value of each column, in the order of the columns, and no more.
abbrev pub IsRow : List String → Dict Value → List Value → Type 0
IsRow [] r [] = Unit
IsRow [] r (v ∷ row) = ⊥
IsRow (name ∷ names) r [] = ⊥
IsRow (name ∷ names) r (v ∷ row) = (get? name r ≡ some v) × IsRow names r row

-- One row for each record, in the order of the records.
abbrev pub AreRows : List String → List (Dict Value) → List (List Value) → Type 0
AreRows names [] [] = Unit
AreRows names [] (row ∷ rows) = ⊥
AreRows names (r ∷ records) [] = ⊥
AreRows names (r ∷ records) (row ∷ rows) = IsRow names r row × AreRows names records rows

row_of-IsRow :
    (names : List String) (r : Dict Value) (row : List Value)
    → row_of names r ≡ ok row
    → IsRow names r row
unfolding row_of
row_of-IsRow [] r [] h = tt
row_of-IsRow [] r (v ∷ row) h = cc
row_of-IsRow (name ∷ names) r [] h = ground arith
row_of-IsRow (name ∷ names) r (v ∷ row) h = (ground arith, row_of-IsRow names r row (ground arith))

pub rows_of-AreRows :
    (names : List String) (records : List (Dict Value)) (rows : List (List Value))
    → rows_of names records ≡ ok rows
    → AreRows names records rows
unfolding rows_of
rows_of-AreRows names [] [] h = tt
rows_of-AreRows names [] (row ∷ rows) h = cc
rows_of-AreRows names (r ∷ records) [] h = ground arith
rows_of-AreRows names (r ∷ records) (row ∷ rows) h =
    (row_of-IsRow names r row (ground arith), rows_of-AreRows names records rows (ground arith))

pub row_of_missing :
    (before : List String) (name : String) (after : List String) (r : Dict Value)
    → get? name r ≡ none
    → is_ok (row_of (before ++ name ∷ after) r) ≡ false
unfolding row_of
row_of_missing [] name after r h = rw (h, row_of)
row_of_missing (b ∷ before) name after r h = ground (arith, row_of_missing before name after r h)

-- One record with one column missing is enough for no row to be made.
pub rows_of_missing :
    (names : List String) (before : List (Dict Value)) (r : Dict Value) (after : List (Dict Value))
    → is_ok (row_of names r) ≡ false
    → is_ok (rows_of names (before ++ r ∷ after)) ≡ false
unfolding rows_of
rows_of_missing names [] r after h = ground arith
rows_of_missing names (b ∷ before) r after h =
    ground (arith, rows_of_missing names before r after h)
