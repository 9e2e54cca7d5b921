-- ===== src/Connectors/Base/Schema.antt =====
-- base/models.py, and `validate` of base/connector.py.
use turbocat.Prelude.{
  String, Bool, true, false, ◌≡◌, Option, none, some, List, [], ◌∷◌, map, filter, not,
  if◌then◌else◌, str_eq, arith, ℕ,
}
use turbocat.Python.Dict.{Dict, get?}
use turbocat.Python.Value.{Value, is_none}

pub record ColumnSchema : Type 0 where
  pub name : String
  pub type : String
  pub required : Bool

pub record TableSchema : Type 0 where
  pub table_name : String
  pub columns : List ColumnSchema

abbrev pub column_names : List ColumnSchema → List String
column_names = map (λ c. c.name)

-- [col.name for col in self.columns if col.required]
unfoldable pub required_column_names : TableSchema → List String
required_column_names schema = column_names (filter (λ c. c.required) schema.columns)

-- record[field] is there and is not None
unfoldable pub is_present : Dict Value → String → Bool
is_present r name = elim (get? name r) [ none ↦ false | some v ↦ not (is_none v) ]

unfoldable pub has_all : Dict Value → List String → Bool
unfolding is_present
has_all r [] = true
has_all r (name ∷ names) = if is_present r name then has_all r names else false

-- The early return is the first missing field.
unfoldable pub validate : TableSchema → Dict Value → Bool
unfolding required_column_names has_all
validate schema r = has_all r (required_column_names schema)

-- base/models.py's SyncResult. `duration_seconds` is the bit pattern of a float.
pub record SyncResult : Type 0 where
  pub status : String
  pub records_extracted : ℕ
  pub records_loaded : ℕ
  pub records_failed : ℕ
  pub duration_seconds : ℕ
  pub next_state : Dict Value
  pub error : Option String

unfoldable pub is_success : SyncResult → Bool
is_success result = str_eq result.status "success"

-- A column that is required has a value that is not None in the record.
abbrev pub IsFilled : Dict Value → ColumnSchema → Type 0
IsFilled r c = c.required ≡ true → (v : Value) × (get? c.name r ≡ some v) × (is_none v ≡ false)

pub is_present-eq :
    (r d : Dict Value) (name : String)
    → get? name r ≡ get? name d
    → is_present r name ≡ is_present d name
unfolding is_present
is_present-eq r d name h = ground arith

pub is_present-some :
    (r : Dict Value) (name : String) (v : Value)
    → get? name r ≡ some v
    → is_none v ≡ false
    → is_present r name ≡ true
unfolding is_present
is_present-some r name v h full = ground arith
