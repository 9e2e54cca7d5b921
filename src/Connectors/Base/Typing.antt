-- ===== src/Connectors/Base/Typing.antt =====
-- The types that the columns of base/models.py declare, read as Python values.
use turbocat.Prelude.{
  String, Bool, true, false, ◌||◌, ◌≡◌, refl, ap₂, List, [], ◌∷◌, str_eq, if◌then◌else◌,
}
use turbocat.Python.Dict.{Dict, keys}
use turbocat.Python.Value.{Value, int, float, time, is_none}
use turbocat.Connectors.Base.Schema.{ColumnSchema, column_names}

abbrev is_int : Value → Bool
is_int (int n) = true
is_int _ = false

abbrev is_float : Value → Bool
is_float (float b) = true
is_float _ = false

abbrev is_time : Value → Bool
is_time (time t) = true
is_time _ = false

-- None, or an int, a float or a datetime as the column says; a "string" column asks for nothing.
unfoldable pub has_type : String → Value → Bool
unfolding is_none
has_type type v =
    is_none v
    || (if str_eq type "integer"
        then is_int v
        else if str_eq type "float"
        then is_float v
        else if str_eq type "datetime"
        then is_time v
        else str_eq type "string")

-- The record has the columns as its keys, in order, each with a value of its type.
abbrev pub IsTyped : List ColumnSchema → Dict Value → Type 0
IsTyped [] [] = Unit
IsTyped (c ∷ columns) ((k, v) ∷ r) = ((k ≡ c.name) × (has_type c.type v ≡ true)) × IsTyped columns r
IsTyped _ _ = ⊥

-- One column after the other.
infixr 5 ◌&◌
abbrev pub ◌&◌ : {A B : Type 0} → A → B → A × B
a & b = (a, b)

pub IsTyped-keys :
    (columns : List ColumnSchema) (r : Dict Value)
    → IsTyped columns r
    → keys r ≡ column_names columns
unfolding keys
IsTyped-keys [] [] h = refl
IsTyped-keys [] (e ∷ r) h = absurd h
IsTyped-keys (c ∷ columns) [] h = absurd h
IsTyped-keys (c ∷ columns) ((k, v) ∷ r) ((same, _), rest) =
    ap₂ (λ j ks. j ∷ ks) same (IsTyped-keys columns r rest)
