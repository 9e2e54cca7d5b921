-- ===== src/Connectors/Base/Validation.antt =====
-- `validate` of base/connector.py against what its comment says of it.
use turbocat.Prelude.{
  String, ◌≡◌, refl, ◌↔◌, true, false, some, List, [], ◌∷◌, filter, All, arith, Option-cases,
  Bool-cases, inl, inr,
}
use turbocat.Python.Dict.{Dict, get?}
use turbocat.Python.Value.{Value, is_none}
use turbocat.Connectors.Base.Schema.{
  ColumnSchema, TableSchema, IsFilled, column_names, is_present, has_all, required_column_names,
  validate,
}

module _ (r : Dict Value) where
  is_present_found :
      (name : String)
      → is_present r name ≡ true
      → (v : Value) × (get? name r ≡ some v) × (is_none v ≡ false)
  unfolding is_present
  is_present_found name h = elim (Option-cases (get? name r)) [
    | inl e ↦ ground arith
    | inr (v, e) ↦ (v, e, ground arith)
  ]

  filled :
      (columns : List ColumnSchema)
      → has_all r (column_names (filter (λ c. c.required) columns)) ≡ true
      → All (IsFilled r) columns
  unfolding has_all
  filled [] h = tt
  filled (c ∷ columns) h = elim (Bool-cases c.required) [
    | inr optional ↦ (λ need. cc, filled columns (ground arith))
    | inl needed ↦ (λ _. is_present_found c.name (ground arith), filled columns (ground arith))
  ]

  present_if_filled :
      (columns : List ColumnSchema)
      → All (IsFilled r) columns
      → has_all r (column_names (filter (λ c. c.required) columns)) ≡ true
  unfolding has_all is_present
  present_if_filled [] h = refl
  present_if_filled (c ∷ columns) (h, hs) = elim (Bool-cases c.required) [
    | inr optional ↦ rw optional (present_if_filled columns hs)
    | inl needed ↦
        let (v, there, full) = h needed in ground (arith, there, full, present_if_filled columns hs)
  ]

  -- A record passes `validate` exactly when every required column of the schema has a value in it
  -- that is not None.
  pub validate_iff :
      (schema : TableSchema) → (validate schema r ≡ true) ↔ All (IsFilled r) schema.columns
  unfolding validate required_column_names
  validate_iff schema = (filled schema.columns, present_if_filled schema.columns)
