-- ===== src/Connectors/Razorpay/Customers.antt =====
-- customers_connector.py. It takes a time window and does not use it.
use turbocat.Prelude.{
  ℕ, String, true, false, ◌≡◌, refl, Option, some, List, [], ◌∷◌, length, ◌<◌, ◌*◌, arith, is_ok,
  Result, ok, ◌>>=◌, Result-cases, inl, inr,
}
use turbocat.Prelude.Exec.{Exec}
use turbocat.Python.Dict.{Dict, get?, keys}
use turbocat.Python.Value.{pos, Value, Fields, int, time, obj, to_dict, is_none}
use turbocat.Connectors.Base.Schema.{
  TableSchema, column_names, is_present, is_present-eq, is_present-some, validate,
}
use turbocat.Connectors.Base.Sync.{Extraction}
use turbocat.Connectors.Source.{fields_of, item, get_or_none, transform_all}
use turbocat.Connectors.Razorpay.Pages.{count, pages}
use turbocat.Connectors.Razorpay.Complete.{Serves, pages-Serves}
use turbocat.Connectors.Razorpay.Yields.{pages-All}
use turbocat.Connectors.Razorpay.Orders.{column, moment, moment-is_none}
use turbocat.Connectors.Clickhouse.{rows_of}
use turbocat.Connectors.Clickhouse.Fitting.{Fits, rows_of-Fits}

abbrev pub customers_schema : TableSchema
customers_schema = record {
  table_name = "customers";
  columns =
      column "id" "string" true
      ∷ column "name" "string" false
      ∷ column "contact" "string" false
      ∷ column "email" "string" false
      ∷ column "gstin" "string" false
      ∷ column "notes" "string" false
      ∷ column "created_at" "datetime" true
      ∷ column "_extracted_at" "datetime" true
      ∷ [];
}

unfoldable pub customer_params : ℕ → Dict Value
customer_params skip = ("skip", int (pos skip)) ∷ ("count", int (pos count)) ∷ []

module _ (fromtimestamp : Value → Result ℕ) (now : ℕ) where
  unfoldable pub transform_customer : Value → Result (Dict Value)
  unfolding fields_of item
  transform_customer value = do
    r ← fields_of value
    id ← item "id" r
    contact ← item "contact" r
    created ← item "created_at" r
    created_at ← moment fromtimestamp created
    ok (
        ("id", id)
        ∷ ("name", get_or_none "name" r)
        ∷ ("contact", contact)
        ∷ ("email", get_or_none "email" r)
        ∷ ("gstin", get_or_none "gstin" r)
        ∷ ("notes", get_or_none "notes" r)
        ∷ ("created_at", created_at)
        ∷ ("_extracted_at", time now)
        ∷ [])

  transform_customer-Fits :
      (v : Value) (r : Dict Value) → transform_customer v ≡ ok r → Fits customers_schema r
  unfolding transform_customer keys
  transform_customer-Fits v r h = ground arith

  module _ {W : Type 0} (get_json : String → Dict Value → Exec W Value) where
    unfoldable pub extract_customers : ℕ → Option ℕ → Option ℕ → W → Option Extraction × W
    extract_customers fuel start_time end_time =
        pages (λ skip. get_json "/customers" (customer_params skip)) transform_customer fuel 0

    -- Whatever the server answers, the customers that `extract` yields become rows of the INSERT.
    pub extract_customers-loadable :
        (fuel : ℕ) (start_time end_time : Option ℕ) (w : W) (x : Extraction)
        → (extract_customers fuel start_time end_time w).0 ≡ some x
        → is_ok (rows_of (column_names customers_schema.columns) x.yielded) ≡ true
    unfolding extract_customers
    extract_customers-loadable fuel start_time end_time w x h =
        rows_of-Fits customers_schema x.yielded (
          pages-All _ transform_customer (Fits customers_schema) transform_customer-Fits fuel 0 w x
            h)

    -- Where the API pages through one collection, `extract` yields all of its customers, once and in
    -- order, whatever window of time it is asked for.
    pub extract_customers-Serves :
        (fuel : ℕ) (start_time end_time : Option ℕ) (w : W) (collection : List Value)
        → Serves
            (λ skip. get_json "/customers" (customer_params skip))
            transform_customer
            collection
        → length collection < fuel * count
        → (extract_customers fuel start_time end_time w).0
          ≡ some (transform_all transform_customer collection)
    unfolding extract_customers
    extract_customers-Serves fuel start_time end_time w collection serves enough =
        pages-Serves _ transform_customer collection fuel w serves enough

  module _ (fields : Fields) (r : Dict Value) (made : transform_customer (obj fields) ≡ ok r) where
    copied : get? "id" r ≡ get? "id" (to_dict fields)
    unfolding transform_customer get?
    copied = ground arith

    created_made :
        (v : Value) × (get? "created_at" r ≡ some v)
        × (moment fromtimestamp (get_or_none "created_at" (to_dict fields)) ≡ ok v)
    unfolding transform_customer get? get_or_none
    created_made =
        elim (Result-cases (moment fromtimestamp (get_or_none "created_at" (to_dict fields)))) [
          | inl (v, p) ↦ (v, ground arith, p)
          | inr (e, p) ↦ absurd (ground arith)
        ]

    extracted_made : get? "_extracted_at" r ≡ some (time now)
    unfolding transform_customer get?
    extracted_made = ground arith

  -- A transformed customer passes `validate` exactly when the API gave an id that is not null.
  pub transform_customer-validate :
      (fields : Fields) (r : Dict Value)
      → transform_customer (obj fields) ≡ ok r
      → validate customers_schema r ≡ is_present (to_dict fields) "id"
  unfolding validate is_none
  transform_customer-validate fields r h =
      let (w, created, converted) = created_made fields r h in
      rw
        (
          is_present-some r "created_at" w created (moment-is_none fromtimestamp _ w converted),
          is_present-some r "_extracted_at" _ (extracted_made fields r h) refl,
          is_present-eq r (to_dict fields) "id" (copied fields r h),
        )
        (ground arith)
