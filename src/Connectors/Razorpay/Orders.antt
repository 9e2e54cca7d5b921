-- ===== src/Connectors/Razorpay/Orders.antt =====
-- orders_connector.py. Floats and the conversions of `datetime` are parameters: `float(value)`,
-- the division of a float by 100, `datetime.fromtimestamp` and `int(t.timestamp())`.
use turbocat.Prelude.{
  ℕ, String, Bool, true, false, ◌&&◌, ◌≡◌, refl, Option, none, some, List, [], ◌∷◌, length, ◌<◌,
  ◌*◌, arith, is_ok, Result, ok, Result-cases, inl, inr, ◌>>=◌, if◌then◌else◌,
}
use turbocat.Prelude.Exec.{Exec}
use turbocat.Python.Dict.{Dict, get?, put, keys}
use turbocat.Python.Value.{ℤ, pos, Value, Fields, int, float, time, obj, to_dict, is_none}
use turbocat.Connectors.Base.Schema.{
  ColumnSchema, TableSchema, column_names, is_present, is_present-eq, is_present-some, validate,
}
use turbocat.Connectors.Base.Sync.{Extraction}
use turbocat.Connectors.Source.{fields_of, item, get_or_none, transform_all}
use turbocat.Connectors.Razorpay.Pages.{count, pages}
use turbocat.Connectors.Razorpay.Complete.{Serves, pages-Serves}
use turbocat.Connectors.Razorpay.Yields.{pages-All}
use turbocat.Connectors.Clickhouse.{rows_of}
use turbocat.Connectors.Clickhouse.Fitting.{Fits, rows_of-Fits}

abbrev pub column : String → String → Bool → ColumnSchema
column name type required = record { name = name; type = type; required = required }

abbrev pub orders_schema : TableSchema
orders_schema = record {
  table_name = "razorpay_orders";
  columns =
      column "id" "string" true
      ∷ column "amount" "float" true
      ∷ column "amount_paid" "float" false
      ∷ column "amount_due" "float" false
      ∷ column "currency" "string" true
      ∷ column "receipt" "string" false
      ∷ column "status" "string" true
      ∷ column "created_at" "datetime" true
      ∷ column "_extracted_at" "datetime" true
      ∷ [];
}

-- The parameters of the request for one page; a bound that is not given is left out.
module _ (timestamp : ℕ → ℤ) where
  abbrev bound : String → Option ℕ → Dict Value → Dict Value
  bound name none params = params
  bound name (some t) params = put name (int (timestamp t)) params

  unfoldable pub order_params : Option ℕ → Option ℕ → ℕ → Dict Value
  order_params start_time end_time skip =
      bound "to" end_time
        (bound "from" start_time (("skip", int (pos skip)) ∷ ("count", int (pos count)) ∷ []))

module _ (fromtimestamp : Value → Result ℕ) where
  -- datetime.fromtimestamp(value)
  unfoldable pub moment : Value → Result Value
  moment value = do t ← fromtimestamp value; ok (time t)

  pub moment-is_none : (v w : Value) → moment v ≡ ok w → is_none w ≡ false
  unfolding moment is_none
  moment-is_none v w h = ground arith

module _ (to_float : Value → Result ℕ) (div100 : ℕ → ℕ) (fromtimestamp : Value → Result ℕ)
    (now : ℕ) where
  -- `_none_to_zero(value) / 100`; the float 0.0 has the bit pattern 0.
  unfoldable pub rupees : Value → Result Value
  rupees value =
      if is_none value then ok (float (div100 0)) else do f ← to_float value; ok (float (div100 f))

  unfoldable pub transform_order : Value → Result (Dict Value)
  unfolding fields_of item
  transform_order value = do
    r ← fields_of value
    id ← item "id" r
    amount ← rupees (get_or_none "amount" r)
    amount_paid ← rupees (get_or_none "amount_paid" r)
    amount_due ← rupees (get_or_none "amount_due" r)
    currency ← item "currency" r
    status ← item "status" r
    created ← item "created_at" r
    created_at ← moment fromtimestamp created
    ok (
        ("id", id)
        ∷ ("amount", amount)
        ∷ ("amount_paid", amount_paid)
        ∷ ("amount_due", amount_due)
        ∷ ("currency", currency)
        ∷ ("receipt", get_or_none "receipt" r)
        ∷ ("status", status)
        ∷ ("created_at", created_at)
        ∷ ("_extracted_at", time now)
        ∷ [])

  transform_order-Fits :
      (v : Value) (r : Dict Value) → transform_order v ≡ ok r → Fits orders_schema r
  unfolding transform_order keys
  transform_order-Fits v r h = ground arith

  -- `extract`: `get_json` is the request and the decoding of its response.
  module _ {W : Type 0} (timestamp : ℕ → ℤ) (get_json : String → Dict Value → Exec W Value) where
    unfoldable pub extract_orders : ℕ → Option ℕ → Option ℕ → W → Option Extraction × W
    extract_orders fuel start_time end_time =
        pages (λ skip. get_json "/orders" (order_params timestamp start_time end_time skip))
          transform_order fuel 0

    -- Whatever the server answers, every batch of the records that `extract` yields becomes rows of
    -- ClickHouse's INSERT: they have the columns of the schema as keys, so none lacks a column.
    pub extract_orders-loadable :
        (fuel : ℕ) (start_time end_time : Option ℕ) (w : W) (x : Extraction)
        → (extract_orders fuel start_time end_time w).0 ≡ some x
        → is_ok (rows_of (column_names orders_schema.columns) x.yielded) ≡ true
    unfolding extract_orders
    extract_orders-loadable fuel start_time end_time w x h =
        rows_of-Fits orders_schema x.yielded
          (pages-All _ transform_order (Fits orders_schema) transform_order-Fits fuel 0 w x h)

    -- Where the API pages through one collection, and with fuel for one round more than its full
    -- pages: `extract` ends, and yields what `transform` makes of the orders of the collection, in their
    -- order, up to the first that `transform` refuses, whose exception ends it.
    pub extract_orders-Serves :
        (fuel : ℕ) (start_time end_time : Option ℕ) (w : W) (collection : List Value)
        → Serves
            (λ skip. get_json "/orders" (order_params timestamp start_time end_time skip))
            transform_order
            collection
        → length collection < fuel * count
        → (extract_orders fuel start_time end_time w).0
          ≡ some (transform_all transform_order collection)
    unfolding extract_orders
    extract_orders-Serves fuel start_time end_time w collection serves enough =
        pages-Serves _ transform_order collection fuel w serves enough

  module _ (fields : Fields) (r : Dict Value) (made : transform_order (obj fields) ≡ ok r) where
    -- What `transform` copies, and what it always fills.
    copied :
        (get? "id" r ≡ get? "id" (to_dict fields))
        × (get? "currency" r ≡ get? "currency" (to_dict fields))
        × (get? "status" r ≡ get? "status" (to_dict fields))
    unfolding transform_order get?
    copied = (ground arith, ground arith, ground arith)

    amount_made :
        (v : Value) × (get? "amount" r ≡ some v)
        × (rupees (get_or_none "amount" (to_dict fields)) ≡ ok v)
    unfolding transform_order get?
    amount_made = ground arith

    created_made :
        (v : Value) × (get? "created_at" r ≡ some v)
        × (moment fromtimestamp (get_or_none "created_at" (to_dict fields)) ≡ ok v)
    unfolding transform_order get? get_or_none
    created_made =
        elim (Result-cases (moment fromtimestamp (get_or_none "created_at" (to_dict fields)))) [
          | inl (v, p) ↦ (v, ground arith, p)
          | inr (e, p) ↦ absurd (ground arith)
        ]

    extracted_made : get? "_extracted_at" r ≡ some (time now)
    unfolding transform_order get?
    extracted_made = ground arith

  rupees-is_none : (v w : Value) → rupees v ≡ ok w → is_none w ≡ false
  unfolding rupees is_none
  rupees-is_none v w h = ground arith

  -- A transformed order passes `validate` exactly when the API gave a value that is not null for
  -- its id, its currency and its status.
  pub transform_order-validate :
      (fields : Fields) (r : Dict Value)
      → transform_order (obj fields) ≡ ok r
      → validate orders_schema r ≡ (
          is_present (to_dict fields) "id"
          && is_present (to_dict fields) "currency"
          && is_present (to_dict fields) "status")
  unfolding validate is_none
  transform_order-validate fields r h =
      let (id, currency, status) = copied fields r h in
      let (v, amount, computed) = amount_made fields r h in
      let (w, created, converted) = created_made fields r h in
      rw
        (
          is_present-some r "amount" v amount (rupees-is_none _ v computed),
          is_present-some r "created_at" w created (moment-is_none fromtimestamp _ w converted),
          is_present-some r "_extracted_at" _ (extracted_made fields r h) refl,
          is_present-eq r (to_dict fields) "id" id,
          is_present-eq r (to_dict fields) "currency" currency,
          is_present-eq r (to_dict fields) "status" status,
        )
        (ground arith)
