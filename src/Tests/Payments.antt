-- ===== src/Tests/Payments.antt =====
-- The Razorpay connectors against a server with one page.
use turbocat.Connectors.Base.Typing.{IsTyped}
use turbocat.Connectors.Razorpay.Typing.{extract_orders-IsTyped}
use turbocat.Prelude.{
  All, ℕ, ◌/◌, String, ◌≡◌, refl, ap, Option, none, some, List, [], ◌∷◌, take, drop, Result, ok,
  err, arith,
}
use turbocat.Prelude.Exec.{Exec}
use turbocat.Python.Dict.{Dict, get?}
use turbocat.Python.Value.{
  ℤ, pos, Value, Items, Fields, nil, cons, null, int, float, text, time, arr, obj, end, field,
  to_list, to_dict,
}
use turbocat.Connectors.Base.Sync.{Extraction}
use turbocat.Connectors.Source.{transform_all}
use turbocat.Connectors.Razorpay.Pages.{count, pages, page_of}
use turbocat.Connectors.Razorpay.Complete.{Serves}
use turbocat.Connectors.Razorpay.Orders.{
  orders_schema, order_params, transform_order, extract_orders, extract_orders-loadable,
  extract_orders-Serves, transform_order-validate,
}
use turbocat.Connectors.Razorpay.Customers.{customer_params, transform_customer}
use turbocat.Tests.Fixtures.{bad, now}

abbrev to_float : Value → Result ℕ
to_float (int (pos n)) = ok n
to_float _ = err bad

abbrev div100 : ℕ → ℕ
div100 n = n / 100

abbrev fromtimestamp : Value → Result ℕ
fromtimestamp (int (pos n)) = ok n
fromtimestamp _ = err bad

abbrev timestamp : ℕ → ℤ
timestamp t = pos (t / 1_000_000)

abbrev pub items_of : List Value → Items
items_of [] = nil
items_of (v ∷ vs) = cons v (items_of vs)

pub to_list-items_of : (vs : List Value) → to_list (items_of vs) ≡ vs
unfolding to_list
to_list-items_of [] = refl
to_list-items_of (v ∷ vs) = ap (λ l. v ∷ l) (to_list-items_of vs)

abbrev page_from : List Value → Option Value → Value
page_from collection (some (int (pos skip))) =
    obj (field "items" (arr (items_of (take count (drop skip collection)))) end)
page_from collection _ = null

abbrev server : List Value → String → Dict Value → Exec (Unit {0}) Value
server collection endpoint params w = (ok (page_from collection (get? "skip" params)), w)

abbrev order_fields : Fields
order_fields = field "id" (text "order_1") (
    field "amount" (int (pos 500)) (
      field "currency" (text "INR")
        (field "status" (text "paid") (field "created_at" (int (pos 7)) end))))

abbrev order : Value
order = obj order_fields

abbrev customer_fields : Fields
customer_fields =
    field "id" (text "cust_1") (field "contact" null (field "created_at" (int (pos 7)) end))

abbrev customer : Value
customer = obj customer_fields

orders_served :
    (collection : List Value)
    → Serves
        (λ skip. server collection "/orders" (order_params timestamp none (some now) skip))
        (transform_order to_float div100 fromtimestamp now)
        collection
unfolding order_params page_of get? turbocat.Python.Dict.put
orders_served collection skip w = ap ok (to_list-items_of (take count (drop skip collection)))

customers_served :
    (collection : List Value)
    → Serves
        (λ skip. server collection "/customers" (customer_params skip))
        (transform_customer fromtimestamp now)
        collection
unfolding customer_params page_of get?
customers_served collection skip w = ap ok (to_list-items_of (take count (drop skip collection)))

abbrev extracted : Option Extraction × Unit {0}
extracted =
    extract_orders to_float div100 fromtimestamp now timestamp (server (order ∷ [])) 1 none
      (some now) tt

extract_orders-Serves_example :
    extracted.0
    ≡ some (transform_all (transform_order to_float div100 fromtimestamp now) (order ∷ []))
extract_orders-Serves_example =
    extract_orders-Serves to_float div100 fromtimestamp now timestamp (server (order ∷ [])) 1 none
      (some now) tt (order ∷ []) (orders_served (order ∷ [])) (omega arith)

abbrev order_row : Dict Value
order_row =
    ("id", text "order_1")
    ∷ ("amount", float 5)
    ∷ ("amount_paid", float 0)
    ∷ ("amount_due", float 0)
    ∷ ("currency", text "INR")
    ∷ ("receipt", null)
    ∷ ("status", text "paid")
    ∷ ("created_at", time 7)
    ∷ ("_extracted_at", time now)
    ∷ []

abbrev one_order : Extraction
one_order = record { yielded = order_row ∷ []; ending = none }

extract_orders-IsTyped_example : All (IsTyped orders_schema.columns) (order_row ∷ [])
unfolding extract_orders pages get? order_params turbocat.Python.Dict.put transform_order
    turbocat.Connectors.Razorpay.Orders.rupees turbocat.Python.Value.is_none
    turbocat.Connectors.Source.get_or_none turbocat.Connectors.Razorpay.Orders.moment
extract_orders-IsTyped_example =
    extract_orders-IsTyped to_float div100 fromtimestamp now timestamp (server (order ∷ [])) 1 none
      (some now) tt one_order refl

abbrev customer_row : Dict Value
customer_row =
    ("id", text "cust_1")
    ∷ ("name", null)
    ∷ ("contact", null)
    ∷ ("email", null)
    ∷ ("gstin", null)
    ∷ ("notes", null)
    ∷ ("created_at", time 7)
    ∷ ("_extracted_at", time now)
    ∷ []

abbrev one_customer : Extraction
one_customer = record { yielded = customer_row ∷ []; ending = none }
