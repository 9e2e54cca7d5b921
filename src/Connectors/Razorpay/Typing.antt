-- ===== src/Connectors/Razorpay/Typing.antt =====
-- The types of the columns of an order and of a customer.
use turbocat.Prelude.{
  ℕ, String, true, ◌≡◌, refl, Option, some, All, Result, ok, arith, >>=-eq-ok, ok_inj,
}
use turbocat.Prelude.Exec.{Exec}
use turbocat.Python.Dict.{Dict}
use turbocat.Python.Value.{ℤ, Value, time, is_none}
use turbocat.Connectors.Base.Sync.{Extraction}
use turbocat.Connectors.Base.Typing.{has_type, IsTyped, ◌&◌}
use turbocat.Connectors.Source.{fields_of, item, get_or_none}
use turbocat.Connectors.Razorpay.Yields.{pages-All}
use turbocat.Connectors.Razorpay.Orders.{
  moment, rupees, transform_order, orders_schema, extract_orders,
}

string_value : (v : Value) → has_type "string" v ≡ true
unfolding has_type is_none
string_value v = ground arith

time_value : (t : ℕ) → has_type "datetime" (time t) ≡ true
unfolding has_type is_none
time_value t = refl

moment_value :
    (fromtimestamp : Value → Result ℕ) (v w : Value)
    → moment fromtimestamp v ≡ ok w
    → has_type "datetime" w ≡ true
unfolding moment has_type is_none
moment_value fromtimestamp v w h = ground (arith, h)

module _ (to_float : Value → Result ℕ) (div100 : ℕ → ℕ) (fromtimestamp : Value → Result ℕ)
    (now : ℕ) where
  rupees_value :
      (v w : Value) → rupees to_float div100 fromtimestamp now v ≡ ok w → has_type "float" w ≡ true
  unfolding rupees has_type is_none
  rupees_value v w h = ground (arith, h)

  transform_order-IsTyped :
      (value : Value) (d : Dict Value)
      → transform_order to_float div100 fromtimestamp now value ≡ ok d
      → IsTyped orders_schema.columns d
  unfolding transform_order
  transform_order-IsTyped value d h =
      let money = rupees to_float div100 fromtimestamp now in
      let (r, _, h₁) = >>=-eq-ok (fields_of value) _ h in
      let (id, _, h₂) = >>=-eq-ok (item "id" r) _ h₁ in
      let (amount, e₁, h₃) = >>=-eq-ok (money (get_or_none "amount" r)) _ h₂ in
      let (paid, e₂, h₄) = >>=-eq-ok (money (get_or_none "amount_paid" r)) _ h₃ in
      let (due, e₃, h₅) = >>=-eq-ok (money (get_or_none "amount_due" r)) _ h₄ in
      let (currency, _, h₆) = >>=-eq-ok (item "currency" r) _ h₅ in
      let (status, _, h₇) = >>=-eq-ok (item "status" r) _ h₆ in
      let (created, _, h₈) = >>=-eq-ok (item "created_at" r) _ h₇ in
      let (at, e₄, h₉) = >>=-eq-ok (moment fromtimestamp created) _ h₈ in
      rw (← ok_inj h₉) (
        (refl, string_value id)
        & (refl, rupees_value _ amount e₁)
        & (refl, rupees_value _ paid e₂)
        & (refl, rupees_value _ due e₃)
        & (refl, string_value currency)
        & (refl, string_value _)
        & (refl, string_value status)
        & (refl, moment_value fromtimestamp created at e₄)
        & (refl, time_value now)
        & tt)

  -- Whatever the server answers, each order that `extract` yields has exactly the columns of the
  -- schema, in their order; its three amounts are floats or None and its two times datetimes or
  -- None.
  pub extract_orders-IsTyped :
      {W : Type 0} (timestamp : ℕ → ℤ) (get_json : String → Dict Value → Exec W Value) (fuel : ℕ)
      (start_time end_time : Option ℕ) (w : W) (x : Extraction)
      → (extract_orders to_float div100 fromtimestamp now timestamp get_json fuel start_time
          end_time w).0
        ≡ some x
      → All (IsTyped orders_schema.columns) x.yielded
  unfolding extract_orders
  extract_orders-IsTyped timestamp get_json fuel start_time end_time w x h =
      pages-All _ (transform_order to_float div100 fromtimestamp now)
        (IsTyped orders_schema.columns) transform_order-IsTyped fuel 0 w x h
