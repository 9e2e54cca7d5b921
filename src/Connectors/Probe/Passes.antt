-- ===== src/Connectors/Probe/Passes.antt =====
-- What a passed test of a connection says.
use turbocat.Prelude.{String, List, Result}
use turbocat.Python.Dict.{Dict}
use turbocat.Connectors.HttpClient.{Response}
use turbocat.Connectors.HttpClient.Sent.{IsProper, request-IsProper}
use turbocat.Connectors.Probe.{
  RazorpayConfig, KaptureConfig, orders_connector, tickets_connector, tickets_endpoint, test_orders,
  test_tickets,
}

-- However the server answers the tests of the two sources.
pub test_connection-IsProper :
    (defaults : Dict String) (razorpay : RazorpayConfig) (kapture : KaptureConfig) (today : String)
    (answers : List (Result Response))
    → IsProper
        (orders_connector defaults razorpay).http_client
        "GET"
        "/orders"
        (test_orders (orders_connector defaults razorpay) answers)
      × IsProper
          (tickets_connector defaults kapture).http_client
          "POST"
          tickets_endpoint
          (test_tickets today (tickets_connector defaults kapture) answers)
unfolding test_orders test_tickets orders_connector tickets_connector
test_connection-IsProper defaults razorpay kapture today answers = (
  request-IsProper _ "GET" "/orders" _ answers,
  request-IsProper _ "POST" tickets_endpoint _ answers,
)
