-- ===== src/Tests/Sources.antt =====
-- The schema of a source, and a request to it.
use turbocat.Prelude.{String, ◌≡◌, refl, some, [], ◌∷◌, map, ok, List}
use turbocat.Python.Dict.{get?}
use turbocat.Connectors.Registry.{
  razorpay_orders_connector, razorpay_source_config, source_connectors, get_schemas_for_source,
}
use turbocat.Connectors.Registry.Closure.{get_schemas_for_source_total}
use turbocat.Connectors.HttpClient.{request}
use turbocat.Connectors.HttpClient.Sent.{IsProper, request-IsProper}
use turbocat.Tests.Fixtures.{tiny}
use turbocat.Tests.Requests.{client, kwargs, busy, fine}
use turbocat.Tests.Connections.{make_config, make_connector}

get_schemas_for_source_total_example :
    (entries : List (String × String)) × (get_schemas_for_source make_config make_connector
        (λ c. tiny)
        "razorpay"
        []
      ≡ ok entries)
    × (get? "razorpay" source_connectors ≡ some (map (λ e. e.0) entries))
unfolding get?
get_schemas_for_source_total_example =
    get_schemas_for_source_total make_config make_connector (λ c. tiny) "razorpay"
      razorpay_orders_connector razorpay_source_config [] [] refl refl (λ cls. ([], refl))

request-IsProper_example :
    IsProper client "GET" "/orders" (request client "GET" "/orders" kwargs (ok busy ∷ ok fine ∷ []))
request-IsProper_example = request-IsProper client "GET" "/orders" kwargs (ok busy ∷ ok fine ∷ [])
