-- ===== src/Connectors/Probe.antt =====
-- The constructors of the connectors and their `test_connection`: `__init__` of orders_connector.py,
-- customers_connector.py and tickets_connector.py, and the fields of the two configurations that they
-- read. `defaults` are the headers of a new `requests.Session`. The customers connector has no test.
pub mod Passes
use turbocat.Prelude.{ℕ, String, Option, none, some, List, [], ◌∷◌, Result}
use Prim.Native.String.{◌++◌ as append}
use turbocat.Python.Dict.{Dict}
use turbocat.Python.Value.{pos, Value, int, text, obj, of_dict}
use turbocat.Connectors.HttpClient.{Client, Response, Trace, make_client, get, post}

pub record RazorpayConfig : Type 0 where
  pub api_key : String
  pub api_secret : String
  pub base_url : String
  pub timeout : ℕ

pub record KaptureConfig : Type 0 where
  pub subdomain : String
  pub token : String
  pub tickets_template_id : ℕ
  pub timeout : ℕ

-- What `__init__` sets; `auth` is the session's.
pub record Razorpay : Type 0 where
  pub endpoint : String
  pub http_client : Client
  pub auth : String × String

pub record Kapture : Type 0 where
  pub template_id : ℕ
  pub http_client : Client

abbrev content_type : Dict String
content_type = ("Content-Type", "application/json") ∷ []

unfoldable pub orders_connector : Dict String → RazorpayConfig → Razorpay
unfolding make_client
orders_connector defaults config = record {
  endpoint = "/orders";
  http_client = make_client defaults config.base_url (some content_type) config.timeout;
  auth = (config.api_key, config.api_secret);
}

unfoldable pub customers_connector : Dict String → RazorpayConfig → Razorpay
unfolding make_client
customers_connector defaults config = record {
  endpoint = "/customers";
  http_client = make_client defaults config.base_url (some content_type) config.timeout;
  auth = (config.api_key, config.api_secret);
}

-- `KaptureSourceConfig.base_url`
unfoldable pub kapture_base_url : KaptureConfig → String
kapture_base_url config = append "https://" (append config.subdomain ".kapturecrm.com")

unfoldable pub tickets_connector : Dict String → KaptureConfig → Kapture
unfolding make_client kapture_base_url
tickets_connector defaults config = record {
  template_id = config.tickets_template_id;
  http_client =
      make_client defaults (kapture_base_url config)
        (some (("Authorization", append "Basic " config.token) ∷ [])) config.timeout;
}

unfoldable pub test_orders : Razorpay → List (Result Response) → Trace
unfolding get
test_orders connector =
    get connector.http_client connector.endpoint none (some (("count", int (pos 1)) ∷ []))

abbrev pub tickets_endpoint : String
tickets_endpoint = "/ms/kreport/generic-report/pull-data"

-- `today` is `now.strftime("%Y-%m-%d")`.
unfoldable pub test_tickets : String → Kapture → List (Result Response) → Trace
unfolding post
test_tickets today connector =
    let fields =
      ("templateId", int (pos connector.template_id))
      ∷ ("startDate", text today)
      ∷ ("endDate", text today)
      ∷ ("pageNo", int (pos 1))
      ∷ ("pageSize", int (pos 1))
      ∷ [] in
    post connector.http_client tickets_endpoint (some (obj (of_dict fields))) none none
