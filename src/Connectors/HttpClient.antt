-- ===== src/Connectors/HttpClient.antt =====
-- common/http_client.py: `RetryableHTTPClient`. The network is the list of its answers to the
-- requests of one call, in order; the retries that urllib3 makes below it are part of an answer.
pub mod Throttling
pub mod Sent
use turbocat.Prelude.{
  ℕ, zero, suc, ◌+◌, String, Bool, true, false, ◌&&◌, ◌≡◌, Option, none, some, List, [], ◌∷◌, leb,
  ◌==◌, str_eq, if◌then◌else◌, Result, ok, err, Exc, foreign, value_error,
}
use Prim.Native.String.{◌++◌}
use turbocat.Python.Dict.{Dict, update}
use turbocat.Python.Value.{ℤ, pos, negsuc, Value}
use turbocat.Python.Text.{rstrip_slash}
use turbocat.Python.IntOf.{int_of}

pub record Client : Type 0 where
  pub base_url : String
  pub timeout : ℕ
  pub session_headers : Dict String

-- `__init__`: `defaults` are the headers that a new `requests.Session` has.
unfoldable pub make_client : Dict String → String → Option (Dict String) → ℕ → Client
unfolding rstrip_slash update
make_client defaults base_url headers timeout = record {
  base_url = rstrip_slash base_url;
  timeout = timeout;
  session_headers = elim headers [ none ↦ defaults | some h ↦ update defaults h ];
}

-- The `headers` of `**kwargs`: not there, or there and `None`, or a dict.
pub data HeadersArg : Type 0 where
  absent : HeadersArg
  given : Option (Dict String) → HeadersArg

-- `**kwargs`. GET passes no `json`.
pub record Kwargs : Type 0 where
  pub headers : HeadersArg
  pub params : Option (Dict Value)
  pub json : Option Value

pub record Request : Type 0 where
  pub method : String
  pub url : String
  pub headers : Option (Dict String)
  pub timeout : ℕ
  pub params : Option (Dict Value)
  pub json : Option Value

pub record Response : Type 0 where
  pub status_code : ℕ
  pub retry_after : Option String
  pub body : Value

-- The headers sent, and `kwargs` after `kwargs.pop("headers")`. What is falsy is not popped, and
-- then stands in `**kwargs` behind the merged headers.
unfoldable pub merge_headers : Dict String → HeadersArg → Option (Dict String) × HeadersArg
merge_headers session absent = (some session, absent)
merge_headers session (given none) = (none, given none)
merge_headers session (given (some [])) = (some [], given (some []))
merge_headers session (given (some (h ∷ hs))) = (some (update session (h ∷ hs)), absent)

unfoldable pub request_of : Client → String → String → Kwargs → Request
unfolding merge_headers
request_of client method endpoint kwargs = record {
  method = method;
  url = client.base_url ++ endpoint;
  headers = (merge_headers client.session_headers kwargs.headers).0;
  timeout = client.timeout;
  params = kwargs.params;
  json = kwargs.json;
}

-- The arguments of the call that the method makes of itself after a 429.
unfoldable pub kept_kwargs : Client → Kwargs → Kwargs
unfolding merge_headers
kept_kwargs client kwargs = record kwargs {
  headers = (merge_headers client.session_headers kwargs.headers).1;
}

abbrev pub default_wait : ℤ
default_wait = pos 60

-- `wait_seconds`
unfoldable pub wait_seconds : Option String → ℤ
wait_seconds none = default_wait
wait_seconds (some s) =
    if str_eq s "" then default_wait else elim (int_of s) [ none ↦ default_wait | some n ↦ n ]

abbrev pub negative_sleep : Exc
negative_sleep = record { kind = value_error; text = "sleep length must be non-negative" }

-- `time.sleep(wait_seconds)`, for waits that fit the 64 bits of nanoseconds of the clock, which are
-- 292 years.
unfoldable pub sleep : ℤ → Result ℕ
sleep (pos n) = ok n
sleep (negsuc n) = err negative_sleep

abbrev pub http_error : Exc
http_error = record { kind = foreign; text = "HTTPError" }

unfoldable pub raise_for_status : Response → Result Response
raise_for_status r = if leb 400 r.status_code && leb r.status_code 599 then err http_error else ok r

-- What a call has done: the requests sent and the seconds slept, in order, and how it ended.
-- `none` stands for a call that waits for an answer that the network has not given.
pub record Trace : Type 0 where
  pub sent : List Request
  pub slept : List ℕ
  pub outcome : Option (Result Response)

abbrev pub ended : Request → Result Response → Trace
ended q r = record { sent = q ∷ []; slept = []; outcome = some r }

abbrev pub resumed : Request → ℕ → Trace → Trace
resumed q n t = record { sent = q ∷ t.sent; slept = n ∷ t.slept; outcome = t.outcome }

-- `_request`
unfoldable pub request : Client → String → String → Kwargs → List (Result Response) → Trace
unfolding request_of kept_kwargs wait_seconds sleep raise_for_status
request client method endpoint kwargs [] = record {
  sent = request_of client method endpoint kwargs ∷ [];
  slept = [];
  outcome = none;
}
request client method endpoint kwargs (err e ∷ answers) =
    ended (request_of client method endpoint kwargs) (err e)
request client method endpoint kwargs (ok r ∷ answers) =
    let q = request_of client method endpoint kwargs in
    let again = request client method endpoint (kept_kwargs client kwargs) answers in
    if r.status_code == 429
    then elim (sleep (wait_seconds r.retry_after)) [
      | ok n ↦ resumed q n again
      | err e ↦ ended q (err e)
    ]
    else ended q (raise_for_status r)

unfoldable pub get :
    Client → String → Option (Dict String) → Option (Dict Value) → List (Result Response) → Trace
unfolding request
get client endpoint headers params =
    request client "GET" endpoint (record { headers = given headers; params = params; json = none })

unfoldable pub post :
    Client
    → String
    → Option Value
    → Option (Dict Value)
    → Option (Dict String)
    → List (Result Response)
    → Trace
unfolding request
post client endpoint json params headers =
    request client "POST" endpoint
      (record { headers = given headers; params = params; json = json })
