-- ===== src/Tests/Requests.antt =====
-- The HTTP client under a server that throttles it.
use turbocat.Prelude.{refl, none, some, [], ◌∷◌}
use turbocat.Python.Value.{null}
use turbocat.Python.IntOf.{int_of}
use turbocat.Connectors.HttpClient.{Client, Kwargs, given, Response, wait_seconds}
use turbocat.Connectors.HttpClient.Throttling.{Throttle}

abbrev pub client : Client
client = record {
  base_url = "https://api.razorpay.com/v1";
  timeout = 30;
  session_headers = ("Accept", "*/*") ∷ [];
}

abbrev pub kwargs : Kwargs
kwargs = record { headers = given (some (("X-Trace", "1") ∷ [])); params = none; json = none }

abbrev pub busy : Response
busy = record { status_code = 429; retry_after = some "2"; body = null }

abbrev too_early : Response
too_early = record { status_code = 429; retry_after = some "-1"; body = null }

abbrev pub fine : Response
fine = record { status_code = 200; retry_after = none; body = null }

throttle : Throttle
unfolding wait_seconds int_of
throttle = record { response = busy; seconds = 2; is_429 = refl; waits = refl }
