-- ===== src/Connectors/HttpClient/Throttling.antt =====
-- What `_request` does while the server answers 429.
use turbocat.Prelude.{ℕ, String, ◌≡◌, refl, some, List, [], ◌∷◌, Result, ok, err, Exc, value_error}
use turbocat.Python.Dict.{Dict, update}
use turbocat.Python.Value.{pos, negsuc}
use turbocat.Connectors.HttpClient.{
  Client, given, Kwargs, Request, Response, ended, merge_headers, request_of, kept_kwargs,
  wait_seconds, negative_sleep, request,
}

-- A 429 with a wait that is not negative, and what is slept after it.
pub record Throttle : Type 0 where
  pub response : Response
  pub seconds : ℕ
  pub is_429 : response.status_code ≡ 429
  pub waits : wait_seconds response.retry_after ≡ pos seconds

abbrev pub answers_of : List Throttle → List (Result Response) → List (Result Response)
answers_of [] rest = rest
answers_of (t ∷ ts) rest = ok t.response ∷ answers_of ts rest

abbrev pub seconds_of : List Throttle → List ℕ
seconds_of [] = []
seconds_of (t ∷ ts) = t.seconds ∷ seconds_of ts

-- The request sent once more for each 429.
abbrev pub repeats : List Throttle → Request → List Request
repeats [] q = []
repeats (t ∷ ts) q = q ∷ repeats ts q

-- Headers that are given for one request stand in its first attempt, over those of the session;
-- any attempt after a 429 has the headers of the session alone.
pub retry_drops_headers :
    (client : Client) (method endpoint : String) (kwargs : Kwargs) (h : String × String)
    (hs : Dict String)
    → kwargs.headers ≡ given (some (h ∷ hs))
    → ((request_of client method endpoint kwargs).headers
        ≡ some (update client.session_headers (h ∷ hs)))
      × ((request_of client method endpoint (kept_kwargs client kwargs)).headers
          ≡ some client.session_headers)
unfolding request_of kept_kwargs merge_headers
retry_drops_headers client method endpoint kwargs h hs e =
    (rw (e, merge_headers), rw (e, merge_headers))

-- A Retry-After below zero ends the call with the ValueError of `time.sleep`.
pub negative_retry_after :
    (client : Client) (method endpoint : String) (kwargs : Kwargs) (r : Response) (n : ℕ)
    (rest : List (Result Response))
    → r.status_code ≡ 429
    → wait_seconds r.retry_after ≡ negsuc n
    → (e : Exc) × (request client method endpoint kwargs (ok r ∷ rest)
        ≡ ended (request_of client method endpoint kwargs) (err e))
      × (e.kind ≡ value_error)
unfolding request
negative_retry_after client method endpoint kwargs r n rest is_429 below =
    (negative_sleep, rw (is_429, below), refl)
