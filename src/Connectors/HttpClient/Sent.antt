-- ===== src/Connectors/HttpClient/Sent.antt =====
-- What holds of every call of the client, however the server answers.
use turbocat.Prelude.{
  suc, String, false, ◌&&◌, ◌≡◌, ◌≢◌, refl, none, some, subst, sym, ap, ◌∙◌, Exc, List, [], ◌∷◌,
  length, Result, ok, err, arith, All, leb, ◌==◌, Result-cases, Bool-cases, inl, inr,
}
use Prim.Native.String.{◌++◌ as str_append}
use turbocat.Connectors.HttpClient.{
  Client, Kwargs, Request, Response, Trace, http_error, request_of, kept_kwargs, wait_seconds,
  sleep, raise_for_status, request,
}

-- The request goes to the endpoint under the client's base URL, with its timeout.
abbrev pub GoesTo : Client → String → String → Request → Type 0
GoesTo client method endpoint q =
    (q.method ≡ method)
    × (q.url ≡ str_append client.base_url endpoint)
    × (q.timeout ≡ client.timeout)

-- A status that is no error.
abbrev pub IsFine : Response → Type 0
IsFine r = (r.status_code ≢ 429) × ((leb 400 r.status_code && leb r.status_code 599) ≡ false)

-- What a call has done, and the answer that it may have returned.
abbrev pub IsProper : Client → String → String → Trace → Type 0
IsProper client method endpoint t =
    All (GoesTo client method endpoint) t.sent
    × (length t.sent ≡ suc (length t.slept))
    × ((r : Response) → t.outcome ≡ some (ok r) → IsFine r)

unreturned : (r : Response) → none ≡ some (ok r) → ⊥
unreturned r h = cc

failed : (e : Exc) (r : Response) → some (err e) ≡ some (ok r) → ⊥
failed e r h = cc

module _ (client : Client) (method endpoint : String) where
  goes :
      (kwargs : Kwargs) → GoesTo client method endpoint (request_of client method endpoint kwargs)
  unfolding request_of
  goes kwargs = (refl, refl, refl)

  raised :
      (r : Response)
      → r.status_code ≢ 429
      → (r' : Response) → some (raise_for_status r) ≡ some (ok r')
      → IsFine r'
  unfolding raise_for_status
  raised r other r' h = elim (Bool-cases (leb 400 r.status_code && leb r.status_code 599)) [
    | inl bad ↦
        let e : raise_for_status r ≡ err http_error = rw bad refl in
        absurd (failed http_error r' (ap some (sym e) ∙ h))
    | inr fine ↦
        let e : raise_for_status r ≡ ok r = rw fine refl in
        let h' : some (ok r) ≡ some (ok r') = ap some (sym e) ∙ h in
        let same : r ≡ r' = cc in subst IsFine same (other, fine)
  ]

  -- However the server answers: every request of a call goes to the endpoint under the base URL, by
  -- the given method and with the client's timeout; there is one more of them than there are
  -- sleeps; and what the call returns has a status outside 400 to 599, so not 429 either.
  pub request-IsProper :
      (kwargs : Kwargs) (answers : List (Result Response))
      → IsProper client method endpoint (request client method endpoint kwargs answers)
  unfolding request
  request-IsProper kwargs [] = ((goes kwargs, tt), refl, λ r h. absurd (unreturned r h))
  request-IsProper kwargs (err e ∷ answers) =
      ((goes kwargs, tt), refl, λ r h. absurd (failed e r h))
  request-IsProper kwargs (ok r ∷ answers) = elim (Bool-cases (r.status_code == 429)) [
    | inr other ↦ rw other ((goes kwargs, tt), refl, raised r (λ e. ground (arith, other, e)))
    | inl same ↦ elim (Result-cases (sleep (wait_seconds r.retry_after))) [
      | inr (e, negative) ↦
          rw (same, negative) ((goes kwargs, tt), refl, λ r' h. absurd (failed e r' h))
      | inl (n, waits) ↦
          let (all, count, fine) = request-IsProper (kept_kwargs client kwargs) answers in
          rw (same, waits) ((goes kwargs, all), omega (arith, count), fine)
    ]
  ]
