-- ===== src/Orchestrator/App/Guarded.antt =====
-- Without the credentials of its router a request does nothing.
use turbocat.Prelude.{
  String, ◌≡◌, ◌≢◌, refl, ap, some, Result, ok, err, Exc, Option-cases, Result-cases, inl, inr,
  str_eq, eq_iff, if◌then◌else◌, Bool-cases,
}
use turbocat.Python.Dict.{Dict}
use turbocat.Python.Value.{Value}
use turbocat.Orchestrator.Auth.{TokenPayload, verify_token, verify_agent_key, unauthorized}
use turbocat.Orchestrator.App.{
  Process, World, Headers, Console, Machine, console, machine, authorized, serve,
}

module _ {Config Connector C T Trigger : Type 0} (p : Process Config Connector C T Trigger) where
  -- The header holds a token that decodes and validates.
  abbrev pub IsBearer : Headers → Type 0
  IsBearer headers =
      (credentials : String) × (raw : Dict Value) × (token : TokenPayload) × (headers.authorization
        ≡ some credentials)
      × (p.decode credentials ≡ ok raw)
      × (p.model_validate raw ≡ ok token)

  keyless :
      (headers : Headers)
      → headers.x_agent_key ≢ some p.agent_api_key
      → verify_agent_key p.agent_api_key headers.x_agent_key
        ≡ err (unauthorized "Invalid or missing agent key")
  unfolding verify_agent_key
  keyless headers other = elim (Option-cases headers.x_agent_key) [
    | inl missing ↦ rw missing refl
    | inr (key, given) ↦ elim (Bool-cases (str_eq key p.agent_api_key)) [
      | inl same ↦ absurd (other (rw given (ap some ((eq_iff key p.agent_api_key).0 same))))
      | inr differs ↦ rw given (rw differs refl)
    ]
  ]

  abbrev refusal : Exc → Result TokenPayload
  refusal e = if p.is_refusal e then err (unauthorized "Invalid or expired token") else err e

  refusing : (e : Exc) → (e' : Exc) × (refusal e ≡ err e')
  refusing e = elim (Bool-cases (p.is_refusal e)) [
    | inl named ↦ (unauthorized "Invalid or expired token", rw named refl)
    | inr unnamed ↦ (e, rw unnamed refl)
  ]

  tokenless :
      (headers : Headers) → (IsBearer headers → ⊥) → (e : Exc) × (authorized p headers ≡ err e)
  unfolding authorized verify_token
  tokenless headers without = elim (Option-cases headers.authorization) [
    | inl missing ↦
        (unauthorized "Authorization header missing", rw (authorized, verify_token, missing) refl)
    | inr (credentials, given) ↦ elim (Result-cases (p.decode credentials)) [
      | inr (e, bad) ↦ rw (authorized, verify_token, given, bad) (refusing e)
      | inl (raw, decoded) ↦ elim (Result-cases (p.model_validate raw)) [
        | inr (e, bad) ↦ rw (authorized, verify_token, given, decoded, bad) (refusing e)
        | inl (token, valid) ↦ absurd (without (credentials, raw, token, given, decoded, valid))
      ]
    ]
  ]

  -- Whatever else its headers hold: a request to a route for agents that does not carry the
  -- configured key ends with 401, one to a route for accounts that carries no valid token ends
  -- with an error, and neither of them changes anything.
  pub serve-unauthorized :
      (headers : Headers) (w : World C T)
      → (headers.x_agent_key ≢ some p.agent_api_key
          → (r : Machine)
          → serve p headers (machine r) w ≡ (err (unauthorized "Invalid or missing agent key"), w))
        × ((IsBearer headers → ⊥)
            → (r : Console) → (e : Exc) × (serve p headers (console r) w ≡ (err e, w)))
  unfolding serve
  serve-unauthorized headers w = (
    λ other r. rw (serve, keyless headers other) refl,
    λ without r. let (e, refused) = tokenless headers without in (e, rw (serve, refused) refl),
  )
