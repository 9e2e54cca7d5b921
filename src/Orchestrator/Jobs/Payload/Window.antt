-- ===== src/Orchestrator/Jobs/Payload/Window.antt =====
-- The window that a payload asks for.
use turbocat.Prelude.{
  ℕ, ◌+◌, ◌*◌, String, ◌≡◌, ◌≢◌, refl, ap, ◌∙◌, none, some, ok, arith, Option-cases, Result-cases,
  inl, inr,
}
use turbocat.Python.Dict.{Dict, get?}
use turbocat.Python.Value.{pos, Value, int, text}
use turbocat.Python.Time.{day, minus_days}
use turbocat.Orchestrator.Models.{Connection, Pipeline, JobRun}
use turbocat.Orchestrator.Jobs.Payload.{
  JobPayload, Services, lookback_of, minus_lookback, parse_time, start_of, payload_of,
  state_or_empty,
}

minus_days-pos : (t n r : ℕ) → minus_days t (pos n) ≡ ok r → r + n * day ≡ t
unfolding minus_days
minus_days-pos t n r h = ground arith

module _ (services : Services) where
  open services use {fromisoformat}

  -- Where the window starts, and from which cursor.
  pub record StartsBefore (state : Dict Value) (n start : ℕ) : Type 0 where
    pub cursor : String
    pub last_sync : ℕ
    pub found : get? "last_sync_at" state ≡ some (text cursor)
    pub parsed : fromisoformat cursor ≡ ok last_sync
    pub overlap : start + n * day ≡ last_sync

  start_of_cursor :
      (state params : Dict Value) (v : Value) (start : ℕ)
      → get? "last_sync_at" state ≡ some v
      → start_of services state params ≡ ok (some start)
      → (t : ℕ) × (parse_time services v ≡ ok t)
        × (minus_lookback services t (lookback_of params) ≡ ok start)
  unfolding start_of
  start_of_cursor state params v start found h = elim (Result-cases (parse_time services v)) [
    | inr (e, p) ↦ absurd (ground (arith, found))
    | inl (t, p) ↦ elim (Result-cases (minus_lookback services t (lookback_of params))) [
      | inr (e, q) ↦ absurd (ground (arith, found))
      | inl (r, q) ↦ (t, p, ground (arith, found))
    ]
  ]

  parse_time_text :
      (v : Value) (t : ℕ)
      → parse_time services v ≡ ok t
      → (s : String) × (v ≡ text s) × (fromisoformat s ≡ ok t)
  unfolding parse_time
  parse_time_text (text s) t h = (s, refl, h)
  parse_time_text _ t h = ground arith

  no_cursor :
      (state params : Dict Value) (start : ℕ)
      → get? "last_sync_at" state ≡ none
      → start_of services state params ≢ ok (some start)
  unfolding start_of
  no_cursor state params start missing h = ground (arith, missing)

  start_of-StartsBefore :
      (state params : Dict Value) (n start : ℕ)
      → start_of services state params ≡ ok (some start)
      → lookback_of params ≡ int (pos n)
      → StartsBefore state n start
  unfolding minus_lookback
  start_of-StartsBefore state params n start h days =
      elim (Option-cases (get? "last_sync_at" state)) [
        | inl missing ↦ absurd (no_cursor state params start missing h)
        | inr (v, found) ↦
            let (t, parsed, shifted) = start_of_cursor state params v start found h in
            let (s, is_text, iso) = parse_time_text v t parsed in
            record {
              cursor = s;
              last_sync = t;
              found = found ∙ ap some is_text;
              parsed = iso;
              overlap = minus_days-pos t n start (rw days at shifted);
            }
      ]

  payload_start :
      (now : ℕ) (job : JobRun) (p : Pipeline) (c : Connection) (payload : JobPayload)
      → payload_of services now job p c ≡ ok payload
      → start_of services (state_or_empty p.state) p.params ≡ ok payload.start_time
  unfolding payload_of
  payload_start now job p c payload h =
      elim (Result-cases (start_of services (state_or_empty p.state) p.params)) [
        | inr (e, q) ↦ absurd (ground arith)
        | inl (o, q) ↦ ground arith
      ]

  -- Where the pipeline has a whole number of lookback days that is not negative: a payload that
  -- has a start reaches back from the pipeline's cursor by that number of days exactly, and the
  -- payload ends at the moment of the poll.
  pub payload_window :
      (now : ℕ) (job : JobRun) (p : Pipeline) (c : Connection) (payload : JobPayload) (n start : ℕ)
      → payload_of services now job p c ≡ ok payload
      → payload.start_time ≡ some start
      → lookback_of p.params ≡ int (pos n)
      → StartsBefore (state_or_empty p.state) n start × (payload.end_time ≡ some now)
  unfolding payload_of
  payload_window now job p c payload n start h started days = (
    start_of-StartsBefore (state_or_empty p.state) p.params n start
        (payload_start now job p c payload h ∙ ap ok started) days,
    ground arith,
  )
