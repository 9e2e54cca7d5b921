-- ===== src/Cycle/Timeline/Anchors.antt =====
-- Where the payloads of a pipeline start.
use turbocat.Prelude.{
  ℕ, String, ◌≡◌, ◌⊎◌, inl, inr, sym, ap, ◌∙◌, none, some, List, [], ◌∷◌, ◌++◌, All, ok, arith,
  Option-cases, ok_inj,
}
use turbocat.Python.Dict.{get?}
use turbocat.Python.Value.{pos, int, text}
use turbocat.Orchestrator.Models.{Connection, Pipeline, JobRun}
use turbocat.Orchestrator.Jobs.Payload.{
  JobPayload, Services, payload_of, state_or_empty, lookback_of,
}
use turbocat.Orchestrator.Jobs.Payload.Window.{payload_window}
use turbocat.Cycle.Timeline.Covered.{Ends, Anchored, Anchored-cons}

payload_end :
    (services : Services) (now : ℕ) (job : JobRun) (p : Pipeline) (c : Connection)
    (payload : JobPayload)
    → payload_of services now job p c ≡ ok payload
    → payload.end_time ≡ some now
unfolding payload_of
payload_end services now job p c payload h = ground arith

pub All-Anchored-cons :
    (x : JobPayload) (earlier payloads : List JobPayload)
    → All (Anchored earlier) payloads
    → All (Anchored (x ∷ earlier)) payloads
All-Anchored-cons x earlier [] h = tt
All-Anchored-cons x earlier (w ∷ payloads) (h, hs) =
    (Anchored-cons x w earlier h, All-Anchored-cons x earlier payloads hs)

pub All-split {ℓ} :
    {A : Type ℓ} (P : A → Type 0) (before : List A) (a : A) (after : List A)
    → All P (before ++ a ∷ after)
    → P a × All P (before ++ after)
All-split P [] a after h = h
All-split P (b ∷ before) a after (h, hs) =
    let (found, rest) = All-split P before a after hs in (found, (h, rest))

-- The cursor of a pipeline is not set, or it is the end of a window.
abbrev pub HasCursor : (ℕ → String) → ℕ → List JobPayload → Pipeline → Type 0
HasCursor isoformat n windows p =
    (lookback_of p.params ≡ int (pos n))
    × ((get? "last_sync_at" (state_or_empty p.state) ≡ none)
        ⊎ ((e : ℕ) × (get? "last_sync_at" (state_or_empty p.state) ≡ some (text (isoformat e)))
            × Ends windows e))

pub HasCursor-cons :
    (isoformat : ℕ → String) (n : ℕ) (x : JobPayload) (windows : List JobPayload) (p : Pipeline)
    → HasCursor isoformat n windows p
    → HasCursor isoformat n (x ∷ windows) p
HasCursor-cons isoformat n x windows p (days, inl unset) = (days, inl unset)
HasCursor-cons isoformat n x windows p (days, inr (e, set, there)) = (days, inr (e, set, inr there))

module _ (isoformat : ℕ → String) (services : Services)
    (inverse : (t : ℕ) → services.fromisoformat (isoformat t) ≡ ok t) (n : ℕ) where
  -- A payload that is made now starts before the end of a window, if it has a start.
  pub payload_of-Anchored :
      (windows : List JobPayload) (now : ℕ) (job : JobRun) (p : Pipeline) (c : Connection)
      (payload : JobPayload)
      → HasCursor isoformat n windows p
      → payload_of services now job p c ≡ ok payload
      → Anchored windows payload
  payload_of-Anchored windows now job p c payload (days, cursor) made =
      elim (Option-cases payload.start_time) [
        | inl first ↦ (now, payload_end services now job p c payload made, inl first)
        | inr (start, starts) ↦
            let (before, ends) =
              payload_window services now job p c payload n start made starts days in
            elim cursor [
              | inl unset ↦ absurd (ground (arith, sym unset ∙ before.found))
              | inr (e, set, there) ↦
                  let same : some (text before.cursor) ≡ some (text (isoformat e)) =
                    sym before.found ∙ set in
                  let texts : before.cursor ≡ isoformat e = cc in
                  let times : ok before.last_sync ≡ ok e =
                    sym before.parsed ∙ ap services.fromisoformat texts ∙ inverse e in
                  (
                    now,
                    ends,
                    inr (start, e, starts, omega (arith, before.overlap, ok_inj times), there),
                  )
            ]
      ]
