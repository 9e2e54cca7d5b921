-- ===== src/Connectors/Kapture/Days.antt =====
-- `extract` of the tickets connector: one request for each day of the window. The request and the
-- decoding of its response are a parameter; days are days of UTC.
use mathlib.Core.Option
use turbocat.Prelude.{
  ℕ, zero, suc, ◌*◌, ◌/◌, ◌≡◌, true, false, Option, none, some, List, [], ◌++◌, leb, if◌then◌else◌,
  Result, ok, err, handle,
}
use turbocat.Prelude.Exec.{Exec}
use turbocat.Python.Dict.{Dict}
use turbocat.Python.Value.{Value, arr, to_list}
use turbocat.Python.Time.{day, next_day}
use turbocat.Connectors.Base.Sync.{Extraction}
use turbocat.Connectors.Source.{transform_all, then_more}
use turbocat.Connectors.Razorpay.Pages.{failed, is_raised}

abbrev pub nothing : Extraction
nothing = record { yielded = []; ending = none }

-- A response that is no list is passed over.
unfoldable pub tickets_of : Value → List Value
unfolding to_list
tickets_of (arr items) = to_list items
tickets_of _ = []

-- t.replace(hour=0, minute=0, second=0, microsecond=0)
unfoldable pub midnight : ℕ → ℕ
midnight t = t / day * day

abbrev or_now : Option ℕ → ℕ → ℕ
or_now none now = now
or_now (some t) now = t

-- `get_day current` is the request for the day of `current`.
module _ {W : Type 0} (get_day : ℕ → Exec W Value) (transform : Value → Result (Dict Value)) where
  -- The `while` loop, one day for each unit of fuel; `none` means that the fuel ran out.
  unfoldable pub days : ℕ → ℕ → ℕ → W → Option Extraction × W
  unfolding tickets_of transform_all
  days zero last current w = (none, w)
  days (suc fuel) last current w =
      let (response, w') = get_day current w in
      elim (leb (current / day) (last / day)) [
        | false ↦ (some nothing, w)
        | true ↦
            handle response (λ e. (some (failed e), w'))
              (λ v.
                let here = transform_all transform (tickets_of v) in
                if is_raised here.ending then (some here, w') else elim (next_day current) [
                  | err e ↦ (some (then_more here (failed e)), w')
                  | ok t ↦
                      let (later, w'') = days fuel last t w' in
                      (Option.map (then_more here) later, w'')
                ])
      ]

  -- The start defaults to the midnight of today, the end to now.
  unfoldable pub extract_tickets : ℕ → ℕ → Option ℕ → Option ℕ → W → Option Extraction × W
  unfolding days midnight
  extract_tickets fuel now start_time end_time =
      days fuel (or_now end_time now) (midnight (or_now start_time (midnight now)))

  -- A server that answers for each day with the tickets of that day.
  abbrev pub ServesDays : (ℕ → List Value) → Type 0
  ServesDays tickets =
      (current : ℕ) (w : W)
      → (v : Value) × ((get_day current w).0 ≡ ok v) × (tickets_of v ≡ tickets (current / day))

  -- The tickets of n days from the day d.
  abbrev pub tickets_from : (ℕ → List Value) → ℕ → ℕ → List Value
  tickets_from tickets zero d = []
  tickets_from tickets (suc n) d = tickets d ++ tickets_from tickets n (suc d)
