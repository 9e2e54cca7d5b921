-- ===== src/Cycle/Timeline/Kept.antt =====
-- No gap in what a pipeline has synced.
use turbocat.Prelude.{
  ℕ, ◌≤◌, String, ◌≡◌, inl, sym, subst, none, some, List, [], ◌∷◌, ◌++◌, All, Result, ok,
}
use turbocat.Prelude.Exec.{Exec}
use turbocat.Python.Dict.{Dict, get?}
use turbocat.Python.Value.{Value, pos, int}
use turbocat.Connectors.Base.Sync.{Load}
use turbocat.Connectors.Registry.{ConnectorClass, ConfigClass}
use turbocat.Orchestrator.Table.{find}
use turbocat.Orchestrator.Models.{Pipeline}
use turbocat.Orchestrator.Jobs.Payload.{JobPayload, Services, state_or_empty, lookback_of}
use turbocat.Orchestrator.Jobs.Status.{pipeline_key}
use turbocat.Agent.Executor.{Source}
use turbocat.Cycle.Timeline.{State, Step, poll, report, lose, other, Reach, here, next}
use turbocat.Cycle.Timeline.Covered.{Ends, Anchored, Chain, AfterFirst, Covered, Chain-Covered}
use turbocat.Cycle.Timeline.Anchors.{All-split, payload_of-Anchored}
use turbocat.Cycle.Timeline.Reports.{HasCursor-same, IsAnchored, report-IsAnchored}

-- Nothing is pending and nothing is synced, and the pipeline has no cursor and a whole number of
-- lookback days that is not negative.
pub record IsNew (k n : ℕ) (s : State) : Type 0 where
  pub no_pending : s.pending ≡ []
  pub no_windows : s.windows ≡ []
  pub unset :
      (p : Pipeline)
      → find pipeline_key k s.db.pipelines ≡ some p
      → (lookback_of p.params ≡ int (pos n)) × (get? "last_sync_at" (state_or_empty p.state) ≡ none)

module _ {Config S : Type 0} (isoformat : ℕ → String) (duration : ℕ)
    (make_config : ConfigClass → Dict Value → Result Config)
    (make_source : ConnectorClass → Config → Result Source) (connect : Exec S (Unit {0}))
    (load : Load S) (services : Services) (k n : ℕ)
    (inverse : (t : ℕ) → services.fromisoformat (isoformat t) ≡ ok t) where
  abbrev Holds : State → Type 0
  Holds = IsAnchored isoformat duration make_config make_source connect load services k n

  start-Holds : (s : State) → IsNew k n s → Holds s
  start-Holds s fresh = record {
    cursor = λ p there. let (days, unset) = fresh.unset p there in (days, inl unset);
    pending = subst (All (Anchored s.windows)) (sym fresh.no_pending) tt;
    windows = subst Chain (sym fresh.no_windows) tt;
  }

  without :
      (s : State) (payload : JobPayload) (before after : List JobPayload)
      → s.pending ≡ before ++ payload ∷ after
      → Holds s
      → Anchored s.windows payload × All (Anchored s.windows) (before ++ after)
  without s payload before after e v =
      All-split (Anchored s.windows) before payload after
        (subst (All (Anchored s.windows)) e v.pending)

  Step-Holds :
      {s t : State}
      → Step isoformat duration make_config make_source connect load services k s t
      → Holds s
      → Holds t
  Step-Holds {s} (poll now job p c payload there made) v = record {
    cursor = v.cursor;
    pending = (
      payload_of-Anchored isoformat services inverse n s.windows now job p c payload
          (v.cursor p there) made,
      v.pending,
    );
    windows = v.windows;
  }
  Step-Holds {s} (report payload before after world later job e found owner) v =
      let (anchored, left) = without s payload before after e v in
      report-IsAnchored isoformat duration make_config make_source connect load services k n s
        payload world later (before ++ after) v anchored left job found owner
  Step-Holds {s} (lose payload before after e) v = record {
    cursor = v.cursor;
    pending = (without s payload before after e v).1;
    windows = v.windows;
  }
  Step-Holds {s} (other db' keeps) v = record {
    cursor = λ p' there.
        let (p, present, state, params) = keeps p' there in
        HasCursor-same isoformat n s.windows p p' state params (v.cursor p present);
    pending = v.pending;
    windows = v.windows;
  }

  Reach-Holds :
      {s t : State}
      → Holds s
      → Reach isoformat duration make_config make_source connect load services k s t
      → Holds t
  Reach-Holds v here = v
  Reach-Holds v (next r last) = Step-Holds last (Reach-Holds v r)

  -- Where `fromisoformat` reads back what `isoformat` writes, and a pipeline begins with no
  -- cursor and a whole number of lookback days that is not negative: whatever polls, runs, lost
  -- reports and changes that leave its cursor and its parameters alone follow, in whatever order,
  -- every instant that is later than the end of each run without a start that was accepted as a
  -- success, and not later than the end of some run that was, lies between the start and the end
  -- of the window of a run that was accepted as a success. How far back a run without a start
  -- reaches is up to its connector; nothing is said of it.
  pub no_gaps :
      (s t : State)
      → IsNew k n s
      → Reach isoformat duration make_config make_source connect load services k s t
      → (e instant : ℕ) → Ends t.windows e
      → AfterFirst t.windows instant
      → instant ≤ e
      → Covered t.windows instant
  no_gaps s t fresh reached e instant ends after before =
      Chain-Covered t.windows e instant (Reach-Holds (start-Holds s fresh) reached).windows after
        ends before
