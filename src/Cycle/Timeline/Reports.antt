-- ===== src/Cycle/Timeline/Reports.antt =====
-- What the report of a run does to the cursor of its pipeline.
use mathlib.Core.Option
use turbocat.Prelude.{
  ℕ, String, Bool, true, false, ◌&&◌, ◌≡◌, ◌⊎◌, inl, inr, refl, sym, subst, ap, ◌∙◌, none, some,
  List, [], ◌∷◌, All, Result, is_ok, arith, ◌==◌, ==_refl, str_eq, eq_iff, if◌then◌else◌,
  Option-cases, Bool-cases,
}
use turbocat.Prelude.Exec.{Exec}
use turbocat.Python.Dict.{Dict, get?}
use turbocat.Python.Value.{Value, pos, int, text}
use turbocat.Connectors.Base.Schema.{SyncResult}
use turbocat.Connectors.Base.Sync.{Load}
use turbocat.Connectors.Registry.{ConnectorClass, ConfigClass}
use turbocat.Orchestrator.Table.{find}
use turbocat.Orchestrator.Models.{Pipeline, JobRun, Db}
use turbocat.Orchestrator.Models.JobStatus
use turbocat.Orchestrator.Jobs.Payload.{JobPayload, Services, state_or_empty, lookback_of}
use turbocat.Orchestrator.Jobs.Status.{
  StatusUpdate, pipeline_key, job_key, new_cursor, update_job_status,
}
use turbocat.Orchestrator.Jobs.Status.Rows.{
  update_job_status_atomic, update_job_status_rows, with_cursor,
}
use turbocat.Agent.Executor.{Source, final_report}
use turbocat.Agent.Executor.Reports.{final_report_success}
use turbocat.Agent.Client.{body_of}
use turbocat.Cycle.{run_sync_moves, success_cursor, failure_cursor}
use turbocat.Cycle.Timeline.{State, outcome_of, reported}
use turbocat.Cycle.Timeline.Covered.{Ends, Anchored, Chain}
use turbocat.Cycle.Timeline.Anchors.{All-Anchored-cons, HasCursor}

-- The row of the pipeline after a report for one of its jobs.
row_after :
    (later job_id k : ℕ) (body : StatusUpdate) (db : Db) (job : JobRun) (p' : Pipeline)
    → find job_key job_id db.job_runs ≡ some job
    → job.pipeline_id ≡ k
    → is_ok (update_job_status later job_id body db).0 ≡ true
    → find pipeline_key k (update_job_status later job_id body db).1.pipelines ≡ some p'
    → (p : Pipeline) × (find pipeline_key k db.pipelines ≡ some p)
      × (p' ≡ with_cursor (new_cursor body) p)
row_after later job_id k body db job p' found owner accepted there =
    let (_, pipelines, _, _) = update_job_status_rows later job_id body db job found accepted in
    let own : (job.pipeline_id == k) ≡ true = rw owner (==_refl k) in
    let moved : Option.map (with_cursor (new_cursor body)) (find pipeline_key k db.pipelines)
        ≡ some p' =
      sym (pipelines k ∙ rw own refl) ∙ there in
    elim (Option-cases (find pipeline_key k db.pipelines)) [
      | inl missing ↦ absurd (ground (arith, missing, moved))
      | inr (p, present) ↦
          let e : some (with_cursor (new_cursor body) p) ≡ some p' =
            sym (ap (Option.map (with_cursor (new_cursor body))) present) ∙ moved in
          (p, present, cc)
    ]

pub HasCursor-same :
    (isoformat : ℕ → String) (n : ℕ) (windows : List JobPayload) (p p' : Pipeline)
    → p'.state ≡ p.state
    → p'.params ≡ p.params
    → HasCursor isoformat n windows p
    → HasCursor isoformat n windows p'
HasCursor-same isoformat n windows p p' state params h =
    subst
      (λ s.
        (lookback_of p'.params ≡ int (pos n))
        × ((get? "last_sync_at" (state_or_empty s) ≡ none)
            ⊎ ((e : ℕ) × (get? "last_sync_at" (state_or_empty s) ≡ some (text (isoformat e)))
                × Ends windows e)))
      (sym state) (ap lookback_of params ∙ h.0, h.1)

module _ {Config S : Type 0} (isoformat : ℕ → String) (duration : ℕ)
    (make_config : ConfigClass → Dict Value → Result Config)
    (make_source : ConnectorClass → Config → Result Source) (connect : Exec S (Unit {0}))
    (load : Load S) (services : Services) (k n : ℕ) where
  outcome : JobPayload → S → Result SyncResult
  outcome = outcome_of isoformat duration make_config make_source connect load services k

  -- The cursor is the end of a window, and each window starts before the end of an earlier one.
  pub record IsAnchored (s : State) : Type 0 where
    pub cursor :
        (p : Pipeline)
        → find pipeline_key k s.db.pipelines ≡ some p
        → HasCursor isoformat n s.windows p
    pub pending : All (Anchored s.windows) s.pending
    pub windows : Chain s.windows

  -- The cursor that an outcome sets.
  cursor_of_success :
      (payload : JobPayload) (world : S) (e : ℕ)
      → payload.end_time ≡ some e
      → (final_report (outcome payload world)).status ≡ "success"
      → new_cursor (body_of (final_report (outcome payload world)))
        ≡ some (("last_sync_at", text (isoformat e)) ∷ [])
  unfolding outcome
  cursor_of_success payload world e ends success =
      let ended = outcome payload world in
      let (result, same, succeeded) = (final_report_success ended).0 success in
      let moved =
        run_sync_moves isoformat duration make_config make_source connect load payload e world
          result ends same succeeded in
      ap (λ o. new_cursor (body_of (final_report o))) same
      ∙ success_cursor result "last_sync_at" (text (isoformat e)) succeeded moved

  with_report : State → Db → JobPayload → List JobPayload → Bool → State
  with_report s db' payload rest b = record {
    db = db';
    pending = rest;
    windows = if b then payload ∷ s.windows else s.windows;
  }

  module _ (s : State) (payload : JobPayload) (world : S) (later : ℕ) (rest : List JobPayload) where
    sent : StatusUpdate
    sent = body_of (final_report (outcome payload world))

    answer : Result (Dict String) × Db
    answer = update_job_status later payload.job_id sent s.db

    after_report :
        (a b : Bool)
        → is_ok answer.0 ≡ a
        → str_eq (final_report (outcome payload world)).status JobStatus.success ≡ b
        → reported isoformat duration make_config make_source connect load services k s payload
            world later rest
          ≡ with_report s answer.1 payload rest (a && b)
    unfolding reported outcome sent answer with_report
    after_report a b x y = rw (x, y) refl

    module _ (v : IsAnchored s) (anchored : Anchored s.windows payload)
        (left : All (Anchored s.windows) rest) (job : JobRun)
        (found : find job_key payload.job_id s.db.job_runs ≡ some job)
        (owner : job.pipeline_id ≡ k) where
      -- The report is refused.
      refused-IsAnchored :
          (b : Bool)
          → is_ok answer.0 ≡ false
          → IsAnchored (with_report s answer.1 payload rest (false && b))
      unfolding answer sent with_report
      refused-IsAnchored b refused =
          let same = update_job_status_atomic later payload.job_id sent s.db refused in
          record {
            cursor = λ p there.
                v.cursor p (ap (λ (d : Db). find pipeline_key k d.pipelines) (sym same) ∙ there);
            pending = left;
            windows = v.windows;
          }

      failed-IsAnchored :
          is_ok answer.0 ≡ true
          → str_eq (final_report (outcome payload world)).status JobStatus.success ≡ false
          → IsAnchored (with_report s answer.1 payload rest (true && false))
      unfolding answer sent with_report
      failed-IsAnchored accepted other_status =
          let ended = outcome payload world in
          let unset = failure_cursor ended (λ h.
            absurd
              (ground (arith, other_status, (eq_iff (final_report ended).status "success").1 h))) in
          record {
            cursor = λ p' there.
                let (p, present, changed) =
                  row_after later payload.job_id k sent s.db job p' found owner accepted there in
                let same : p' ≡ p = changed ∙ ap (λ c. with_cursor c p) unset in
                subst (HasCursor isoformat n s.windows) (sym same) (v.cursor p present);
            pending = left;
            windows = v.windows;
          }

      success-IsAnchored :
          is_ok answer.0 ≡ true
          → str_eq (final_report (outcome payload world)).status JobStatus.success ≡ true
          → IsAnchored (with_report s answer.1 payload rest (true && true))
      unfolding answer sent with_report get?
      success-IsAnchored accepted success =
          let ended = outcome payload world in
          let (e, ends, _) = anchored in
          let set =
            cursor_of_success payload world e ends
              ((eq_iff (final_report ended).status "success").0 success) in
          record {
            cursor = λ p' there.
                let (p, present, changed) =
                  row_after later payload.job_id k sent s.db job p' found owner accepted there in
                let written : p'
                    ≡ record p { state = some (("last_sync_at", text (isoformat e)) ∷ []) } =
                  changed ∙ ap (λ c. with_cursor c p) set in
                subst (HasCursor isoformat n (payload ∷ s.windows)) (sym written)
                  ((v.cursor p present).0, inr (e, refl, inl ends));
            pending = All-Anchored-cons payload s.windows rest left;
            windows = (anchored, v.windows);
          }

      pub report-IsAnchored : IsAnchored (
          reported isoformat duration make_config make_source connect load services k s payload
            world later rest)
      report-IsAnchored =
          let status = (final_report (outcome payload world)).status in
          let go =
            λ (a b : Bool) (x : is_ok answer.0 ≡ a) (y : str_eq status JobStatus.success ≡ b)
                (z : IsAnchored (with_report s answer.1 payload rest (a && b))).
              subst IsAnchored (sym (after_report a b x y)) z in
          elim (Bool-cases (is_ok answer.0)) [
            | inr refused ↦
                go false _ refused refl
                  (refused-IsAnchored (str_eq status JobStatus.success) refused)
            | inl accepted ↦ elim (Bool-cases (str_eq status JobStatus.success)) [
              | inr other_status ↦
                  go true false accepted other_status (failed-IsAnchored accepted other_status)
              | inl success ↦ go true true accepted success (success-IsAnchored accepted success)
            ]
          ]
