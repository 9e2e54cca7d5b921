-- ===== src/Agent/Executor/Reports.antt =====
-- What `run_job` tells the orchestrator.
use turbocat.Prelude.{
  ℕ, String, ◌≡◌, ◌≢◌, ◌↔◌, inl, inr, refl, ap, ◌∙◌, Result, ok, err, arith, ok_inj, str_eq, eq_iff,
  Bool-cases,
}
use turbocat.Prelude.Exec.{Exec}
use turbocat.Python.Dict.{Dict, get?, last?, or_else, get?-update}
use turbocat.Python.Value.{texts, Value}
use turbocat.Connectors.Base.Schema.{SyncResult}
use turbocat.Connectors.Base.Sync.{Load}
use turbocat.Connectors.Registry.{ConnectorClass, ConfigClass}
use turbocat.Orchestrator.Jobs.Payload.{JobPayload}
use turbocat.Agent.Executor.{
  Source, Report, merged, running_report, final_report, run_sync, run_job,
}

module _ {Config S : Type 0} (isoformat : ℕ → String) (duration : ℕ)
    (make_config : ConfigClass → Dict Value → Result Config)
    (make_source : ConnectorClass → Config → Result Source) (connect : Exec S (Unit {0}))
    (load : Load S) where
  -- Whether `report_status` raises or not, the job is synced as it would be with no report at all,
  -- and two reports are made: "running" before, and the one that tells the outcome after.
  pub run_job_reports :
      {R : Type 0} (report_status : Report → Exec R (Unit {0})) (job : JobPayload) (s : S) (r : R)
      → let outcome = run_sync isoformat duration make_config make_source connect load job s in
        (run_job isoformat duration make_config make_source connect load report_status job s r)
        ≡ (outcome.1, (report_status (final_report outcome.0) (report_status running_report r).1).1)
  unfolding run_job
  run_job_reports report_status job s r = refl

failed_ne_success : ◌≢◌ {A = String} "failed" "success"
failed_ne_success = ground (arith, eq_iff "failed" "success")

success_status :
    (result : SyncResult)
    → (final_report (ok result)).status ≡ "success"
    → result.status ≡ "success"
unfolding final_report
success_status result h = elim (Bool-cases (str_eq result.status "success")) [
  | inl p ↦ (eq_iff result.status "success").0 p
  | inr p ↦ absurd (failed_ne_success (rw p at h))
]

-- The outcome is reported as a success exactly when `sync` returned with status "success".
pub final_report_success :
    (outcome : Result SyncResult)
    → ((final_report outcome).status ≡ "success")
      ↔ ((result : SyncResult) × (outcome ≡ ok result) × (result.status ≡ "success"))
unfolding final_report
final_report_success (err e) = (λ h. absurd (failed_ne_success h), λ h. cc (h.1))
final_report_success (ok result) = (
  λ h. (result, refl, success_status result h),
  λ (result', same, success). rw (
      (eq_iff result.status "success").1
        (ap (λ (x : SyncResult). x.status) (ok_inj same) ∙ success)),
)

-- A credential wins over a parameter of the pipeline with the same name.
pub merged_credentials :
    (job : JobPayload) (k : String)
    → get? k (merged job) ≡ or_else (last? k (texts job.credentials)) (get? k job.params)
unfolding merged
merged_credentials job k = get?-update k job.params (texts job.credentials)
