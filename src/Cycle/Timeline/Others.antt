-- ===== src/Cycle/Timeline/Others.antt =====
-- Changes of the tables that leave the cursor of a pipeline alone.
use turbocat.Prelude.{
  ℕ, false, ◌≡◌, ◌≢◌, refl, sym, ap, ◌∙◌, some, List, ◌++◌, is_ok, arith, ◌==◌, ==_iff, Bool-cases,
  inl, inr,
}
use turbocat.Orchestrator.Table.{find, replace, find-replace}
use turbocat.Orchestrator.Models.{Pipeline, JobRun, Db}
use turbocat.Orchestrator.Jobs.Status.{StatusUpdate, pipeline_key, job_key, update_job_status}
use turbocat.Orchestrator.Jobs.Status.Rows.{update_job_status_atomic, update_job_status_rows}
use turbocat.Orchestrator.Lifespan.Keys.{find-append_left}
use turbocat.Cycle.Timeline.{KeepsCursor}

module _ (k : ℕ) (db db' : Db) where
  pub same-KeepsCursor : db'.pipelines ≡ db.pipelines → KeepsCursor k db db'
  same-KeepsCursor same p' there = (p', ap (find pipeline_key k) (sym same) ∙ there, refl, refl)

  pub append-KeepsCursor :
      (row : Pipeline) (more : List Pipeline)
      → find pipeline_key k db.pipelines ≡ some row
      → db'.pipelines ≡ db.pipelines ++ more
      → KeepsCursor k db db'
  append-KeepsCursor row more present added p' there =
      let still = find-append_left pipeline_key k db.pipelines more row present in
      let e : some row ≡ some p' = sym still ∙ ap (find pipeline_key k) (sym added) ∙ there in
      let same : row ≡ p' = cc in
      (
        row,
        present,
        ap (λ (p : Pipeline). p.state) (sym same),
        ap (λ (p : Pipeline). p.params) (sym same),
      )

  -- A changed row with the cursor and the parameters that it had.
  pub replace-KeepsCursor :
      (old new : Pipeline)
      → find pipeline_key (pipeline_key new) db.pipelines ≡ some old
      → new.state ≡ old.state
      → new.params ≡ old.params
      → db'.pipelines ≡ replace pipeline_key new db.pipelines
      → KeepsCursor k db db'
  replace-KeepsCursor old new found state params changed p' there =
      let moved =
        sym (find-replace pipeline_key k new old db.pipelines found)
        ∙ ap (find pipeline_key k) (sym changed)
        ∙ there in
      elim (Bool-cases (pipeline_key new == k)) [
        | inr other ↦ (p', ground (arith, other, moved), refl, refl)
        | inl same ↦
            let e : some new ≡ some p' = ground (arith, same, moved) in
            let rows : new ≡ p' = cc in
            let here_too =
              ap (λ i. find pipeline_key i db.pipelines) (sym ((==_iff _ k).0 same)) ∙ found in
            (
              old,
              here_too,
              ap (λ (p : Pipeline). p.state) (sym rows) ∙ state,
              ap (λ (p : Pipeline). p.params) (sym rows) ∙ params,
            )
      ]

-- A report for a job of another pipeline.
pub update_job_status-KeepsCursor :
    (k now job_id : ℕ) (body : StatusUpdate) (db : Db) (job : JobRun)
    → find job_key job_id db.job_runs ≡ some job
    → job.pipeline_id ≢ k
    → KeepsCursor k db (update_job_status now job_id body db).1
update_job_status-KeepsCursor k now job_id body db job found differs p' there =
    elim (Bool-cases (is_ok (update_job_status now job_id body db).0)) [
      | inr refused ↦
          same-KeepsCursor k db (update_job_status now job_id body db).1
            (ap (λ (d : Db). d.pipelines) (update_job_status_atomic now job_id body db refused)) p'
            there
      | inl accepted ↦
          let (_, pipelines, _, _) = update_job_status_rows now job_id body db job found accepted in
          let other : (job.pipeline_id == k) ≡ false = elim (Bool-cases (job.pipeline_id == k)) [
            | inr d ↦ d
            | inl e ↦ absurd (differs ((==_iff job.pipeline_id k).0 e))
          ] in
          (p', sym (pipelines k ∙ rw other refl) ∙ there, refl, refl)
    ]
