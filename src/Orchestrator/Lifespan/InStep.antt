-- ===== src/Orchestrator/Lifespan/InStep.antt =====
-- The scheduler in step with the table of the pipelines, and the changes of the two that keep it so.
use turbocat.Prelude.{
  ℕ, String, true, false, ◌≡◌, refl, sym, ap, ◌∙◌, none, some, List, ◌++◌, str_eq, eq_iff, ◌==◌,
  ==_iff, if◌then◌else◌, arith, Option-cases, Bool-cases, inl, inr,
}
use turbocat.Orchestrator.Table.{find, replace, find-replace}
use turbocat.Orchestrator.Models.{Pipeline}
use turbocat.Orchestrator.Jobs.Status.{pipeline_key}
use turbocat.Orchestrator.Scheduler.{Cron, CronJob, Lawful, schedule_id, deregister_pipeline}
use turbocat.Orchestrator.Lifespan.Keys.{find-append_left}

module _ {T Trigger : Type 0} (cron : Cron T Trigger) (uuid_text : ℕ → String) where
  open cron use {from_crontab, get_job, add_job, remove_job}

  -- The job under the id of a pipeline is that of an active pipeline, for its agent.
  abbrev pub IsJobOf : List Pipeline → ℕ → CronJob Trigger → Type 0
  IsJobOf pipelines k job =
      (row : Pipeline) × (find pipeline_key k pipelines ≡ some row)
      × (row.is_active ≡ true)
      × (job.pipeline_id ≡ k)
      × (job.agent_id ≡ row.agent_id)

  unfoldable pub InStep : List Pipeline → T → Type 0
  InStep pipelines t =
      (k : ℕ) (job : CronJob Trigger)
      → get_job (schedule_id cron uuid_text k) t ≡ some job
      → IsJobOf pipelines k job

  -- An active row that is found under its own key.
  abbrev pub IsLive : List Pipeline → Pipeline → Type 0
  IsLive pipelines p = (find pipeline_key p.pipeline_id pipelines ≡ some p) × (p.is_active ≡ true)

  pub InStep-nothing :
      (pipelines : List Pipeline) (t : T) → ((k : String) → get_job k t ≡ none) → InStep pipelines t
  unfolding InStep
  InStep-nothing pipelines t empty k job h = let e = empty (schedule_id cron uuid_text k) in cc

  pub InStep-append :
      (pipelines more : List Pipeline) (t : T) → InStep pipelines t → InStep (pipelines ++ more) t
  unfolding InStep
  InStep-append pipelines more t v k job h =
      let (row, found, is_on, id, its_agent) = v k job h in
      (row, find-append_left pipeline_key k pipelines more row found, is_on, id, its_agent)

  -- A row that keeps its agent and stays active or not.
  pub InStep-replace :
      (pipelines : List Pipeline) (t : T) (old new : Pipeline)
      → find pipeline_key (pipeline_key new) pipelines ≡ some old
      → new.agent_id ≡ old.agent_id
      → new.is_active ≡ old.is_active
      → InStep pipelines t
      → InStep (replace pipeline_key new pipelines) t
  unfolding InStep
  InStep-replace pipelines t old new there agent activity v k job h =
      let (row, found, is_on, id, its_agent) = v k job h in
      let now_found = find-replace pipeline_key k new old pipelines there in
      elim (Bool-cases (pipeline_key new == k)) [
        | inl same ↦
            let e : pipeline_key new ≡ k = (==_iff _ k).0 same in
            let r : some row ≡ some old =
              sym found ∙ ap (λ i. find pipeline_key i pipelines) (sym e) ∙ there in
            let rows : row ≡ old = cc in
            (
              new,
              now_found ∙ rw same refl,
              activity ∙ ap (λ (p : Pipeline). p.is_active) (sym rows) ∙ is_on,
              id,
              its_agent ∙ ap (λ (p : Pipeline). p.agent_id) rows ∙ sym agent,
            )
        | inr other ↦ (row, now_found ∙ (rw other found), is_on, id, its_agent)
      ]

  deregistered :
      (lawful : Lawful cron) (k j : ℕ) (t : T)
      → get_job (schedule_id cron uuid_text j) (deregister_pipeline cron uuid_text k t).1 ≡ (
          if str_eq (schedule_id cron uuid_text k) (schedule_id cron uuid_text j)
          then none
          else get_job (schedule_id cron uuid_text j) t)
  unfolding deregister_pipeline
  deregistered lawful k j t =
      let id = schedule_id cron uuid_text k in
      let id' = schedule_id cron uuid_text j in
      elim (Option-cases (get_job id t)) [
        | inr (job, there) ↦ rw (there, deregister_pipeline) (lawful.get-remove id' id t)
        | inl missing ↦ elim (Bool-cases (str_eq id id')) [
          | inr other ↦ rw (missing, deregister_pipeline) (rw other refl)
          | inl same ↦
              rw (missing, deregister_pipeline)
                (rw same (ap (λ i. get_job i t) (sym ((eq_iff id id').0 same)) ∙ missing))
        ]
      ]

  -- A pipeline that is made inactive and taken off the scheduler.
  pub InStep-deregister :
      (lawful : Lawful cron) (pipelines : List Pipeline) (t : T) (old new : Pipeline)
      → find pipeline_key (pipeline_key new) pipelines ≡ some old
      → InStep pipelines t
      → InStep
          (replace pipeline_key new pipelines)
          (deregister_pipeline cron uuid_text (pipeline_key new) t).1
  unfolding InStep
  InStep-deregister lawful pipelines t old new there v k job h =
      let id = schedule_id cron uuid_text (pipeline_key new) in
      let id' = schedule_id cron uuid_text k in
      let left = sym (deregistered lawful (pipeline_key new) k t) ∙ h in
      elim (Bool-cases (str_eq id id')) [
        | inl same ↦ absurd (ground (arith, same, left))
        | inr other ↦
            let before : get_job id' t ≡ some job = ground (arith, other, left) in
            let (row, found, is_on, its_id, its_agent) = v k job before in
            let differs : (pipeline_key new == k) ≡ false =
              elim (Bool-cases (pipeline_key new == k)) [
                | inr d ↦ d
                | inl e ↦
                    let ids : id ≡ id' = ap (schedule_id cron uuid_text) ((==_iff _ k).0 e) in
                    absurd (ground (arith, other, (eq_iff id id').1 ids))
              ] in
            (
              row,
              find-replace pipeline_key k new old pipelines there ∙ rw differs found,
              is_on,
              its_id,
              its_agent,
            )
      ]
