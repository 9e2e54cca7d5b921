-- ===== src/Orchestrator/App/Links/Handlers.antt =====
-- The handlers of jobs.py, pipelines.py and agents.py, and a tick of the schedule, keep the foreign keys.
use turbocat.Prelude.{
  ℕ, ok_inj, sym, false, ◌⊎◌, String, Bool, ◌≡◌, refl, some, none, Option, List, [], ◌∷◌, ◌++◌, ok,
  All, All-append, Result-cases, Option-cases, Bool-cases, inl, inr, is_nil, arith,
}
use turbocat.Python.Dict.{Dict}
use turbocat.Python.Value.{Value}
use turbocat.Orchestrator.Table.{find, replace}
use turbocat.Orchestrator.Models.{Pipeline, JobRun, Db}
use turbocat.Orchestrator.Access.{owned_iff}
use turbocat.Orchestrator.Auth.{agent_key, heartbeat}
use turbocat.Orchestrator.Jobs.Payload.{Services}
use turbocat.Orchestrator.Scheduler.{Cron, enqueue_job}
use turbocat.Orchestrator.Jobs.Status.{
  StatusUpdate, pipeline_key, job_key, fits_columns, new_cursor, set_cursor, updated_job,
  update_job_status,
}
use turbocat.Orchestrator.Jobs.Dispatch.{claim, get_pending_jobs}
use turbocat.Orchestrator.Pipelines.{
  BulkCreateRequest, connection_key, connection_account, pipeline_account, insertable,
  new_pipelines, get_pipeline, bulk_create_pipelines, deactivate_pipeline,
}
use turbocat.Orchestrator.App.Outcomes.{bulk_create_pipelines_outcome, deactivate_pipeline_outcome}
use turbocat.Orchestrator.App.Links.{
  Known, PipelineLinked, JobLinked, IsLinked, Known-append, Known-replace, All-replace, All-find,
}
use turbocat.Orchestrator.App.Links.Tables.{
  with_agents, with_pipelines, with_jobs, changed_pipeline, mark-JobLinked, new_pipelines-Linked,
}

nil_or_not {ℓ} : {A : Type ℓ} (xs : List A) → (xs ≡ []) ⊎ (is_nil xs ≡ false)
nil_or_not [] = inl refl
nil_or_not (x ∷ xs) = inr refl

updated_job-keys :
    (now : ℕ) (body : StatusUpdate) (job : JobRun)
    → ((updated_job now body job).pipeline_id ≡ job.pipeline_id)
      × ((updated_job now body job).agent_id ≡ job.agent_id)
unfolding updated_job
updated_job-keys now body job = (ground arith, ground arith)

module _ (db : Db) (v : IsLinked db) where
  -- A tick of the schedule, whatever pipeline and agent it names.
  pub enqueue_job-IsLinked :
      (job_id pipeline_id agent_id : ℕ) → IsLinked (enqueue_job job_id pipeline_id agent_id db).1
  unfolding enqueue_job Known
  enqueue_job-IsLinked job_id pipeline_id agent_id =
      elim (Option-cases (find pipeline_key pipeline_id db.pipelines)) [
        | inl missing ↦ rw (missing, enqueue_job) v
        | inr (p, found) ↦ elim (Option-cases (find agent_key agent_id db.agents)) [
          | inl missing ↦ rw (found, missing, enqueue_job) v
          | inr (a, there) ↦
              rw (found, there, enqueue_job)
                (with_jobs db v _ (
                  All-append (JobLinked db.agents db.pipelines) db.job_runs _ v.by_jobs
                    (((p, found), (a, there)), tt)))
        ]
      ]

  pub heartbeat-IsLinked : (now agent_id : ℕ) → IsLinked (heartbeat now agent_id db).1
  unfolding heartbeat
  heartbeat-IsLinked now agent_id = elim (Option-cases (find agent_key agent_id db.agents)) [
    | inl missing ↦ rw (missing, heartbeat) v
    | inr (a, found) ↦
        rw (found, heartbeat) (with_agents db v _ (Known-replace agent_key _ db.agents))
  ]

  pub get_pending_jobs-IsLinked :
      (services : Services) (locked : ℕ → Bool) (now agent_id : ℕ)
      → IsLinked (get_pending_jobs services locked now agent_id db).1
  unfolding get_pending_jobs
  get_pending_jobs-IsLinked services locked now agent_id =
      let ids = claim locked agent_id db.job_runs in
      elim (Bool-cases (is_nil ids)) [
        | inl idle ↦ rw (idle, get_pending_jobs) v
        | inr some_left ↦
            rw (some_left, get_pending_jobs)
              (with_jobs db v _ (mark-JobLinked db v ids db.job_runs v.by_jobs))
      ]

  pub set_cursor-IsLinked :
      (cursor : Option (Dict Value)) (job : JobRun) (pipelines : List Pipeline)
      → set_cursor cursor job db.pipelines ≡ ok pipelines
      → IsLinked (record db { pipelines = pipelines })
  unfolding set_cursor
  set_cursor-IsLinked none job pipelines h =
      let same : db.pipelines ≡ pipelines = ok_inj h in rw (sym same) v
  set_cursor-IsLinked (some d) job pipelines h =
      elim (Option-cases (find pipeline_key job.pipeline_id db.pipelines)) [
        | inl missing ↦ absurd (ground (arith, missing, h))
        | inr (p, found) ↦
            let changed = record p { state = some d } in
            let e : ok (replace pipeline_key changed db.pipelines) ≡ ok pipelines =
              ground (arith, found, h) in
            rw (sym (ok_inj e)) (changed_pipeline db v job.pipeline_id changed p found refl refl)
      ]

  pub update_job_status-IsLinked :
      (now job_id : ℕ) (body : StatusUpdate) → IsLinked (update_job_status now job_id body db).1
  unfolding update_job_status
  update_job_status-IsLinked now job_id body =
      elim (Option-cases (find job_key job_id db.job_runs)) [
        | inl missing ↦ rw (missing, update_job_status) v
        | inr (job, found) ↦ elim (Result-cases (set_cursor (new_cursor body) job db.pipelines)) [
          | inr (e, failed) ↦ rw (found, failed, update_job_status) v
          | inl (pipelines, set) ↦ elim (Bool-cases (fits_columns body)) [
            | inr long ↦ rw (found, set, long, update_job_status) v
            | inl fits ↦
                let w = set_cursor-IsLinked (new_cursor body) job pipelines set in
                let linked = JobLinked db.agents pipelines in
                let (same_pipeline, same_agent) = updated_job-keys now body job in
                let kept = All-find job_key linked db.job_runs job_id job found w.by_jobs in
                rw (found, set, fits, update_job_status)
                  (with_jobs _ w _ (
                    All-replace job_key linked (updated_job now body job) db.job_runs
                      (rw (same_pipeline, same_agent) kept) w.by_jobs))
          ]
        ]
      ]

  pub deactivate_pipeline-IsLinked :
      {T Trigger : Type 0} (cron : Cron T Trigger) (uuid_text : ℕ → String) (k a : ℕ) (t : T)
      → IsLinked (deactivate_pipeline cron uuid_text k a (db, t)).1.0
  unfolding get_pipeline
  deactivate_pipeline-IsLinked cron uuid_text k a t =
      elim (deactivate_pipeline_outcome cron uuid_text db t a k) [
        | inl (e, failed, same) ↦ rw same v
        | inr (row, got, _, changed) ↦
            let (found, _) =
              (owned_iff pipeline_key pipeline_account "Pipeline not found" a k db.pipelines row).0
                got in
            rw changed (changed_pipeline db v k _ row found refl refl)
      ]

  insertable-Known :
      (body : BulkCreateRequest)
      → insertable body db ≡ ok tt
      → (body.tables ≡ []) ⊎ Known agent_key db.agents body.agent_id
  unfolding insertable Known
  insertable-Known body h = elim (nil_or_not body.tables) [
    | inl empty ↦ inl empty
    | inr some_given ↦ elim (Option-cases (find agent_key body.agent_id db.agents)) [
      | inr (a, found) ↦ inr (a, found)
      | inl missing ↦ absurd (ground (arith, some_given, missing, h))
    ]
  ]

  pub added-IsLinked :
      (new_id : ℕ → ℕ) (a : ℕ) (body : BulkCreateRequest)
      → Known connection_key db.connections body.connection_id
      → insertable body db ≡ ok tt
      → IsLinked
          (record db { pipelines = db.pipelines ++ new_pipelines new_id a body 0 body.tables })
  unfolding new_pipelines
  added-IsLinked new_id a body connection fine =
      let linked = PipelineLinked db.agents db.connections in
      let new : All linked (new_pipelines new_id a body 0 body.tables) =
        elim (insertable-Known body fine) [
          | inl empty ↦ rw empty tt
          | inr agent ↦ new_pipelines-Linked db v new_id a body 0 body.tables agent connection
        ] in
      with_pipelines db v _ (All-append linked db.pipelines _ v.by_pipelines new)
        (Known-append pipeline_key db.pipelines _)

  pub bulk_create_pipelines-IsLinked :
      {T Trigger : Type 0} (cron : Cron T Trigger) (uuid_text : ℕ → String) (new_id : ℕ → ℕ)
      (body : BulkCreateRequest) (a : ℕ) (t : T)
      → IsLinked (bulk_create_pipelines cron uuid_text new_id body a (db, t)).1.0
  unfolding Known
  bulk_create_pipelines-IsLinked cron uuid_text new_id body a t =
      elim (bulk_create_pipelines_outcome cron uuid_text db t new_id a body) [
        | inl (e, failed, same) ↦ rw same v
        | inr (connection, got, fine, added, _) ↦
            let (found, _) =
              (owned_iff connection_key connection_account "Connection not found" a
                  body.connection_id db.connections connection).0
                got in
            rw added (added-IsLinked new_id a body (connection, found) fine)
      ]
