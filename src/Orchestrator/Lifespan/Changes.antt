-- ===== src/Orchestrator/Lifespan/Changes.antt =====
-- What each handler does to the table of the pipelines and to the scheduler, and that the two stay in
-- step.
use turbocat.Prelude.{
  ℕ, String, false, ◌≡◌, refl, ap, subst, ◌∙◌, Option, none, some, List, [], ◌∷◌, ◌++◌, ◌+◌, All,
  ok, ok_inj, arith, Option-cases, Result-cases, Bool-cases, inl, inr,
}
use turbocat.Python.Dict.{Dict}
use turbocat.Python.Value.{Value}
use turbocat.Orchestrator.Table.{find, replace, find-key}
use turbocat.Orchestrator.Models.{Pipeline, JobRun, Db}
use turbocat.Orchestrator.Access.{owned, owned_iff}
use turbocat.Orchestrator.Jobs.Status.{
  StatusUpdate, pipeline_key, job_key, fits_columns, new_cursor, set_cursor, update_job_status,
}
use turbocat.Orchestrator.Scheduler.{Cron, Lawful, deregister_pipeline}
use turbocat.Orchestrator.Pipelines.{
  PipelineTableConfig, BulkCreateRequest, pipeline_account, connection_key, connection_account,
  new_pipelines, insertable, register_each, get_pipeline, bulk_create_pipelines,
  deactivate_pipeline,
}
use turbocat.Orchestrator.Lifespan.Keys.{Distinct, Distinct-replace, Distinct-find, added-Distinct}
use turbocat.Orchestrator.Lifespan.InStep.{
  InStep, IsLive, InStep-append, InStep-replace, InStep-deregister,
}
use turbocat.Orchestrator.Lifespan.Loading.{register_each-InStep}

All-right {ℓ κ} : {A : Type ℓ} (P : A → Type κ) (xs ys : List A) → All P (xs ++ ys) → All P ys
All-right P [] ys h = h
All-right P (x ∷ xs) ys h = All-right P xs ys h.1

new_pipelines-IsLive :
    {T Trigger : Type 0} (cron : Cron T Trigger) (uuid_text : ℕ → String)
    (pipelines : List Pipeline) (new_id : ℕ → ℕ) (a : ℕ) (body : BulkCreateRequest) (n : ℕ)
    (tables : List PipelineTableConfig)
    → All
        (λ p. find pipeline_key (pipeline_key p) pipelines ≡ some p)
        (new_pipelines new_id a body n tables)
    → All (IsLive cron uuid_text pipelines) (new_pipelines new_id a body n tables)
unfolding new_pipelines
new_pipelines-IsLive cron uuid_text pipelines new_id a body n [] h = tt
new_pipelines-IsLive cron uuid_text pipelines new_id a body n (table ∷ tables) (h, hs) =
    ((h, refl), new_pipelines-IsLive cron uuid_text pipelines new_id a body (n + 1) tables hs)

module _ {T Trigger : Type 0} (cron : Cron T Trigger) (uuid_text : ℕ → String) where
  -- The keys of the table are apart, and the scheduler is in step with it.
  unfoldable pub IsSound : List Pipeline → T → Type 0
  IsSound pipelines t = Distinct pipeline_key pipelines × InStep cron uuid_text pipelines t

module _ {T Trigger : Type 0} (cron : Cron T Trigger) (uuid_text : ℕ → String)
    (lawful : Lawful cron) (injective : (i j : ℕ) → uuid_text i ≡ uuid_text j → i ≡ j) where
  module _ (db : Db) (t : T) (v : IsSound cron uuid_text db.pipelines t) where
    edited :
        (old new : Pipeline)
        → find pipeline_key (pipeline_key new) db.pipelines ≡ some old
        → new.agent_id ≡ old.agent_id
        → new.is_active ≡ old.is_active
        → IsSound cron uuid_text (replace pipeline_key new db.pipelines) t
    unfolding IsSound
    edited old new found agent activity = (
      Distinct-replace pipeline_key new db.pipelines v.0,
      InStep-replace cron uuid_text db.pipelines t old new found agent activity v.1,
    )

    set_cursor-IsSound :
        (cursor : Option (Dict Value)) (job : JobRun) (pipelines : List Pipeline)
        → set_cursor cursor job db.pipelines ≡ ok pipelines
        → IsSound cron uuid_text pipelines t
    unfolding set_cursor
    set_cursor-IsSound none job pipelines h = subst (λ ps. IsSound cron uuid_text ps t) (ok_inj h) v
    set_cursor-IsSound (some d) job pipelines h =
        elim (Option-cases (find pipeline_key job.pipeline_id db.pipelines)) [
          | inl missing ↦ absurd (ground (arith, missing, h))
          | inr (p, found) ↦
              let changed : Pipeline = record p { state = some d } in
              let e : ok (replace pipeline_key changed db.pipelines) ≡ ok pipelines =
                ground (arith, found, h) in
              let id = find-key pipeline_key job.pipeline_id db.pipelines p found in
              subst (λ ps. IsSound cron uuid_text ps t) (ok_inj e)
                (edited p changed (ap (λ i. find pipeline_key i db.pipelines) id ∙ found) refl refl)
        ]

    pub update_job_status-IsSound :
        (now job_id : ℕ) (body : StatusUpdate)
        → IsSound cron uuid_text (update_job_status now job_id body db).1.pipelines t
    unfolding update_job_status
    update_job_status-IsSound now job_id body =
        elim (Option-cases (find job_key job_id db.job_runs)) [
          | inl missing ↦ rw (missing, update_job_status) v
          | inr (job, found) ↦ elim (Result-cases (set_cursor (new_cursor body) job db.pipelines)) [
            | inr (e, failed) ↦ rw (found, failed, update_job_status) v
            | inl (pipelines, set) ↦ elim (Bool-cases (fits_columns body)) [
              | inr long ↦ rw (found, set, long, update_job_status) v
              | inl fits ↦
                  rw (found, set, fits, update_job_status)
                    (set_cursor-IsSound (new_cursor body) job pipelines set)
            ]
          ]
        ]

    pub deactivate_pipeline-IsSound :
        (k a : ℕ)
        → let (db', t') = (deactivate_pipeline cron uuid_text k a (db, t)).1 in
          IsSound cron uuid_text db'.pipelines t'
    unfolding deactivate_pipeline get_pipeline IsSound
    deactivate_pipeline-IsSound k a = elim (Result-cases (get_pipeline db k a)) [
      | inr (e, failed) ↦ rw (failed, deactivate_pipeline) v
      | inl (row, got) ↦
          let (found, _) =
            (owned_iff pipeline_key pipeline_account "Pipeline not found" a k db.pipelines row).0
              got in
          let id = find-key pipeline_key k db.pipelines row found in
          let stopped : Pipeline = record row { is_active = false } in
          let here = ap (λ i. find pipeline_key i db.pipelines) id ∙ found in
          let off = InStep-deregister cron uuid_text lawful db.pipelines t row stopped here v.1 in
          rw (got, deactivate_pipeline)
            (
              Distinct-replace pipeline_key stopped db.pipelines v.0,
              subst
                  (λ i.
                    InStep cron uuid_text (replace pipeline_key stopped db.pipelines)
                      (deregister_pipeline cron uuid_text i t).1)
                  id off,
            )
    ]

    added-IsSound :
        (new_id : ℕ → ℕ) (a : ℕ) (body : BulkCreateRequest)
        → ((i : ℕ) → find pipeline_key (new_id i) db.pipelines ≡ none)
        → ((i j : ℕ) → new_id i ≡ new_id j → i ≡ j)
        → let new = new_pipelines new_id a body 0 body.tables in
          IsSound cron uuid_text (db.pipelines ++ new) (register_each cron uuid_text new t).1
    unfolding IsSound
    added-IsSound new_id a body unused apart =
        let new = new_pipelines new_id a body 0 body.tables in
        let all = db.pipelines ++ new in
        let keys = added-Distinct new_id a body db.pipelines body.tables unused apart v.0 in
        let found =
          All-right (λ p. find pipeline_key (pipeline_key p) all ≡ some p) db.pipelines new
            (Distinct-find pipeline_key all keys) in
        (
          keys,
          register_each-InStep cron uuid_text lawful injective all new t
              (new_pipelines-IsLive cron uuid_text all new_id a body 0 body.tables found)
              (InStep-append cron uuid_text db.pipelines new t v.1),
        )

    pub bulk_create_pipelines-IsSound :
        (new_id : ℕ → ℕ) (a : ℕ) (body : BulkCreateRequest)
        → ((i : ℕ) → find pipeline_key (new_id i) db.pipelines ≡ none)
        → ((i j : ℕ) → new_id i ≡ new_id j → i ≡ j)
        → let (db', t') = (bulk_create_pipelines cron uuid_text new_id body a (db, t)).1 in
          IsSound cron uuid_text db'.pipelines t'
    unfolding bulk_create_pipelines
    bulk_create_pipelines-IsSound new_id a body unused apart =
        let new = new_pipelines new_id a body 0 body.tables in
        let added = added-IsSound new_id a body unused apart in
        elim (Result-cases (
          owned connection_key connection_account "Connection not found" a body.connection_id
            db.connections)) [
              | inr (e, failed) ↦ rw (failed, bulk_create_pipelines) v
              | inl (connection, got) ↦ elim (Result-cases (insertable body db)) [
                | inr (e, refused) ↦ rw (got, refused, bulk_create_pipelines) v
                | inl (u, fine) ↦ elim (Result-cases (register_each cron uuid_text new t).0) [
                  | inr (e, failed) ↦ rw (got, fine, failed, bulk_create_pipelines) added
                  | inl (u', registered) ↦ rw (got, fine, registered, bulk_create_pipelines) added
                ]
              ]
            ]
