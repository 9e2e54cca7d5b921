-- ===== src/Orchestrator/App/Links/Tables.antt =====
-- The changes of one table that keep the foreign keys.
use turbocat.Prelude.{ℕ, ◌+◌, ◌≡◌, some, List, [], ◌∷◌, map, All, Bool-cases, inl, inr}
use turbocat.Orchestrator.Table.{find, replace}
use turbocat.Orchestrator.Models.{Agent, Connection, Pipeline, JobRun, Db}
use turbocat.Orchestrator.Auth.{agent_key}
use turbocat.Orchestrator.Jobs.Status.{pipeline_key}
use turbocat.Orchestrator.Jobs.Dispatch.{mark, has_id}
use turbocat.Orchestrator.Pipelines.{
  BulkCreateRequest, PipelineTableConfig, connection_key, new_pipelines,
}
use turbocat.Orchestrator.App.Links.{
  Known, PipelineLinked, JobLinked, IsLinked, All-map, Known-replace, All-replace, All-find,
}

module _ (db : Db) (v : IsLinked db) where
  pub with_agents :
      (agents : List Agent)
      → ((k : ℕ) → Known agent_key db.agents k → Known agent_key agents k)
      → IsLinked (record db { agents = agents })
  with_agents agents keep = record {
    by_pipelines = All-map (λ p h. (keep p.agent_id h.0, h.1)) db.pipelines v.by_pipelines;
    by_jobs = All-map (λ j h. (h.0, keep j.agent_id h.1)) db.job_runs v.by_jobs;
  }

  pub with_connections :
      (connections : List Connection)
      → ((k : ℕ) → Known connection_key db.connections k → Known connection_key connections k)
      → IsLinked (record db { connections = connections })
  with_connections connections keep = record {
    by_pipelines = All-map (λ p h. (h.0, keep p.connection_id h.1)) db.pipelines v.by_pipelines;
    by_jobs = v.by_jobs;
  }

  pub with_pipelines :
      (pipelines : List Pipeline)
      → All (PipelineLinked db.agents db.connections) pipelines
      → ((k : ℕ) → Known pipeline_key db.pipelines k → Known pipeline_key pipelines k)
      → IsLinked (record db { pipelines = pipelines })
  with_pipelines pipelines linked keep = record {
    by_pipelines = linked;
    by_jobs = All-map (λ j h. (keep j.pipeline_id h.0, h.1)) db.job_runs v.by_jobs;
  }

  pub with_jobs :
      (jobs : List JobRun)
      → All (JobLinked db.agents db.pipelines) jobs
      → IsLinked (record db { job_runs = jobs })
  with_jobs jobs linked = record { by_pipelines = v.by_pipelines; by_jobs = linked }

  -- A change of a row that the handler has read, under its key and with its foreign keys.
  pub changed_pipeline :
      (k : ℕ) (new old : Pipeline)
      → find pipeline_key k db.pipelines ≡ some old
      → new.agent_id ≡ old.agent_id
      → new.connection_id ≡ old.connection_id
      → IsLinked (record db { pipelines = replace pipeline_key new db.pipelines })
  changed_pipeline k new old found same_agent same_connection =
      let linked =
        All-find pipeline_key (PipelineLinked db.agents db.connections) db.pipelines k old found
          v.by_pipelines in
      with_pipelines (replace pipeline_key new db.pipelines)
        (All-replace pipeline_key (PipelineLinked db.agents db.connections) new db.pipelines
          (rw (same_agent, same_connection) linked) v.by_pipelines)
        (Known-replace pipeline_key new db.pipelines)

  pub mark-JobLinked :
      (ids : List ℕ) (rows : List JobRun)
      → All (JobLinked db.agents db.pipelines) rows
      → All (JobLinked db.agents db.pipelines) (map (mark ids) rows)
  unfolding mark
  mark-JobLinked ids [] h = tt
  mark-JobLinked ids (j ∷ rows) h = elim (Bool-cases (has_id ids j.job_id)) [
    | inl there ↦ rw there (h.0, mark-JobLinked ids rows h.1)
    | inr other ↦ rw other (h.0, mark-JobLinked ids rows h.1)
  ]

  pub new_pipelines-Linked :
      (new_id : ℕ → ℕ) (account_id : ℕ) (body : BulkCreateRequest) (i : ℕ)
      (tables : List PipelineTableConfig)
      → Known agent_key db.agents body.agent_id
      → Known connection_key db.connections body.connection_id
      → All
          (PipelineLinked db.agents db.connections)
          (new_pipelines new_id account_id body i tables)
  unfolding new_pipelines
  new_pipelines-Linked new_id account_id body i [] agent connection = tt
  new_pipelines-Linked new_id account_id body i (t ∷ ts) agent connection =
      ((agent, connection), new_pipelines-Linked new_id account_id body (i + 1) ts agent connection)
