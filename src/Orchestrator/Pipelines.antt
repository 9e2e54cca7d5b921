-- ===== src/Orchestrator/Pipelines.antt =====
-- routes/pipelines.py. The state is the database and the scheduler; `new_id i` is the UUID of the
-- i-th row that a request adds.
pub mod Routes
use turbocat.Prelude.{
  ℕ, zero, suc, ◌+◌, String, Bool, true, false, ◌&&◌, ◌≡◌, Option, none, some, List, [], ◌∷◌, ◌++◌,
  map, filter, Result, ok, err, Exc, ◌==◌, leb, is_nil, if◌then◌else◌,
}
use Prim.Native.String.{count}
use turbocat.Prelude.Exec.{Exec}
use turbocat.Python.Dict.{Dict}
use turbocat.Python.Value.{Value}
use turbocat.Orchestrator.Table.{find, replace}
use turbocat.Orchestrator.Models.{Agent, Connection, Pipeline, Db}
use turbocat.Orchestrator.Access.{owned}
use turbocat.Orchestrator.Jobs.Status.{data_error, pipeline_key}
use turbocat.Orchestrator.Scheduler.{Cron, integrity_error, register_pipeline, deregister_pipeline}

pub record PipelineTableConfig : Type 0 where
  pub connector : String
  pub table_name : String
  pub schedule : String
  pub params : Dict Value

pub record BulkCreateRequest : Type 0 where
  pub agent_id : ℕ
  pub connection_id : ℕ
  pub tables : List PipelineTableConfig

abbrev pub pipeline_account : Pipeline → ℕ
pipeline_account p = p.account_id

abbrev pub connection_key : Connection → ℕ
connection_key c = c.connection_id

abbrev pub connection_account : Connection → ℕ
connection_account c = c.account_id

-- The loop that adds the rows.
unfoldable pub new_pipelines :
    (ℕ → ℕ) → ℕ → BulkCreateRequest → ℕ → List PipelineTableConfig → List Pipeline
new_pipelines new_id account_id body i [] = []
new_pipelines new_id account_id body i (table ∷ tables) =
    record {
      pipeline_id = new_id i;
      account_id = account_id;
      agent_id = body.agent_id;
      connection_id = body.connection_id;
      connector = table.connector;
      table_name = table.table_name;
      schedule = table.schedule;
      params = table.params;
      state = none;
      is_active = true;
    }
    ∷ new_pipelines new_id account_id body (i + 1) tables

-- String(100), String(255), String(100)
unfoldable pub fits_pipeline : PipelineTableConfig → Bool
fits_pipeline table =
    leb (count table.connector) 100
    && leb (count table.table_name) 255
    && leb (count table.schedule) 100

unfoldable pub all_fit : List PipelineTableConfig → Bool
unfolding fits_pipeline
all_fit [] = true
all_fit (table ∷ tables) = fits_pipeline table && all_fit tables

-- What the INSERT refuses: a text that is too long, and then an agent that there is not.
unfoldable pub insertable : BulkCreateRequest → Db → Result (Unit {0})
unfolding all_fit
insertable body db =
    if is_nil body.tables
    then ok tt
    else if all_fit body.tables
    then elim (find (λ (a : Agent). a.agent_id) body.agent_id db.agents) [
      | none ↦ err integrity_error
      | some a ↦ ok tt
    ]
    else err data_error

unfoldable pub get_pipeline : Db → ℕ → ℕ → Result Pipeline
unfolding owned
get_pipeline db pipeline_id account_id =
    owned pipeline_key pipeline_account "Pipeline not found" account_id pipeline_id db.pipelines

unfoldable pub list_pipelines : Db → ℕ → List Pipeline
list_pipelines db account_id = filter (λ p. p.account_id == account_id) db.pipelines

module _ {T Trigger : Type 0} (cron : Cron T Trigger) (uuid_text : ℕ → String) where
  unfoldable pub register_each : List Pipeline → Exec T (Unit {0})
  unfolding register_pipeline
  register_each [] t = (ok tt, t)
  register_each (p ∷ ps) t =
      let (r, t') = register_pipeline cron uuid_text p t in
      elim r [ err e ↦ (err e, t') | ok _ ↦ register_each ps t' ]

  unfoldable pub bulk_create_pipelines :
      (ℕ → ℕ) → BulkCreateRequest → ℕ → Exec (Db × T) (List Pipeline)
  unfolding insertable new_pipelines register_each
  bulk_create_pipelines new_id body account_id (db, t) =
      let pipelines = new_pipelines new_id account_id body 0 body.tables in
      let db' = record db { pipelines = db.pipelines ++ pipelines } in
      elim (owned connection_key connection_account "Connection not found" account_id
        body.connection_id db.connections) [
          | err e ↦ (err e, (db, t))
          | ok connection ↦ elim (insertable body db) [
            | err e ↦ (err e, (db, t))
            | ok _ ↦
                let (r, t') = register_each pipelines t in
                elim r [ err e ↦ (err e, (db', t')) | ok _ ↦ (ok pipelines, (db', t')) ]
          ]
        ]

  unfoldable pub deactivate_pipeline : ℕ → ℕ → Exec (Db × T) Pipeline
  unfolding get_pipeline deregister_pipeline
  deactivate_pipeline pipeline_id account_id (db, t) =
      elim (get_pipeline db pipeline_id account_id) [
        | err e ↦ (err e, (db, t))
        | ok p ↦
            let p' : Pipeline = record p { is_active = false } in
            (
              ok p',
              (
                record db { pipelines = replace pipeline_key p' db.pipelines },
                (deregister_pipeline cron uuid_text pipeline_id t).1,
              ),
            )
      ]
